-- ===== src/Command/Orchestrator/Parts.antt =====
-- The effects of the parts that the commands share.
use radio_container.Prelude.{
  ℕ, ◌≡◌, refl, sym, ap, subst, ◌∙◌, inl, inr, false, Option, none, some, String, str_eq,
  Option-cases,
}
use radio_container.Prelude.Int.{ℤ}
use radio_container.Adapter.Errors.{Err}
use radio_container.Adapter.{RadioState, Result, ok, err, RadioAdapter, Result-cases}
use radio_container.Radio.Discovery.{get_radio}
use radio_container.Radio.{Manager}
use radio_container.Telemetry.Event.{power_changed, channel_changed, state_online}
use radio_container.Telemetry.Hub.{Case}
use radio_container.Command.State.{
  Orchestrator, refuse, log_audit, publish_power_changed_event, publish_channel_changed_event,
  publish_state_event, publish_fault_event, publish_event,
}
use radio_container.Command.Orchestrator.{
  check_range, ensure_adapter, ensure_radio, fail_command, finish_power, finish_channel, tune,
  finish_select, finish_get_state, ping, read_state, send_power,
}
use radio_container.Command.Orchestrator.Effects.{
  Same, Effect, Request, reads, powers, tunes, News, ask, after_lookup, Error?, Answered, Failed,
}

module _ {F A W : Type 0} (prefer : String → Case) (now : ℕ) (s : Orchestrator F A W)
    (action radio_id : String) (adapter : RadioAdapter F A W)
    (planned : Request F → News F → Type 0) where
  pub refuse-Effect :
      (X : Type 0) (s' : Orchestrator F A W) (result : String) (e : Err)
      → str_eq result "SUCCESS" ≡ false
      → Same s s'
      → Effect prefer now s action radio_id adapter planned {X = X}
          (refuse s' action radio_id result e)
  unfolding refuse
  refuse-Effect X s' result e h (hub, log, world, active) =
      inl (result, e, refl, h, (cc), hub, world)

  pub check_range-Effect :
      {X : Type 0} (s' : Orchestrator F A W) (e : Option Err) (rest : Orchestrator F A W × Result X)
      → Same s s'
      → Effect prefer now s action radio_id adapter planned rest
      → Effect prefer now s action radio_id adapter planned (check_range s' action radio_id e rest)
  unfolding check_range
  check_range-Effect {X} s' none rest same h = h
  check_range-Effect {X} s' (some e) rest same h = refuse-Effect X s' _ e refl same

  pub ensure_adapter-Effect :
      {X : Type 0} (s' : Orchestrator F A W) (rest : A → Orchestrator F A W × Result X)
      → Same s s'
      → ((a : A)
          → s.active_adapter ≡ some a
          → Effect prefer now s action radio_id adapter planned (rest a))
      → Effect prefer now s action radio_id adapter planned (ensure_adapter s' action radio_id rest)
  unfolding ensure_adapter
  ensure_adapter-Effect {X} s' rest same h = elim (Option-cases s'.active_adapter) [
    | inl e ↦ rw (e, ensure_adapter) (refuse-Effect X s' _ _ refl same)
    | inr (a, e) ↦ rw (e, ensure_adapter) (h a (sym same.3 ∙ e))
  ]

  pub ensure_radio-Effect :
      {X : Type 0} (rest : Orchestrator F A W → Manager F A → Orchestrator F A W × Result X)
      → ((m m' : Manager F A)
          → s.radio_manager ≡ some m
          → Effect prefer now s action radio_id adapter planned
              (rest (after_lookup adapter s m radio_id) m'))
      → Effect prefer now s action radio_id adapter planned
          (ensure_radio adapter s action radio_id rest)
  unfolding ensure_radio
  ensure_radio-Effect {X} rest h = elim (Option-cases s.radio_manager) [
    | inl e ↦ rw (e, ensure_radio) (refuse-Effect X s _ _ refl (refl, refl, refl, refl))
    | inr (m, e) ↦ elim (Result-cases (get_radio adapter m s.world radio_id).1) [
      | inl (r, f) ↦ rw (e, f, ensure_radio) (h m _ e)
      | inr (x, f) ↦ rw (e, f, ensure_radio) (refuse-Effect X _ _ _ refl (refl, refl, refl, refl))
    ]
  ]

  -- A command that asked the active adapter, and went on from its answer.
  after_answer-Effect :
      {X : Type 0} (a : A) (q : Request F) (news : News F) (answer : Option Err × W)
      (out : Orchestrator F A W × Result X)
      → s.active_adapter ≡ some a
      → planned q news
      → ask adapter a q s.world ≡ answer
      → Answered prefer now s action radio_id answer news out.0 (Error? out.1)
      → Effect prefer now s action radio_id adapter planned out
  after_answer-Effect a q news answer out active plan asked h = inr (
    a,
    q,
    news,
    active,
    plan,
    subst (λ x. Answered prefer now s action radio_id x news out.0 (Error? out.1)) (sym asked) h,
  )

module _ {F A W : Type 0} (prefer : String → Case) (now : ℕ) (adapter : RadioAdapter F A W)
    (s : Orchestrator F A W) (radio_id : String) where
  -- `w` is what the adapter's call left.
  fail_command-Failed :
      (X : Type 0) (action : String) (s' : Orchestrator F A W) (e : Err) (text : String) (w : W)
      → Same s s'
      → Failed prefer now s action radio_id e
          (fail_command adapter prefer now {X = X}
            (record s' { world = w })
            action
            radio_id
            e
            text).0
          (Error?
            (fail_command adapter prefer now {X = X}
              (record s' { world = w })
              action
              radio_id
              e
              text).1)
  unfolding fail_command publish_fault_event log_audit
  fail_command-Failed X action s' e text w (hub, log, world, active) = (text, refl, (cc), (cc))

  finish_power-Answered :
      (dbm : F) (s' : Orchestrator F A W) (w : W) (e : Option Err)
      → Same s s'
      → Answered prefer now s "setPower" radio_id
          (e, w)
          (some ("powerChanged", power_changed radio_id dbm now))
          (finish_power adapter prefer now radio_id dbm (record s' { world = w }) e).0
          (Error? (finish_power adapter prefer now radio_id dbm (record s' { world = w }) e).1)
  unfolding finish_power fail_command publish_power_changed_event publish_fault_event log_audit
      publish_event
  finish_power-Answered dbm s' w (some e) same =
      (fail_command-Failed (Unit {0}) "setPower" s' e _ w same, refl)
  finish_power-Answered dbm s' w none (hub, log, world, active) = ((refl, (cc), (cc)), refl)

  finish_channel-Answered :
      (f : F) (i : ℤ) (s' : Orchestrator F A W) (w : W) (e : Option Err)
      → Same s s'
      → Answered prefer now s "setChannel" radio_id
          (e, w)
          (some ("channelChanged", channel_changed radio_id f i now))
          (finish_channel adapter prefer now radio_id f i (record s' { world = w }) e).0
          (Error? (finish_channel adapter prefer now radio_id f i (record s' { world = w }) e).1)
  unfolding finish_channel fail_command publish_channel_changed_event publish_fault_event log_audit
      publish_event
  finish_channel-Answered f i s' w (some e) same =
      (fail_command-Failed (Unit {0}) "setChannel" s' e _ w same, refl)
  finish_channel-Answered f i s' w none (hub, log, world, active) = ((refl, (cc), (cc)), refl)

  finish_select-Answered :
      (s' : Orchestrator F A W) (w : W) (state : Result (RadioState F))
      → Same s s'
      → Answered prefer now s "selectRadio" radio_id
          (Error? state, w)
          (some ("state", state_online radio_id now))
          (finish_select adapter prefer now radio_id (record s' { world = w }) state).0
          (Error? (finish_select adapter prefer now radio_id (record s' { world = w }) state).1)
  unfolding finish_select fail_command publish_state_event publish_fault_event log_audit
      publish_event
  finish_select-Answered s' w (err e) same =
      (fail_command-Failed (Unit {0}) "selectRadio" s' e _ w same, refl)
  finish_select-Answered s' w (ok x) (hub, log, world, active) = ((refl, (cc), (cc)), refl)

  finish_get_state-Answered :
      (s' : Orchestrator F A W) (w : W) (state : Result (RadioState F))
      → Same s s'
      → Answered prefer now s "getState" radio_id
          (Error? state, w)
          none
          (finish_get_state adapter prefer now radio_id (record s' { world = w }) state).0
          (Error? (finish_get_state adapter prefer now radio_id (record s' { world = w }) state).1)
  unfolding finish_get_state fail_command publish_fault_event log_audit publish_event
  finish_get_state-Answered s' w (err e) same =
      (fail_command-Failed (RadioState F) "getState" s' e _ w same, refl)
  finish_get_state-Answered s' w (ok x) (hub, log, world, active) = ((refl, (cc), hub), refl)

  module _ (planned : Request F → News F → Type 0) (s' : Orchestrator F A W) (a : A)
      (same : Same s s') (active : s.active_adapter ≡ some a) where
    same_answer : (q : Request F) → ask adapter a q s.world ≡ ask adapter a q s'.world
    same_answer q = ap (ask adapter a q) (sym same.2)

    pub tune-Effect :
        (f : F) (i : ℤ)
        → planned (tunes f) (some ("channelChanged", channel_changed radio_id f i now))
        → Effect prefer now s "setChannel" radio_id adapter planned
            (tune adapter prefer now radio_id f i s' a)
    unfolding tune
    tune-Effect f i plan =
        after_answer-Effect prefer now s "setChannel" radio_id adapter planned a (tunes f) _
          (adapter.set_frequency a f s'.world) (tune adapter prefer now radio_id f i s' a) active
          plan (same_answer (tunes f)) (finish_channel-Answered f i s' _ _ same)

    pub ping-Effect :
        planned reads (some ("state", state_online radio_id now))
        → Effect prefer now s "selectRadio" radio_id adapter planned
            (ping adapter prefer now radio_id s' a)
    unfolding ping
    ping-Effect plan =
        after_answer-Effect prefer now s "selectRadio" radio_id adapter planned a reads _
          (ask adapter a reads s'.world) (ping adapter prefer now radio_id s' a) active plan
          (same_answer reads) (finish_select-Answered s' _ _ same)

    pub read_state-Effect :
        planned reads none
        → Effect prefer now s "getState" radio_id adapter planned
            (read_state adapter prefer now radio_id s' a)
    unfolding read_state
    read_state-Effect plan =
        after_answer-Effect prefer now s "getState" radio_id adapter planned a reads _
          (ask adapter a reads s'.world) (read_state adapter prefer now radio_id s' a) active plan
          (same_answer reads) (finish_get_state-Answered s' _ _ same)

    pub send_power-Effect :
        (dbm : F)
        → planned (powers dbm) (some ("powerChanged", power_changed radio_id dbm now))
        → Effect prefer now s "setPower" radio_id adapter planned
            (send_power adapter prefer now radio_id dbm s' a)
    unfolding send_power
    send_power-Effect dbm plan =
        after_answer-Effect prefer now s "setPower" radio_id adapter planned a (powers dbm) _
          (adapter.set_power a dbm s'.world) (send_power adapter prefer now radio_id dbm s' a)
          active plan (same_answer (powers dbm)) (finish_power-Answered dbm s' _ _ same)
