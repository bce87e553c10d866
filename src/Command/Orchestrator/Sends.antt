-- ===== src/Command/Orchestrator/Sends.antt =====
-- What a command that passes its checks asks of the active adapter, and what it answers.
use radio_container.Prelude.{
  inl, inr, Bool-cases, ℕ, ◌≡◌, refl, ◌||◌, false, Option, none, some, String, Bool-cases, arith,
}
use radio_container.Prelude.Dict.{get}
use radio_container.Prelude.Int.{ℤ, pos, lt_int}
use radio_container.Prelude.Float.{Float, flt, fle, lit}
use radio_container.Adapter.Errors.{Err, no_details, normalize_vendor_error}
use radio_container.Adapter.{Result, ok, err, RadioAdapter}
use radio_container.Radio.{Radio, Manager}
use radio_container.Telemetry.Hub.{Case}
use radio_container.Command.State.{
  Orchestrator, log_audit, publish_event, publish_fault_event, publish_power_changed_event,
  publish_channel_changed_event,
}
use radio_container.Command.Resolve.{resolve_channel_index}
use radio_container.Command.Orchestrator.{
  validate_power_range, validate_frequency_range, check_range, ensure_adapter, fail_command,
  finish_power, finish_channel, tune, send_power, power_known, channel_known, resolve_and_set,
  index_known, set_power, set_channel, set_resolved, set_channel_by_index,
}
use radio_container.Command.Orchestrator.Routing.{ensure_radio-known}
use radio_container.Command.Orchestrator.Effects.{after_lookup}

-- The answer to an adapter's answer.
abbrev pub answer_to : Option Err → Result (Unit {0})
answer_to none = ok tt
answer_to (some e) = err (normalize_vendor_error e no_details)

module _ {F A W : Type 0} where
  -- A command that passes an adapter's answer on: its result is made of that answer, and the
  -- adapters' world is the one that the call left.
  abbrev pub Sent : Option Err × W → Orchestrator F A W × Result (Unit {0}) → Type 0
  Sent answer out = (out.1 ≡ answer_to answer.0) × (out.0.world ≡ answer.1)

  ensure_adapter-active :
      {X : Type 0} (s : Orchestrator F A W) (action k : String) (a : A)
      (rest : A → Orchestrator F A W × Result X)
      → s.active_adapter ≡ some a
      → ensure_adapter s action k rest ≡ rest a
  unfolding ensure_adapter
  ensure_adapter-active s action k a rest e = rw (e, ensure_adapter) refl

module _ {F A W : Type 0} (adapter : RadioAdapter F A W) (prefer : String → Case) (now : ℕ) where
  finish_power-Sent :
      (k : String) (dbm : F) (s : Orchestrator F A W) (e : Option Err)
      → Sent (e, s.world) (finish_power adapter prefer now k dbm s e)
  unfolding finish_power fail_command log_audit publish_power_changed_event publish_fault_event
      publish_event
  finish_power-Sent k dbm s none = (refl, refl)
  finish_power-Sent k dbm s (some e) = (refl, refl)

  finish_channel-Sent :
      (k : String) (f : F) (i : ℤ) (s : Orchestrator F A W) (e : Option Err)
      → Sent (e, s.world) (finish_channel adapter prefer now k f i s e)
  unfolding finish_channel fail_command log_audit publish_channel_changed_event publish_fault_event
      publish_event
  finish_channel-Sent k f i s none = (refl, refl)
  finish_channel-Sent k f i s (some e) = (refl, refl)

  tune-Sent :
      (k : String) (f : F) (i : ℤ) (s : Orchestrator F A W) (a : A)
      → Sent (adapter.set_frequency a f s.world) (tune adapter prefer now k f i s a)
  unfolding tune
  tune-Sent k f i s a = finish_channel-Sent k f i _ _

  module _ ⦃o : Float F⦄ where
    valid_power :
        (dbm : F) → flt dbm (lit 0) || flt (lit 39) dbm ≡ false → validate_power_range dbm ≡ none
    unfolding validate_power_range
    valid_power dbm h = rw h refl

    valid_frequency :
        (f : F)
        → fle f (lit 0) || (flt f (lit 100) || flt (lit 6000) f) ≡ false
        → validate_frequency_range f ≡ none
    unfolding validate_frequency_range
    valid_frequency f h = elim (Bool-cases (fle f (lit 0))) [
      | inl low ↦ ground arith
      | inr above ↦ ground arith
    ]

    resolve_and_set-Sent :
        (k : String) (i : ℤ) (given : Option (Manager F A)) (s : Orchestrator F A W) (a : A) (f : F)
        → resolve_channel_index adapter s k i given ≡ ok f
        → fle f (lit 0) || (flt f (lit 100) || flt (lit 6000) f) ≡ false
        → Sent
            (adapter.set_frequency a f s.world)
            (resolve_and_set adapter prefer now k i given s a)
    unfolding resolve_and_set set_resolved check_range
    resolve_and_set-Sent k i given s a f resolved h =
        rw (resolved, valid_frequency f h, resolve_and_set) (tune-Sent k f i s a)

    -- For a known radio, a power setting that is neither below 0 nor above 39 dBm reaches the active
    -- adapter, once and unchanged. The command succeeds where the adapter does, and else returns the
    -- adapter's error in normalized form.
    pub set_power-Sent :
        (s : Orchestrator F A W) (m : Manager F A) (k : String) (r : Radio F) (a : A) (dbm : F)
        → s.radio_manager ≡ some m
        → get m.radios k ≡ some r
        → s.active_adapter ≡ some a
        → flt dbm (lit 0) || flt (lit 39) dbm ≡ false
        → Sent (adapter.set_power a dbm s.world) (set_power adapter prefer now s k dbm)
    unfolding set_power power_known check_range ensure_adapter send_power
    set_power-Sent s m k r a dbm sm e active h =
        rw
          (ensure_radio-known adapter s m "setPower" k r (power_known adapter prefer now k dbm) sm
            e)
          (rw (valid_power dbm h, active, power_known) (finish_power-Sent k dbm _ _))

    -- For a known radio, a frequency above 0, not below 100 and not above 6000 MHz reaches the active
    -- adapter, once and unchanged. The command succeeds where the adapter does, and else returns the
    -- adapter's error in normalized form.
    pub set_channel-Sent :
        (s : Orchestrator F A W) (m : Manager F A) (k : String) (r : Radio F) (a : A) (f : F)
        → s.radio_manager ≡ some m
        → get m.radios k ≡ some r
        → s.active_adapter ≡ some a
        → fle f (lit 0) || (flt f (lit 100) || flt (lit 6000) f) ≡ false
        → Sent (adapter.set_frequency a f s.world) (set_channel adapter prefer now s k f)
    unfolding set_channel channel_known check_range ensure_adapter
    set_channel-Sent s m k r a f sm e active h =
        rw
          (ensure_radio-known adapter s m "setChannel" k r (channel_known adapter prefer now k f) sm
            e)
          (rw (valid_frequency f h, active, channel_known) (tune-Sent k f (pos 0) _ a))

    -- For a known radio and with an active adapter, a channel index from 1 on that resolves to a frequency
    -- above 0, not below 100 and not above 6000 MHz makes that adapter take that frequency, once and
    -- unchanged, and the result is made of the adapter's answer, as for setting the frequency itself.
    pub set_channel_by_index-Sent :
        (s : Orchestrator F A W) (m : Manager F A) (k : String) (r : Radio F) (a : A) (i : ℤ)
        (given : Option (Manager F A)) (f : F)
        → s.radio_manager ≡ some m
        → get m.radios k ≡ some r
        → s.active_adapter ≡ some a
        → lt_int i (pos 1) ≡ false
        → resolve_channel_index adapter (after_lookup adapter s m k) k i given ≡ ok f
        → fle f (lit 0) || (flt f (lit 100) || flt (lit 6000) f) ≡ false
        → Sent
            (adapter.set_frequency a f s.world)
            (set_channel_by_index adapter prefer now s k i given)
    unfolding set_channel_by_index index_known check_range ensure_adapter resolve_and_set
        set_resolved
    set_channel_by_index-Sent s m k r a i given f sm e active positive resolved h =
        rw
          (ensure_radio-known adapter s m "setChannel" k r
            (index_known adapter prefer now k i given) sm e)
          (rw positive (
            rw
              (ensure_adapter-active (after_lookup adapter s m k) "setChannel" k a
                (resolve_and_set adapter prefer now k i given (after_lookup adapter s m k)) active)
              (resolve_and_set-Sent k i given _ a f resolved h)))
