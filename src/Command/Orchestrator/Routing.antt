-- ===== src/Command/Orchestrator/Routing.antt =====
-- Which commands reach an adapter, with what, and whose it is.
use radio_container.Prelude.{
  false, eq_iff, arith, ℕ, ◌≡◌, ◌≢◌, refl, ap, inl, inr, true, false, ◌||◌, Option, none, some,
  String, str_eq, Option-cases, Bool-cases, arith, eq_iff,
}
use radio_container.Prelude.Dict.{get}
use radio_container.Prelude.Float.{Float, flt, fle, lit}
use radio_container.Adapter.Errors.{Err, sentinel, invalid_range, unavailable, not_found}
use radio_container.Adapter.{Result, err, RadioAdapter, Result-cases}
use radio_container.Radio.Lookup.{get_radio-ok, get_radio-has}
use radio_container.Radio.Discovery.{get_radio}
use radio_container.Radio.{Radio, Manager, set_active}
use radio_container.Telemetry.Hub.{Case}
use radio_container.Command.State.{
  publish_event, publish_fault_event, Orchestrator, refuse, log_audit, publish_power_changed_event,
}
use radio_container.Command.Orchestrator.{
  validate_power_range, validate_frequency_range, check_range, ensure_adapter, ensure_radio,
  fail_command, finish_power, select_known, send_power, power_known, channel_known, select_radio,
  set_power, set_channel,
}
use radio_container.Command.Orchestrator.Effects.{after_lookup}

module _ {F A W : Type 0} (adapter : RadioAdapter F A W) where
  pub ensure_radio-known :
      {X : Type 0} (s : Orchestrator F A W) (m : Manager F A) (action k : String) (r : Radio F)
      (rest : Orchestrator F A W → Manager F A → Orchestrator F A W × Result X)
      → s.radio_manager ≡ some m
      → get m.radios k ≡ some r
      → ensure_radio adapter s action k rest
        ≡ rest (after_lookup adapter s m k) (get_radio adapter m s.world k).0
  unfolding ensure_radio
  ensure_radio-known s m action k r rest sm e =
      let (r', f) = get_radio-ok adapter m s.world k r e in rw (sm, f, ensure_radio) refl

  module _ (prefer : String → Case) (now : ℕ) ⦃o : Float F⦄ where
    -- What a check that comes after the lookup refuses, the command refuses, and no adapter is
    -- touched.
    abbrev Untouched : {X : Type 0} → Orchestrator F A W → Orchestrator F A W × Result X → Type 0
    Untouched s out = ((e : Err) × (out.1 ≡ err e)) × (out.0.world ≡ s.world)

    ensure_radio-Untouched :
        {X : Type 0} (s : Orchestrator F A W) (action k : String)
        (rest : Orchestrator F A W → Manager F A → Orchestrator F A W × Result X)
        → ((s' : Orchestrator F A W) (m : Manager F A) → Untouched s' (rest s' m))
        → Untouched s (ensure_radio adapter s action k rest)
    unfolding ensure_radio refuse log_audit
    ensure_radio-Untouched s action k rest h = elim (Option-cases s.radio_manager) [
      | inl e ↦ rw (e, ensure_radio) ((sentinel unavailable, refl), refl)
      | inr (m, e) ↦ elim (Result-cases (get_radio adapter m s.world k).1) [
        | inl (r, f) ↦ rw (e, f, ensure_radio) (h _ _)
        | inr (x, f) ↦ rw (e, f, ensure_radio) ((not_found, refl), refl)
      ]
    ]

    invalid_frequency :
        (f : F)
        → fle f (lit 0) || (flt f (lit 100) || flt (lit 6000) f) ≡ true
        → validate_frequency_range f ≡ some (sentinel invalid_range)
    unfolding validate_frequency_range
    invalid_frequency f h = elim (Bool-cases (fle f (lit 0))) [
      | inl low ↦ rw low refl
      | inr above ↦ ground arith
    ]

    -- A power setting reaches the adapter only if it is neither below 0 nor above 39 dBm: with any
    -- other value the command fails and no adapter is touched.
    pub set_power-out_of_range :
        (s : Orchestrator F A W) (k : String) (dbm : F)
        → flt dbm (lit 0) || flt (lit 39) dbm ≡ true
        → ((e : Err) × ((set_power adapter prefer now s k dbm).1 ≡ err e))
          × ((set_power adapter prefer now s k dbm).0.world ≡ s.world)
    unfolding set_power power_known check_range refuse log_audit validate_power_range
    set_power-out_of_range s k dbm h =
        ensure_radio-Untouched s "setPower" k (power_known adapter prefer now k dbm)
          (λ s' m. rw h ((sentinel invalid_range, refl), refl))

    -- A frequency reaches the adapter only if it is above 0, not below 100 and not above 6000 MHz:
    -- with any other value the command fails and no adapter is touched.
    pub set_channel-out_of_range :
        (s : Orchestrator F A W) (k : String) (f : F)
        → fle f (lit 0) || (flt f (lit 100) || flt (lit 6000) f) ≡ true
        → ((e : Err) × ((set_channel adapter prefer now s k f).1 ≡ err e))
          × ((set_channel adapter prefer now s k f).0.world ≡ s.world)
    unfolding set_channel channel_known check_range refuse log_audit validate_frequency_range
    set_channel-out_of_range s k f h =
        ensure_radio-Untouched s "setChannel" k (channel_known adapter prefer now k f)
          (λ s' m. rw (invalid_frequency f h) ((sentinel invalid_range, refl), refl))

    -- `SelectRadio` of a known radio selects it even where it then fails because no adapter is
    -- active.
    pub select_radio-no_adapter :
        (s : Orchestrator F A W) (m : Manager F A) (k : String) (r : Radio F)
        → s.radio_manager ≡ some m
        → get m.radios k ≡ some r
        → k ≢ ""
        → s.active_adapter ≡ none
        → ((select_radio adapter prefer now s k).1 ≡ err (sentinel unavailable))
          × ((m' : Manager F A) × ((select_radio adapter prefer now s k).0.radio_manager ≡ some m')
              × (m'.active_radio_id ≡ k))
    unfolding select_radio select_known ensure_adapter refuse log_audit set_active
    select_radio-no_adapter s m k r sm e named a =
        let known = get_radio-has adapter m s.world k r e in
        let unnamed : str_eq k "" ≡ false = ground (arith, eq_iff k "") in
        rw
          (
            unnamed,
            ensure_radio-known s m "selectRadio" k r (select_known adapter prefer now k) sm e,
          )
          (rw (known, a, select_known) (refl, (_, refl, rw (known, set_active) refl)))

    -- The result of a command, and what it leaves of the adapters.
    abbrev Done : {X : Type 0} → Orchestrator F A W × Result X → Result X × W
    Done out = (out.1, out.0.world)

    finish_power-Done :
        (k j : String) (dbm : F) (s t : Orchestrator F A W) (e : Option Err)
        → s.world ≡ t.world
        → Done (finish_power adapter prefer now k dbm s e)
          ≡ Done (finish_power adapter prefer now j dbm t e)
    unfolding finish_power fail_command log_audit publish_power_changed_event publish_fault_event
        publish_event
    finish_power-Done k j dbm s t none h = rw h refl
    finish_power-Done k j dbm s t (some e) h = rw h refl

    power_known-Done :
        (k j : String) (dbm : F) (s t : Orchestrator F A W) (m n : Manager F A)
        → s.world ≡ t.world
        → s.active_adapter ≡ t.active_adapter
        → Done (power_known adapter prefer now k dbm s m)
          ≡ Done (power_known adapter prefer now j dbm t n)
    unfolding power_known check_range ensure_adapter send_power refuse log_audit
    power_known-Done k j dbm s t m n h a = elim (Option-cases (validate_power_range dbm)) [
      | inr (e, v) ↦ rw (v, h) refl
      | inl v ↦ elim (Option-cases t.active_adapter) [
        | inl b ↦ rw (v, a, b, h, ensure_adapter) refl
        | inr (x, b) ↦ rw (v, a, b, h, ensure_adapter) (finish_power-Done k j dbm _ _ _ refl)
      ]
    ]

    -- A power command for one known radio returns, and does to the adapters, what the same command
    -- for any other known radio does: the adapter is the active one whatever radio is named.
    pub set_power-ignores_radio :
        (s : Orchestrator F A W) (m : Manager F A) (k j : String) (r t : Radio F) (dbm : F)
        → s.radio_manager ≡ some m
        → get m.radios k ≡ some r
        → get m.radios j ≡ some t
        → ((set_power adapter prefer now s k dbm).1 ≡ (set_power adapter prefer now s j dbm).1)
          × ((set_power adapter prefer now s k dbm).0.world
              ≡ (set_power adapter prefer now s j dbm).0.world)
    unfolding set_power
    set_power-ignores_radio s m k j r t dbm sm ek ej =
        let e =
          power_known-Done k j dbm (after_lookup adapter s m k) (after_lookup adapter s m j)
            (get_radio adapter m s.world k).0 (get_radio adapter m s.world j).0 refl refl in
        rw
          (
            ensure_radio-known s m "setPower" k r (power_known adapter prefer now k dbm) sm ek,
            ensure_radio-known s m "setPower" j t (power_known adapter prefer now j dbm) sm ej,
          )
          (ap (λ p. p.0) e, ap (λ p. p.1) e)
