-- ===== src/Command/Orchestrator/Reading.antt =====
-- GetState and the adapters' world.
use radio_container.Prelude.{◌∙◌, ℕ, ◌≡◌, refl, some, String, Option-cases, inl, inr}
use radio_container.Adapter.{RadioAdapter, RadioState, Result, ok, err, Result-cases}
use radio_container.Radio.{Manager}
use radio_container.Radio.Discovery.{get_radio}
use radio_container.Telemetry.Hub.{Case}
use radio_container.Command.State.{
  Orchestrator, refuse, log_audit, publish_event, publish_fault_event,
}
use radio_container.Command.Orchestrator.{
  ensure_adapter, ensure_radio, fail_command, finish_get_state, read_state, state_known, get_state,
}

module _ {F A W : Type 0} (adapter : RadioAdapter F A W) (prefer : String → Case) (now : ℕ) where
  finish_get_state-world :
      (k : String) (s : Orchestrator F A W) (r : Result (RadioState F))
      → (finish_get_state adapter prefer now k s r).0.world ≡ s.world
  unfolding finish_get_state fail_command log_audit publish_fault_event publish_event
  finish_get_state-world k s (ok state) = refl
  finish_get_state-world k s (err e) = refl

  module _ (reads : (a : A) (w : W) → (adapter.get_state a w).1 ≡ w) where
    state_known-world :
        (k : String) (s : Orchestrator F A W) (m : Manager F A)
        → (state_known adapter prefer now k s m).0.world ≡ s.world
    unfolding state_known ensure_adapter read_state refuse log_audit
    state_known-world k s m = elim (Option-cases s.active_adapter) [
      | inl e ↦ rw (e, state_known, ensure_adapter) refl
      | inr (a, e) ↦
          rw (e, state_known, ensure_adapter)
            (finish_get_state-world k _ (adapter.get_state a s.world).0 ∙ reads a s.world)
    ]

    -- GetState leaves what the adapters keep alone, if their GetState does.
    pub get_state-world :
        (s : Orchestrator F A W) (k : String) → (get_state adapter prefer now s k).0.world ≡ s.world
    unfolding get_state ensure_radio refuse log_audit
    get_state-world s k = elim (Option-cases s.radio_manager) [
      | inl e ↦ rw (e, get_state, ensure_radio) refl
      | inr (m, e) ↦ elim (Result-cases (get_radio adapter m s.world k).1) [
        | inl (r, found) ↦
            rw (e, found, get_state, ensure_radio)
              (state_known-world k
                (record s { radio_manager = some (get_radio adapter m s.world k).0 })
                (get_radio adapter m s.world k).0)
        | inr (x, missing) ↦ rw (e, missing, get_state, ensure_radio) refl
      ]
    ]
