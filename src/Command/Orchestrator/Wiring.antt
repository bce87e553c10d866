-- ===== src/Command/Orchestrator/Wiring.antt =====
-- rcc/cmd/rcc/main.go: the orchestrator that the program creates, and histories of commands on it.
use radio_container.Prelude.{
  ℕ, ◌≡◌, refl, sym, ap, ◌∙◌, List, [], ◌∷◌, ◌++◌, map, Option, none, some, String, str_eq,
  Bool-cases, inl, inr, if◌then◌else◌,
}
use mathlib.Core.List.{append_assoc, append-nil}
use radio_container.Prelude.Float.{Float}
use radio_container.Adapter.Errors.{Err, sentinel, unavailable, invalid_parameter}
use radio_container.Adapter.{RadioAdapter, Result}
use radio_container.Radio.{Manager}
use radio_container.Config.BandPlan.{SilvusBandPlan}
use radio_container.Telemetry.Hub.{Hub, Case}
use radio_container.Command.State.{
  AuditRecord, Orchestrator, new_orchestrator, set_audit_logger, log_audit, refuse,
}
use radio_container.Command.Orchestrator.{
  ensure_radio, select_known, state_known, power_known, channel_known, index_known, select_radio,
  get_state, set_power, set_channel, set_channel_by_index,
}
use radio_container.Command.Orchestrator.Effects.{
  Command, selects, gets_state, sets_power, sets_channel, sets_channel_by_index, action_of,
  radio_of, is_blank, perform, Error?,
}

-- `NewOrchestrator` and `SetAuditLogger`, and no other setter; the log is empty.
unfoldable pub started :
    {F A W : Type 0} → Option (Hub F) → Option (SilvusBandPlan F) → W → Orchestrator F A W
unfolding new_orchestrator set_audit_logger
started hub plan world = set_audit_logger (new_orchestrator hub plan world) (some [])

-- The errors of the commands, none of which knows a radio manager, and their audit records.
abbrev pub refusal_of : {F A : Type 0} → Command F A → Option Err
refusal_of c = some (if is_blank c then invalid_parameter else sentinel unavailable)

abbrev pub record_of : {F A : Type 0} → Command F A → AuditRecord
record_of c = record {
  action = action_of c;
  radio_id = radio_of c;
  result = if is_blank c then "BAD_REQUEST" else "UNAVAILABLE";
}

module _ {F A W : Type 0} (adapter : RadioAdapter F A W) (prefer : String → Case) (now : ℕ)
    ⦃o : Float F⦄ where
  -- Commands one after the other, with the errors that they return.
  unfoldable pub perform_all :
      List (Command F A) → Orchestrator F A W → List (Option Err) × Orchestrator F A W
  unfolding perform
  perform_all [] s = ([], s)
  perform_all (c ∷ cs) s =
      let (s', e) = perform adapter prefer now s c in
      let (es, s'') = perform_all cs s' in (e ∷ es, s'')

  -- The orchestrator that has refused a command.
  abbrev noted : Command F A → Orchestrator F A W → Orchestrator F A W
  noted c s =
      log_audit s (action_of c) (radio_of c) (if is_blank c then "BAD_REQUEST" else "UNAVAILABLE")

  ensure_radio-no_manager :
      {X : Type 0} (s : Orchestrator F A W) (action k : String)
      (rest : Orchestrator F A W → Manager F A → Orchestrator F A W × Result X)
      → s.radio_manager ≡ none
      → ensure_radio adapter s action k rest
        ≡ refuse s action k "UNAVAILABLE" (sentinel unavailable)
  unfolding ensure_radio
  ensure_radio-no_manager s action k rest e = simp (e, ensure_radio)

  abbrev with_error : {X : Type 0} → Orchestrator F A W × Result X → Orchestrator F A W × Option Err
  with_error out = (out.0, Error? out.1)

  perform-no_manager :
      (s : Orchestrator F A W) (c : Command F A)
      → s.radio_manager ≡ none
      → perform adapter prefer now s c ≡ (noted c s, refusal_of c)
  unfolding perform refuse select_radio get_state set_power set_channel set_channel_by_index
  perform-no_manager s (selects k) e = elim (Bool-cases (str_eq k "")) [
    | inl blank ↦ rw (blank, select_radio) refl
    | inr named ↦
        rw (named, select_radio)
          (ap with_error
            (ensure_radio-no_manager s "selectRadio" k (select_known adapter prefer now k) e))
  ]
  perform-no_manager s (gets_state k) e =
      ap with_error (ensure_radio-no_manager s "getState" k (state_known adapter prefer now k) e)
  perform-no_manager s (sets_power k dbm) e =
      ap with_error
        (ensure_radio-no_manager s "setPower" k (power_known adapter prefer now k dbm) e)
  perform-no_manager s (sets_channel k f) e =
      ap with_error
        (ensure_radio-no_manager s "setChannel" k (channel_known adapter prefer now k f) e)
  perform-no_manager s (sets_channel_by_index k i m) e =
      ap with_error
        (ensure_radio-no_manager s "setChannel" k (index_known adapter prefer now k i m) e)

  -- The results of commands on an orchestrator without a radio manager, and what they leave.
  abbrev pub AllRefused : List (Command F A) → List AuditRecord → Orchestrator F A W → Type 0
  AllRefused cs log s =
      ((perform_all cs s).0 ≡ map refusal_of cs)
      × ((perform_all cs s).1.audit_log ≡ some (log ++ map record_of cs))
      × ((perform_all cs s).1.telemetry_hub ≡ s.telemetry_hub)
      × ((perform_all cs s).1.world ≡ s.world)

  perform_all-AllRefused :
      (cs : List (Command F A)) (log : List AuditRecord) (s : Orchestrator F A W)
      → s.radio_manager ≡ none
      → s.audit_log ≡ some log
      → AllRefused cs log s
  unfolding perform_all log_audit
  perform_all-AllRefused [] log s e l = (refl, l ∙ ap some (sym (append-nil log)), refl, refl)
  perform_all-AllRefused (c ∷ cs) log s e l =
      let (errors, records, hub, world) =
        perform_all-AllRefused cs (log ++ record_of c ∷ []) (noted c s) e (rw l refl) in
      rw (perform-no_manager s c e) (
        ap (λ es. refusal_of c ∷ es) errors,
        records ∙ ap some (append_assoc log (record_of c ∷ []) (map record_of cs)),
        hub,
        world,
      )

-- Whatever commands the program's orchestrator gets, it refuses them all: SelectRadio of no radio as a
-- bad request, and any other as unavailable. The audit log has one record for each, in their order,
-- with the command's action and radio and BAD_REQUEST or UNAVAILABLE; no event is published and no
-- adapter is touched.
pub started-refuses :
    {F A W : Type 0} ⦃o : Float F⦄ (adapter : RadioAdapter F A W) (prefer : String → Case) (now : ℕ)
    (hub : Option (Hub F)) (plan : Option (SilvusBandPlan F)) (world : W) (cs : List (Command F A))
    → ((perform_all adapter prefer now cs (started hub plan world)).0 ≡ map refusal_of cs)
      × ((perform_all adapter prefer now cs (started hub plan world)).1.audit_log
          ≡ some (map record_of cs))
      × ((perform_all adapter prefer now cs (started hub plan world)).1.telemetry_hub ≡ hub)
      × ((perform_all adapter prefer now cs (started hub plan world)).1.world ≡ world)
unfolding started new_orchestrator set_audit_logger
started-refuses adapter prefer now hub plan world cs =
    perform_all-AllRefused adapter prefer now cs [] (started hub plan world) refl refl
