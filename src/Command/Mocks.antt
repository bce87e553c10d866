-- ===== src/Command/Mocks.antt =====
-- SetPower with Silvus mock adapters: what they do, and a fault on its way to the API.
pub mod Examples
use radio_container.Prelude.{
  subst, ℕ, ◌≡◌, refl, ap, ◌∙◌, ◌||◌, false, List, Option, none, some, String, Bool-cases, inl, inr,
  ◌==◌, ==_iff,
}
use radio_container.Prelude.Dict.{get}
use radio_container.Prelude.Float.{Float, flt, lit}
use radio_container.Adapter.Errors.{
  Code, Err, wrapped, code_text, no_details, normalize_vendor_error,
}
use radio_container.Adapter.{ok, err}
use radio_container.Adapter.SilvusMock.{
  SilvusMock, Formats, Mocks, update, silvus_adapter, set_power as set_mock_power,
  get_state as get_mock_state, take_power, unless_blocked, blocked, check_fault_mode,
}
use radio_container.Adapter.SilvusMock.Faults.{fault_code, check_fault_mode-code, set_power-Named}
use radio_container.Radio.{Radio, Manager}
use radio_container.Telemetry.Hub.{Case}
use radio_container.Command.State.{Orchestrator}
use radio_container.Command.Orchestrator.{set_power}
use radio_container.Command.Orchestrator.Sends.{answer_to, set_power-Sent}
use radio_container.Api.Errors.{Reply, program, to_api_error}
use radio_container.Api.Errors.Mapping.{status_of, to_api_error-normalize_vendor_error}

module _ {F : Type 0} ⦃o : Float F⦄ (formats : Formats F) (digits : ℕ → List ℕ) (now : ℕ) where
  set_mock_power-blocked :
      (dbm : F) (s : SilvusMock F) (e : Err)
      → check_fault_mode s "SetPower" ≡ some e
      → set_mock_power formats digits none now dbm s ≡ (some e, s)
  unfolding set_mock_power blocked
  set_mock_power-blocked dbm s e h = rw (h, set_mock_power) refl

  update-same : (w : Mocks F) (a b : ℕ) → update w a (w a) b ≡ w b
  unfolding update
  update-same w a b = elim (Bool-cases (a == b)) [
    | inl same ↦ rw same (ap w ((==_iff a b).0 same))
    | inr other ↦ rw other refl
  ]

  silvus_adapter-blocked :
      (dbm : F) (w : Mocks F) (a : ℕ) (e : Err)
      → check_fault_mode (w a) "SetPower" ≡ some e
      → (silvus_adapter formats digits none now).set_power a dbm w ≡ (some e, update w a (w a))
  unfolding silvus_adapter
  silvus_adapter-blocked dbm w a e h =
      ap (λ (x : Option Err × SilvusMock F). (x.0, update w a x.1))
        (set_mock_power-blocked dbm (w a) e h)

  update-other :
      (w : Mocks F) (a b : ℕ) (x : SilvusMock F) → (a == b) ≡ false → update w a x b ≡ w b
  unfolding update
  update-other w a b x other = rw other refl

  update-at : (w : Mocks F) (a : ℕ) (x : SilvusMock F) → update w a x a ≡ x
  unfolding update
  update-at w a x = rw ((==_iff a a).1 refl) refl

  healthy_checks : (s : SilvusMock F) → s.fault_mode ≡ "" → check_fault_mode s "SetPower" ≡ none
  unfolding check_fault_mode
  healthy_checks s h = rw (h, check_fault_mode) refl

  reads_power :
      (dbm : F) (s : SilvusMock F)
      → s.fault_mode ≡ ""
      → get_mock_state none (take_power now dbm s)
        ≡ ok (record { power_dbm = dbm; frequency_mhz = s.frequency_mhz })
  unfolding get_mock_state blocked unless_blocked check_fault_mode take_power
  reads_power dbm s h = rw (h, get_mock_state, check_fault_mode) refl

  -- While a Silvus mock simulates a fault, and with a context that is not done, SetPower of a power within
  -- the limits for a known radio fails if that mock is the active adapter, the API answers the error, wrapped in any text, by the
  -- fault's code and status, and every mock stays as it was.
  pub set_power-fault :
      (prefer : String → Case) (clock : ℕ) (s : Orchestrator F ℕ (Mocks F)) (m : Manager F ℕ)
      (k : String) (r : Radio F) (a : ℕ) (dbm : F) (c : Code) (text : List ℕ)
      → s.radio_manager ≡ some m
      → get m.radios k ≡ some r
      → s.active_adapter ≡ some a
      → flt dbm (lit 0) || flt (lit 39) dbm ≡ false
      → fault_code (s.world a).fault_mode ≡ some c
      → let out = set_power (silvus_adapter formats digits none now) prefer clock s k dbm in
        (e : Err) × (reply : Reply) × (out.1 ≡ err e)
        × (to_api_error (some (program (wrapped text e))) ≡ (status_of c, some reply))
        × (reply.code ≡ code_text c)
        × ((b : ℕ) → out.0.world b ≡ s.world b)
  set_power-fault prefer clock s m k r a dbm c text sm known active valid fault =
      let (x, failed, code) =
        check_fault_mode-code (s.world a) "SetPower" c set_power-Named fault in
      let sent =
        set_power-Sent (silvus_adapter formats digits none now) prefer clock s m k r a dbm sm known
          active valid in
      let (reply, answer, names, details) = to_api_error-normalize_vendor_error x no_details text in
      let call = silvus_adapter-blocked dbm s.world a x failed in
      (
        normalize_vendor_error x no_details,
        reply,
        sent.0 ∙ ap (λ (y : Option Err × Mocks F). answer_to y.0) call,
        subst
            (λ d.
              to_api_error (some (program (wrapped text (normalize_vendor_error x no_details))))
              ≡ (status_of d, some reply))
            code answer,
        names ∙ ap code_text code,
        λ b.
            ap (λ (w : Mocks F). w b) (sent.1 ∙ ap (λ (y : Option Err × Mocks F). y.1) call)
            ∙ update-same s.world a b,
      )

  set_mock_power-taken :
      (dbm : F) (s : SilvusMock F)
      → check_fault_mode s "SetPower" ≡ none
      → flt dbm (lit s.min_power) || flt (lit s.max_power) dbm ≡ false
      → set_mock_power formats digits none now dbm s ≡ (none, take_power now dbm s)
  unfolding set_mock_power blocked
  set_mock_power-taken dbm s h valid = rw (h, valid, set_mock_power) refl

  silvus_adapter-taken :
      (dbm : F) (w : Mocks F) (a : ℕ)
      → check_fault_mode (w a) "SetPower" ≡ none
      → flt dbm (lit (w a).min_power) || flt (lit (w a).max_power) dbm ≡ false
      → (silvus_adapter formats digits none now).set_power a dbm w
        ≡ (none, update w a (take_power now dbm (w a)))
  unfolding silvus_adapter
  silvus_adapter-taken dbm w a h valid =
      ap (λ (x : Option Err × SilvusMock F). (x.0, update w a x.1))
        (set_mock_power-taken dbm (w a) h valid)

  -- Without a fault, and with a context that is not done, SetPower of a power within the limits for a known radio succeeds if a Silvus mock
  -- with the limits 0 and 39 is the active adapter; that mock then reports the power, with its
  -- frequency as before, and every other mock stays as it was.
  pub set_power-taken :
      (prefer : String → Case) (clock : ℕ) (s : Orchestrator F ℕ (Mocks F)) (m : Manager F ℕ)
      (k : String) (r : Radio F) (a : ℕ) (dbm : F)
      → s.radio_manager ≡ some m
      → get m.radios k ≡ some r
      → s.active_adapter ≡ some a
      → flt dbm (lit 0) || flt (lit 39) dbm ≡ false
      → ((s.world a).min_power ≡ 0) × ((s.world a).max_power ≡ 39)
      → (s.world a).fault_mode ≡ ""
      → let out = set_power (silvus_adapter formats digits none now) prefer clock s k dbm in
        (out.1 ≡ ok tt)
        × (get_mock_state none (out.0.world a)
            ≡ ok (record { power_dbm = dbm; frequency_mhz = (s.world a).frequency_mhz }))
        × ((b : ℕ) → (a == b) ≡ false → out.0.world b ≡ s.world b)
  set_power-taken prefer clock s m k r a dbm sm known active valid limits healthy =
      let sent =
        set_power-Sent (silvus_adapter formats digits none now) prefer clock s m k r a dbm sm known
          active valid in
      let call =
        silvus_adapter-taken dbm s.world a (healthy_checks (s.world a) healthy)
          (rw (limits.0, limits.1) valid) in
      let world : Mocks F = update s.world a (take_power now dbm (s.world a)) in
      let moved = sent.1 ∙ ap (λ (y : Option Err × Mocks F). y.1) call in
      (
        sent.0 ∙ ap (λ (y : Option Err × Mocks F). answer_to y.0) call,
        ap (λ (w : Mocks F). get_mock_state none (w a)) moved
            ∙ (ap (λ x. get_mock_state none x)
                  (update-at s.world a (take_power now dbm (s.world a)))
                ∙ reads_power dbm (s.world a) healthy),
        λ b other.
            ap (λ (w : Mocks F). w b) moved
            ∙ update-other s.world a b (take_power now dbm (s.world a)) other,
      )
