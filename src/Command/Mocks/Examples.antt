-- ===== src/Command/Mocks/Examples.antt =====
-- Tests and examples of the orchestrator with Silvus mocks.
use radio_container.Prelude.{
  ℕ, ◌≡◌, refl, false, ◌==◌, if◌then◌else◌, List, [], ◌∷◌, none, some, String, codes,
}
use radio_container.Prelude.Dict.{get}
use radio_container.Prelude.Float.{Sample, sample_float}
use radio_container.Adapter.Errors.{Err, wrapped, busy, code_text}
use radio_container.Adapter.{ok, err}
use radio_container.Adapter.SilvusMock.{
  SilvusMock, Formats, Mocks, new_silvus_mock, set_fault_mode, silvus_adapter,
  get_state as get_mock_state,
}
use radio_container.Adapter.SilvusMock.Faults.{fault_code}
use radio_container.Radio.{Radio, Manager}
use radio_container.Telemetry.Hub.{Case, channel_send}
use radio_container.Command.State.{Orchestrator}
use radio_container.Command.Orchestrator.{set_power}
use radio_container.Command.Mocks.{set_power-fault, set_power-taken}
use radio_container.Api.Errors.{Reply, program, to_api_error}

abbrev radio : Radio Sample
radio = record {
  id = "a";
  model = "SilvusMock-Test";
  status = "online";
  capabilities = none;
  state = none;
  last_seen = 1;
}

abbrev manager : Manager Sample ℕ
manager = record { radios = ("a", radio) ∷ []; active_radio_id = "a"; adapters = ("a", 7) ∷ [] }

abbrev mock : SilvusMock Sample
mock = new_silvus_mock "a" none 1

-- Mock 7 is given, and all others are new.
abbrev mocks : SilvusMock Sample → Mocks Sample
mocks s a = if a == 7 then s else mock

abbrev orchestrator : SilvusMock Sample → Orchestrator Sample ℕ (Mocks Sample)
orchestrator s = record {
  radio_manager = some manager;
  active_adapter = some 7;
  telemetry_hub = none;
  audit_log = some [];
  silvus_band_plan = none;
  world = mocks s;
}

abbrev formats : Formats Sample
formats = record { six_places = λ x. codes "0.000000"; one_place = λ x. codes "0.0" }

abbrev digits : ℕ → List ℕ
digits n = codes "0"

abbrev prefers_sending : String → Case
prefers_sending id = channel_send

abbrev busy_mock : SilvusMock Sample
busy_mock = set_fault_mode "ReturnBusy" mock

set_power-fault_example :
    (e : Err) × (reply : Reply) × ((set_power
        (silvus_adapter formats digits none 2)
        prefers_sending
        9
        (orchestrator busy_mock)
        "a"
        (some 20)).1
      ≡ err e)
    × (to_api_error (some (program (wrapped (codes "failed: ") e))) ≡ (503, some reply))
    × (reply.code ≡ "BUSY")
    × ((b : ℕ)
        → (set_power
              (silvus_adapter formats digits none 2)
              prefers_sending
              9
              (orchestrator busy_mock)
              "a"
              (some 20)).0.world
            b
          ≡ mocks busy_mock b)
unfolding get new_silvus_mock set_fault_mode fault_code code_text
set_power-fault_example =
    set_power-fault formats digits 2 prefers_sending 9 (orchestrator busy_mock) manager "a" radio 7
      (some 20) busy (codes "failed: ") refl refl refl refl refl

set_power-taken_example :
    ((set_power
        (silvus_adapter formats digits none 2)
        prefers_sending
        9
        (orchestrator mock)
        "a"
        (some 25)).1
      ≡ ok tt)
    × (get_mock_state none (
          (set_power
              (silvus_adapter formats digits none 2)
              prefers_sending
              9
              (orchestrator mock)
              "a"
              (some 25)).0.world
            7)
        ≡ ok (record { power_dbm = some 25; frequency_mhz = some 2412 }))
    × ((b : ℕ)
        → (7 == b) ≡ false
        → (set_power
              (silvus_adapter formats digits none 2)
              prefers_sending
              9
              (orchestrator mock)
              "a"
              (some 25)).0.world
            b
          ≡ mocks mock b)
unfolding get new_silvus_mock
set_power-taken_example =
    set_power-taken formats digits 2 prefers_sending 9 (orchestrator mock) manager "a" radio 7
      (some 25) refl refl refl refl (refl, refl) refl
