-- ===== src/Command/State.antt =====
-- orchestrator.go: the orchestrator's state, its audit records and the events that it publishes.
-- The managers and the hub are the orchestrator's pointers, `none` where nil. Of the configuration
-- only the band plan matters here: the timeouts bound the adapter's calls, which may fail anyway.
-- An audit record leaves out the latency. `PublishRadio` never fails, so the faults that a failed
-- publication would publish do not occur.
use radio_container.Prelude.{ℕ, List, [], ◌∷◌, ◌++◌, Option, none, some, String}
use radio_container.Prelude.Int.{ℤ, pos}
use radio_container.Adapter.Errors.{Err, error_text}
use radio_container.Adapter.{Result, err}
use radio_container.Radio.{Manager}
use radio_container.Config.BandPlan.{SilvusBandPlan}
use radio_container.Telemetry.Event.{
  Payload, power_changed, channel_changed, state_online, fault_of,
}
use radio_container.Telemetry.Hub.{Hub, Case, publish_radio}

pub record AuditRecord : Type 0 where
  pub action : String
  pub radio_id : String
  pub result : String

pub record Orchestrator (F A W : Type 0) : Type 0 where
  pub radio_manager : Option (Manager F A)
  pub active_adapter : Option A
  pub telemetry_hub : Option (Hub F)
  pub audit_log : Option (List AuditRecord)
  pub silvus_band_plan : Option (SilvusBandPlan F)
  -- what the adapters keep
  pub world : W

abbrev pub append_record : Option (List AuditRecord) → AuditRecord → Option (List AuditRecord)
append_record none r = none
append_record (some log) r = some (log ++ r ∷ [])

abbrev pub publish_to :
    {F : Type 0} → (String → Case) → Option (Hub F) → String → String → Payload F → Option (Hub F)
publish_to prefer none radio_id kind payload = none
publish_to prefer (some hub) radio_id kind payload = some (
    publish_radio prefer hub radio_id
      (record { id = pos 0; kind = kind; payload = payload; radio = "" }))

module _ {F A W : Type 0} where
  unfoldable pub new_orchestrator :
      Option (Hub F) → Option (SilvusBandPlan F) → W → Orchestrator F A W
  new_orchestrator hub plan world = record {
    radio_manager = none;
    active_adapter = none;
    telemetry_hub = hub;
    audit_log = none;
    silvus_band_plan = plan;
    world = world;
  }

  unfoldable pub new_orchestrator_with_radio_manager :
      Option (Hub F) → Option (SilvusBandPlan F) → Option (Manager F A) → W → Orchestrator F A W
  new_orchestrator_with_radio_manager hub plan manager world = record {
    radio_manager = manager;
    active_adapter = none;
    telemetry_hub = hub;
    audit_log = none;
    silvus_band_plan = plan;
    world = world;
  }

  unfoldable pub set_radio_manager : Orchestrator F A W → Option (Manager F A) → Orchestrator F A W
  set_radio_manager s m = record s { radio_manager = m }

  unfoldable pub set_active_adapter : Orchestrator F A W → Option A → Orchestrator F A W
  set_active_adapter s a = record s { active_adapter = a }

  unfoldable pub set_audit_logger :
      Orchestrator F A W → Option (List AuditRecord) → Orchestrator F A W
  set_audit_logger s log = record s { audit_log = log }

  unfoldable pub log_audit : Orchestrator F A W → String → String → String → Orchestrator F A W
  log_audit s action radio_id result = record s {
    audit_log =
        append_record s.audit_log
          (record { action = action; radio_id = radio_id; result = result });
  }

  -- The path of a command that is refused: one audit record and the error.
  unfoldable pub refuse :
      {X : Type 0}
      → Orchestrator F A W
      → String
      → String
      → String
      → Err
      → Orchestrator F A W × Result X
  unfolding log_audit
  refuse s action radio_id result e = (log_audit s action radio_id result, err e)

  module _ (prefer : String → Case) where
    -- An event of the given type for a radio, where there is a hub.
    unfoldable pub publish_event :
        Orchestrator F A W → String → String → Payload F → Orchestrator F A W
    publish_event s radio_id kind payload = record s {
      telemetry_hub = publish_to prefer s.telemetry_hub radio_id kind payload;
    }

    module _ (now : ℕ) where
      unfoldable pub publish_power_changed_event :
          Orchestrator F A W → String → F → Orchestrator F A W
      unfolding publish_event
      publish_power_changed_event s radio_id power_dbm =
          publish_event s radio_id "powerChanged" (power_changed radio_id power_dbm now)

      unfoldable pub publish_channel_changed_event :
          Orchestrator F A W → String → F → ℤ → Orchestrator F A W
      unfolding publish_event
      publish_channel_changed_event s radio_id frequency_mhz channel_index =
          publish_event s radio_id "channelChanged"
            (channel_changed radio_id frequency_mhz channel_index now)

      unfoldable pub publish_state_event : Orchestrator F A W → String → Orchestrator F A W
      unfolding publish_event
      publish_state_event s radio_id = publish_event s radio_id "state" (state_online radio_id now)

      unfoldable pub publish_fault_event :
          Orchestrator F A W → String → Err → String → Orchestrator F A W
      unfolding publish_event
      publish_fault_event s radio_id e text =
          publish_event s radio_id "fault" (fault_of radio_id (error_text e) text now)
