-- ===== src/Config/Load/Examples.antt =====
-- An example of Load.
use radio_container.Prelude.{ℕ, ◌≡◌, ◌*◌, ◌^◌, refl, [], none, some, str_eq, if◌then◌else◌}
use radio_container.Prelude.Int.{ℤ, pos}
use radio_container.Prelude.Float.{Sample, sample_float}
use radio_container.Config.BandPlan.{SilvusBandPlan}
use radio_container.Config.Timing.{TimingConfig}
use radio_container.Config.Validate.Rules.{IsValid}
use radio_container.Config.Load.{
  Environment, contents, absent, unreadable, load, accepted, failed_to_load,
}
use radio_container.Config.Load.Origin.{plan_source, load-IsValid_sourced}

abbrev seconds : ℕ → ℤ
seconds n = pos (n * 10 ^ 9)

abbrev plan : SilvusBandPlan Sample
plan = record { models = some [] }

-- The environment sets the buffer's size, the heartbeat's interval and the band plan.
abbrev environment : Environment Sample
environment = record {
  getenv = λ key.
      if str_eq key "RCC_TIMING_EVENT_BUFFER_SIZE"
      then "20"
      else if str_eq key "RCC_TIMING_HEARTBEAT_INTERVAL"
      then "10s"
      else if str_eq key "RCC_TIMING_HEARTBEAT_JITTER"
      then "soon"
      else if str_eq key "RCC_SILVUS_BAND_PLAN"
      then "{}"
      else "";
  parse_duration = λ text. if str_eq text "10s" then some (seconds 10) else none;
  parse_float = λ text. none;
  atoi = λ text. if str_eq text "20" then some (pos 20) else none;
  unmarshal_plan = λ text. if str_eq text "{}" then some plan else none;
}

-- A file with two values.
abbrev config_file : TimingConfig Sample
config_file = record {
  heartbeat_interval = seconds 12;
  heartbeat_jitter = pos 0;
  heartbeat_timeout = pos 0;
  probe_normal_interval = pos 0;
  probe_recovering_initial = pos 0;
  probe_recovering_backoff = some 3;
  probe_recovering_max = pos 0;
  probe_offline_initial = pos 0;
  probe_offline_backoff = some 0;
  probe_offline_max = pos 0;
  command_timeout_set_power = pos 0;
  command_timeout_set_channel = pos 0;
  command_timeout_select_radio = pos 0;
  command_timeout_get_state = pos 0;
  event_buffer_size = pos 0;
  event_buffer_retention = pos 0;
  silvus_band_plan = none;
}

-- The file's interval wins over the environment's, and the jitter that does not parse is left.
abbrev outcome : TimingConfig Sample
outcome = record {
  heartbeat_interval = seconds 12;
  heartbeat_jitter = seconds 2;
  heartbeat_timeout = seconds 45;
  probe_normal_interval = seconds 30;
  probe_recovering_initial = seconds 5;
  probe_recovering_backoff = some 3;
  probe_recovering_max = seconds 15;
  probe_offline_initial = seconds 10;
  probe_offline_backoff = some 2;
  probe_offline_max = seconds 300;
  command_timeout_set_power = seconds 10;
  command_timeout_set_channel = seconds 30;
  command_timeout_select_radio = seconds 5;
  command_timeout_get_state = seconds 5;
  event_buffer_size = pos 20;
  event_buffer_retention = seconds 3600;
  silvus_band_plan = some plan;
}

loads : load environment (some 1) (contents config_file) absent ≡ accepted outcome
unfolding load
loads = refl

unreadable_file : load environment (some 1) unreadable absent ≡ failed_to_load "config.json"
unfolding load
unreadable_file = refl

load-IsValid_sourced_example :
    IsValid outcome × (outcome.silvus_band_plan ≡ plan_source environment absent)
load-IsValid_sourced_example =
    load-IsValid_sourced environment (some 1) (contents config_file) absent outcome loads
