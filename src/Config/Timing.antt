-- ===== src/Config/Timing.antt =====
-- rcc/internal/config/timing.go: the timing configuration. Durations are nanoseconds.
use radio_container.Prelude.{Option}
use radio_container.Prelude.Int.{ℤ}
use radio_container.Config.BandPlan.{SilvusBandPlan}

pub record TimingConfig (F : Type 0) : Type 0 where
  pub heartbeat_interval : ℤ
  pub heartbeat_jitter : ℤ
  pub heartbeat_timeout : ℤ
  pub probe_normal_interval : ℤ
  pub probe_recovering_initial : ℤ
  pub probe_recovering_backoff : F
  pub probe_recovering_max : ℤ
  pub probe_offline_initial : ℤ
  pub probe_offline_backoff : F
  pub probe_offline_max : ℤ
  pub command_timeout_set_power : ℤ
  pub command_timeout_set_channel : ℤ
  pub command_timeout_select_radio : ℤ
  pub command_timeout_get_state : ℤ
  pub event_buffer_size : ℤ
  pub event_buffer_retention : ℤ
  pub silvus_band_plan : Option (SilvusBandPlan F)
