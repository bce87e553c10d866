-- ===== src/Config/Load.antt =====
-- rcc/internal/config/load.go: the configuration from the baseline, the environment and two files; the
-- baseline is that of rcc/internal/config/timing.go. The environment, Go's parsers, the decoding of
-- JSON and the files' contents are parameters, as is the float 1.5.
pub mod Origin
mod Examples
use radio_container.Prelude.{ℕ, ◌*◌, ◌^◌, Option, none, some, String, str_eq, if◌then◌else◌}
use radio_container.Prelude.Int.{ℤ, pos, eq_int}
use radio_container.Prelude.Float.{Float, feq, lit}
use radio_container.Config.BandPlan.{SilvusBandPlan}
use radio_container.Config.Timing.{TimingConfig}
use radio_container.Config.Validate.{Failure, validate_timing}

abbrev seconds : ℕ → ℤ
seconds n = pos (n * 10 ^ 9)

unfoldable pub load_cb_timing_baseline : {F : Type 0} → ⦃o : Float F⦄ → F → TimingConfig F
load_cb_timing_baseline one_and_half = record {
  heartbeat_interval = seconds 15;
  heartbeat_jitter = seconds 2;
  heartbeat_timeout = seconds 45;
  probe_normal_interval = seconds 30;
  probe_recovering_initial = seconds 5;
  probe_recovering_backoff = one_and_half;
  probe_recovering_max = seconds 15;
  probe_offline_initial = seconds 10;
  probe_offline_backoff = lit 2;
  probe_offline_max = seconds 300;
  command_timeout_set_power = seconds 10;
  command_timeout_set_channel = seconds 30;
  command_timeout_select_radio = seconds 5;
  command_timeout_get_state = seconds 5;
  event_buffer_size = pos 50;
  event_buffer_retention = seconds 3600;
  silvus_band_plan = none;
}

-- `os.Getenv`, `time.ParseDuration`, `strconv.ParseFloat`, `strconv.Atoi` and `json.Unmarshal`.
pub record Environment (F : Type 0) : Type 0 where
  pub getenv : String → String
  pub parse_duration : String → Option ℤ
  pub parse_float : String → Option F
  pub atoi : String → Option ℤ
  pub unmarshal_plan : String → Option (SilvusBandPlan F)

-- The value if there is one.
unfoldable pub or_default : {X : Type 0} → Option X → X → X
or_default none default_value = default_value
or_default (some x) default_value = x

-- A variable that is set and parses, or the default.
unfoldable pub get_env : {X : Type 0} → (String → String) → (String → Option X) → String → X → X
unfolding or_default
get_env getenv parse key default_value =
    if str_eq (getenv key) "" then default_value else or_default (parse (getenv key)) default_value

-- `loadSilvusBandPlanFromJSON`
abbrev pub unmarshal_some :
    {F : Type 0} → Environment F → String → Option (Option (SilvusBandPlan F))
unmarshal_some env text = elim (env.unmarshal_plan text) [
  | none ↦ none
  | some plan ↦ some (some plan)
]

module _ {F : Type 0} (env : Environment F) where
  abbrev pub get_env_duration : String → ℤ → ℤ
  get_env_duration = get_env env.getenv env.parse_duration

  abbrev pub get_env_float : String → F → F
  get_env_float = get_env env.getenv env.parse_float

  abbrev pub get_env_int : String → ℤ → ℤ
  get_env_int = get_env env.getenv env.atoi

  unfoldable pub apply_env_overrides : TimingConfig F → TimingConfig F
  unfolding get_env
  apply_env_overrides c = record {
    heartbeat_interval = get_env_duration "RCC_TIMING_HEARTBEAT_INTERVAL" c.heartbeat_interval;
    heartbeat_jitter = get_env_duration "RCC_TIMING_HEARTBEAT_JITTER" c.heartbeat_jitter;
    heartbeat_timeout = get_env_duration "RCC_TIMING_HEARTBEAT_TIMEOUT" c.heartbeat_timeout;
    probe_normal_interval =
        get_env_duration "RCC_TIMING_PROBE_NORMAL_INTERVAL" c.probe_normal_interval;
    probe_recovering_initial =
        get_env_duration "RCC_TIMING_PROBE_RECOVERING_INITIAL" c.probe_recovering_initial;
    probe_recovering_backoff =
        get_env_float "RCC_TIMING_PROBE_RECOVERING_BACKOFF" c.probe_recovering_backoff;
    probe_recovering_max =
        get_env_duration "RCC_TIMING_PROBE_RECOVERING_MAX" c.probe_recovering_max;
    probe_offline_initial =
        get_env_duration "RCC_TIMING_PROBE_OFFLINE_INITIAL" c.probe_offline_initial;
    probe_offline_backoff =
        get_env_float "RCC_TIMING_PROBE_OFFLINE_BACKOFF" c.probe_offline_backoff;
    probe_offline_max = get_env_duration "RCC_TIMING_PROBE_OFFLINE_MAX" c.probe_offline_max;
    command_timeout_set_power =
        get_env_duration "RCC_TIMING_COMMAND_SET_POWER" c.command_timeout_set_power;
    command_timeout_set_channel =
        get_env_duration "RCC_TIMING_COMMAND_SET_CHANNEL" c.command_timeout_set_channel;
    command_timeout_select_radio =
        get_env_duration "RCC_TIMING_COMMAND_SELECT_RADIO" c.command_timeout_select_radio;
    command_timeout_get_state =
        get_env_duration "RCC_TIMING_COMMAND_GET_STATE" c.command_timeout_get_state;
    event_buffer_size = get_env_int "RCC_TIMING_EVENT_BUFFER_SIZE" c.event_buffer_size;
    event_buffer_retention =
        get_env_duration "RCC_TIMING_EVENT_BUFFER_RETENTION" c.event_buffer_retention;
    silvus_band_plan =
        get_env env.getenv (unmarshal_some env) "RCC_SILVUS_BAND_PLAN" c.silvus_band_plan;
  }

-- `if file != 0 { merged = file }`
abbrev pub nonzero_int : ℤ → ℤ → ℤ
nonzero_int current file = if eq_int file (pos 0) then current else file

module _ {F : Type 0} ⦃o : Float F⦄ where
  abbrev pub nonzero_float : F → F → F
  nonzero_float current file = if feq file (lit 0) then current else file

  -- The file's band plan is not taken over.
  unfoldable pub merge_timing_configs : TimingConfig F → TimingConfig F → TimingConfig F
  merge_timing_configs current file = record {
    heartbeat_interval = nonzero_int current.heartbeat_interval file.heartbeat_interval;
    heartbeat_jitter = nonzero_int current.heartbeat_jitter file.heartbeat_jitter;
    heartbeat_timeout = nonzero_int current.heartbeat_timeout file.heartbeat_timeout;
    probe_normal_interval = nonzero_int current.probe_normal_interval file.probe_normal_interval;
    probe_recovering_initial =
        nonzero_int current.probe_recovering_initial file.probe_recovering_initial;
    probe_recovering_backoff =
        nonzero_float current.probe_recovering_backoff file.probe_recovering_backoff;
    probe_recovering_max = nonzero_int current.probe_recovering_max file.probe_recovering_max;
    probe_offline_initial = nonzero_int current.probe_offline_initial file.probe_offline_initial;
    probe_offline_backoff = nonzero_float current.probe_offline_backoff file.probe_offline_backoff;
    probe_offline_max = nonzero_int current.probe_offline_max file.probe_offline_max;
    command_timeout_set_power =
        nonzero_int current.command_timeout_set_power file.command_timeout_set_power;
    command_timeout_set_channel =
        nonzero_int current.command_timeout_set_channel file.command_timeout_set_channel;
    command_timeout_select_radio =
        nonzero_int current.command_timeout_select_radio file.command_timeout_select_radio;
    command_timeout_get_state =
        nonzero_int current.command_timeout_get_state file.command_timeout_get_state;
    event_buffer_size = nonzero_int current.event_buffer_size file.event_buffer_size;
    event_buffer_retention = nonzero_int current.event_buffer_retention file.event_buffer_retention;
    silvus_band_plan = current.silvus_band_plan;
  }

-- What `os.Stat`, `os.Open` and the decoder find.
pub data File (X : Type 0) : Type 0 where
  absent unreadable : File X
  contents : X → File X

pub data LoadResult (F : Type 0) : Type 0 where
  accepted : TimingConfig F → LoadResult F
  failed_to_load : String → LoadResult F
  failed_to_validate : Failure → LoadResult F

module _ {F : Type 0} ⦃o : Float F⦄ where
  unfoldable pub merge_file : File (TimingConfig F) → TimingConfig F → Option (TimingConfig F)
  unfolding merge_timing_configs
  merge_file absent c = some c
  merge_file unreadable c = none
  merge_file (contents file) c = some (merge_timing_configs c file)

  unfoldable pub take_plan : File (SilvusBandPlan F) → TimingConfig F → Option (TimingConfig F)
  take_plan absent c = some c
  take_plan unreadable c = none
  take_plan (contents plan) c = some (record c { silvus_band_plan = some plan })

  unfoldable pub validated : TimingConfig F → LoadResult F
  unfolding validate_timing
  validated c = elim (validate_timing (some c)) [
    | none ↦ accepted c
    | some e ↦ failed_to_validate e
  ]

  unfoldable pub load :
      Environment F → F → File (TimingConfig F) → File (SilvusBandPlan F) → LoadResult F
  unfolding load_cb_timing_baseline apply_env_overrides merge_file take_plan validated
  load env one_and_half config_file plan_file =
      elim (merge_file config_file
        (apply_env_overrides env (load_cb_timing_baseline one_and_half))) [
          | none ↦ failed_to_load "config.json"
          | some c ↦ elim (take_plan plan_file c) [
            | none ↦ failed_to_load "silvus-band-plan.json"
            | some d ↦ validated d
          ]
        ]
