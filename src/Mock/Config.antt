-- ===== src/Mock/Config.antt =====
-- silvus-mock/internal/config/config.go: the configuration, its defaults, the overrides from the
-- environment and the validation. Reading a YAML file is a parameter of `load`. The messages of the
-- validation leave out the values that they print.
pub mod Rules
use radio_container.Prelude.{
  ℕ, Bool, true, false, ◌||◌, List, [], ◌∷◌, Option, none, some, String, str_eq, codes, any, is_nil,
  if◌then◌else◌,
}
use radio_container.Prelude.Int.{ℤ, pos, lt_int, le_int}

-- A string that the program parses or searches, as its codes.
abbrev pub Text : Type 0
Text = List ℕ

pub record HttpConfig : Type 0 where
  pub port : ℤ
  pub server_header : String
  pub dev_mode : Bool

pub record MaintenanceConfig : Type 0 where
  pub port : ℤ
  pub allowed_cidrs : List Text

pub record NetworkConfig : Type 0 where
  pub http : HttpConfig
  pub maintenance : MaintenanceConfig

pub record FrequencyProfile : Type 0 where
  pub frequencies : List Text
  pub bandwidth : Text
  pub antenna_mask : Text

pub record PowerConfig : Type 0 where
  pub min_dbm : ℤ
  pub max_dbm : ℤ

pub record BlackoutConfig : Type 0 where
  pub soft_boot_sec : ℤ
  pub power_change_sec : ℤ
  pub radio_reset_sec : ℤ

-- The timeouts in seconds.
pub record CommandsConfig : Type 0 where
  pub set_power : ℤ
  pub set_channel : ℤ
  pub select_radio : ℤ
  pub read : ℤ

pub record TimingConfig : Type 0 where
  pub blackout : BlackoutConfig
  pub commands : CommandsConfig
  pub busy_base_ms : ℤ

pub record Config : Type 0 where
  pub network : NetworkConfig
  pub frequency_profiles : List FrequencyProfile
  pub power : PowerConfig
  pub timing : TimingConfig
  pub mode : String

unfoldable pub get_default_config : Config
get_default_config = record {
  network = record {
    http = record { port = pos 80; server_header = ""; dev_mode = false };
    maintenance = record {
      port = pos 50000;
      allowed_cidrs = codes "127.0.0.0/8" ∷ codes "172.20.0.0/16" ∷ [];
    };
  };
  frequency_profiles =
      record {
        frequencies = codes "2200:20:2380" ∷ codes "4700" ∷ [];
        bandwidth = codes "-1";
        antenna_mask = codes "15";
      }
      ∷ record {
        frequencies = codes "4420:40:4700" ∷ [];
        bandwidth = codes "-1";
        antenna_mask = codes "3";
      }
      ∷ record {
        frequencies = codes "4700:20:4980" ∷ [];
        bandwidth = codes "-1";
        antenna_mask = codes "12";
      }
      ∷ [];
  power = record { min_dbm = pos 0; max_dbm = pos 39 };
  timing = record {
    blackout = record {
      soft_boot_sec = pos 30;
      power_change_sec = pos 5;
      radio_reset_sec = pos 60;
    };
    commands = record {
      set_power = pos 10;
      set_channel = pos 30;
      select_radio = pos 5;
      read = pos 5;
    };
    busy_base_ms = pos 1000;
  };
  mode = "normal";
}

unfoldable pub set_mode : String → Config → Config
set_mode mode cfg = record cfg { mode = mode }

unfoldable pub set_soft_boot : ℤ → Config → Config
set_soft_boot sec cfg = record cfg {
  timing = record cfg.timing { blackout = record cfg.timing.blackout { soft_boot_sec = sec } };
}

unfoldable pub override_soft_boot : Option ℤ → Config → Config
unfolding set_soft_boot
override_soft_boot none cfg = cfg
override_soft_boot (some sec) cfg = set_soft_boot sec cfg

-- `getenv` and `atoi` are the library's.
unfoldable pub apply_env_overrides : (String → String) → (Text → Option ℤ) → Config → Config
unfolding set_mode override_soft_boot
apply_env_overrides getenv atoi cfg =
    let mode = getenv "SILVUS_MOCK_MODE" in
    let soft_boot = getenv "SILVUS_MOCK_SOFT_BOOT_TIME" in
    let named = if str_eq mode "" then cfg else set_mode mode cfg in
    if str_eq soft_boot "" then named else override_soft_boot (atoi (codes soft_boot)) named

abbrev pub valid_modes : List String
valid_modes = "normal" ∷ "degraded" ∷ "offline" ∷ []

-- What is wrong with a configuration.
pub data Fault : Type 0 where
  invalid_mode invalid_power_range soft_boot_outside set_power_outside set_channel_outside
        no_profiles :
      Fault

unfoldable pub validate_config : Config → Option Fault
validate_config cfg =
    let boot = cfg.timing.blackout.soft_boot_sec in
    let power = cfg.timing.commands.set_power in
    let channel = cfg.timing.commands.set_channel in
    if any (λ m. str_eq m cfg.mode) valid_modes
    then if lt_int cfg.power.min_dbm (pos 0)
        || (lt_int (pos 39) cfg.power.max_dbm || lt_int cfg.power.max_dbm cfg.power.min_dbm)
      then some invalid_power_range
      else if le_int boot (pos 0) || lt_int (pos 60) boot
      then some soft_boot_outside
      else if le_int power (pos 0) || lt_int (pos 30) power
      then some set_power_outside
      else if le_int channel (pos 0) || lt_int (pos 60) channel
      then some set_channel_outside
      else if is_nil cfg.frequency_profiles
      then some no_profiles
      else none
    else some invalid_mode

-- Why `load` returned no configuration.
pub data LoadError : Type 0 where
  load_failed : LoadError
  validation_failed : Fault → LoadError

pub data Loaded : Type 0 where
  loaded : Config → Loaded
  not_loaded : LoadError → Loaded

-- `read_file` is `loadFromFile`: whether it succeeded, and the configuration with what the file
-- set. A failure may leave fields set.
unfoldable pub load_overrides :
    (String → Config → Bool × Config) → (String → String) → Config → Bool × Config
load_overrides read_file getenv cfg =
    let path = getenv "CBTIMING_CONFIG" in
    if str_eq path "" then (true, cfg) else read_file path cfg

unfoldable pub verdict : Option Fault → Config → Loaded
verdict none cfg = loaded cfg
verdict (some fault) cfg = not_loaded (validation_failed fault)

unfoldable pub validated : Config → Loaded
unfolding verdict validate_config
validated cfg = verdict (validate_config cfg) cfg

unfoldable pub load :
    (String → Config → Bool × Config) → (String → String) → (Text → Option ℤ) → Config → Loaded
unfolding load_overrides apply_env_overrides validated
load read_file getenv atoi defaults =
    let from_default = (read_file "config/default.yaml" defaults).1 in
    let from_file = load_overrides read_file getenv from_default in
    if from_file.0
    then validated (apply_env_overrides getenv atoi from_file.1)
    else not_loaded load_failed
