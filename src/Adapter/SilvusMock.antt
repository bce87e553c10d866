-- ===== src/Adapter/SilvusMock.antt =====
-- rcc/internal/adapter/silvusmock/silvusmock.go: an adapter that keeps its radio in memory and can be
-- told to fail. `ctx` is the error of a context that is done, `now` the clock; how a float is printed
-- (`%f` and `%.1f`) is a parameter.
pub mod Faults
use radio_container.Prelude.{
  ℕ, ◌==◌, Bool, true, false, ◌||◌, List, [], ◌∷◌, ◌++◌, map, Option, none, some, String, str_eq,
  codes, if◌then◌else◌,
}
use radio_container.Prelude.Int.{ℤ, pos}
use radio_container.Prelude.Float.{Float, flt, fle, feq, lit}
use radio_container.Adapter.Errors.{Err, message}
use radio_container.Adapter.{RadioState, Channel, FrequencyProfile, Result, ok, err, RadioAdapter}

pub record SilvusMock (F : Type 0) : Type 0 where
  pub radio_id : String
  pub model : String
  pub status : String
  pub power_dbm : F
  pub frequency_mhz : F
  pub channel_index : ℤ
  pub band_plan : List (Channel F)
  pub last_command_time : ℕ
  pub fault_mode : String
  pub min_power : ℕ
  pub max_power : ℕ
  pub valid_freqs : List F

-- `%f` and `%.1f`
pub record Formats (F : Type 0) : Type 0 where
  pub six_places : F → List ℕ
  pub one_place : F → List ℕ

-- `checkFaultMode`
unfoldable pub check_fault_mode : {F : Type 0} → SilvusMock F → String → Option Err
check_fault_mode s operation =
    if str_eq s.fault_mode "ReturnBusy"
    then some (message (codes "BUSY: SilvusMock simulated busy error for " ++ codes operation))
    else if str_eq s.fault_mode "ReturnUnavailable"
    then some (
        message
          (codes "UNAVAILABLE: SilvusMock simulated unavailable error for " ++ codes operation))
    else if str_eq s.fault_mode "ReturnInvalidRange"
    then some (
        message
          (codes "INVALID_RANGE: SilvusMock simulated invalid range error for " ++ codes operation))
    else none

-- The checks that every operation of the interface starts with.
unfoldable pub blocked : {F : Type 0} → Option Err → String → SilvusMock F → Option Err
unfolding check_fault_mode
blocked (some e) operation s = some e
blocked none operation s = check_fault_mode s operation

unfoldable pub unless_blocked : {X : Type 0} → Option Err → X → Result X
unless_blocked none x = ok x
unless_blocked (some e) x = err e

module _ {F : Type 0} where
  unfoldable pub valid_freqs_of : List (Channel F) → List F
  valid_freqs_of plan = map (λ (c : Channel F). c.frequency_mhz) plan

  unfoldable pub get_state : Option Err → SilvusMock F → Result (RadioState F)
  unfolding blocked unless_blocked
  get_state ctx s =
      unless_blocked (blocked ctx "GetState" s)
        (record { power_dbm = s.power_dbm; frequency_mhz = s.frequency_mhz })

  unfoldable pub read_power_actual : Option Err → SilvusMock F → Result F
  unfolding blocked unless_blocked
  read_power_actual ctx s = unless_blocked (blocked ctx "ReadPowerActual" s) s.power_dbm

  unfoldable pub set_fault_mode : String → SilvusMock F → SilvusMock F
  set_fault_mode mode s = record s { fault_mode = mode }

  unfoldable pub clear_fault_mode : SilvusMock F → SilvusMock F
  clear_fault_mode s = record s { fault_mode = "" }

  unfoldable pub get_current_state : SilvusMock F → F × F × ℤ
  get_current_state s = (s.power_dbm, s.frequency_mhz, s.channel_index)

  unfoldable pub set_current_state : ℕ → F → F → ℤ → SilvusMock F → SilvusMock F
  set_current_state now power frequency channel s = record s {
    power_dbm = power;
    frequency_mhz = frequency;
    channel_index = channel;
    last_command_time = now;
  }

  unfoldable pub get_band_plan : SilvusMock F → List (Channel F)
  get_band_plan s = s.band_plan

  -- The channel index stays that of the old plan.
  unfoldable pub set_band_plan : List (Channel F) → SilvusMock F → SilvusMock F
  unfolding valid_freqs_of
  set_band_plan plan s = record s { band_plan = plan; valid_freqs = valid_freqs_of plan }

  unfoldable pub get_last_command_time : SilvusMock F → ℕ
  get_last_command_time s = s.last_command_time

  unfoldable pub simulate_silvus_behavior : ℕ → SilvusMock F → SilvusMock F
  simulate_silvus_behavior now s = record s { status = "online"; last_command_time = now }

  unfoldable pub take_power : ℕ → F → SilvusMock F → SilvusMock F
  take_power now dbm s = record s { power_dbm = dbm; last_command_time = now }

module _ {F : Type 0} ⦃o : Float F⦄ where
  -- The plan of a mock that is given none.
  unfoldable pub default_band_plan : List (Channel F)
  default_band_plan =
      record { index = pos 1; frequency_mhz = lit 2412 }
      ∷ record { index = pos 2; frequency_mhz = lit 2417 }
      ∷ record { index = pos 3; frequency_mhz = lit 2422 }
      ∷ record { index = pos 4; frequency_mhz = lit 2427 }
      ∷ record { index = pos 5; frequency_mhz = lit 2432 }
      ∷ []

  unfoldable pub plan_or_default : Option (List (Channel F)) → List (Channel F)
  unfolding default_band_plan
  plan_or_default none = default_band_plan
  plan_or_default (some plan) = plan

  -- `none` is a plan that is nil.
  unfoldable pub new_silvus_mock : String → Option (List (Channel F)) → ℕ → SilvusMock F
  unfolding plan_or_default valid_freqs_of
  new_silvus_mock radio_id given now = record {
    radio_id = radio_id;
    model = "SilvusMock-Test";
    status = "online";
    power_dbm = lit 20;
    frequency_mhz = lit 2412;
    channel_index = pos 1;
    band_plan = plan_or_default given;
    last_command_time = now;
    fault_mode = "";
    min_power = 0;
    max_power = 39;
    valid_freqs = valid_freqs_of (plan_or_default given);
  }

  -- `updateChannelIndex`: the first channel of the plan with that frequency, or 0.
  unfoldable pub index_of : List (Channel F) → F → ℤ
  index_of [] f = pos 0
  index_of (c ∷ plan) f =
      let rest = index_of plan f in if feq c.frequency_mhz f then c.index else rest

  unfoldable pub take_frequency : ℕ → F → SilvusMock F → SilvusMock F
  unfolding index_of
  take_frequency now f s = record s {
    frequency_mhz = f;
    last_command_time = now;
    channel_index = index_of s.band_plan f;
  }

  unfoldable pub supported_frequency_profiles :
      Option Err → SilvusMock F → Result (List (FrequencyProfile F))
  unfolding blocked unless_blocked
  supported_frequency_profiles ctx s =
      unless_blocked (blocked ctx "SupportedFrequencyProfiles" s)
        (record { frequencies = s.valid_freqs; bandwidth = lit 20; antenna_mask = pos 1 } ∷ [])

  module _ (formats : Formats F) (digits : ℕ → List ℕ) where
    unfoldable pub power_refusal : F → SilvusMock F → Err
    power_refusal dbm s = message (
        codes "INVALID_RANGE: power "
        ++ (formats.six_places dbm
            ++ (codes " is outside valid range ["
                ++ (digits s.min_power ++ (codes ", " ++ (digits s.max_power ++ codes "]"))))))

    unfoldable pub set_power : Option Err → ℕ → F → SilvusMock F → Option Err × SilvusMock F
    unfolding blocked power_refusal take_power
    set_power ctx now dbm s = elim (blocked ctx "SetPower" s) [
      | some e ↦ (some e, s)
      | none ↦
          if flt dbm (lit s.min_power) || flt (lit s.max_power) dbm
          then (some (power_refusal dbm s), s)
          else (none, take_power now dbm s)
    ]

    unfoldable pub frequency_refusal : F → String → Err
    frequency_refusal f why =
        message (codes "INVALID_RANGE: frequency " ++ (formats.one_place f ++ codes why))

    unfoldable pub set_frequency : Option Err → ℕ → F → SilvusMock F → Option Err × SilvusMock F
    unfolding blocked frequency_refusal take_frequency
    set_frequency ctx now f s = elim (blocked ctx "SetFrequency" s) [
      | some e ↦ (some e, s)
      | none ↦
          if fle f (lit 0)
          then (some (frequency_refusal f " is invalid"), s)
          else if flt f (lit 100) || flt (lit 6000) f
          then (some (frequency_refusal f " is outside valid range [100, 6000]"), s)
          else (none, take_frequency now f s)
    ]

-- The mocks of a process: a handle stands for one of them.
abbrev pub Mocks : Type 0 → Type 0
Mocks F = ℕ → SilvusMock F

unfoldable pub update : {F : Type 0} → Mocks F → ℕ → SilvusMock F → Mocks F
update w a s b = if a == b then s else w b

-- The adapters that `SilvusMock` implements, with `GetBandPlan`, at one state of the context.
unfoldable pub silvus_adapter :
    {F : Type 0} ⦃o : Float F⦄
    → Formats F
    → (ℕ → List ℕ)
    → Option Err
    → ℕ
    → RadioAdapter F ℕ (Mocks F)
unfolding update set_power set_frequency read_power_actual supported_frequency_profiles get_state
    get_band_plan
silvus_adapter formats digits ctx now = record {
  get_state = λ a w. (get_state ctx (w a), w);
  set_power =
      λ a dbm w. let (e, s) = set_power formats digits ctx now dbm (w a) in (e, update w a s);
  set_frequency =
      λ a f w. let (e, s) = set_frequency formats digits ctx now f (w a) in (e, update w a s);
  read_power_actual = λ a w. (read_power_actual ctx (w a), w);
  supported_frequency_profiles = λ a w. (supported_frequency_profiles ctx (w a), w);
  get_band_plan = λ a w. some (get_band_plan (w a));
}
