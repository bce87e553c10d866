-- ===== src/Mock/Radio.antt =====
-- silvus-mock/internal/state/radio.go: the radio's state and the handlers of commands.
-- A time is the number of nanoseconds since the zero time of Go; a duration before the zero time
-- stops there. `process_command` takes the two readings of the clock, `now` for the test on the
-- blackout and `later` for its new end. `none` stands for a loop over a range of frequencies that
-- did not end within the given number of rounds; Radio/Range says when the number is enough.
pub mod Range
pub mod Changes
pub mod Invariant
pub mod Progress
pub mod Blackout
use radio_container.Prelude.{
  ℕ, ◌+◌, ◌-◌, suc, Bool, true, false, ◌||◌, List, [], ◌∷◌, Option, none, some, String, str_eq,
  codes, ltb, if◌then◌else◌, length, ◌==◌,
}
use radio_container.Prelude.Float.{Float}
use radio_container.Prelude.Int.{ℤ, pos, negsuc, lt_int, int64, times, int_text}
use radio_container.Mock.Config.{Text, Config, FrequencyProfile}
use Range.{Numbers, is_valid_frequency}

pub record PowerLimits : Type 0 where
  pub min_dbm : ℤ
  pub max_dbm : ℤ

-- The fields that the commands read and write. The queue and the channels of the lifecycle are
-- modelled with the worker.
pub record RadioState : Type 0 where
  pub current_freq : Text
  pub current_power : ℤ
  pub blackout_until : ℕ
  pub mode : String
  pub frequency_profiles : List FrequencyProfile
  pub power_limits : PowerLimits
  pub soft_boot_duration : ℤ
  pub power_change_duration : ℤ
  pub radio_reset_duration : ℤ

pub record Command : Type 0 where
  pub name : String
  pub params : List Text

-- The cases of the `switch` on the command's type.
pub data Kind : Type 0 where
  set_freq get_freq set_power get_power get_profiles zeroize radio_reset factory_reset unknown :
      Kind

unfoldable pub kind_of : String → Kind
kind_of name =
    if str_eq name "setFreq"
    then set_freq
    else if str_eq name "getFreq"
    then get_freq
    else if str_eq name "setPower"
    then set_power
    else if str_eq name "getPower"
    then get_power
    else if str_eq name "getProfiles"
    then get_profiles
    else if str_eq name "zeroize"
    then zeroize
    else if str_eq name "radioReset"
    then radio_reset
    else if str_eq name "factoryReset"
    then factory_reset
    else unknown

-- The values of the field `Result`.
pub data Value : Type 0 where
  nil : Value
  texts : List Text → Value
  profiles : List FrequencyProfile → Value

pub record CommandResponse : Type 0 where
  pub result : Value
  pub error : String

abbrev pub refusal : String → CommandResponse
refusal e = record { result = nil; error = e }

abbrev pub reply : Value → CommandResponse
reply v = record { result = v; error = "" }

abbrev pub done : CommandResponse
done = reply (texts ([] ∷ []))

-- `time.Duration(sec) * time.Second`
unfoldable pub seconds : ℤ → ℤ
seconds sec = int64 (times sec 1_000_000_000)

-- `t.Add(d)`
abbrev pub add_duration : ℕ → ℤ → ℕ
add_duration t (pos n) = t + n
add_duration t (negsuc n) = t - suc n

unfoldable pub new_radio_state : Config → RadioState
unfolding seconds
new_radio_state cfg = record {
  current_freq = codes "4700.0";
  current_power = pos 30;
  blackout_until = 0;
  mode = cfg.mode;
  frequency_profiles = cfg.frequency_profiles;
  power_limits = record { min_dbm = cfg.power.min_dbm; max_dbm = cfg.power.max_dbm };
  soft_boot_duration = seconds cfg.timing.blackout.soft_boot_sec;
  power_change_duration = seconds cfg.timing.blackout.power_change_sec;
  radio_reset_duration = seconds cfg.timing.blackout.radio_reset_sec;
}

unfoldable pub is_available : ℕ → RadioState → Bool
is_available now rs = ltb rs.blackout_until now

unfoldable pub get_status : ℕ → RadioState → Text × ℤ × Bool
unfolding is_available
get_status now rs = (rs.current_freq, rs.current_power, is_available now rs)

unfoldable pub enter_soft_boot : ℕ → Text → RadioState → RadioState
enter_soft_boot later freq rs = record rs {
  current_freq = freq;
  blackout_until = add_duration later rs.soft_boot_duration;
}

unfoldable pub set_current_power : ℤ → RadioState → RadioState
set_current_power power rs = record rs { current_power = power }

unfoldable pub handle_get_freq : RadioState → CommandResponse × RadioState
handle_get_freq rs = (reply (texts (rs.current_freq ∷ [])), rs)

unfoldable pub handle_get_power : RadioState → CommandResponse × RadioState
handle_get_power rs = (reply (texts (int_text rs.current_power ∷ [])), rs)

unfoldable pub handle_get_profiles : RadioState → CommandResponse × RadioState
handle_get_profiles rs = (reply (profiles rs.frequency_profiles), rs)

unfoldable pub handle_zeroize : RadioState → CommandResponse × RadioState
handle_zeroize rs =
    (done, record rs { current_freq = codes "2490.0"; current_power = pos 30; blackout_until = 0 })

unfoldable pub handle_radio_reset : ℕ → RadioState → CommandResponse × RadioState
handle_radio_reset later rs =
    (done, record rs { blackout_until = add_duration later rs.radio_reset_duration })

unfoldable pub handle_factory_reset : RadioState → CommandResponse × RadioState
handle_factory_reset rs =
    (done, record rs { current_freq = codes "2490.0"; current_power = pos 30 })

-- The end of `handleSetPower`: the result of `strconv.Atoi`.
unfoldable pub take_power : Option ℤ → RadioState → CommandResponse × RadioState
unfolding set_current_power
take_power none rs = (refusal "INVALID_RANGE", rs)
take_power (some power) rs =
    if lt_int power rs.power_limits.min_dbm || lt_int rs.power_limits.max_dbm power
    then (refusal "INVALID_RANGE", rs)
    else (done, set_current_power power rs)

-- The end of `handleSetFreq`: the result of `isValidFrequency`.
unfoldable pub take_freq : ℕ → Text → Bool → RadioState → CommandResponse × RadioState
unfolding enter_soft_boot
take_freq later freq true rs = (done, enter_soft_boot later freq rs)
take_freq later freq false rs = (refusal "INVALID_RANGE", rs)

module _ {F : Type 0} ⦃o : Float F⦄ (numbers : Numbers F) where
  unfoldable pub handle_set_power : List Text → RadioState → CommandResponse × RadioState
  unfolding take_power
  handle_set_power (text ∷ []) rs = take_power (numbers.atoi text) rs
  handle_set_power _ rs = (refusal "INTERNAL", rs)

  unfoldable pub handle_set_freq :
      ℕ → ℕ → List Text → RadioState → Option (CommandResponse × RadioState)
  unfolding take_freq
  handle_set_freq rounds later (text ∷ []) rs =
      elim (is_valid_frequency numbers rounds rs.frequency_profiles text) [
        | none ↦ none
        | some valid ↦ some (take_freq later text valid rs)
      ]
  handle_set_freq rounds later _ rs = some (refusal "INTERNAL", rs)

  -- The bodies of the `switch` on the command's type.
  unfoldable pub dispatch :
      ℕ → ℕ → Kind → List Text → RadioState → Option (CommandResponse × RadioState)
  unfolding handle_set_freq handle_set_power
  dispatch rounds later set_freq params rs = handle_set_freq rounds later params rs
  dispatch rounds later get_freq params rs = some (handle_get_freq rs)
  dispatch rounds later set_power params rs = some (handle_set_power params rs)
  dispatch rounds later get_power params rs = some (handle_get_power rs)
  dispatch rounds later get_profiles params rs = some (handle_get_profiles rs)
  dispatch rounds later zeroize params rs = some (handle_zeroize rs)
  dispatch rounds later radio_reset params rs = some (handle_radio_reset later rs)
  dispatch rounds later factory_reset params rs = some (handle_factory_reset rs)
  dispatch rounds later unknown params rs = some (refusal "INTERNAL", rs)

  unfoldable pub process_command :
      ℕ → ℕ → ℕ → Command → RadioState → Option (CommandResponse × RadioState)
  unfolding kind_of dispatch
  process_command rounds now later cmd rs =
      if ltb now rs.blackout_until
      then some (refusal "UNAVAILABLE", rs)
      else dispatch rounds later (kind_of cmd.name) cmd.params rs
