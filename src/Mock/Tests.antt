-- ===== src/Mock/Tests.antt =====
-- Tests and examples of the simulated radio.
mod Servers
use radio_container.Prelude.{
  ℕ, ◌<◌, ◌≤◌, ◌≡◌, ◌≢◌, ◌⊎◌, refl, Bool, true, false, List, [], ◌∷◌, ◌++◌, map, Option, none, some,
  String, codes, str_eq, arith, subst, length, inl, inr, if◌then◌else◌,
}
use radio_container.Prelude.Int.{ℤ, pos, negsuc, pos_part, int_text}
use radio_container.Prelude.Float.{Sample, sample_float}
use radio_container.Mock.Config.{
  Text, Config, get_default_config, load, loaded, set_mode, validate_config, load_overrides,
  apply_env_overrides, validated, verdict, override_soft_boot,
}
use radio_container.Mock.Config.Rules.{IsValid, load-IsValid}
use radio_container.Mock.Radio.{
  RadioState, Command, CommandResponse, new_radio_state, refusal, reply, done, texts, is_available,
  seconds, enter_soft_boot, set_current_power,
}
use radio_container.Mock.Radio.Range.{Numbers, is_valid_frequency}
use radio_container.Mock.Radio.Range.Termination.{is_valid_frequency-Returns}
use radio_container.Mock.Radio.Changes.{Timed, run}
use radio_container.Mock.Radio.Progress.{run-is_available}
use radio_container.Mock.Radio.Blackout.{at, set_freq_to, read_freq, refused, run-set_freq}
use radio_container.Mock.Samples.{numbers, readings, gps, small, small-AllEnd}

abbrev no_files : String → Config → Bool × Config
no_files name cfg = (false, cfg)

abbrev degraded : String → String
degraded name = if str_eq name "SILVUS_MOCK_MODE" then "degraded" else ""

load-IsValid_example :
    IsValid (set_mode "degraded" get_default_config)
    × (str_eq (degraded "SILVUS_MOCK_MODE") "" ≡ false
        → (set_mode "degraded" get_default_config).mode ≡ degraded "SILVUS_MOCK_MODE")
unfolding load load_overrides apply_env_overrides validated verdict validate_config set_mode
    get_default_config
load-IsValid_example =
    load-IsValid degraded numbers.atoi no_files get_default_config
      (set_mode "degraded" get_default_config) refl

is_valid_frequency-Returns_example :
    (b : Bool) × (is_valid_frequency numbers 5 small.frequency_profiles (codes "2231") ≡ some b)
is_valid_frequency-Returns_example =
    is_valid_frequency-Returns numbers 5 small.frequency_profiles (codes "2231") small-AllEnd

abbrev small_radio : RadioState
small_radio = new_radio_state small

-- A frequency is set, a command is refused in the blackout, and the frequency is read.
abbrev history : List Timed
history =
    at 1 2 (set_freq_to (codes "2220"))
    ∷ at 5 5 (record { name = "setPower"; params = codes "7" ∷ [] })
    ∷ at 30_000_000_002 30_000_000_002 read_freq
    ∷ []

abbrev after_history : List CommandResponse × RadioState
after_history = (
  done ∷ refusal "UNAVAILABLE" ∷ reply (texts (codes "2220" ∷ [])) ∷ [],
  enter_soft_boot 2 (codes "2220") small_radio,
)

run-is_available_example :
    (out : List CommandResponse × RadioState) × (run numbers 5 history (new_radio_state small)
      ≡ some out)
    × (is_available 100_000_000_000 out.1 ≡ true)
unfolding seconds small get_default_config
run-is_available_example =
    run-is_available numbers 5 small history 30_000_000_002 100_000_000_000
      (omega arith, (omega arith, (omega arith, tt))) small-AllEnd (omega arith) (omega arith)

run-set_freq_example :
    run numbers 5
      (at 1 2 (set_freq_to (codes "2220"))
        ∷ (at 5 5 read_freq ∷ [] ++ at 30_000_000_002 30_000_000_002 read_freq ∷ []))
      small_radio
    ≡ some (
      done ∷ (refusal "UNAVAILABLE" ∷ [] ++ reply (texts (codes "2220" ∷ [])) ∷ []),
      enter_soft_boot 2 (codes "2220") small_radio,
    )
unfolding new_radio_state seconds small is_valid_frequency numbers get_default_config
run-set_freq_example =
    run-set_freq numbers 5 1 2 (codes "2220") (at 5 5 read_freq ∷ []) 30_000_000_002 30_000_000_002
      small_radio (omega arith) refl (omega arith, tt) (omega arith)
