-- ===== src/Config/Validate.antt =====
-- rcc/internal/config/validate.go: the rules for a timing configuration. A message leaves out the
-- values that Go prints into it.
pub mod Rules
pub mod Constraints
use radio_container.Prelude.{
  ℕ, ◌*◌, ◌^◌, ◌||◌, Bool, List, [], ◌∷◌, Option, none, some, String, if◌then◌else◌,
}
use radio_container.Prelude.Int.{ℤ, pos, lt_int, le_int, half}
use radio_container.Prelude.Float.{Float, flt, lit}
use radio_container.Config.Timing.{TimingConfig}

-- A failed rule; `part` is the text that `ValidateTiming` puts before the message.
pub data Failure : Type 0 where
  config_nil : Failure
  failed : (text : String) → Failure
  part : (text : String) (cause : Failure) → Failure

-- Checks in order, `if … { return fmt.Errorf(text) }`, and then `return nil`.
unfoldable pub first_failed : List (Bool × String) → Option Failure
first_failed [] = none
first_failed ((bad, text) ∷ checks) = if bad then some (failed text) else first_failed checks

abbrev pub within_part : String → Option Failure → Option Failure
within_part text none = none
within_part text (some e) = some (part text e)

-- `if err := …; err != nil { return err }`, and then the rest.
abbrev pub and_then : Option Failure → Option Failure → Option Failure
and_then none rest = rest
and_then (some e) rest = some e

abbrev pub min_timeout : ℤ
min_timeout = pos (100 * 10 ^ 6)

abbrev pub max_timeout : ℤ
max_timeout = pos (300 * 10 ^ 9)

abbrev pub unreasonable : ℤ → Bool
unreasonable timeout = lt_int timeout min_timeout || lt_int max_timeout timeout

module _ {F : Type 0} ⦃o : Float F⦄ where
  abbrev pub heartbeat_checks : TimingConfig F → List (Bool × String)
  heartbeat_checks c =
      (le_int c.heartbeat_interval (pos 0), "heartbeat interval must be positive")
      ∷ (lt_int c.heartbeat_jitter (pos 0), "heartbeat jitter must be non-negative")
      ∷ (
        lt_int (half c.heartbeat_interval) c.heartbeat_jitter,
        "heartbeat jitter exceeds 50% of interval",
      )
      ∷ (lt_int c.heartbeat_timeout c.heartbeat_interval, "heartbeat timeout must be >= interval")
      ∷ []

  unfoldable pub validate_heartbeat : TimingConfig F → Option Failure
  unfolding first_failed
  validate_heartbeat c = first_failed (heartbeat_checks c)

  abbrev pub probes_checks : TimingConfig F → List (Bool × String)
  probes_checks c =
      (le_int c.probe_normal_interval (pos 0), "probe normal interval must be positive")
      ∷ (le_int c.probe_recovering_initial (pos 0), "probe recovering initial must be positive")
      ∷ (flt c.probe_recovering_backoff (lit 1), "probe recovering backoff must be >= 1.0")
      ∷ (
        lt_int c.probe_recovering_max c.probe_recovering_initial,
        "probe recovering max must be >= initial",
      )
      ∷ (le_int c.probe_offline_initial (pos 0), "probe offline initial must be positive")
      ∷ (flt c.probe_offline_backoff (lit 1), "probe offline backoff must be >= 1.0")
      ∷ (lt_int c.probe_offline_max c.probe_offline_initial, "probe offline max must be >= initial")
      ∷ []

  unfoldable pub validate_probes : TimingConfig F → Option Failure
  unfolding first_failed
  validate_probes c = first_failed (probes_checks c)

  abbrev pub command_timeouts_checks : TimingConfig F → List (Bool × String)
  command_timeouts_checks c =
      (le_int c.command_timeout_set_power (pos 0), "command timeout setPower must be positive")
      ∷ (
        le_int c.command_timeout_set_channel (pos 0),
        "command timeout setChannel must be positive",
      )
      ∷ (
        le_int c.command_timeout_select_radio (pos 0),
        "command timeout selectRadio must be positive",
      )
      ∷ (le_int c.command_timeout_get_state (pos 0), "command timeout getState must be positive")
      ∷ []

  unfoldable pub validate_command_timeouts : TimingConfig F → Option Failure
  unfolding first_failed
  validate_command_timeouts c = first_failed (command_timeouts_checks c)

  abbrev pub event_buffer_checks : TimingConfig F → List (Bool × String)
  event_buffer_checks c =
      (le_int c.event_buffer_size (pos 0), "event buffer size must be positive")
      ∷ (le_int c.event_buffer_retention (pos 0), "event buffer retention must be positive")
      ∷ []

  unfoldable pub validate_event_buffer : TimingConfig F → Option Failure
  unfolding first_failed
  validate_event_buffer c = first_failed (event_buffer_checks c)

  unfoldable pub validate_timing : Option (TimingConfig F) → Option Failure
  unfolding validate_heartbeat validate_probes validate_command_timeouts validate_event_buffer
  validate_timing none = some config_nil
  validate_timing (some c) =
      and_then (within_part "heartbeat validation failed" (validate_heartbeat c)) (
        and_then (within_part "probe validation failed" (validate_probes c)) (
          and_then (within_part "command timeout validation failed" (validate_command_timeouts c))
            (within_part "event buffer validation failed" (validate_event_buffer c))))

  abbrev pub timing_constraints_checks : TimingConfig F → List (Bool × String)
  timing_constraints_checks c =
      (flt (lit 10) c.probe_recovering_backoff, "probe recovering backoff is too aggressive")
      ∷ (flt (lit 10) c.probe_offline_backoff, "probe offline backoff is too aggressive")
      ∷ (
        unreasonable c.command_timeout_set_power,
        "command timeout setPower is outside reasonable range",
      )
      ∷ (
        unreasonable c.command_timeout_set_channel,
        "command timeout setChannel is outside reasonable range",
      )
      ∷ (
        unreasonable c.command_timeout_select_radio,
        "command timeout selectRadio is outside reasonable range",
      )
      ∷ (
        unreasonable c.command_timeout_get_state,
        "command timeout getState is outside reasonable range",
      )
      ∷ []

  unfoldable pub validate_timing_constraints : TimingConfig F → Option Failure
  unfolding first_failed
  validate_timing_constraints c = first_failed (timing_constraints_checks c)

  -- Both checks; a nil configuration does not get past the first.
  unfoldable pub validate_timing_complete : Option (TimingConfig F) → Option Failure
  unfolding validate_timing validate_timing_constraints
  validate_timing_complete none = validate_timing none
  validate_timing_complete (some c) =
      and_then (validate_timing (some c)) (validate_timing_constraints c)
