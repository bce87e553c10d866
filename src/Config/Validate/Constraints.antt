-- ===== src/Config/Validate/Constraints.antt =====
-- Which configurations pass the further constraints too.
use radio_container.Prelude.{◌≡◌, ◌↔◌, refl, false, none, some, arith}
use radio_container.Prelude.Int.{ℤ, ◌≤ℤ◌}
use radio_container.Prelude.Float.{Float, flt, lit}
use radio_container.Config.Timing.{TimingConfig}
use radio_container.Config.Validate.{
  min_timeout, max_timeout, unreasonable, timing_constraints_checks, validate_timing,
  validate_timing_constraints, validate_timing_complete,
}
use radio_container.Config.Validate.Rules.{
  Passed, IsValid, first_failed-none, none-first_failed, and_then-none, validate_timing-IsValid,
}

abbrev Within : ℤ → Type 0
Within timeout = (min_timeout ≤ℤ timeout) × (timeout ≤ℤ max_timeout)

-- The backoff factors are not above 10 and the timeouts of commands are from 100 ms to 5 min.
pub record IsReasonable {F : Type 0} ⦃o : Float F⦄ (c : TimingConfig F) : Type 0 where
  pub recovering_backoff : flt (lit 10) c.probe_recovering_backoff ≡ false
  pub offline_backoff : flt (lit 10) c.probe_offline_backoff ≡ false
  pub set_power_timeout : Within c.command_timeout_set_power
  pub set_channel_timeout : Within c.command_timeout_set_channel
  pub select_radio_timeout : Within c.command_timeout_select_radio
  pub get_state_timeout : Within c.command_timeout_get_state

unreasonable-Within : (t : ℤ) → unreasonable t ≡ false → Within t
unreasonable-Within t h = (ground arith, ground arith)

Within-unreasonable : (t : ℤ) → Within t → unreasonable t ≡ false
Within-unreasonable t (low, high) = ground arith

module _ {F : Type 0} ⦃o : Float F⦄ (c : TimingConfig F) where
  Passed-IsReasonable : Passed (timing_constraints_checks c) → IsReasonable c
  Passed-IsReasonable (b₁, (b₂, (t₁, (t₂, (t₃, (t₄, _)))))) = record {
    recovering_backoff = b₁;
    offline_backoff = b₂;
    set_power_timeout = unreasonable-Within c.command_timeout_set_power t₁;
    set_channel_timeout = unreasonable-Within c.command_timeout_set_channel t₂;
    select_radio_timeout = unreasonable-Within c.command_timeout_select_radio t₃;
    get_state_timeout = unreasonable-Within c.command_timeout_get_state t₄;
  }

  IsReasonable-Passed : IsReasonable c → Passed (timing_constraints_checks c)
  IsReasonable-Passed v = (
    v.recovering_backoff,
    (
      v.offline_backoff,
      (
        Within-unreasonable c.command_timeout_set_power v.set_power_timeout,
        (
          Within-unreasonable c.command_timeout_set_channel v.set_channel_timeout,
          (
            Within-unreasonable c.command_timeout_select_radio v.select_radio_timeout,
            (Within-unreasonable c.command_timeout_get_state v.get_state_timeout, tt),
          ),
        ),
      ),
    ),
  )

  constraints-IsReasonable : (validate_timing_constraints c ≡ none) ↔ IsReasonable c
  unfolding validate_timing_constraints
  constraints-IsReasonable = (
    λ h. Passed-IsReasonable (first_failed-none (timing_constraints_checks c) h),
    λ v. none-first_failed (timing_constraints_checks c) (IsReasonable-Passed v),
  )

  -- `ValidateTimingComplete` accepts exactly the configurations that obey the rules and have
  -- reasonable backoff factors and timeouts.
  pub validate_timing_complete-IsReasonable :
      (validate_timing_complete (some c) ≡ none) ↔ (IsValid c × IsReasonable c)
  unfolding validate_timing_complete
  validate_timing_complete-IsReasonable = (
    λ h.
        let (basic, more) =
          and_then-none (validate_timing (some c)) (validate_timing_constraints c) h in
        ((validate_timing-IsValid c).0 basic, constraints-IsReasonable.0 more),
    λ v. rw ((validate_timing-IsValid c).1 v.0, constraints-IsReasonable.1 v.1) refl,
  )
