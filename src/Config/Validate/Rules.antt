-- ===== src/Config/Validate/Rules.antt =====
-- Which configurations pass.
use radio_container.Prelude.{
  ◌*◌, ◌≤◌, ◌≡◌, ◌↔◌, refl, Bool, true, false, List, [], ◌∷◌, All, Option, none, some, String,
  arith,
}
use radio_container.Prelude.Int.{ℤ, pos, negsuc, lt_int, half, ◌≤ℤ◌, ◌<ℤ◌, pos_part}
use radio_container.Prelude.Float.{Float, flt, lit}
use radio_container.Config.Timing.{TimingConfig}
use radio_container.Config.Validate.{
  heartbeat_checks, probes_checks, command_timeouts_checks, event_buffer_checks, Failure,
  first_failed, within_part, and_then, validate_heartbeat, validate_probes,
  validate_command_timeouts, validate_event_buffer, validate_timing,
}

abbrev pub Passed : List (Bool × String) → Type 0
Passed checks = All (λ check. check.0 ≡ false) checks

pub first_failed-none : (checks : List (Bool × String)) → first_failed checks ≡ none → Passed checks
unfolding first_failed
first_failed-none [] h = tt
first_failed-none ((true, text) ∷ checks) h = absurd (cc)
first_failed-none ((false, text) ∷ checks) h = (refl, first_failed-none checks h)

pub none-first_failed : (checks : List (Bool × String)) → Passed checks → first_failed checks ≡ none
unfolding first_failed
none-first_failed [] h = refl
none-first_failed ((bad, text) ∷ checks) (good, rest) = rw good (none-first_failed checks rest)

-- The rules in numbers: the heartbeat's interval is positive, its jitter is from 0 to half of it and
-- its timeout is not below it; probes start at a positive interval and their greatest is not below
-- the first, with no backoff factor below 1; the timeouts, the buffer's size and its retention are
-- positive.
pub record IsValid {F : Type 0} ⦃o : Float F⦄ (c : TimingConfig F) : Type 0 where
  pub interval : pos 0 <ℤ c.heartbeat_interval
  pub jitter : pos 0 ≤ℤ c.heartbeat_jitter
  pub jitter_bound : 2 * pos_part c.heartbeat_jitter ≤ pos_part c.heartbeat_interval
  pub timeout : c.heartbeat_interval ≤ℤ c.heartbeat_timeout
  pub normal : pos 0 <ℤ c.probe_normal_interval
  pub recovering : pos 0 <ℤ c.probe_recovering_initial
  pub recovering_backoff : flt c.probe_recovering_backoff (lit 1) ≡ false
  pub recovering_max : c.probe_recovering_initial ≤ℤ c.probe_recovering_max
  pub offline : pos 0 <ℤ c.probe_offline_initial
  pub offline_backoff : flt c.probe_offline_backoff (lit 1) ≡ false
  pub offline_max : c.probe_offline_initial ≤ℤ c.probe_offline_max
  pub set_power_timeout : pos 0 <ℤ c.command_timeout_set_power
  pub set_channel_timeout : pos 0 <ℤ c.command_timeout_set_channel
  pub select_radio_timeout : pos 0 <ℤ c.command_timeout_select_radio
  pub get_state_timeout : pos 0 <ℤ c.command_timeout_get_state
  pub buffer_size : pos 0 <ℤ c.event_buffer_size
  pub retention : pos 0 <ℤ c.event_buffer_retention

within_part-none : (text : String) (e : Option Failure) → within_part text e ≡ none → e ≡ none
within_part-none text none h = refl
within_part-none text (some e) h = absurd (cc)

pub and_then-none : (e rest : Option Failure) → and_then e rest ≡ none → (e ≡ none) × (rest ≡ none)
and_then-none none rest h = (refl, h)
and_then-none (some e) rest h = absurd (cc)

half_bound :
    (a b : ℤ) → pos 0 <ℤ a → pos 0 ≤ℤ b → lt_int (half a) b ≡ false → 2 * pos_part b ≤ pos_part a
half_bound (pos a) (pos b) h k l = ground arith
half_bound (pos a) (negsuc b) h k l = absurd (omega arith)
half_bound (negsuc a) b h k l = absurd (omega arith)

bound_half :
    (a b : ℤ) → pos 0 <ℤ a → 2 * pos_part b ≤ pos_part a → pos 0 ≤ℤ b → lt_int (half a) b ≡ false
bound_half (pos a) (pos b) h l k = ground arith
bound_half (pos a) (negsuc b) h l k = absurd (omega arith)
bound_half (negsuc a) b h l k = absurd (omega arith)

module _ {F : Type 0} ⦃o : Float F⦄ (c : TimingConfig F) where
  heartbeat-Passed : validate_heartbeat c ≡ none → Passed (heartbeat_checks c)
  unfolding validate_heartbeat
  heartbeat-Passed h = first_failed-none (heartbeat_checks c) h

  probes-Passed : validate_probes c ≡ none → Passed (probes_checks c)
  unfolding validate_probes
  probes-Passed h = first_failed-none (probes_checks c) h

  timeouts-Passed : validate_command_timeouts c ≡ none → Passed (command_timeouts_checks c)
  unfolding validate_command_timeouts
  timeouts-Passed h = first_failed-none (command_timeouts_checks c) h

  buffer-Passed : validate_event_buffer c ≡ none → Passed (event_buffer_checks c)
  unfolding validate_event_buffer
  buffer-Passed h = first_failed-none (event_buffer_checks c) h

  abbrev AllPassed : Type 0
  AllPassed =
      Passed (heartbeat_checks c)
      × Passed (probes_checks c)
      × Passed (command_timeouts_checks c)
      × Passed (event_buffer_checks c)

  validate_timing-AllPassed : validate_timing (some c) ≡ none → AllPassed
  unfolding validate_timing
  validate_timing-AllPassed h =
      let t₁ = within_part "heartbeat validation failed" (validate_heartbeat c) in
      let t₂ = within_part "probe validation failed" (validate_probes c) in
      let t₃ = within_part "command timeout validation failed" (validate_command_timeouts c) in
      let t₄ = within_part "event buffer validation failed" (validate_event_buffer c) in
      let (beat, h₁) = and_then-none t₁ (and_then t₂ (and_then t₃ t₄)) h in
      let (probe, h₂) = and_then-none t₂ (and_then t₃ t₄) h₁ in
      let (command, buffer) = and_then-none t₃ t₄ h₂ in
      (
        heartbeat-Passed (within_part-none _ (validate_heartbeat c) beat),
        probes-Passed (within_part-none _ (validate_probes c) probe),
        timeouts-Passed (within_part-none _ (validate_command_timeouts c) command),
        buffer-Passed (within_part-none _ (validate_event_buffer c) buffer),
      )

  AllPassed-IsValid : AllPassed → IsValid c
  AllPassed-IsValid
        (
          (b₁, (b₂, (b₃, (b₄, _)))),
          (p₁, (p₂, (p₃, (p₄, (p₅, (p₆, (p₇, _))))))),
          (t₁, (t₂, (t₃, (t₄, _)))),
          (e₁, (e₂, _)),
        ) =
      let interval : pos 0 <ℤ c.heartbeat_interval = ground arith in
      let jitter : pos 0 ≤ℤ c.heartbeat_jitter = ground arith in
      record {
        interval = interval;
        jitter = jitter;
        jitter_bound = half_bound c.heartbeat_interval c.heartbeat_jitter interval jitter b₃;
        timeout = ground arith;
        normal = ground arith;
        recovering = ground arith;
        recovering_backoff = p₃;
        recovering_max = ground arith;
        offline = ground arith;
        offline_backoff = p₆;
        offline_max = ground arith;
        set_power_timeout = ground arith;
        set_channel_timeout = ground arith;
        select_radio_timeout = ground arith;
        get_state_timeout = ground arith;
        buffer_size = ground arith;
        retention = ground arith;
      }

  IsValid-validate_timing : IsValid c → validate_timing (some c) ≡ none
  unfolding validate_timing validate_heartbeat validate_probes validate_command_timeouts
      validate_event_buffer
  IsValid-validate_timing v =
      rw
        (
          none-first_failed (heartbeat_checks c) (
            ground (arith, v.interval),
            (
              ground (arith, v.jitter),
              (
                bound_half c.heartbeat_interval c.heartbeat_jitter v.interval v.jitter_bound
                    v.jitter,
                (ground (arith, v.timeout), tt),
              ),
            ),
          ),
          none-first_failed (probes_checks c) (
            ground (arith, v.normal),
            (
              ground (arith, v.recovering),
              (
                v.recovering_backoff,
                (
                  ground (arith, v.recovering_max),
                  (
                    ground (arith, v.offline),
                    (v.offline_backoff, (ground (arith, v.offline_max), tt)),
                  ),
                ),
              ),
            ),
          ),
          none-first_failed (command_timeouts_checks c) (
            ground (arith, v.set_power_timeout),
            (
              ground (arith, v.set_channel_timeout),
              (ground (arith, v.select_radio_timeout), (ground (arith, v.get_state_timeout), tt)),
            ),
          ),
          none-first_failed (event_buffer_checks c)
              (ground (arith, v.buffer_size), (ground (arith, v.retention), tt)),
        )
        refl

  -- `ValidateTiming` accepts exactly the configurations that obey the rules.
  pub validate_timing-IsValid : (validate_timing (some c) ≡ none) ↔ IsValid c
  validate_timing-IsValid =
      (λ h. AllPassed-IsValid (validate_timing-AllPassed h), IsValid-validate_timing)
