-- ===== src/Mock/Radio/Progress.antt =====
-- No command of silvus-mock/internal/state/radio.go hangs, and every blackout ends.
use radio_container.Prelude.{
  ℕ, ◌+◌, ◌≤◌, ◌<◌, ◌≡◌, refl, true, List, [], ◌∷◌, All, Option, some, arith, subst, sym, suc, zero,
  ltb, Bool-cases, inl, inr,
}
use radio_container.Prelude.Int.{ℤ, pos, negsuc, pos_part}
use radio_container.Prelude.Float.{Float}
use radio_container.Mock.Config.{Text, Config}
use radio_container.Mock.Radio.Range.{Numbers}
use radio_container.Mock.Radio.Range.Termination.{AllEnd, is_valid_frequency-Returns}
use radio_container.Mock.Radio.{
  RadioState, Command, CommandResponse, Kind, set_freq, get_freq, set_power, get_power,
  get_profiles, zeroize, radio_reset, factory_reset, unknown, kind_of, new_radio_state,
  handle_zeroize, handle_radio_reset, is_available, handle_factory_reset, enter_soft_boot,
  set_current_power, seconds, take_freq, refusal, handle_set_freq, dispatch, process_command,
  add_duration,
}
use radio_container.Mock.Radio.Changes.{
  Timed, Change, same, tuned, powered, zeroized, rebooted, restored, process_command-Change, run,
}
use radio_container.Mock.Radio.Invariant.{Sound, Change-Sound, new_radio_state-Sound}

abbrev pub Returns : {A : Type 0} → Option A → Type 0
Returns {A} r = (a : A) × (r ≡ some a)

add_duration-le : (t : ℕ) (d : ℤ) → add_duration t d ≤ t + pos_part d
add_duration-le t (pos n) = omega arith
add_duration-le t (negsuc n) = omega arith

module _ {F : Type 0} ⦃o : Float F⦄ (numbers : Numbers F) (rounds : ℕ) where
  handle_set_freq-Returns :
      (later : ℕ) (params : List Text) (rs : RadioState)
      → AllEnd numbers rounds rs.frequency_profiles
      → Returns (handle_set_freq numbers rounds later params rs)
  unfolding handle_set_freq
  handle_set_freq-Returns later [] rs h = (_, refl)
  handle_set_freq-Returns later (text ∷ []) rs h =
      let (b, e) = is_valid_frequency-Returns numbers rounds rs.frequency_profiles text h in
      (take_freq later text b rs, rw (e, handle_set_freq) refl)
  handle_set_freq-Returns later (text ∷ other ∷ more) rs h = (_, refl)

  dispatch-Returns :
      (later : ℕ) (kind : Kind) (params : List Text) (rs : RadioState)
      → AllEnd numbers rounds rs.frequency_profiles
      → Returns (dispatch numbers rounds later kind params rs)
  unfolding dispatch
  dispatch-Returns later set_freq params rs h = handle_set_freq-Returns later params rs h
  dispatch-Returns later get_freq params rs h = (_, refl)
  dispatch-Returns later set_power params rs h = (_, refl)
  dispatch-Returns later get_power params rs h = (_, refl)
  dispatch-Returns later get_profiles params rs h = (_, refl)
  dispatch-Returns later zeroize params rs h = (_, refl)
  dispatch-Returns later radio_reset params rs h = (_, refl)
  dispatch-Returns later factory_reset params rs h = (_, refl)
  dispatch-Returns later unknown params rs h = (_, refl)

  pub process_command-Returns :
      (now later : ℕ) (cmd : Command) (rs : RadioState)
      → AllEnd numbers rounds rs.frequency_profiles
      → Returns (process_command numbers rounds now later cmd rs)
  unfolding process_command
  process_command-Returns now later cmd rs h = elim (Bool-cases (ltb now rs.blackout_until)) [
    | inl dark ↦ ((refusal "UNAVAILABLE", rs), rw (dark, process_command) refl)
    | inr clear ↦
        let (out, e) = dispatch-Returns later (kind_of cmd.name) cmd.params rs h in
        (out, rw (clear, process_command) e)
  ]

  module _ (cfg : Config) where
    -- The blackout ends by a time.
    abbrev EndsBy : ℕ → RadioState → Type 0
    EndsBy limit rs = rs.blackout_until ≤ limit

    Change-until :
        (later limit : ℕ) (rs rs' : RadioState)
        → Change numbers rounds later rs rs'
        → later + pos_part rs.soft_boot_duration ≤ limit
        → later + pos_part rs.radio_reset_duration ≤ limit
        → rs.blackout_until ≤ limit
        → rs'.blackout_until ≤ limit
    unfolding handle_zeroize handle_radio_reset handle_factory_reset enter_soft_boot
        set_current_power
    Change-until later limit rs _ same soft reset h = h
    Change-until later limit rs _ (tuned freq valid) soft reset h =
        omega (arith, add_duration-le later rs.soft_boot_duration)
    Change-until later limit rs _ (powered power low high) soft reset h = h
    Change-until later limit rs _ zeroized soft reset h = omega arith
    Change-until later limit rs _ rebooted soft reset h =
        omega (arith, add_duration-le later rs.radio_reset_duration)
    Change-until later limit rs _ restored soft reset h = h

    run-progress :
        (ts : List Timed) (rs : RadioState) (last limit : ℕ)
        → All (λ (t : Timed). t.later ≤ last) ts
        → AllEnd numbers rounds cfg.frequency_profiles
        → Sound numbers rounds cfg rs
        → last + pos_part (seconds cfg.timing.blackout.soft_boot_sec) ≤ limit
        → last + pos_part (seconds cfg.timing.blackout.radio_reset_sec) ≤ limit
        → rs.blackout_until ≤ limit
        → (out : List CommandResponse × RadioState) × (run numbers rounds ts rs ≡ some out)
          × (out.1.blackout_until ≤ limit)
    unfolding run
    run-progress [] rs last limit early ends s soft reset h = (([], rs), refl, h)
    run-progress (t ∷ ts) rs last limit (early, rest) ends s soft reset h =
        let (mid, first) =
          process_command-Returns t.now t.later t.cmd rs
            (subst (AllEnd numbers rounds) (sym s.profiles) ends) in
        let step = process_command-Change numbers rounds t.now t.later t.cmd rs mid first in
        let next = Change-Sound numbers rounds cfg t.later rs mid.1 s step in
        let until : mid.1.blackout_until ≤ limit =
          Change-until t.later limit rs mid.1 step (rw s.soft_boot (omega arith))
            (rw s.reset (omega arith)) h in
        let (out, others, bound) =
          run-progress ts mid.1 last limit rest ends next soft reset until in
        ((mid.0 ∷ out.0, out.1), rw (first, others, run) refl, bound)

    starts : (new_radio_state cfg).blackout_until ≡ 0
    unfolding new_radio_state
    starts = refl

    -- If the loops over the configured ranges pass their ends within the rounds, every history of
    -- commands on a new radio is answered to its end, and the radio is available at every time that
    -- is later than the last command by more than the soft boot and the reset take.
    pub run-is_available :
        (ts : List Timed) (last now : ℕ)
        → All (λ (t : Timed). t.later ≤ last) ts
        → AllEnd numbers rounds cfg.frequency_profiles
        → last + pos_part (seconds cfg.timing.blackout.soft_boot_sec) < now
        → last + pos_part (seconds cfg.timing.blackout.radio_reset_sec) < now
        → (out : List CommandResponse × RadioState) × (run numbers rounds ts (new_radio_state cfg)
            ≡ some out)
          × (is_available now out.1 ≡ true)
    unfolding is_available
    run-is_available ts last (suc now) early ends soft reset =
        let (out, e, bound) =
          run-progress ts (new_radio_state cfg) last now early ends
            (new_radio_state-Sound numbers rounds cfg) (omega arith) (omega arith)
            (omega (arith, starts)) in
        (out, e, ground arith)
    run-is_available ts last zero early ends soft reset = absurd (omega arith)
