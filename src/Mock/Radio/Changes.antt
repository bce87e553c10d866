-- ===== src/Mock/Radio/Changes.antt =====
-- What one command may do to the radio of silvus-mock/internal/state/radio.go, as a step relation,
-- and histories of commands.
use radio_container.Prelude.{
  ℕ, ◌≡◌, refl, true, false, List, [], ◌∷◌, Option, none, some, Bool-cases, Option-cases, subst,
  arith, ◌||◌, inl, inr, ltb,
}
use radio_container.Prelude.Int.{ℤ, lt_int, ◌≤ℤ◌}
use radio_container.Prelude.Float.{Float}
use radio_container.Mock.Config.{Text}
use radio_container.Mock.Radio.Range.{Numbers, is_valid_frequency}
use radio_container.Mock.Radio.{
  RadioState, Command, CommandResponse, handle_zeroize, handle_radio_reset, handle_factory_reset,
  enter_soft_boot, set_current_power, take_power, take_freq, Kind, set_freq, get_freq, set_power,
  get_power, get_profiles, zeroize, radio_reset, factory_reset, unknown, kind_of, handle_get_freq,
  handle_get_power, handle_get_profiles, handle_set_power, handle_set_freq, dispatch,
  process_command,
}

-- A command with the two readings of the clock.
pub record Timed : Type 0 where
  pub now : ℕ
  pub later : ℕ
  pub cmd : Command

module _ {F : Type 0} ⦃o : Float F⦄ (numbers : Numbers F) (rounds : ℕ) where
  pub data Change (later : ℕ) (rs : RadioState) : RadioState → Type 0 where
    same : Change later rs rs
    tuned :
        (freq : Text)
        → is_valid_frequency numbers rounds rs.frequency_profiles freq ≡ some true
        → Change later rs (enter_soft_boot later freq rs)
    powered :
        (power : ℤ)
        → rs.power_limits.min_dbm ≤ℤ power
        → power ≤ℤ rs.power_limits.max_dbm
        → Change later rs (set_current_power power rs)
    zeroized : Change later rs (handle_zeroize rs).1
    rebooted : Change later rs (handle_radio_reset later rs).1
    restored : Change later rs (handle_factory_reset rs).1

  abbrev Changes : ℕ → RadioState → Option (CommandResponse × RadioState) → Type 0
  Changes later rs none = Unit
  Changes later rs (some out) = Change later rs out.1

  take_power-Change :
      (later : ℕ) (power : Option ℤ) (rs : RadioState) → Change later rs (take_power power rs).1
  unfolding take_power
  take_power-Change later none rs = same
  take_power-Change later (some power) rs =
      elim (Bool-cases
        (lt_int power rs.power_limits.min_dbm || lt_int rs.power_limits.max_dbm power)) [
          | inl outside ↦ rw (outside, take_power) same
          | inr inside ↦ rw (inside, take_power) (powered power (ground arith) (ground arith))
        ]

  handle_set_power-Change :
      (later : ℕ) (params : List Text) (rs : RadioState)
      → Change later rs (handle_set_power numbers params rs).1
  unfolding handle_set_power
  handle_set_power-Change later [] rs = same
  handle_set_power-Change later (text ∷ []) rs = take_power-Change later (numbers.atoi text) rs
  handle_set_power-Change later (text ∷ other ∷ more) rs = same

  handle_set_freq-Changes :
      (later : ℕ) (params : List Text) (rs : RadioState)
      → Changes later rs (handle_set_freq numbers rounds later params rs)
  unfolding handle_set_freq take_freq
  handle_set_freq-Changes later [] rs = same
  handle_set_freq-Changes later (text ∷ []) rs =
      elim (Option-cases (is_valid_frequency numbers rounds rs.frequency_profiles text)) [
        | inl hangs ↦ rw (hangs, handle_set_freq) tt
        | inr (true, valid) ↦ rw (valid, handle_set_freq) (tuned text valid)
        | inr (false, wrong) ↦ rw (wrong, handle_set_freq) same
      ]
  handle_set_freq-Changes later (text ∷ other ∷ more) rs = same

  dispatch-Changes :
      (later : ℕ) (kind : Kind) (params : List Text) (rs : RadioState)
      → Changes later rs (dispatch numbers rounds later kind params rs)
  unfolding dispatch handle_get_freq handle_get_power handle_get_profiles
  dispatch-Changes later set_freq params rs = handle_set_freq-Changes later params rs
  dispatch-Changes later get_freq params rs = same
  dispatch-Changes later set_power params rs = handle_set_power-Change later params rs
  dispatch-Changes later get_power params rs = same
  dispatch-Changes later get_profiles params rs = same
  dispatch-Changes later zeroize params rs = zeroized
  dispatch-Changes later radio_reset params rs = rebooted
  dispatch-Changes later factory_reset params rs = restored
  dispatch-Changes later unknown params rs = same

  process_command-Changes :
      (now later : ℕ) (cmd : Command) (rs : RadioState)
      → Changes later rs (process_command numbers rounds now later cmd rs)
  unfolding process_command
  process_command-Changes now later cmd rs = elim (Bool-cases (ltb now rs.blackout_until)) [
    | inl dark ↦ rw (dark, process_command) same
    | inr clear ↦
        rw (clear, process_command) (dispatch-Changes later (kind_of cmd.name) cmd.params rs)
  ]

  -- A command that is processed changes the radio in one of the ways of `Change`.
  pub process_command-Change :
      (now later : ℕ) (cmd : Command) (rs : RadioState) (out : CommandResponse × RadioState)
      → process_command numbers rounds now later cmd rs ≡ some out
      → Change later rs out.1
  process_command-Change now later cmd rs out e =
      subst (Changes later rs) e (process_command-Changes now later cmd rs)

  -- A history of commands, with what each answers; `none` if one hangs.
  unfoldable pub run : List Timed → RadioState → Option (List CommandResponse × RadioState)
  unfolding process_command
  run [] rs = some ([], rs)
  run (t ∷ ts) rs = elim (process_command numbers rounds t.now t.later t.cmd rs) [
    | none ↦ none
    | some out ↦ elim (run ts out.1) [ none ↦ none | some rest ↦ some (out.0 ∷ rest.0, rest.1) ]
  ]

  -- The first command of a history that was processed.
  pub run-first :
      (t : Timed) (ts : List Timed) (rs : RadioState) (out : List CommandResponse × RadioState)
      → run (t ∷ ts) rs ≡ some out
      → (mid : CommandResponse × RadioState) × (process_command numbers rounds t.now t.later t.cmd
            rs
          ≡ some mid)
        × (rest : List CommandResponse × RadioState) × (run ts mid.1 ≡ some rest)
        × (out ≡ (mid.0 ∷ rest.0, rest.1))
  unfolding run
  run-first t ts rs out e =
      elim (Option-cases (process_command numbers rounds t.now t.later t.cmd rs)) [
        | inl hangs ↦ let shut : run (t ∷ ts) rs ≡ none = rw (hangs, run) refl in absurd (cc)
        | inr (mid, first) ↦ elim (Option-cases (run ts mid.1)) [
          | inl hangs ↦
              let shut : run (t ∷ ts) rs ≡ none = rw (first, hangs, run) refl in absurd (cc)
          | inr (rest, others) ↦
              let all : run (t ∷ ts) rs ≡ some (mid.0 ∷ rest.0, rest.1) =
                rw (first, others, run) refl in
              (mid, first, rest, others, cc)
        ]
      ]
