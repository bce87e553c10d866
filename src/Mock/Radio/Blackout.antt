-- ===== src/Mock/Radio/Blackout.antt =====
-- The blackout that follows a change of the frequency in silvus-mock/internal/state/radio.go.
use radio_container.Prelude.{
  ℕ, ◌≤◌, ◌<◌, ◌≡◌, refl, true, false, List, [], ◌∷◌, ◌++◌, map, All, some, arith, ltb,
}
use radio_container.Prelude.Float.{Float}
use radio_container.Mock.Config.{Text}
use radio_container.Mock.Radio.Range.{Numbers, is_valid_frequency}
use radio_container.Mock.Radio.{
  RadioState, Command, CommandResponse, kind_of, refusal, reply, done, texts, handle_get_freq,
  enter_soft_boot, take_freq, handle_set_freq, dispatch, process_command, add_duration,
}
use radio_container.Mock.Radio.Changes.{Timed, run}

abbrev pub at : ℕ → ℕ → Command → Timed
at now later cmd = record { now = now; later = later; cmd = cmd }

abbrev pub set_freq_to : Text → Command
set_freq_to text = record { name = "setFreq"; params = text ∷ [] }

abbrev pub read_freq : Command
read_freq = record { name = "getFreq"; params = [] }

abbrev pub refused : Timed → CommandResponse
refused t = refusal "UNAVAILABLE"

module _ {F : Type 0} ⦃o : Float F⦄ (numbers : Numbers F) (rounds : ℕ) where
  process_command-dark :
      (t : Timed) (rs : RadioState)
      → t.now < rs.blackout_until
      → process_command numbers rounds t.now t.later t.cmd rs ≡ some (refused t, rs)
  unfolding process_command
  process_command-dark t rs h =
      let dark : ltb t.now rs.blackout_until ≡ true = ground arith in
      rw (dark, process_command) refl

  run-dark :
      (during ts : List Timed) (rs : RadioState) (out : List CommandResponse × RadioState)
      → All (λ (t : Timed). t.now < rs.blackout_until) during
      → run numbers rounds ts rs ≡ some out
      → run numbers rounds (during ++ ts) rs ≡ some (map refused during ++ out.0, out.1)
  unfolding run
  run-dark [] ts rs out h e = e
  run-dark (t ∷ during) ts rs out (dark, rest) e =
      rw (process_command-dark t rs dark, run-dark during ts rs out rest e, run) refl

  set_freq-accepted :
      (now later : ℕ) (text : Text) (rs : RadioState)
      → rs.blackout_until ≤ now
      → is_valid_frequency numbers rounds rs.frequency_profiles text ≡ some true
      → process_command numbers rounds now later (set_freq_to text) rs
        ≡ some (done, enter_soft_boot later text rs)
  unfolding process_command dispatch kind_of handle_set_freq take_freq
  set_freq-accepted now later text rs h valid =
      let clear : ltb now rs.blackout_until ≡ false = ground arith in
      rw (clear, valid, process_command, dispatch, handle_set_freq) refl

  get_freq-answered :
      (now later : ℕ) (rs : RadioState)
      → rs.blackout_until ≤ now
      → process_command numbers rounds now later read_freq rs
        ≡ some (reply (texts (rs.current_freq ∷ [])), rs)
  unfolding process_command dispatch kind_of handle_get_freq
  get_freq-answered now later rs h =
      let clear : ltb now rs.blackout_until ≡ false = ground arith in
      rw (clear, process_command) refl

  -- An accepted frequency is set at once; until the soft boot is over every command, whatever it
  -- is, is refused as unavailable and changes nothing; the first reading of the frequency after
  -- that returns the very text that was set.
  pub run-set_freq :
      (now later : ℕ) (text : Text) (during : List Timed) (read read_later : ℕ) (rs : RadioState)
      → rs.blackout_until ≤ now
      → is_valid_frequency numbers rounds rs.frequency_profiles text ≡ some true
      → All (λ (t : Timed). t.now < add_duration later rs.soft_boot_duration) during
      → add_duration later rs.soft_boot_duration ≤ read
      → run numbers rounds
          (at now later (set_freq_to text) ∷ (during ++ at read read_later read_freq ∷ []))
          rs
        ≡ some (
          done ∷ (map refused during ++ reply (texts (text ∷ [])) ∷ []),
          enter_soft_boot later text rs,
        )
  unfolding run enter_soft_boot
  run-set_freq now later text during read read_later rs h valid dark over =
      let booted = enter_soft_boot later text rs in
      let ends : run numbers rounds (at read read_later read_freq ∷ []) booted
          ≡ some (reply (texts (text ∷ [])) ∷ [], booted) =
        rw (get_freq-answered read read_later booted over, run) refl in
      rw
        (
          set_freq-accepted now later text rs h valid,
          run-dark during (at read read_later read_freq ∷ []) booted _ dark ends,
          run,
        )
        refl
