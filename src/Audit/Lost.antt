-- ===== src/Audit/Lost.antt =====
-- What becomes of the log of rcc/internal/audit/logger.go after a rotation that fails.
use radio_container.Prelude.{
  ℕ, ◌≡◌, ◌∙◌, refl, ap, Bool, true, false, List, [], ◌∷◌, Option, String, if◌then◌else◌,
}
use radio_container.Audit.{
  Logger, LogContext, LogFile, no_file, open_file, closed_file, write_entry, log_action,
  log_control_action, rotate, rotate_closed,
}

-- A call of a logger that is not closed.
pub data Call (P : Type 0) : Type 0 where
  logs : Bool → LogContext P → String → String → String → Call P
  logs_control :
      Bool → LogContext P → String → String → Option P → String → Option (List ℕ) → Call P
  rotates : Bool → Bool → Bool → Call P

module _ {P : Type 0} where
  unfoldable pub after_call : Call P → Logger P → Logger P
  unfolding log_action log_control_action rotate
  after_call (logs taken ctx action radio_id result) l =
      log_action taken ctx action radio_id result l
  after_call (logs_control taken ctx action radio_id params outcome error) l =
      log_control_action taken ctx action radio_id params outcome error l
  after_call (rotates closes renames opens) l = (rotate closes renames opens l).1

  unfoldable pub run : List (Call P) → Logger P → Logger P
  unfolding after_call
  run [] l = l
  run (call ∷ calls) l = run calls (after_call call l)

  rotate-again :
      (closes renames opens : Bool) (l : Logger P)
      → l.file ≡ closed_file
      → rotate closes renames opens l ≡ (false, l)
  unfolding rotate
  rotate-again closes renames opens l h = ap (λ file. outcome file) h
    where
      outcome : LogFile → Bool × Logger P
      outcome file = elim file [
        | no_file ↦ rotate_closed renames opens no_file l
        | open_file ↦
            if closes
            then rotate_closed renames opens closed_file l
            else (false, record l { file = closed_file })
        | closed_file ↦ (false, l)
      ]

  after_call-closed : (call : Call P) (l : Logger P) → l.file ≡ closed_file → after_call call l ≡ l
  unfolding after_call log_action log_control_action write_entry rotate
  after_call-closed (logs taken ctx action radio_id result) l h = simp (h, log_action, write_entry)
  after_call-closed (logs_control taken ctx action radio_id params outcome error) l h =
      simp (h, log_control_action, write_entry)
  after_call-closed (rotates closes renames opens) l h =
      ap (λ out. out.1) (rotate-again closes renames opens l h)

  run-closed : (calls : List (Call P)) (l : Logger P) → l.file ≡ closed_file → run calls l ≡ l
  unfolding run
  run-closed [] l h = refl
  run-closed (call ∷ calls) l h = ap (run calls) (after_call-closed call l h) ∙ run-closed calls l h

  rotate-closed :
      (closes renames opens : Bool) (l : Logger P)
      → l.file ≡ open_file
      → (rotate closes renames opens l).0 ≡ false
      → (rotate closes renames opens l).1.file ≡ closed_file
  unfolding rotate rotate_closed
  rotate-closed false renames opens l h e = rw (h, rotate) refl
  rotate-closed true false opens l h e = rw (h, rotate) refl
  rotate-closed true true false l h e = rw (h, rotate) refl
  rotate-closed true true true l h e = absurd (broken (rw (h, rotate) refl ∙ e))
    where
      broken : true ≡ false → ⊥
      broken u = cc

  -- After a rotation of an open log that fails, whether to close, to rename or to open, no later call
  -- of LogAction, LogControlAction or Rotate changes the log: every further entry is lost.
  pub rotate-lost :
      (closes renames opens : Bool) (l : Logger P) (calls : List (Call P))
      → l.file ≡ open_file
      → (rotate closes renames opens l).0 ≡ false
      → run calls (rotate closes renames opens l).1 ≡ (rotate closes renames opens l).1
  rotate-lost closes renames opens l calls h e =
      run-closed calls (rotate closes renames opens l).1 (rotate-closed closes renames opens l h e)
