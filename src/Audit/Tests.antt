-- ===== src/Audit/Tests.antt =====
-- Tests of the audit log and an example of a rotation that fails.
use radio_container.Prelude.{ℕ, ◌≡◌, refl, true, false, List, [], ◌∷◌, none, some, codes}
use radio_container.Audit.{Logger, LogContext, open_file, get_code_from_error, log_action, rotate}
use radio_container.Audit.Lost.{Call, logs, rotates, run, rotate-lost}

abbrev context : LogContext ℕ
context = record { subject = none; params_value = none }

abbrev logger : Logger ℕ
logger = record { file = open_file; lines = []; rotated = [] }

abbrev later_calls : List (Call ℕ)
later_calls = logs true context "setPower" "a" "SUCCESS" ∷ rotates true true true ∷ []

error_codes :
    (get_code_from_error (some (codes "BUSY (UNAVAILABLE)")) ≡ "UNAVAILABLE")
    × (get_code_from_error (some (codes "no route")) ≡ "ERROR")
unfolding get_code_from_error
error_codes = (refl, refl)

-- A rotation that succeeds moves the lines.
rotated_lines :
    (rotate true true true (log_action true context "setPower" "a" "SUCCESS" logger)).1.lines ≡ []
unfolding rotate log_action
rotated_lines = refl

rename_fails : (rotate true false true logger).0 ≡ false
unfolding rotate
rename_fails = refl

rotate-lost_example :
    run later_calls (rotate true false true logger).1 ≡ (rotate true false true logger).1
rotate-lost_example = rotate-lost true false true logger later_calls refl rename_fails
