-- ===== src/Audit.antt =====
-- rcc/internal/audit/logger.go: the audit log. An entry leaves out its time; parameters have a type `P`.
-- What the system answers to a close, a rename and an open, and whether it takes a line, are arguments.
pub mod Lost
mod Tests
use radio_container.Prelude.{
  ℕ, Bool, true, false, ◌&&◌, List, [], ◌∷◌, ◌++◌, Option, none, some, String, str_eq, codes,
  contains, if◌then◌else◌,
}

pub record AuditEntry (P : Type 0) : Type 0 where
  pub user : String
  pub radio_id : String
  pub action : String
  pub params : Option P
  pub outcome : String
  pub result_code : String

-- `l.file`: nil, open, or closed and not nil.
pub data LogFile : Type 0 where
  no_file open_file closed_file : LogFile

-- The logger, with the lines of the file at its path and of the files that were rotated.
pub record Logger (P : Type 0) : Type 0 where
  pub file : LogFile
  pub lines : List (AuditEntry P)
  pub rotated : List (List (AuditEntry P))

-- The values under "claims" (its subject) and "params"; no parameters are the empty map.
pub record LogContext (P : Type 0) : Type 0 where
  pub subject : Option String
  pub params_value : Option P

unfoldable pub get_user_from_context : {P : Type 0} → LogContext P → String
get_user_from_context ctx = elim ctx.subject [ none ↦ "unknown" | some user ↦ user ]

unfoldable pub get_code_from_result : String → String
get_code_from_result result =
    if str_eq result "SUCCESS"
    then "SUCCESS"
    else if str_eq result "INVALID_RANGE"
    then "INVALID_RANGE"
    else if str_eq result "UNAVAILABLE"
    then "UNAVAILABLE"
    else if str_eq result "ERROR"
    then "ERROR"
    else "UNKNOWN"

-- Of the error's text.
unfoldable pub get_code_from_error : Option (List ℕ) → String
get_code_from_error none = "SUCCESS"
get_code_from_error (some error_text) =
    if contains error_text (codes "INVALID_RANGE")
    then "INVALID_RANGE"
    else if contains error_text (codes "UNAVAILABLE")
    then "UNAVAILABLE"
    else if contains error_text (codes "BUSY")
    then "BUSY"
    else if contains error_text (codes "UNAUTHORIZED")
    then "UNAUTHORIZED"
    else if contains error_text (codes "FORBIDDEN")
    then "FORBIDDEN"
    else "ERROR"

module _ {P : Type 0} where
  -- `taken` is whether the entry can be marshalled and an open file takes the line.
  unfoldable pub write_entry : Bool → AuditEntry P → Logger P → Logger P
  write_entry taken entry l = elim l.file [
    | open_file ↦ if taken then record l { lines = l.lines ++ entry ∷ [] } else l
    | _ ↦ l
  ]

  unfoldable pub log_action : Bool → LogContext P → String → String → String → Logger P → Logger P
  unfolding write_entry get_user_from_context get_code_from_result
  log_action taken ctx action radio_id result l =
      write_entry taken
        (record {
          user = get_user_from_context ctx;
          radio_id = radio_id;
          action = action;
          params = ctx.params_value;
          outcome = result;
          result_code = get_code_from_result result;
        })
        l

  unfoldable pub log_control_action :
      Bool
      → LogContext P
      → String
      → String
      → Option P
      → String
      → Option (List ℕ)
      → Logger P
      → Logger P
  unfolding write_entry get_user_from_context get_code_from_error
  log_control_action taken ctx action radio_id params outcome error l =
      write_entry taken
        (record {
          user = get_user_from_context ctx;
          radio_id = radio_id;
          action = action;
          params = params;
          outcome = outcome;
          result_code = get_code_from_error error;
        })
        l

  -- Whether there was an error, and the logger; an open file may fail to close.
  unfoldable pub close_log : Bool → Logger P → Bool × Logger P
  close_log closes l = elim l.file [
    | no_file ↦ (true, l)
    | open_file ↦ (closes, record l { file = no_file })
    | closed_file ↦ (false, record l { file = no_file })
  ]

  -- After the close.
  unfoldable pub rotate_closed : Bool → Bool → LogFile → Logger P → Bool × Logger P
  rotate_closed renames opens file l =
      if renames
      then if opens
        then (true, record { file = open_file; lines = []; rotated = l.rotated ++ l.lines ∷ [] })
        else (false, record { file = file; lines = []; rotated = l.rotated ++ l.lines ∷ [] })
      else (false, record l { file = file })

  -- A file that is closed already does not close again.
  unfoldable pub rotate : Bool → Bool → Bool → Logger P → Bool × Logger P
  unfolding rotate_closed
  rotate closes renames opens l = elim l.file [
    | no_file ↦ rotate_closed renames opens no_file l
    | open_file ↦
        if closes
        then rotate_closed renames opens closed_file l
        else (false, record l { file = closed_file })
    | closed_file ↦ (false, l)
  ]
