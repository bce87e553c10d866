-- ===== src/Mock/Commands.antt =====
-- silvus-mock/internal/commands/interface.go: handlers of commands and their registry. A handler is
-- a record; what it changes is a `World`: the state `S` behind `ExecuteCommand`, which is a
-- parameter here, and the location that the GPS handler keeps.
pub mod Positioning
pub mod Core
pub mod Optional
pub mod Server
pub mod Flags
pub mod Honest
pub mod Power
use radio_container.Prelude.{ℕ, Bool, List, [], ◌∷◌, Option, String, map}
use radio_container.Prelude.Dict.{Dict, get, put, remove}
use radio_container.Mock.Config.{Text, FrequencyProfile}
use radio_container.Mock.Radio.{Value, CommandResponse}

-- The location of `GPSCommandHandler`, and when it was last updated.
pub record Coordinates (F : Type 0) : Type 0 where
  pub latitude : F
  pub longitude : F
  pub altitude : F
  pub accuracy : F
  pub timestamp : ℕ

pub record GpsMode : Type 0 where
  pub enabled : Bool
  pub lock_status : String
  pub satellites : ℕ

pub record Gps (F : Type 0) : Type 0 where
  pub location : Coordinates F
  pub last_update : ℕ

pub record World (F S : Type 0) : Type 0 where
  pub state : S
  pub gps : Gps F

-- `ExecuteCommand`
abbrev pub Execute : Type 0 → Type 0
Execute S = String → List Text → S → CommandResponse × S

-- The values of the context that handlers ask for, and the clock.
pub record Context : Type 0 where
  pub command_name : Option String
  pub subcommand : Option String
  pub now : ℕ

pub data Output (F : Type 0) : Type 0 where
  of_radio : Value → Output F
  coordinates : Coordinates F → Output F
  gps_mode : GpsMode → Output F
  custom_output : Output F

-- A result, a `CommandError` with code and message, another error, or a panic.
pub data Handled (F : Type 0) : Type 0 where
  succeeded : Output F → Handled F
  command_error : String → Text → Handled F
  other_error : Handled F
  panics : Handled F

abbrev pub Handle : Type 0 → Type 0 → Type 0
Handle F S = Context → List Text → World F S → Handled F × World F S

-- `CommandHandler`
pub record Handler (F S : Type 0) : Type 0 where
  pub name : String
  pub description : String
  pub read_only : Bool
  pub requires_blackout : Bool
  pub handle : Handle F S

abbrev pub Registry : Type 0 → Type 0 → Type 0
Registry F S = Dict (Handler F S)

module _ {F S : Type 0} where
  unfoldable pub new_command_registry : Registry F S
  new_command_registry = []

  unfoldable pub register : Handler F S → Registry F S → Registry F S
  register handler registry = put registry handler.name handler

  unfoldable pub get_handler : String → Registry F S → Option (Handler F S)
  get_handler name registry = get registry name

  -- `List`, in an order that Go leaves open
  unfoldable pub list_names : Registry F S → List String
  list_names registry = map (λ (e : String × Handler F S). e.0) registry
