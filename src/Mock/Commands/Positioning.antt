-- ===== src/Mock/Commands/Positioning.antt =====
-- silvus-mock/internal/commands/gps.go: the simulated GPS. The three registered handlers each have a
-- GPS of their own, of which only the one for coordinates is ever read or written.
use radio_container.Prelude.{
  ℕ, ◌-◌, ◌/◌, ◌%◌, Bool, true, false, ◌||◌, [], ◌∷◌, ◌++◌, Option, none, some, String, str_eq,
  codes, ltb, if◌then◌else◌,
}
use radio_container.Prelude.Int.{ℤ, pos, lt_int, int_text}
use radio_container.Prelude.Float.{Float, flt}
use radio_container.Mock.Config.{Text}
use radio_container.Mock.Radio.{texts}
use radio_container.Mock.Commands.{
  Gps, World, of_radio, coordinates, gps_mode, Handled, succeeded, command_error, panics, Handle,
  Handler, Registry, register,
}

-- What the handlers use of Go: float literals, `strconv.ParseFloat`, `ParseBool` and `ParseInt`, and
-- the sum of a coordinate with `(float64(n) - 50) / 1000000.0`.
pub record GpsNumbers (F : Type 0) : Type 0 where
  pub decimal : String → F
  pub parse_float : Text → Option F
  pub parse_bool : Text → Option Bool
  pub parse_int : Text → Option ℤ
  pub drift : ℕ → F → F

-- `t.Unix()`, from the zero time
abbrev unix : ℕ → ℤ
unix now = pos (now / 1_000_000_000 - 62_135_596_800)

abbrev success : {F : Type 0} → Handled F
success = succeeded (of_radio (texts ([] ∷ [])))

abbrev invalid_params : {F : Type 0} → Text → Handled F
invalid_params message = command_error "INVALID_PARAMS" message

unfoldable pub set_time : {F : Type 0} → Text → Option ℤ → Handled F
set_time text none = invalid_params (codes "Invalid timestamp: " ++ text)
set_time text (some timestamp) =
    if lt_int timestamp (pos 946_684_800) || lt_int (pos 4_102_444_800) timestamp
    then command_error "INVALID_RANGE" (codes "Timestamp out of reasonable range")
    else success

module _ {F : Type 0} (numbers : GpsNumbers F) where
  unfoldable pub new_gps : ℕ → Gps F
  new_gps now = record {
    location = record {
      latitude = numbers.decimal "40.7128";
      longitude = numbers.decimal "-74.0060";
      altitude = numbers.decimal "10.0";
      accuracy = numbers.decimal "3.0";
      timestamp = now;
    };
    last_update = now;
  }

  unfoldable pub update_location : ℕ → Gps F → Gps F
  update_location now gps =
      if ltb 1_000_000_000 (now - gps.last_update)
      then record {
        location = record gps.location {
          latitude = numbers.drift (now % 100) gps.location.latitude;
          longitude = numbers.drift (now % 100) gps.location.longitude;
          timestamp = now;
        };
        last_update = now;
      }
      else gps

  unfoldable pub move_to : ℕ → F → F → F → Gps F
  move_to now lat lon alt = record {
    location = record {
      latitude = lat;
      longitude = lon;
      altitude = alt;
      accuracy = numbers.decimal "3.0";
      timestamp = now;
    };
    last_update = now;
  }

module _ {F S : Type 0} ⦃o : Float F⦄ (numbers : GpsNumbers F) where
  -- The checks of the ranges, and the change.
  unfoldable pub place : ℕ → F → F → F → World F S → Handled F × World F S
  unfolding move_to
  place now lat lon alt w =
      if flt lat (numbers.decimal "-90") || flt (numbers.decimal "90") lat
      then (command_error "INVALID_RANGE" (codes "Latitude must be between -90 and 90"), w)
      else if flt lon (numbers.decimal "-180") || flt (numbers.decimal "180") lon
      then (command_error "INVALID_RANGE" (codes "Longitude must be between -180 and 180"), w)
      else (success, record w { gps = move_to numbers now lat lon alt })

  -- The three conversions, in order.
  unfoldable pub set_coordinates : ℕ → Text → Text → Text → World F S → Handled F × World F S
  unfolding place
  set_coordinates now lat lon alt w = elim (numbers.parse_float lat) [
    | none ↦ (invalid_params (codes "Invalid latitude: " ++ lat), w)
    | some x ↦ elim (numbers.parse_float lon) [
      | none ↦ (invalid_params (codes "Invalid longitude: " ++ lon), w)
      | some y ↦ elim (numbers.parse_float alt) [
        | none ↦ (invalid_params (codes "Invalid altitude: " ++ alt), w)
        | some z ↦ place now x y z w
      ]
    ]
  ]

  unfoldable pub handle_coordinates : Handle F S
  unfolding update_location set_coordinates
  handle_coordinates ctx [] w =
      let gps = update_location numbers ctx.now w.gps in
      (succeeded (coordinates gps.location), record w { gps = gps })
  handle_coordinates ctx (lat ∷ lon ∷ alt ∷ []) w = set_coordinates ctx.now lat lon alt w
  handle_coordinates ctx _ w =
      (invalid_params (codes "Expected 3 parameters: latitude, longitude, altitude"), w)

  unfoldable pub handle_mode : Handle F S
  handle_mode ctx [] w =
      (succeeded (gps_mode (record { enabled = true; lock_status = "locked"; satellites = 8 })), w)
  handle_mode ctx (text ∷ []) w = (
    elim (numbers.parse_bool text) [
      | none ↦ invalid_params (codes "Invalid boolean value: " ++ text)
      | some enabled ↦ success
    ],
    w,
  )
  handle_mode ctx _ w = (invalid_params (codes "Expected 1 parameter: enabled"), w)

  unfoldable pub handle_time : Handle F S
  unfolding set_time
  handle_time ctx [] w = (succeeded (of_radio (texts (int_text (unix ctx.now) ∷ []))), w)
  handle_time ctx (text ∷ []) w = (set_time text (numbers.parse_int text), w)
  handle_time ctx _ w = (invalid_params (codes "Expected 1 parameter: unix_timestamp"), w)

  -- `Handle` of `GPSCommandHandler` itself, which is registered nowhere.
  unfoldable pub handle_subcommand : Option String → Handle F S
  unfolding handle_coordinates handle_mode handle_time
  handle_subcommand none ctx params w = (panics, w)
  handle_subcommand (some subcommand) ctx params w =
      if str_eq subcommand "coordinates"
      then handle_coordinates ctx params w
      else if str_eq subcommand "mode"
      then handle_mode ctx params w
      else if str_eq subcommand "time"
      then handle_time ctx params w
      else (command_error "NOT_SUPPORTED" (codes "Unknown GPS subcommand: " ++ codes subcommand), w)

  unfoldable pub handle_gps : Handle F S
  unfolding handle_subcommand
  handle_gps ctx params w = handle_subcommand ctx.subcommand ctx params w

  unfoldable pub gps_coordinates_handler : Handler F S
  unfolding handle_coordinates
  gps_coordinates_handler = record {
    name = "gps_coordinates";
    description = "Get/set GPS coordinates (latitude, longitude, altitude)";
    read_only = false;
    requires_blackout = false;
    handle = handle_coordinates;
  }

  unfoldable pub gps_mode_handler : Handler F S
  unfolding handle_mode
  gps_mode_handler = record {
    name = "gps_mode";
    description = "Get/set GPS operational mode";
    read_only = false;
    requires_blackout = false;
    handle = handle_mode;
  }

  unfoldable pub gps_time_handler : Handler F S
  unfolding handle_time
  gps_time_handler = record {
    name = "gps_time";
    description = "Get/set GPS time (Unix timestamp)";
    read_only = false;
    requires_blackout = false;
    handle = handle_time;
  }

  unfoldable pub register_gps_commands : Registry F S → Registry F S
  unfolding register gps_coordinates_handler gps_mode_handler gps_time_handler
  register_gps_commands registry =
      register gps_time_handler
        (register gps_mode_handler (register gps_coordinates_handler registry))
