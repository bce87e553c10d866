-- ===== src/Mock/Commands/Power.antt =====
-- The power that a request to silvus-mock sets, and what later requests read.
use radio_container.Prelude.{Option, ℕ, ◌≡◌, refl, List, some, none, String}
use radio_container.Prelude.Float.{Float}
use radio_container.Prelude.Int.{ℤ}
use radio_container.Prelude.Dict.{get, put}
use radio_container.Mock.Config.{Text}
use radio_container.Mock.Radio.Range.{Numbers}
use radio_container.Mock.Radio.{RadioState, texts, set_current_power}
use radio_container.Mock.Commands.{World, of_radio, get_handler, new_command_registry, register}
use radio_container.Mock.Commands.Core.{
  power_handler, freq_handler, profiles_handler, maintenance_handler, register_core_commands,
}
use radio_container.Mock.Commands.Optional.{
  Readings, read_power_dbm_handler, read_power_mw_handler, max_link_distance_handler,
  register_optional_commands,
}
use radio_container.Mock.Commands.Positioning.{
  GpsNumbers, gps_coordinates_handler, gps_mode_handler, gps_time_handler, register_gps_commands,
}
use radio_container.Mock.Commands.Server.{Request, Response, process_request, new_registry}
use radio_container.Mock.Direct.{execute_at}

abbrev pub request : {J : Type 0} → String → List Text → J → Request J
request method params id = record { jsonrpc = "2.0"; method = method; params = params; id = id }

abbrev pub success : {F J : Type 0} → J → List Text → Option (Response F J)
success id texts_of = some (record {
  jsonrpc = "2.0";
  result = some (of_radio (texts texts_of));
  error = none;
  id = some id;
})

abbrev pub with_power : {F : Type 0} → ℤ → World F RadioState → World F RadioState
with_power power w = record w { state = set_current_power power w.state }

module _ {F : Type 0} ⦃o : Float F⦄ (numbers : Numbers F) (readings : Readings) (gps : GpsNumbers F)
    (rounds : ℕ) where
  -- The server over the radio's own ExecuteCommand, at a time.
  abbrev pub ask :
      {J : Type 0} → ℕ → Request J → World F RadioState → Option (Response F J) × World F RadioState
  ask now req w =
      process_request (new_registry readings gps (execute_at numbers rounds now)) now req w

  pub read_power_registered :
      (now : ℕ)
      → get_handler "read_power_dBm" (new_registry readings gps (execute_at numbers rounds now))
        ≡ some (read_power_dbm_handler readings (execute_at numbers rounds now))
  unfolding new_registry get_handler register new_command_registry register_core_commands
      register_optional_commands register_gps_commands power_handler freq_handler profiles_handler
      maintenance_handler read_power_dbm_handler read_power_mw_handler max_link_distance_handler
      gps_coordinates_handler gps_mode_handler gps_time_handler get put
  read_power_registered now = refl
