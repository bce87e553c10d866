-- ===== src/Mock/Commands/Core.antt =====
-- silvus-mock/internal/commands/core.go: frequency, power, profiles and maintenance. Each command
-- is passed on to the radio's state.
use radio_container.Prelude.{
  true, false, List, [], ◌∷◌, Option, none, some, String, str_eq, codes, if◌then◌else◌,
}
use radio_container.Mock.Config.{Text}
use radio_container.Mock.Radio.{CommandResponse}
use radio_container.Mock.Commands.{
  World, Execute, of_radio, Handled, succeeded, command_error, panics, Handle, Handler, Registry,
  register,
}

module _ {F S : Type 0} (execute : Execute S) where
  -- A response as a handler returns it.
  unfoldable pub handled : CommandResponse → Handled F
  handled response =
      if str_eq response.error ""
      then succeeded (of_radio response.result)
      else command_error response.error (codes response.error)

  -- `ExecuteCommand`, and what the handler makes of the response.
  unfoldable pub forward : String → List Text → World F S → Handled F × World F S
  unfolding handled
  forward cmd_type params w =
      let out = execute cmd_type params w.state in (handled out.0, record w { state = out.1 })

  -- `Handle` of the embedding-free `CoreCommandHandler`, which is registered nowhere.
  unfoldable pub handle_core : Handle F S
  handle_core ctx params w = (command_error "NOT_SUPPORTED" (codes "Not implemented"), w)

  unfoldable pub handle_freq : Handle F S
  unfolding forward
  handle_freq ctx [] w = forward "getFreq" [] w
  handle_freq ctx (p ∷ params) w = forward "setFreq" (p ∷ params) w

  unfoldable pub handle_power : Handle F S
  unfolding forward
  handle_power ctx [] w = forward "getPower" [] w
  handle_power ctx (p ∷ params) w = forward "setPower" (p ∷ params) w

  unfoldable pub handle_profiles : Handle F S
  unfolding forward
  handle_profiles ctx [] w = forward "getProfiles" [] w
  handle_profiles ctx (p ∷ params) w =
      (command_error "INVALID_PARAMS" (codes "This command does not accept parameters"), w)

  -- The type assertion on the context's value panics if there is none.
  unfoldable pub handle_named : Option String → List Text → World F S → Handled F × World F S
  unfolding forward
  handle_named none params w = (panics, w)
  handle_named (some name) params w = forward name params w

  unfoldable pub handle_maintenance : Handle F S
  unfolding handle_named
  handle_maintenance ctx params w = handle_named ctx.command_name params w

  unfoldable pub core_handler : Handler F S
  unfolding handle_core
  core_handler = record {
    name = "core";
    description = "Core radio commands";
    read_only = false;
    requires_blackout = true;
    handle = handle_core;
  }

  unfoldable pub freq_handler : Handler F S
  unfolding handle_freq
  freq_handler = record {
    name = "freq";
    description = "Set/read RF frequency in MHz";
    read_only = false;
    requires_blackout = true;
    handle = handle_freq;
  }

  unfoldable pub power_handler : Handler F S
  unfolding handle_power
  power_handler = record {
    name = "power_dBm";
    description = "Set/read transmit power in dBm";
    read_only = false;
    requires_blackout = false;
    handle = handle_power;
  }

  unfoldable pub profiles_handler : Handler F S
  unfolding handle_profiles
  profiles_handler = record {
    name = "supported_frequency_profiles";
    description = "Get supported frequency profiles";
    read_only = true;
    requires_blackout = false;
    handle = handle_profiles;
  }

  unfoldable pub maintenance_handler : Handler F S
  unfolding handle_maintenance
  maintenance_handler = record {
    name = "maintenance";
    description = "Maintenance commands (zeroize, radio_reset, factory_reset)";
    read_only = false;
    requires_blackout = false;
    handle = handle_maintenance;
  }

  unfoldable pub register_core_commands : Registry F S → Registry F S
  unfolding register freq_handler power_handler profiles_handler maintenance_handler
  register_core_commands registry =
      register maintenance_handler
        (register profiles_handler (register power_handler (register freq_handler registry)))
