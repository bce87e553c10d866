-- ===== src/Mock/Commands/Server.antt =====
-- silvus-mock/internal/commands/extensible_server.go: the JSON-RPC server over the registry. The
-- type of a request's id, any JSON value, is a parameter; decoding JSON is not modelled, a request
-- that cannot be decoded is `none`.
use radio_container.Prelude.{
  ℕ, Bool, true, false, List, [], ◌∷◌, Option, none, some, String, str_eq, map, if◌then◌else◌,
}
use radio_container.Prelude.Int.{ℤ, negsuc}
use radio_container.Prelude.Float.{Float}
use radio_container.Prelude.Dict.{remove}
use radio_container.Mock.Config.{Text}
use radio_container.Mock.Commands.{
  World, Execute, Context, Output, custom_output, Handled, succeeded, command_error, other_error,
  panics, Handle, Handler, Registry, register, get_handler, new_command_registry, of_radio,
}
use radio_container.Mock.Radio.{texts}
use radio_container.Mock.Commands.Core.{register_core_commands}
use radio_container.Mock.Commands.Optional.{Readings, register_optional_commands}
use radio_container.Mock.Commands.Positioning.{GpsNumbers, register_gps_commands}

pub record Request (J : Type 0) : Type 0 where
  pub jsonrpc : String
  pub method : String
  pub params : List Text
  pub id : J

-- `Error`, as the code and the message of its map.
pub record RpcError : Type 0 where
  pub code : ℤ
  pub message : String

pub record Response (F J : Type 0) : Type 0 where
  pub jsonrpc : String
  pub result : Option (Output F)
  pub error : Option RpcError
  pub id : Option J

-- The status, the header `Server` and the body that are written.
pub record HttpReply (F J : Type 0) : Type 0 where
  pub server : Option String
  pub status : ℕ
  pub body : Option (Response F J)

-- -32601, -32602, -32603, -32600 and -32700
abbrev pub method_not_found : ℤ
method_not_found = negsuc 32600

abbrev pub invalid_params_code : ℤ
invalid_params_code = negsuc 32601

abbrev pub internal_error : ℤ
internal_error = negsuc 32602

abbrev pub invalid_request : ℤ
invalid_request = negsuc 32599

abbrev pub parse_error : ℤ
parse_error = negsuc 32699

module _ {F J : Type 0} where
  abbrev pub error_response : ℤ → String → Option J → Response F J
  error_response code message id = record {
    jsonrpc = "2.0";
    result = none;
    error = some (record { code = code; message = message });
    id = id;
  }

  -- The response to what a handler returned; `none` where it panicked.
  unfoldable pub respond : J → Handled F → Option (Response F J)
  respond id (succeeded output) =
      some (record { jsonrpc = "2.0"; result = some output; error = none; id = some id })
  respond id (command_error code message) = some (error_response invalid_params_code code (some id))
  respond id other_error = some (error_response internal_error "INTERNAL" (some id))
  respond id panics = none

  abbrev refuse : Option String → ℤ → String → Option J → HttpReply F J
  refuse server code message id = record {
    server = server;
    status = 400;
    body = some (error_response code message id);
  }

  module _ {S : Type 0} where
    unfoldable pub process_request :
        Registry F S → ℕ → Request J → World F S → Option (Response F J) × World F S
    unfolding get_handler respond
    process_request registry now req w = elim (get_handler req.method registry) [
      | none ↦ (some (error_response method_not_found "Method not found" (some req.id)), w)
      | some handler ↦
          let ctx : Context = record {
            command_name = some req.method;
            subcommand = none;
            now = now;
          } in
          let out = handler.handle ctx req.params w in (respond req.id out.0, out.1)
    ]

    unfoldable pub handle_request :
        String
        → Registry F S
        → ℕ
        → String
        → Option (Request J)
        → World F S
        → HttpReply F J × World F S
    unfolding process_request
    handle_request server_header registry now method decoded w =
        let server = if str_eq server_header "" then none else some server_header in
        if str_eq method "POST"
        then elim decoded [
          | none ↦ (refuse server parse_error "Parse error" none, w)
          | some req ↦
              if str_eq req.jsonrpc "2.0"
              then (
                record {
                  server = server;
                  status = 200;
                  body = (process_request registry now req w).0;
                },
                (process_request registry now req w).1,
              )
              else (refuse server invalid_request "Invalid Request" (some req.id), w)
        ]
        else (refuse server invalid_request "Invalid Request" none, w)

pub record CommandInfo : Type 0 where
  pub name : String
  pub description : String
  pub read_only : Bool
  pub blackout : Bool

module _ {F S : Type 0} where
  unfoldable pub info_of : Handler F S → CommandInfo
  info_of handler = record {
    name = handler.name;
    description = handler.description;
    read_only = handler.read_only;
    blackout = handler.requires_blackout;
  }

  unfoldable pub get_available_commands : Registry F S → List CommandInfo
  unfolding info_of
  get_available_commands registry = map (λ (e : String × Handler F S). info_of e.1) registry

  unfoldable pub add_custom_command : Handler F S → Registry F S → Registry F S
  unfolding register
  add_custom_command handler registry = register handler registry

  unfoldable pub remove_command : String → Registry F S → Registry F S
  remove_command name registry = remove registry name

  unfoldable pub new_custom_command_handler :
      String → String → Bool → Bool → Handle F S → Handler F S
  new_custom_command_handler name description read_only blackout handle = record {
    name = name;
    description = description;
    read_only = read_only;
    requires_blackout = blackout;
    handle = handle;
  }

  -- The two handlers return fixed results, of which the first one is a map.
  unfoldable pub example_custom_commands : Registry F S → Registry F S
  unfolding add_custom_command new_custom_command_handler
  example_custom_commands registry =
      add_custom_command
        (new_custom_command_handler "custom_reboot" "Reboot the system" false true
          (λ ctx params w. (succeeded (of_radio (texts ([] ∷ []))), w)))
        (add_custom_command
          (new_custom_command_handler "custom_status" "Get custom system status" true false
            (λ ctx params w. (succeeded custom_output, w)))
          registry)

module _ {F S : Type 0} ⦃o : Float F⦄ (readings : Readings) (gps : GpsNumbers F)
    (execute : Execute S) where
  -- The registry of `NewExtensibleJSONRPCServer`.
  unfoldable pub new_registry : Registry F S
  unfolding new_command_registry register_core_commands register_optional_commands
      register_gps_commands
  new_registry = register_gps_commands gps (
      register_optional_commands readings execute
        (register_core_commands execute new_command_registry))
