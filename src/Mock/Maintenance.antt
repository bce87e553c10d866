-- ===== src/Mock/Maintenance.antt =====
-- silvus-mock/internal/maintenance/server.go: the server for maintenance. Parsing and comparing
-- addresses and decoding JSON are parameters or left out; sockets are not modelled.
pub mod Guard
use radio_container.Prelude.{
  Bool, true, false, List, [], ◌∷◌, Option, none, some, String, str_eq, if◌then◌else◌,
}
use radio_container.Mock.Config.{Text, Config}
use radio_container.Mock.Radio.{Value, CommandResponse}
use radio_container.Mock.Commands.{Execute}
use radio_container.Mock.Commands.Server.{Request, RpcError, parse_error, invalid_request}
use radio_container.Prelude.Int.{ℤ}

-- `Error`: a text, or a code and a message.
pub data Problem : Type 0 where
  text_error : String → Problem
  coded : RpcError → Problem

pub record Response (J : Type 0) : Type 0 where
  pub jsonrpc : String
  pub result : Option Value
  pub error : Option Problem
  pub id : Option J

-- The `switch` on the method: the command that is executed.
unfoldable pub command_type : String → Option String
command_type method =
    if str_eq method "zeroize"
    then some "zeroize"
    else if str_eq method "radio_reset"
    then some "radioReset"
    else if str_eq method "factory_reset"
    then some "factoryReset"
    else none

module _ {J : Type 0} where
  abbrev pub problem : Problem → Option J → Response J
  problem p id = record { jsonrpc = "2.0"; result = none; error = some p; id = id }

  unfoldable pub answered : J → CommandResponse → Response J
  answered id response =
      if str_eq response.error ""
      then record { jsonrpc = "2.0"; result = some response.result; error = none; id = some id }
      else problem (text_error response.error) (some id)

  module _ {S : Type 0} (execute : Execute S) where
    unfoldable pub process_maintenance_request : Request J → S → Response J × S
    unfolding command_type answered
    process_maintenance_request req s = elim (command_type req.method) [
      | none ↦ (problem (text_error "Method not found") (some req.id), s)
      | some cmd_type ↦ let out = execute cmd_type [] s in (answered req.id out.0, out.1)
    ]

    abbrev refuse : ℤ → String → Option J → Response J
    refuse code message id = problem (coded (record { code = code; message = message })) id

    -- One connection: one request that was decoded, or not, and one response.
    unfoldable pub handle_connection : Option (Request J) → S → Response J × S
    unfolding process_maintenance_request
    handle_connection none s = (refuse parse_error "Parse error" none, s)
    handle_connection (some req) s =
        if str_eq req.jsonrpc "2.0"
        then process_maintenance_request req s
        else (refuse invalid_request "Invalid Request" (some req.id), s)

-- `net.SplitHostPort`, `net.ParseIP`, `net.ParseCIDR` and `Contains`
pub record Addresses (Address Network : Type 0) : Type 0 where
  pub split_host_port : Text → Option Text
  pub parse_ip : Text → Option Address
  pub parse_cidr : Text → Option Network
  pub contains : Network → Address → Bool

module _ {Address Network : Type 0} (net : Addresses Address Network) where
  -- The loop over the ranges; one that cannot be parsed is passed over.
  unfoldable pub in_allowed : List Text → Address → Bool
  in_allowed [] ip = false
  in_allowed (cidr ∷ cidrs) ip =
      let rest = in_allowed cidrs ip in
      elim (net.parse_cidr cidr) [
        | none ↦ rest
        | some network ↦ if net.contains network ip then true else rest
      ]

  unfoldable pub is_allowed_connection : Config → Text → Bool
  unfolding in_allowed
  is_allowed_connection cfg address = elim (net.split_host_port address) [
    | none ↦ false
    | some host ↦ elim (net.parse_ip host) [
      | none ↦ false
      | some ip ↦ in_allowed cfg.network.maintenance.allowed_cidrs ip
    ]
  ]

  -- A connection from an address that is not allowed is closed before anything is read.
  unfoldable pub serve_connection :
      {J S : Type 0} → Execute S → Config → Text → Option (Request J) → S → Option (Response J) × S
  unfolding is_allowed_connection handle_connection
  serve_connection execute cfg address decoded s =
      if is_allowed_connection cfg address
      then (some (handle_connection execute decoded s).0, (handle_connection execute decoded s).1)
      else (none, s)
