-- ===== src/Mock/Maintenance/Guard.antt =====
-- Who may change the radio over the maintenance server.
use radio_container.Prelude.{◌≡◌, true, List, ◌∷◌, ◌++◌, Option, some, String, str_eq}
use radio_container.Mock.Config.{Text, Config}
use radio_container.Mock.Commands.Server.{Request}
use radio_container.Mock.Maintenance.{Addresses, command_type}

module _ {Address Network : Type 0} (net : Addresses Address Network) where
  -- Some of the ranges that can be parsed contains the address.
  pub record Within (cidrs : List Text) (ip : Address) : Type 0 where
    pub before : List Text
    pub cidr : Text
    pub after : List Text
    pub member : cidrs ≡ before ++ cidr ∷ after
    pub network : Network
    pub parsed : net.parse_cidr cidr ≡ some network
    pub inside : net.contains network ip ≡ true

  -- An address whose host is within a configured range.
  pub record Allowed (cfg : Config) (address : Text) : Type 0 where
    pub host : Text
    pub ip : Address
    pub split : net.split_host_port address ≡ some host
    pub resolved : net.parse_ip host ≡ some ip
    pub within : Within cfg.network.maintenance.allowed_cidrs ip

-- A request that is well formed, with the command that its method stands for.
pub record Maintains {J : Type 0} (decoded : Option (Request J)) : Type 0 where
  pub req : Request J
  pub cmd_type : String
  pub arrived : decoded ≡ some req
  pub version : str_eq req.jsonrpc "2.0" ≡ true
  pub known : command_type req.method ≡ some cmd_type
