-- ===== src/Api/Ports/Examples.antt =====
-- An example of a request that changes nothing.
use radio_container.Prelude.{ℕ, ◌≡◌, ◌⊎◌, refl, [], ◌∷◌, none, some, String, codes}
use radio_container.Prelude.Int.{pos}
use radio_container.Prelude.Float.{Sample, sample_float}
use radio_container.Adapter.Samples.{Settings, willing}
use radio_container.Radio.{Manager}
use radio_container.Telemetry.Hub.{Case, channel_send}
use radio_container.Command.State.{Orchestrator}
use radio_container.Auth.{Request}
use radio_container.Auth.Scopes.{Granted}
use radio_container.Api.Server.{Decoders, decoded}
use radio_container.Api.Routes.{serve}
use radio_container.Api.Ports.{new_server_with_auth, serve-world}

abbrev manager : Manager Sample ℕ
manager = record {
  radios =
      (
        "a",
        record {
          id = "a";
          model = "Unknown-Radio";
          status = "online";
          capabilities = none;
          state = none;
          last_seen = 1;
        },
      )
      ∷ [];
  active_radio_id = "a";
  adapters = ("a", 7) ∷ [];
}

abbrev orchestrator : Orchestrator Sample ℕ Settings
orchestrator = record {
  radio_manager = some manager;
  active_adapter = some 7;
  telemetry_hub = none;
  audit_log = some [];
  silvus_band_plan = none;
  world = [];
}

-- Every body asks for the power 25 and the channel 1 of the radio "a".
abbrev decoders : Decoders ℕ Sample
decoders = record {
  radio_id = λ b. decoded "a";
  power = λ b. decoded (some 25);
  channel = λ b. decoded (some (pos 1), none);
}

abbrev viewer_sets_power : Request ℕ
viewer_sets_power = record {
  path = "/api/v1/radios/a/power";
  method = "POST";
  authorization = codes "Bearer viewer-token";
  body = 0;
  claims = none;
}

abbrev prefers_sending : String → Case
prefers_sending id = channel_send

serve-world_example :
    ((serve
        (new_server_with_auth willing prefers_sending 9 "c" "a" (pos 0) 5 none)
        decoders
        viewer_sets_power
        orchestrator).1.world
      ≡ [])
    ⊎ Granted none "control" viewer_sets_power
serve-world_example =
    serve-world willing prefers_sending 9 "c" "a" (pos 0) 5 none (λ a w. refl) decoders
      viewer_sets_power orchestrator refl
