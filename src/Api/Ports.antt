-- ===== src/Api/Ports.antt =====
-- The ports of rcc/internal/api/ports.go as the orchestrator, its radio manager and its hub fill them.
-- The client, its radio, its last event and whether it can be written to come from the request of a
-- subscription, and are parameters of the port here.
mod Examples
use radio_container.Prelude.{
  subst, some_inj, ℕ, ◌≡◌, ◌⊎◌, refl, true, not, [], Option, none, some, String, Option-cases, inl,
  inr,
}
use radio_container.Prelude.Int.{ℤ}
use radio_container.Prelude.Float.{Float}
use radio_container.Adapter.Errors.{Err}
use radio_container.Adapter.{RadioAdapter, Result, ok, err}
use radio_container.Radio.{list}
use radio_container.Radio.Discovery.{get_radio}
use radio_container.Telemetry.Hub.{Case, subscribe}
use radio_container.Command.State.{Orchestrator}
use radio_container.Command.Orchestrator.{
  select_radio, get_state, set_power, set_channel, set_channel_by_index,
}
use radio_container.Command.Orchestrator.Reading.{get_state-world}
use radio_container.Auth.{Request, Verifier}
use radio_container.Auth.Scopes.{Granted}
use radio_container.Api.Server.{OrchestratorPort, RadioReadPort, TelemetryPort, Server, Decoders}
use radio_container.Api.Routes.{serve}
use radio_container.Api.Access.{ReadsKeep, serve-Controlled}

unfoldable pub error_of : {X : Type 0} → Result X → Option Err
error_of (ok x) = none
error_of (err e) = some e

unfoldable pub found : {X : Type 0} → Result X → Option X
found (ok x) = some x
found (err e) = none

module _ {F A W : Type 0} ⦃o : Float F⦄ (adapter : RadioAdapter F A W) (prefer : String → Case)
    (now : ℕ) where
  unfoldable pub orchestrator_port : OrchestratorPort F (Orchestrator F A W)
  unfolding error_of
  orchestrator_port = record {
    select_radio = λ k s. let out = select_radio adapter prefer now s k in (error_of out.1, out.0);
    get_state = λ k s. let out = get_state adapter prefer now s k in (out.1, out.0);
    set_power = λ k x s. let out = set_power adapter prefer now s k x in (error_of out.1, out.0);
    set_channel =
        λ k x s. let out = set_channel adapter prefer now s k x in (error_of out.1, out.0);
    set_channel_by_index = λ k i s.
        let out = set_channel_by_index adapter prefer now s k i s.radio_manager in
        (error_of out.1, out.0);
  }

  -- The server's radio manager is the orchestrator's.
  unfoldable pub manager_port : RadioReadPort F (Orchestrator F A W)
  unfolding found
  manager_port = record {
    get_radio = λ k s. elim s.radio_manager [
      | none ↦ (none, s)
      | some m ↦
          let out = get_radio adapter m s.world k in
          (found out.1, record s { radio_manager = some out.0 })
    ];
    list = λ s. elim s.radio_manager [
      | none ↦ record { active_radio_id = ""; items = [] }
      | some m ↦ list m
    ];
  }

-- The server's hub is the orchestrator's.
unfoldable pub telemetry_port :
    {F A W : Type 0} ⦃o : Float F⦄ → String → String → ℤ → ℕ → TelemetryPort (Orchestrator F A W)
telemetry_port client radio last_id writable = record {
  subscribe = λ s. elim s.telemetry_hub [
    | none ↦ (true, s)
    | some hub ↦
        let out = subscribe hub client radio last_id writable in
        (not out.1, record s { telemetry_hub = some out.0 })
  ];
}

module _ {F A W : Type 0} ⦃o : Float F⦄ (adapter : RadioAdapter F A W) (prefer : String → Case)
    (now : ℕ) (client radio : String) (last_id : ℤ) (writable : ℕ)
    (verifier : Option Verifier) where
  -- `NewServerWithAuth`
  unfoldable pub new_server_with_auth : Server F (Orchestrator F A W)
  unfolding orchestrator_port manager_port telemetry_port
  new_server_with_auth = record {
    telemetry_hub = some (telemetry_port client radio last_id writable);
    orchestrator = some (orchestrator_port adapter prefer now);
    radio_manager = some (manager_port adapter prefer now);
    auth_middleware = some verifier;
  }

  wired : new_server_with_auth.auth_middleware ≡ some verifier
  unfolding new_server_with_auth
  wired = refl

  module _ (reads : (a : A) (w : W) → (adapter.get_state a w).1 ≡ w) where
    orchestrator_port-keeps :
        (k : String) (s : Orchestrator F A W)
        → ((orchestrator_port adapter prefer now).get_state k s).1.world ≡ s.world
    unfolding orchestrator_port
    orchestrator_port-keeps k s = get_state-world adapter prefer now reads s k

    manager_port-keeps :
        (k : String) (s : Orchestrator F A W)
        → ((manager_port adapter prefer now).get_radio k s).1.world ≡ s.world
    unfolding manager_port
    manager_port-keeps k s = elim (Option-cases s.radio_manager) [
      | inl e ↦ rw (e, manager_port) refl
      | inr (m, e) ↦ rw (e, manager_port) refl
    ]

    telemetry_port-keeps :
        (s : Orchestrator F A W)
        → ((telemetry_port {F = F} {A = A} {W = W} client radio last_id writable).subscribe
            s).1.world
          ≡ s.world
    unfolding telemetry_port
    telemetry_port-keeps s = elim (Option-cases s.telemetry_hub) [
      | inl e ↦ rw (e, telemetry_port) refl
      | inr (h, e) ↦ rw (e, telemetry_port) refl
    ]

    new_server_with_auth-ReadsKeep :
        ReadsKeep (λ (s : Orchestrator F A W). s.world) new_server_with_auth
    unfolding new_server_with_auth
    new_server_with_auth-ReadsKeep = record {
      get_state = λ p e k s.
          subst
            (λ (x : OrchestratorPort F (Orchestrator F A W)). (x.get_state k s).1.world ≡ s.world)
            (some_inj e) (orchestrator_port-keeps k s);
      get_radio = λ m e k s.
          subst (λ (x : RadioReadPort F (Orchestrator F A W)). (x.get_radio k s).1.world ≡ s.world)
            (some_inj e) (manager_port-keeps k s);
      subscribe = λ t e s.
          subst (λ (x : TelemetryPort (Orchestrator F A W)). (x.subscribe s).1.world ≡ s.world)
            (some_inj e) (telemetry_port-keeps s);
    }

    -- Over the API with its authentication, and ports that are the orchestrator, its radio manager and
    -- its hub, no request that arrives without claims changes anything that the adapters keep (the
    -- settings of the radios) unless it carries a bearer token that verifies to claims with the scope
    -- "control", if reading an adapter's state changes nothing.
    pub serve-world :
        {B : Type 0} (decode : Decoders B F) (r : Request B) (s : Orchestrator F A W)
        → r.claims ≡ none
        → ((serve new_server_with_auth decode r s).1.world ≡ s.world) ⊎ Granted verifier "control" r
    serve-world decode r s fresh =
        serve-Controlled (λ (x : Orchestrator F A W). x.world) new_server_with_auth decode
          new_server_with_auth-ReadsKeep verifier wired r s fresh
