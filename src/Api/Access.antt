-- ===== src/Api/Access.antt =====
-- What a request without the scope "control" cannot do to what stands behind the API.
use radio_container.Prelude.{
  ◌≡◌, refl, ap, subst, sym, ◌⊎◌, inl, inr, true, false, Option, none, some, String, str_eq, codes,
  has_prefix, Bool-cases, Option-cases, eq_iff, arith,
}
use radio_container.Auth.{Claims, Request, HandlerFunc, Verifier, with_claims}
use radio_container.Auth.Scopes.{Granted, guard, guard-Granted}
use radio_container.Adapter.{RadioState}
use radio_container.Api.Server.{
  Server, OrchestratorPort, RadioReadPort, TelemetryPort, Decoders, Answer, Payload, power, channel,
  failure, extract_radio_id, has_suffix, with_radio_id, read_radio, read_state, handle_capabilities,
  handle_radios, handle_select_radio, handle_radio_by_id, handle_radio_power, handle_radio_channel,
  handle_telemetry, handle_health,
}
use radio_container.Api.Routes.{protect, protect_by_method, handle_radio_endpoints, serve}

-- A part of the state that the ports' readings leave alone.
pub record ReadsKeep {F S X : Type 0} (part : S → X) (server : Server F S) : Type 0 where
  pub get_state :
      (o : OrchestratorPort F S)
      → server.orchestrator ≡ some o
      → (k : String) (s : S) → part (o.get_state k s).1 ≡ part s
  pub get_radio :
      (m : RadioReadPort F S)
      → server.radio_manager ≡ some m
      → (k : String) (s : S) → part (m.get_radio k s).1 ≡ part s
  pub subscribe :
      (t : TelemetryPort S)
      → server.telemetry_hub ≡ some t
      → (s : S) → part (t.subscribe s).1 ≡ part s

module _ {F S B X : Type 0} (part : S → X) (server : Server F S) (decode : Decoders B F)
    (reads : ReadsKeep part server) where
  -- A handler that keeps the part, for every request or for those that are no POST.
  abbrev Keeps : HandlerFunc B S (Answer F) → Type 0
  Keeps h = (r : Request B) (s : S) → part (h r s).1 ≡ part s

  abbrev KeepsUnlessPost : HandlerFunc B S (Answer F) → Type 0
  KeepsUnlessPost h =
      (r : Request B) (s : S) → str_eq r.method "POST" ≡ false → part (h r s).1 ≡ part s

  capabilities-Keeps : Keeps (handle_capabilities server decode)
  unfolding handle_capabilities
  capabilities-Keeps r s = ground arith

  radios-Keeps : Keeps (handle_radios server decode)
  unfolding handle_radios
  radios-Keeps r s = ground arith

  health-Keeps : Keeps (handle_health server decode)
  unfolding handle_health
  health-Keeps r s = ground arith

  telemetry-Keeps : Keeps (handle_telemetry server decode)
  unfolding handle_telemetry
  telemetry-Keeps r s = elim (Bool-cases (str_eq r.method "GET")) [
    | inr other ↦ rw (other, handle_telemetry) refl
    | inl gets ↦ elim (Option-cases server.telemetry_hub) [
      | inl e ↦ rw (gets, e, handle_telemetry) refl
      | inr (hub, e) ↦ rw (gets, e, handle_telemetry) (reads.subscribe hub e s)
    ]
  ]

  read_radio-keeps : (k : String) (s : S) → part (read_radio server decode k s).1 ≡ part s
  unfolding read_radio
  read_radio-keeps k s = elim (Option-cases server.radio_manager) [
    | inl e ↦ rw (e, read_radio) refl
    | inr (m, e) ↦ rw (e, read_radio) (reads.get_radio m e k s)
  ]

  read_state-keeps :
      (show : RadioState F → Payload F) (k : String) (s : S)
      → part (read_state server decode show k s).1 ≡ part s
  unfolding read_state
  read_state-keeps show k s = elim (Option-cases server.orchestrator) [
    | inl e ↦ rw (e, read_state) refl
    | inr (o, e) ↦ rw (e, read_state) (reads.get_state o e k s)
  ]

  by_id-Keeps : Keeps (handle_radio_by_id server decode)
  unfolding handle_radio_by_id with_radio_id
  by_id-Keeps r s = ground (arith, read_radio-keeps (extract_radio_id r.path) s)

  power-KeepsUnlessPost : KeepsUnlessPost (handle_radio_power server decode)
  unfolding handle_radio_power with_radio_id
  power-KeepsUnlessPost r s no_post = ground (
    arith,
    read_state-keeps (λ (x : RadioState F). power x.power_dbm) (extract_radio_id r.path) s,
  )

  channel-KeepsUnlessPost : KeepsUnlessPost (handle_radio_channel server decode)
  unfolding handle_radio_channel with_radio_id
  channel-KeepsUnlessPost r s no_post = ground (
    arith,
    read_state-keeps (λ (x : RadioState F). channel (some x.frequency_mhz) none)
        (extract_radio_id r.path) s,
  )

  module _ (verifier : Option Verifier) (guarded : server.auth_middleware ≡ some verifier) where
    -- The part is kept, or the request was granted the scope "control".
    abbrev Controlled : Request B → S → Answer F × S → Type 0
    Controlled r s out = (part out.1 ≡ part s) ⊎ Granted verifier "control" r

    protect-guard :
        (scope : String) (h : HandlerFunc B S (Answer F)) (r : Request B) (s : S)
        → protect server decode scope h r s ≡ guard failure verifier scope h r s
    unfolding protect
    protect-guard scope h r s = rw (guarded, protect) refl

    protect-Keeps :
        (scope : String) (h : HandlerFunc B S (Answer F)) (r : Request B) (s : S)
        → ((c : Claims) → part (h (with_claims c r) s).1 ≡ part s)
        → r.claims ≡ none
        → part (protect server decode scope h r s).1 ≡ part s
    protect-Keeps scope h r s keeps fresh =
        elim (guard-Granted failure scope h verifier r s fresh) [
          | inl same ↦ rw (protect-guard scope h r s) (ap part same)
          | inr (g, through) ↦ rw (protect-guard scope h r s, through) (keeps g.claims)
        ]

    protect-Controlled :
        (h : HandlerFunc B S (Answer F)) (r : Request B) (s : S)
        → r.claims ≡ none
        → Controlled r s (protect server decode "control" h r s)
    protect-Controlled h r s fresh = elim (guard-Granted failure "control" h verifier r s fresh) [
      | inl same ↦ inl (rw (protect-guard "control" h r s) (ap part same))
      | inr (g, through) ↦ inr g
    ]

    no_post : (r : Request B) → str_eq r.method "GET" ≡ true → str_eq r.method "POST" ≡ false
    no_post r h = let gets : r.method ≡ "GET" = (eq_iff r.method "GET").0 h in rw gets refl

    by_method-Controlled :
        (h : HandlerFunc B S (Answer F))
        → KeepsUnlessPost h
        → (r : Request B) (s : S) → r.claims ≡ none
        → Controlled r s (protect_by_method server decode h r s)
    unfolding protect_by_method
    by_method-Controlled h keeps r s fresh = elim (Bool-cases (str_eq r.method "GET")) [
      | inl gets ↦ inl (
          rw (gets, protect_by_method)
            (protect-Keeps "read" h r s (λ c. keeps (with_claims c r) s (no_post r gets)) fresh))
      | inr other ↦ elim (Bool-cases (str_eq r.method "POST")) [
        | inl posts ↦ rw (other, posts, protect_by_method) (protect-Controlled h r s fresh)
        | inr neither ↦ inl (rw (other, neither, protect_by_method) (keeps r s neither))
      ]
    ]

    endpoints-Controlled :
        (r : Request B) (s : S)
        → r.claims ≡ none
        → Controlled r s (handle_radio_endpoints server decode r s)
    unfolding handle_radio_endpoints
    endpoints-Controlled r s fresh = elim (Bool-cases (str_eq (extract_radio_id r.path) "")) [
      | inl e ↦ inl (rw (e, handle_radio_endpoints) refl)
      | inr e ↦ elim (Bool-cases (has_suffix (codes r.path) (codes "/power"))) [
        | inl p ↦
            rw (e, p, handle_radio_endpoints)
              (by_method-Controlled (handle_radio_power server decode) power-KeepsUnlessPost r s
                fresh)
        | inr np ↦ elim (Bool-cases (has_suffix (codes r.path) (codes "/channel"))) [
          | inl c ↦
              rw (e, np, c, handle_radio_endpoints)
                (by_method-Controlled (handle_radio_channel server decode) channel-KeepsUnlessPost r
                  s fresh)
          | inr nc ↦ inl (
              rw (e, np, nc, handle_radio_endpoints)
                (protect-Keeps "read" (handle_radio_by_id server decode) r s
                  (λ c. by_id-Keeps (with_claims c r) s) fresh))
        ]
      ]
    ]

    -- With an authentication middleware, no request changes what only commands change - a part of
    -- the state that readings of a radio's state, readings of a radio and subscriptions leave alone -
    -- unless it carries a bearer token that verifies to claims with the scope "control".
    pub serve-Controlled :
        (r : Request B) (s : S)
        → r.claims ≡ none
        → (part (serve server decode r s).1 ≡ part s) ⊎ Granted verifier "control" r
    unfolding serve
    serve-Controlled r s fresh = elim (Bool-cases (str_eq r.path "/api/v1/health")) [
      | inl e ↦ inl (rw (e, serve) (health-Keeps r s))
      | inr n1 ↦ elim (Bool-cases (str_eq r.path "/api/v1/capabilities")) [
        | inl e ↦ inl (
            rw (n1, e, serve)
              (protect-Keeps "read" (handle_capabilities server decode) r s
                (λ c. capabilities-Keeps (with_claims c r) s) fresh))
        | inr n2 ↦ elim (Bool-cases (str_eq r.path "/api/v1/radios")) [
          | inl e ↦ inl (
              rw (n1, n2, e, serve)
                (protect-Keeps "read" (handle_radios server decode) r s
                  (λ c. radios-Keeps (with_claims c r) s) fresh))
          | inr n3 ↦ rest n1 n2 n3
        ]
      ]
    ]
      where
        to_endpoints :
            str_eq r.path "/api/v1/health" ≡ false
            → str_eq r.path "/api/v1/capabilities" ≡ false
            → str_eq r.path "/api/v1/radios" ≡ false
            → str_eq r.path "/api/v1/radios/select" ≡ false
            → str_eq r.path "/api/v1/telemetry" ≡ false
            → has_prefix (codes r.path) (codes "/api/v1/radios/") ≡ true
            → serve server decode r s ≡ handle_radio_endpoints server decode r s
        to_endpoints n1 n2 n3 n4 n5 e = rw (n1, n2, n3, n4, n5, e, serve) refl

        rest :
            str_eq r.path "/api/v1/health" ≡ false
            → str_eq r.path "/api/v1/capabilities" ≡ false
            → str_eq r.path "/api/v1/radios" ≡ false
            → Controlled r s (serve server decode r s)
        rest n1 n2 n3 = elim (Bool-cases (str_eq r.path "/api/v1/radios/select")) [
          | inl e ↦
              rw (n1, n2, n3, e, serve)
                (protect-Controlled (handle_select_radio server decode) r s fresh)
          | inr n4 ↦ elim (Bool-cases (str_eq r.path "/api/v1/telemetry")) [
            | inl e ↦ inl (
                rw (n1, n2, n3, n4, e, serve)
                  (protect-Keeps "telemetry" (handle_telemetry server decode) r s
                    (λ c. telemetry-Keeps (with_claims c r) s) fresh))
            | inr n5 ↦ elim (Bool-cases (has_prefix (codes r.path) (codes "/api/v1/radios/"))) [
              | inl e ↦
                  subst (Controlled r s) (sym (to_endpoints n1 n2 n3 n4 n5 e))
                    (endpoints-Controlled r s fresh)
              | inr n6 ↦ inl (rw (n1, n2, n3, n4, n5, n6, serve) refl)
            ]
          ]
        ]
