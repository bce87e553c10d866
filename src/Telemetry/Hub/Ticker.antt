-- ===== src/Telemetry/Hub/Ticker.antt =====
-- The goroutine of `startHeartbeat` in hub.go: it runs while its ticker is set, if the hub was not stopped.
use radio_container.Prelude.{
  ℕ, ◌≡◌, refl, Bool, true, false, not, ◌&&◌, List, [], ◌∷◌, String, Option-cases, Bool-cases, inl,
  inr, arith, length, ◌==◌,
}
use radio_container.Prelude.Dict.{get, has, put}
use radio_container.Prelude.Int.{ℤ, pos}
use radio_container.Prelude.Float.{Float}
use radio_container.Telemetry.Event.{Event, heartbeat_at}
use radio_container.Telemetry.Hub.{
  Client, Hub, Case, publish, publish_radio, send_heartbeat, subscribe, start_heartbeat, entered,
  get_next_event_id, unregister_client, handle_next, handle_client, send_event_to_client,
  disconnect, stop,
}
use radio_container.Telemetry.Hub.Invariant.{
  Call, publishes, beats, subscribes, handles, disconnects, stops, or_same, step, record_event-Kept,
}

module _ {F : Type 0} where
  abbrev pub Ticking : Hub F → Type 0
  Ticking h = h.ticking ≡ h.heartbeat_ticker && not h.done

  publish-Ticking :
      (prefer : String → Case) (h : Hub F) (e : Event F) → Ticking h → Ticking (publish prefer h e)
  unfolding publish
  publish-Ticking prefer h e t =
      let (clients, ticker, ticking, done) = record_event-Kept h e in rw (ticker, ticking, done) t

  unregister_client-Ticking :
      (h : Hub F) (id : String) → Ticking h → Ticking (unregister_client h id)
  unfolding unregister_client
  unregister_client-Ticking h id t = elim (Bool-cases (has h.clients id)) [
    | inl known ↦ rw (known, unregister_client) (ground arith)
    | inr unknown ↦ rw (unknown, unregister_client) t
  ]

  entered-Ticking :
      (h : Hub F) (id : String) (c : Client F) (greeted : Bool)
      → Ticking h
      → Ticking (entered h id (c, greeted)).0
  unfolding entered start_heartbeat
  entered-Ticking h id c true t =
      elim (Bool-cases ((length (put h.clients id c) == 1) && not h.heartbeat_ticker)) [
        | inl first ↦ rw first refl
        | inr later ↦ rw later t
      ]
  entered-Ticking h id c false t =
      unregister_client-Ticking (record h { clients = put h.clients id c }) id t

  stop-Ticking : (h : Hub F) → Ticking h → Ticking (or_same h (stop h))
  unfolding stop
  stop-Ticking h t = elim (Bool-cases h.done) [
    | inl twice ↦ rw (twice, stop) (ground arith)
    | inr once ↦ rw (once, stop) refl
  ]

  module _ ⦃o : Float F⦄ where
    subscribe-Ticking :
        (h : Hub F) (id r : String) (last_id : ℤ) (writable : ℕ)
        → Ticking h
        → Ticking (subscribe h id r last_id writable).0
    unfolding subscribe get_next_event_id
    subscribe-Ticking h id r last_id writable t = entered-Ticking _ id _ _ t

    handle_next-Ticking :
        (h : Hub F) (id : String) (c : Client F) (es : List (Event F))
        → Ticking h
        → Ticking (handle_next h id c es)
    unfolding handle_next
    handle_next-Ticking h id c [] t = t
    handle_next-Ticking h id c (e ∷ es) t =
        elim (Bool-cases (send_event_to_client (record c { events = es }) e).1) [
          | inl written ↦ rw (written, handle_next) t
          | inr broken ↦ rw (broken, handle_next) (unregister_client-Ticking h id t)
        ]

    handle_client-Ticking : (h : Hub F) (id : String) → Ticking h → Ticking (handle_client h id)
    unfolding handle_client
    handle_client-Ticking h id t = elim (Option-cases (get h.clients id)) [
      | inl unknown ↦ rw (unknown, handle_client) t
      | inr (c, known) ↦
          rw (known, handle_client)
            (elim (Bool-cases c.cancelled) [
              | inl over ↦ simp (over) (unregister_client-Ticking h id t)
              | inr live ↦ simp (live) (handle_next-Ticking h id c c.events t)
            ])
    ]

    pub step-Ticking :
        (prefer : String → Case) (h : Hub F) (c : Call F) → Ticking h → Ticking (step prefer h c)
    unfolding step publish_radio send_heartbeat disconnect
    step-Ticking prefer h (publishes i r kind payload) t =
        publish-Ticking prefer h (record { id = i; kind = kind; payload = payload; radio = r }) t
    step-Ticking prefer h (beats now) t =
        publish-Ticking prefer h
          (record { id = pos 0; kind = "heartbeat"; payload = heartbeat_at now; radio = "" }) t
    step-Ticking prefer h (subscribes id r last_id writable) t =
        subscribe-Ticking h id r last_id writable t
    step-Ticking prefer h (handles id) t = handle_client-Ticking h id t
    step-Ticking prefer h (disconnects id) t = unregister_client-Ticking h id t
    step-Ticking prefer h stops t = stop-Ticking h t
