-- ===== src/Telemetry/Hub/Invariant.antt =====
-- Histories of calls of the hub, each run by itself, and the heartbeat.
use radio_container.Prelude.{
  Option-cases, ◌⊎◌, str_eq, ℕ, ◌≡◌, refl, Bool, true, false, not, List, [], ◌∷◌, is_nil, length,
  ◌&&◌, ◌==◌, Option, none, some, String, arith, eq_iff, Bool-cases, inl, inr,
}
use radio_container.Prelude.Dict.{remove, has-put, has-get, get, Dict, has, put}
use radio_container.Prelude.Int.{eq_int, ℤ, pos}
use radio_container.Prelude.Float.{Float}
use radio_container.Telemetry.Event.{heartbeat_at, Event, Payload}
use radio_container.Telemetry.Hub.{
  subscribe, start_heartbeat, fresh, send_event_to_client, handle_next, handle_client, stop,
  publish_radio, send_heartbeat, disconnect, entered, Client, Hub, Case, publish, record_event,
  deliver, unregister_client, get_next_event_id, buffer_event,
}

-- The ticker is set exactly where there is a client.
abbrev pub Beating : {F : Type 0} → Hub F → Type 0
Beating h = h.heartbeat_ticker ≡ not (is_nil h.clients)

-- A call of the hub; `number` is the number that the event carries already, or 0.
pub data Call (F : Type 0) : Type 0 where
  publishes : (number : ℤ) (radio_id kind : String) (payload : Payload F) → Call F
  beats : (now : ℕ) → Call F
  subscribes : (id radio : String) (last_id : ℤ) (writable : ℕ) → Call F
  handles : (id : String) → Call F
  disconnects : (id : String) → Call F
  stops : Call F

module _ {F : Type 0} where
  -- The hub stays as it is where `Stop` panics.
  abbrev pub or_same : Hub F → Option (Hub F) → Hub F
  or_same h none = h
  or_same h (some h') = h'

  unfoldable pub step : ⦃o : Float F⦄ → (String → Case) → Hub F → Call F → Hub F
  unfolding publish publish_radio send_heartbeat subscribe handle_client disconnect stop
  step prefer h (publishes i r kind payload) =
      publish_radio prefer h r (record { id = i; kind = kind; payload = payload; radio = "" })
  step prefer h (beats now) = send_heartbeat prefer h now
  step prefer h (subscribes id r last_id writable) = (subscribe h id r last_id writable).0
  step prefer h (handles id) = handle_client h id
  step prefer h (disconnects id) = disconnect h id
  step prefer h stops = or_same h (stop h)

  unfoldable pub run : ⦃o : Float F⦄ → (String → Case) → Hub F → List (Call F) → Hub F
  run prefer h [] = h
  run prefer h (c ∷ cs) = run prefer (step prefer h c) cs

  deliver-is_nil :
      (prefer : String → Case) (done : Bool) (e : Event F) (cs : Dict (Client F))
      → is_nil (deliver prefer done e cs) ≡ is_nil cs
  unfolding deliver
  deliver-is_nil prefer done e [] = refl
  deliver-is_nil prefer done e (c ∷ cs) = refl

  put-is_nil : (k : String) (c : Client F) (cs : Dict (Client F)) → is_nil (put cs k c) ≡ false
  unfolding put
  put-is_nil k c [] = refl
  put-is_nil k c ((j, d) ∷ cs) = ground arith

  -- The clients, the ticker, its goroutine and `done` are as before.
  abbrev pub Kept : Hub F → Hub F → Type 0
  Kept h h' =
      (h'.clients ≡ h.clients)
      × (h'.heartbeat_ticker ≡ h.heartbeat_ticker)
      × (h'.ticking ≡ h.ticking)
      × (h'.done ≡ h.done)

  buffer_event-Kept : (h : Hub F) (e : Event F) → Kept h (buffer_event h e)
  unfolding buffer_event
  buffer_event-Kept h e = elim (Bool-cases (str_eq e.radio "")) [
    | inl blank ↦ rw (blank, buffer_event) (refl, refl, refl, refl)
    | inr named ↦ rw (named, buffer_event) (refl, refl, refl, refl)
  ]

  pub record_event-Kept : (h : Hub F) (e : Event F) → Kept h (record_event h e).1
  unfolding record_event get_next_event_id
  record_event-Kept h e = elim (Bool-cases (eq_int e.id (pos 0))) [
    | inl unset ↦ rw (unset, record_event) (buffer_event-Kept _ _)
    | inr set ↦ rw (set, record_event) (buffer_event-Kept _ _)
  ]

  publish-Beating :
      (prefer : String → Case) (h : Hub F) (e : Event F) → Beating h → Beating (publish prefer h e)
  unfolding publish
  publish-Beating prefer h e b =
      let (cs, hb, ticking, done) = record_event-Kept h e in
      rw
        (
          deliver-is_nil prefer (record_event h e).1.done (record_event h e).0
              (record_event h e).1.clients,
          cs,
          hb,
        )
        b

  has-is_nil : (cs : Dict (Client F)) (id : String) → has cs id ≡ true → is_nil cs ≡ false
  unfolding has
  has-is_nil [] id h = absurd (cc)
  has-is_nil (c ∷ cs) id h = refl

  -- The heartbeat after a client leaves, if it was on or no client remains.
  leave-Beating :
      (h : Hub F) (id : String)
      → has h.clients id ≡ true
      → (h.heartbeat_ticker ≡ true) ⊎ (is_nil (remove h.clients id) ≡ true)
      → Beating (unregister_client h id)
  unfolding unregister_client
  leave-Beating h id known (inl on) = rw (known, on, unregister_client) refl
  leave-Beating h id known (inr none_left) = rw (known, none_left, unregister_client) (ground arith)

  unregister_client-Beating :
      (h : Hub F) (id : String) → Beating h → Beating (unregister_client h id)
  unfolding unregister_client
  unregister_client-Beating h id b = elim (Bool-cases (has h.clients id)) [
    | inl known ↦ leave-Beating h id known (inl (rw (b, has-is_nil h.clients id known) refl))
    | inr unknown ↦ rw (unknown, unregister_client) b
  ]

  put-known : (k : String) (c : Client F) (cs : Dict (Client F)) → has (put cs k c) k ≡ true
  put-known k c cs = ground (arith, has-put cs k k c, eq_iff k k)

  one_client :
      (cs : Dict (Client F)) (id : String) (c d : Client F)
      → is_nil cs ≡ true
      → put (put cs id c) id d ≡ (id, d) ∷ []
  unfolding put
  one_client [] id c d h = ground (arith, eq_iff id id)
  one_client (x ∷ cs) id c d h = absurd (ground arith)

  entered-Beating :
      (h : Hub F) (id : String) (c : Client F) (greeted : Client F × Bool)
      → Beating h
      → Beating (entered (record h { clients = put h.clients id c }) id greeted).0
  unfolding entered remove start_heartbeat
  entered-Beating h id c (d, true) b = elim (Bool-cases (is_nil h.clients)) [
    | inl empty ↦ rw (one_client h.clients id c d empty) (ground arith)
    | inr full ↦
        let on : h.heartbeat_ticker ≡ true = rw (b, full) refl in
        let later : (length (put (put h.clients id c) id d) == 1) && not h.heartbeat_ticker
            ≡ false =
          ground arith in
        rw (later, on, put-is_nil id d (put h.clients id c)) refl
  ]
  entered-Beating h id c (d, false) b = elim (Bool-cases (is_nil h.clients)) [
    | inl empty ↦
        leave-Beating _ id (put-known id d (put h.clients id c))
          (inr rw (one_client h.clients id c d empty) (ground (arith, eq_iff id id)))
    | inr full ↦ leave-Beating _ id (put-known id d (put h.clients id c)) (inl rw (b, full) refl)
  ]

  subscribe-Beating :
      ⦃o : Float F⦄ (h : Hub F) (id r : String) (last_id : ℤ) (writable : ℕ)
      → Beating h
      → Beating (subscribe h id r last_id writable).0
  unfolding subscribe get_next_event_id
  subscribe-Beating h id r last_id writable b =
      entered-Beating (record h { radio_ids = (get_next_event_id h r).1.radio_ids }) id
        (fresh r last_id writable) _ b

  handle_next-Beating :
      ⦃o : Float F⦄ (h : Hub F) (id : String) (c : Client F) (es : List (Event F))
      → get h.clients id ≡ some c
      → Beating h
      → Beating (handle_next h id c es)
  unfolding handle_next
  handle_next-Beating h id c [] known b = b
  handle_next-Beating h id c (e ∷ es) known b =
      elim (Bool-cases (send_event_to_client (record c { events = es }) e).1) [
        | inl written ↦
            let here : has h.clients id ≡ true = rw (has-get h.clients id, known) refl in
            rw (written, handle_next)
              (rw (put-is_nil id _ h.clients, b, has-is_nil h.clients id here) refl)
        | inr broken ↦ rw (broken, handle_next) (unregister_client-Beating h id b)
      ]

  handle_client-Beating :
      ⦃o : Float F⦄ (h : Hub F) (id : String) → Beating h → Beating (handle_client h id)
  unfolding handle_client
  handle_client-Beating h id b = elim (Option-cases (get h.clients id)) [
    | inl unknown ↦ rw (unknown, handle_client) b
    | inr (c, known) ↦
        rw (known, handle_client)
          (elim (Bool-cases c.cancelled) [
            | inl over ↦ simp (over) (unregister_client-Beating h id b)
            | inr live ↦ simp (live) (handle_next-Beating h id c c.events known b)
          ])
  ]

  stop-Beating : (h : Hub F) → Beating h → Beating (or_same h (stop h))
  unfolding stop
  stop-Beating h b = elim (Bool-cases h.done) [
    | inl twice ↦ rw (twice, stop) b
    | inr once ↦ rw (once, stop) refl
  ]

  pub step-Beating :
      ⦃o : Float F⦄ (prefer : String → Case) (h : Hub F) (c : Call F)
      → Beating h
      → Beating (step prefer h c)
  unfolding step publish_radio send_heartbeat disconnect
  step-Beating prefer h (publishes i r kind payload) b =
      publish-Beating prefer h (record { id = i; kind = kind; payload = payload; radio = r }) b
  step-Beating prefer h (beats now) b =
      publish-Beating prefer h
        (record { id = pos 0; kind = "heartbeat"; payload = heartbeat_at now; radio = "" }) b
  step-Beating prefer h (subscribes id r last_id writable) b =
      subscribe-Beating h id r last_id writable b
  step-Beating prefer h (handles id) b = handle_client-Beating h id b
  step-Beating prefer h (disconnects id) b = unregister_client-Beating h id b
  step-Beating prefer h stops b = stop-Beating h b
