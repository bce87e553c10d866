-- ===== src/Telemetry/Hub/Replay.antt =====
-- What a new client is sent, and who gets an event.
use radio_container.Prelude.{
  eq_iff, not, ◌&&◌, some, subst, ℕ, suc, ◌-◌, ◌≤◌, ◌<◌, ◌≡◌, refl, ◌∙◌, true, false, List, [], ◌∷◌,
  ◌++◌, length, ltb, ◌==◌, All, none, String, arith, Bool-cases, inl, inr, if◌then◌else◌,
}
use mathlib.Core.List.{append-nil, append_assoc}
use radio_container.Prelude.Dict.{put, get-put, Dict, get}
use radio_container.Prelude.Int.{ℤ, pos, lt_int}
use radio_container.Telemetry.Event.{Event, ready_snapshot, encodable}
use radio_container.Prelude.Float.{Float}
use radio_container.Telemetry.Buffer.{get_events_after}
use radio_container.Telemetry.Hub.Invariant.{record_event-Kept}
use radio_container.Telemetry.Hub.{
  subscribe, entered, start_heartbeat, get_next_event_id, counter, Client, Hub, Case, context_done,
  hub_done, channel_send, channel_capacity, offer, deliver, publish, record_event,
  send_event_to_client, send_events, missed, greet, fresh,
}

module _ {F : Type 0} where
  -- The client that has taken the event, where its channel has room.
  abbrev pub taken : Event F → Client F → Client F
  taken e c =
      if ltb (length c.events) channel_capacity then record c { events = c.events ++ e ∷ [] } else c

  abbrev pub all_take : Event F → Dict (Client F) → Dict (Client F)
  all_take e [] = []
  all_take e ((id, c) ∷ cs) = (id, taken e c) ∷ all_take e cs

  abbrev pub Live : Dict (Client F) → Type 0
  Live cs = All (λ entry. entry.1.cancelled ≡ false) cs

  offer_room :
      (prefer : Case) (e : Event F) (c : Client F)
      → ltb (length c.events) channel_capacity ≡ true
      → c.cancelled ≡ false
      → offer prefer false e c ≡ (taken e c, true)
  unfolding offer
  offer_room context_done e c room h = simp (room, h) refl
  offer_room hub_done e c room h = simp (room, h) refl
  offer_room channel_send e c room h = simp (room, h) refl

  offer_full :
      (prefer : Case) (e : Event F) (c : Client F)
      → ltb (length c.events) channel_capacity ≡ false
      → c.cancelled ≡ false
      → offer prefer false e c ≡ (taken e c, true)
  unfolding offer
  offer_full context_done e c full h = simp (full, h) refl
  offer_full hub_done e c full h = simp (full, h) refl
  offer_full channel_send e c full h = simp (full, h) refl

  offer_live :
      (prefer : Case) (e : Event F) (c : Client F)
      → c.cancelled ≡ false
      → offer prefer false e c ≡ (taken e c, true)
  offer_live prefer e c h = elim (Bool-cases (ltb (length c.events) channel_capacity)) [
    | inl room ↦ offer_room prefer e c room h
    | inr full ↦ offer_full prefer e c full h
  ]

  deliver-Live :
      (prefer : String → Case) (e : Event F) (cs : Dict (Client F))
      → Live cs
      → deliver prefer false e cs ≡ all_take e cs
  unfolding deliver
  deliver-Live prefer e [] h = refl
  deliver-Live prefer e ((id, c) ∷ cs) (live, rest) =
      rw (offer_live (prefer id) e c live, deliver-Live prefer e cs rest) refl

  -- A hub that was not stopped gives an event that is published to every client whose channel has
  -- room, whatever radio the client asked for, if no client is cancelled; the other clients go
  -- without. What Go's `select` prefers does not matter.
  pub publish-all_take :
      (prefer : String → Case) (h : Hub F) (e : Event F)
      → h.done ≡ false
      → Live h.clients
      → (publish prefer h e).clients ≡ all_take (record_event h e).0 h.clients
  unfolding publish
  publish-all_take prefer h e running live =
      let (clients, beat, ticking, done) = record_event-Kept h e in
      rw (done ∙ running, clients) (deliver-Live prefer (record_event h e).0 h.clients live)

  -- The buffered events of the radio after `last_id`, if that is above 0.
  abbrev pub replayed : Hub F → String → ℤ → List (Event F)
  replayed h r last_id =
      if lt_int (pos 0) last_id
      then (elim (get h.buffers r) [ none ↦ [] | some b ↦ get_events_after b last_id ])
      else []

  abbrev pub ready_event : ℤ → Event F
  ready_event n = record { id = n; kind = "ready"; payload = ready_snapshot; radio = "" }

-- All of the events can be encoded.
abbrev pub Encodable : {F : Type 0} ⦃o : Float F⦄ → List (Event F) → Type 0
Encodable es = All (λ e. encodable e.payload ≡ true) es

module _ {F : Type 0} ⦃o : Float F⦄ where
  send_events_room :
      (c : Client F) (es : List (Event F))
      → length es ≤ c.writable
      → Encodable es
      → send_events c es
        ≡ (record c { writable = c.writable - length es; sent = c.sent ++ es }, true)
  unfolding send_events send_event_to_client
  send_events_room c [] h encoded =
      let e : c.writable - 0 ≡ c.writable = omega arith in rw (e, append-nil) refl
  send_events_room c (e ∷ es) h (good, encoded) =
      let more : suc (length es) ≤ c.writable = h in
      let some_left : (c.writable == 0) ≡ false = ground arith in
      let e₁ : (c.writable - 1) - length es ≡ c.writable - suc (length es) = omega arith in
      let rest =
        send_events_room (record c { writable = c.writable - 1; sent = c.sent ++ e ∷ [] }) es
          (omega arith) encoded in
      simp (some_left, good) (rest ∙ rw (e₁, append_assoc c.sent (e ∷ []) es) refl)

  greet_room :
      (h : Hub F) (r : String) (last_id n : ℤ) (writable : ℕ)
      → length (replayed h r last_id) < writable
      → Encodable (replayed h r last_id)
      → (d : Client F) × (greet h (fresh r last_id writable) n ≡ (d, true))
        × (d.sent ≡ ready_event n ∷ replayed h r last_id)
  unfolding greet missed fresh send_event_to_client encodable
  greet_room h r last_id n writable room encoded =
      let able : (writable == 0) ≡ false = ground arith in
      let es = missed h (fresh r last_id writable) in
      let c : Client F = record (fresh r last_id writable) {
        writable = writable - 1;
        sent = ready_event n ∷ [];
      } in
      let fits : lt_int (pos 0) last_id ≡ true → length es ≤ writable - 1 = λ asks.
        let e : replayed h r last_id ≡ es = simp (asks) refl in
        let less : length es < writable =
          subst (λ (x : List (Event F)). length x < writable) e room in
        omega arith in
      let good : lt_int (pos 0) last_id ≡ true → Encodable es =
        λ asks. let e : replayed h r last_id ≡ es = simp (asks) refl in subst Encodable e encoded in
      elim (Bool-cases (lt_int (pos 0) last_id)) [
        | inl asks ↦ (
          record c { writable = (writable - 1) - length es; sent = ready_event n ∷ es },
          simp (able, asks) (send_events_room c es (fits asks) (good asks)),
          simp (asks) refl,
        )
        | inr fresh_one ↦ (c, simp (able, fresh_one) refl, simp (fresh_one) refl)
      ]

  put-here : (cs : Dict (Client F)) (k : String) (c : Client F) → get (put cs k c) k ≡ some c
  put-here cs k c = ground (arith, get-put cs k k c, eq_iff k k)

  registered_client :
      (h : Hub F) (id : String) (c : Client F) → get (entered h id (c, true)).0.clients id ≡ some c
  unfolding entered start_heartbeat
  registered_client h id c =
      elim (Bool-cases ((length (put h.clients id c) == 1) && not h.heartbeat_ticker)) [
        | inl first ↦ rw first (put-here h.clients id c)
        | inr later ↦ rw later (put-here h.clients id c)
      ]

  -- A new client that can be written to is registered, and is sent one ready event and then the
  -- events that its radio's buffer holds after the number it last saw, in order; none of them if that
  -- number is not above 0. The ready event carries the next number of the client's radio. The events
  -- are taken to be encodable: none has a power or a frequency that is NaN or infinite.
  pub subscribe-sent :
      (h : Hub F) (id r : String) (last_id : ℤ) (writable : ℕ)
      → length (replayed h r last_id) < writable
      → Encodable (replayed h r last_id)
      → ((subscribe h id r last_id writable).1 ≡ true)
        × ((c : Client F) × (get (subscribe h id r last_id writable).0.clients id ≡ some c)
            × (c.sent ≡ ready_event (get_next_event_id h r).0 ∷ replayed h r last_id))
  unfolding subscribe entered get_next_event_id counter
  subscribe-sent h id r last_id writable room encoded =
      let registered = record h { clients = put h.clients id (fresh r last_id writable) } in
      let (ready_id, counted) = get_next_event_id registered r in
      let (c, greeted, sent) = greet_room counted r last_id ready_id writable room encoded in
      rw greeted (refl, (c, registered_client counted id c, sent))
