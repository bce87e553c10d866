-- ===== src/Telemetry/Hub/Ready.antt =====
-- The number of the ready event against the numbers of the events that are replayed.
use radio_container.Prelude.{
  ℕ, ◌+◌, ◌<◌, ◌≡◌, refl, some, subst, List, [], ◌∷◌, All, length, String, arith, Bool-cases,
  Option-cases, inl, inr,
}
use radio_container.Prelude.Dict.{get}
use radio_container.Prelude.Int.{ℤ, pos, lt_int, ◌≤ℤ◌, ◌<ℤ◌}
use radio_container.Prelude.Float.{Float}
use radio_container.Telemetry.Event.{Event, max_int64}
use radio_container.Telemetry.Buffer.{events_after, get_events_after}
use radio_container.Telemetry.Hub.{
  Client, Hub, Case, new_hub, buffer_of, get_next_event_id, subscribe,
}
use radio_container.Telemetry.Hub.Numbering.{Counted, next_number}
use radio_container.Telemetry.Hub.Invariant.{Call, run}
use radio_container.Telemetry.Hub.History.{Unnumbered, run-new_hub-keeps}
use radio_container.Telemetry.Hub.Replay.{replayed, ready_event, Encodable, subscribe-sent}

module _ {F : Type 0} where
  events_after-All :
      (P : Event F → Type 0) (es : List (Event F)) (last_id : ℤ)
      → All P es
      → All P (events_after es last_id)
  unfolding events_after
  events_after-All P [] last_id h = tt
  events_after-All P (e ∷ es) last_id (here, there) = elim (Bool-cases (lt_int last_id e.id)) [
    | inl newer ↦ rw newer (here, events_after-All P es last_id there)
    | inr seen ↦ rw seen (events_after-All P es last_id there)
  ]

  replayed-All :
      (P : Event F → Type 0) (h : Hub F) (r : String) (last_id : ℤ)
      → All P (buffer_of h r).events
      → All P (replayed h r last_id)
  unfolding buffer_of get_events_after
  replayed-All P h r last_id a = elim (Bool-cases (lt_int (pos 0) last_id)) [
    | inr fresh_one ↦ rw fresh_one tt
    | inl asks ↦ elim (Option-cases (get h.buffers r)) [
      | inl absent ↦ rw (asks, absent) tt
      | inr (b, present) ↦
          let same : buffer_of h r ≡ b = rw (present, buffer_of) refl in
          rw (asks, present)
            (events_after-All P b.events last_id (subst (λ x. All P x.events) same a))
    ]
  ]

  below_next :
      (n : ℕ) (es : List (Event F))
      → All (λ e. e.id ≤ℤ pos n) es
      → All (λ e. e.id <ℤ pos (n + 1)) es
  below_next n [] h = tt
  below_next n (e ∷ es) h = (omega arith, below_next n es h.1)

  Counted-ready :
      (k : ℕ) (h : Hub F) (r : String) (last_id : ℤ)
      → k < max_int64
      → Counted k h
      → All (λ e. e.id <ℤ (get_next_event_id h r).0) (replayed h r last_id)
  unfolding get_next_event_id
  Counted-ready k h r last_id below c =
      let (n, at, up, (ascending, bounded, own)) = c r in
      rw (at, next_number n (omega arith))
        (below_next n (replayed h r last_id)
          (replayed-All (λ e. e.id ≤ℤ pos n) h r last_id bounded))

  Counted-positive :
      (k : ℕ) (h : Hub F) (r : String)
      → k < max_int64
      → Counted k h
      → pos 0 <ℤ (get_next_event_id h r).0
  unfolding get_next_event_id
  Counted-positive k h r below c =
      let (n, at, up, ordered) = c r in rw (at, next_number n (omega arith)) (omega arith)

  -- After any history of calls on a new hub that is shorter than the greatest event number, and in
  -- which no published event carries a number of its own, a new client that can be written to is sent
  -- one ready event and then the replayed events, and the number of that ready event is positive and
  -- greater than that of every event that comes after it. The replayed events are taken to be
  -- encodable.
  pub run-new_hub-ready :
      ⦃o : Float F⦄ (prefer : String → Case) (capacity : ℕ) (cs : List (Call F)) (id r : String)
      (last_id : ℤ) (writable : ℕ)
      → All Unnumbered cs
      → length cs < max_int64
      → length (replayed (run prefer (new_hub capacity) cs) r last_id) < writable
      → Encodable (replayed (run prefer (new_hub capacity) cs) r last_id)
      → (c : Client F) × (n : ℤ) × (get
            (subscribe (run prefer (new_hub capacity) cs) id r last_id writable).0.clients
            id
          ≡ some c)
        × (c.sent ≡ ready_event n ∷ replayed (run prefer (new_hub capacity) cs) r last_id)
        × (pos 0 <ℤ n)
        × All (λ e. e.id <ℤ n) (replayed (run prefer (new_hub capacity) cs) r last_id)
  run-new_hub-ready prefer capacity cs id r last_id writable new below room encoded =
      let h = run prefer (new_hub capacity) cs in
      let counted = (run-new_hub-keeps prefer capacity cs new (omega arith)).0 in
      let (written, (c, here, sent)) = subscribe-sent h id r last_id writable room encoded in
      (
        c,
        (get_next_event_id h r).0,
        here,
        sent,
        Counted-positive (length cs) h r below counted,
        Counted-ready (length cs) h r last_id below counted,
      )
