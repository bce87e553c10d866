-- ===== src/Telemetry/Hub/History.antt =====
-- What holds of the hub after any history of calls.
use radio_container.Prelude.{
  ap, ◌∙◌, not, ◌&&◌, ◌==◌, is_nil, All, subst, ℕ, suc, ◌+◌, ◌≤◌, ◌<◌, ◌≡◌, refl, Bool, true, false,
  List, [], ◌∷◌, length, String, arith, Bool-cases, Option-cases, inl, inr,
}
use radio_container.Prelude.Dict.{get, has, put}
use radio_container.Prelude.Int.{ℤ, pos}
use radio_container.Prelude.Float.{Float}
use radio_container.Telemetry.Hub.Ticker.{Ticking, step-Ticking}
use radio_container.Telemetry.Event.{Event, max_int64, heartbeat_at}
use radio_container.Telemetry.Buffer.{new_event_buffer}
use radio_container.Telemetry.Hub.{
  Client, Hub, Case, new_hub, counter, buffer_of, publish, publish_radio, send_heartbeat, subscribe,
  entered, start_heartbeat, fresh, unregister_client, handle_next, handle_client,
  send_event_to_client, disconnect, stop,
}
use radio_container.Telemetry.Hub.Numbering.{
  Counted, record_event-Counted, get_next_event_id-Counted,
}
use radio_container.Telemetry.Hub.Invariant.{
  Beating, Call, publishes, beats, subscribes, handles, disconnects, stops, or_same, step, run,
  step-Beating,
}

-- A published event has no number yet.
abbrev pub Unnumbered : {F : Type 0} → Call F → Type 0
Unnumbered (publishes i r kind payload) = i ≡ pos 0
Unnumbered _ = Unit {0}

module _ {F : Type 0} where
  Counted-raise : (k : ℕ) (h : Hub F) → Counted k h → Counted (k + 1) h
  Counted-raise k h c j = let (n, at, up, ordered) = c j in (n, at, omega arith, ordered)

  publish-Counted :
      (prefer : String → Case) (k : ℕ) (h : Hub F) (e : Event F)
      → e.id ≡ pos 0
      → k < max_int64
      → Counted k h
      → Counted (k + 1) (publish prefer h e)
  unfolding publish counter buffer_of
  publish-Counted prefer k h e i below c = record_event-Counted k h e i below c

  unregister_client-Counted :
      (k : ℕ) (h : Hub F) (id : String) → Counted k h → Counted k (unregister_client h id)
  unfolding unregister_client counter buffer_of
  unregister_client-Counted k h id c = elim (Bool-cases (has h.clients id)) [
    | inl known ↦ rw (known, unregister_client) c
    | inr unknown ↦ rw (unknown, unregister_client) c
  ]

  entered-Counted :
      (k : ℕ) (h : Hub F) (id : String) (greeted : Client F × Bool)
      → Counted k h
      → Counted k (entered h id greeted).0
  unfolding entered start_heartbeat counter buffer_of
  entered-Counted k h id (c, true) d =
      elim (Bool-cases ((length (put h.clients id c) == 1) && not h.heartbeat_ticker)) [
        | inl first ↦ rw first d
        | inr later ↦ rw later d
      ]
  entered-Counted k h id (c, false) d =
      unregister_client-Counted k (record h { clients = put h.clients id c }) id d

  subscribe-Counted :
      ⦃o : Float F⦄ (k : ℕ) (h : Hub F) (id r : String) (last_id : ℤ) (writable : ℕ)
      → k < max_int64
      → Counted k h
      → Counted (k + 1) (subscribe h id r last_id writable).0
  unfolding subscribe counter buffer_of
  subscribe-Counted k h id r last_id writable below c = entered-Counted (k + 1) _ id _ (
      get_next_event_id-Counted k
        (record h { clients = put h.clients id (fresh r last_id writable) }) r below c)

  handle_next-Counted :
      ⦃o : Float F⦄ (k : ℕ) (h : Hub F) (id : String) (c : Client F) (es : List (Event F))
      → Counted k h
      → Counted k (handle_next h id c es)
  unfolding handle_next counter buffer_of
  handle_next-Counted k h id c [] d = d
  handle_next-Counted k h id c (e ∷ es) d =
      elim (Bool-cases (send_event_to_client (record c { events = es }) e).1) [
        | inl written ↦ rw (written, handle_next) d
        | inr broken ↦ rw (broken, handle_next) (unregister_client-Counted k h id d)
      ]

  handle_client-Counted :
      ⦃o : Float F⦄ (k : ℕ) (h : Hub F) (id : String) → Counted k h → Counted k (handle_client h id)
  unfolding handle_client
  handle_client-Counted k h id d = elim (Option-cases (get h.clients id)) [
    | inl unknown ↦ rw (unknown, handle_client) d
    | inr (c, known) ↦
        rw (known, handle_client)
          (elim (Bool-cases c.cancelled) [
            | inl over ↦ simp (over) (unregister_client-Counted k h id d)
            | inr live ↦ simp (live) (handle_next-Counted k h id c c.events d)
          ])
  ]

  stop-Counted : (k : ℕ) (h : Hub F) → Counted k h → Counted k (or_same h (stop h))
  unfolding stop counter buffer_of
  stop-Counted k h d = elim (Bool-cases h.done) [
    | inl twice ↦ rw (twice, stop) d
    | inr once ↦ rw (once, stop) d
  ]

  step-Counted :
      ⦃o : Float F⦄ (prefer : String → Case) (k : ℕ) (h : Hub F) (c : Call F)
      → Unnumbered c
      → k < max_int64
      → Counted k h
      → Counted (k + 1) (step prefer h c)
  unfolding step publish_radio send_heartbeat disconnect
  step-Counted prefer k h (publishes i r kind payload) new below d =
      publish-Counted prefer k h (record { id = i; kind = kind; payload = payload; radio = r }) new
        below d
  step-Counted prefer k h (beats now) new below d =
      publish-Counted prefer k h
        (record { id = pos 0; kind = "heartbeat"; payload = heartbeat_at now; radio = "" }) refl
        below d
  step-Counted prefer k h (subscribes id r last_id writable) new below d =
      subscribe-Counted k h id r last_id writable below d
  step-Counted prefer k h (handles id) new below d =
      Counted-raise k (handle_client h id) (handle_client-Counted k h id d)
  step-Counted prefer k h (disconnects id) new below d =
      Counted-raise k (unregister_client h id) (unregister_client-Counted k h id d)
  step-Counted prefer k h stops new below d =
      Counted-raise k (or_same h (stop h)) (stop-Counted k h d)

  run-keeps :
      ⦃o : Float F⦄ (prefer : String → Case) (k : ℕ) (h : Hub F) (cs : List (Call F))
      → All Unnumbered cs
      → k + length cs ≤ max_int64
      → Counted k h
      → Beating h
      → Ticking h
      → Counted (k + length cs) (run prefer h cs)
        × Beating (run prefer h cs)
        × Ticking (run prefer h cs)
  unfolding run
  run-keeps prefer k h [] new below d b t = let e : k + 0 ≡ k = omega arith in rw e (d, b, t)
  run-keeps prefer k h (c ∷ cs) (new, news) below d b t =
      let e : k + suc (length cs) ≡ (k + 1) + length cs = omega arith in
      rw e (
        run-keeps prefer (k + 1) (step prefer h c) cs news (omega arith)
          (step-Counted prefer k h c new (omega arith) d) (step-Beating prefer h c b)
          (step-Ticking prefer h c t))

  -- After any history of calls on a new hub in which no published event carries a number of its own,
  -- and that is not longer than the greatest event number, these hold. Every counter counts from 0 and
  -- is at most the number of calls. The events in a radio's buffer are that radio's, their numbers
  -- grow, start from 1 and are at most the radio's counter. The ticker is set exactly where there is a
  -- client, and its goroutine runs exactly where there is a client and the hub was not stopped.
  pub run-new_hub-keeps :
      ⦃o : Float F⦄ (prefer : String → Case) (capacity : ℕ) (cs : List (Call F))
      → All Unnumbered cs
      → length cs ≤ max_int64
      → Counted (length cs) (run prefer (new_hub capacity) cs)
        × Beating (run prefer (new_hub capacity) cs)
        × ((run prefer (new_hub capacity) cs).ticking
            ≡ not (is_nil (run prefer (new_hub capacity) cs).clients)
              && not (run prefer (new_hub capacity) cs).done)
  unfolding new_hub counter buffer_of new_event_buffer get
  run-new_hub-keeps prefer capacity cs new below =
      let (c, b, t) =
        run-keeps prefer 0 (new_hub capacity) cs new (omega arith)
          (λ r. (0, refl, omega arith, (tt, tt, tt))) refl refl in
      let e : 0 + length cs ≡ length cs = omega arith in
      (
        subst (λ k. Counted k (run prefer (new_hub capacity) cs)) e c,
        b,
        t ∙ ap (λ x. x && not (run prefer (new_hub capacity) cs).done) b,
      )
