-- ===== src/Telemetry/Buffer/Window.antt =====
-- A buffer holds exactly the last events that were added, oldest first.
use mathlib.Core.List.{append-nil, append_assoc}
use radio_container.Prelude.{
  ℕ, zero, suc, ◌-◌, ◌≤◌, ◌≡◌, ◌≢◌, refl, sym, ap, ◌∙◌, ◌<◌, List, [], ◌∷◌, ◌++◌, arith, length,
  length-append, drop, Bool-cases, inl, inr, All, ltb,
}
use radio_container.Prelude.Int.{ℤ, pos, lt_int, eq_int_iff, ◌<ℤ◌, ◌≤ℤ◌}
use radio_container.Telemetry.Event.{Event}
use radio_container.Telemetry.Buffer.{
  EventBuffer, new_event_buffer, trim, add_event, events_after, get_events_after,
}

module _ {F : Type 0} where
  pub add_events : EventBuffer F → List (Event F) → EventBuffer F
  add_events b [] = b
  add_events b (e ∷ es) = add_events (add_event b e) es

  abbrev pub Numbered : Event F → Type 0
  Numbered e = e.id ≢ pos 0

  drop-append :
      (n : ℕ) (xs ys : List (Event F)) → n ≤ length xs → drop n (xs ++ ys) ≡ drop n xs ++ ys
  drop-append zero xs ys h = refl
  drop-append (suc n) [] ys h = absurd (omega arith)
  drop-append (suc n) (x ∷ xs) ys h = drop-append n xs ys (omega arith)

  drop-drop : (n : ℕ) (xs : List (Event F)) → drop 1 (drop n xs) ≡ drop (suc n) xs
  drop-drop zero xs = refl
  drop-drop (suc n) [] = refl
  drop-drop (suc n) (x ∷ xs) = drop-drop n xs

  length-drop : (n : ℕ) (xs : List (Event F)) → length (drop n xs) ≡ length xs - n
  length-drop zero xs = omega arith
  length-drop (suc n) [] = omega arith
  length-drop (suc n) (x ∷ xs) = omega (arith, length-drop n xs)

  -- The last `c` entries.
  abbrev pub last : ℕ → List (Event F) → List (Event F)
  last c xs = drop (length xs - c) xs

  last_all : (c : ℕ) (xs : List (Event F)) → length xs ≤ c → last c xs ≡ xs
  last_all c xs h = let e : length xs - c ≡ 0 = omega arith in rw e

  trim_short : (c : ℕ) (xs : List (Event F)) → length xs ≤ c → trim c xs ≡ xs
  unfolding trim
  trim_short c xs h = ground arith

  trim_long : (c : ℕ) (xs : List (Event F)) → c < length xs → trim c xs ≡ drop 1 xs
  unfolding trim
  trim_long c xs h = ground arith

  last_full :
      (c : ℕ) (xs : List (Event F)) (e : Event F)
      → c ≤ length xs
      → drop 1 (last c xs ++ e ∷ []) ≡ last c (xs ++ e ∷ [])
  last_full c xs e h =
      let n : length (xs ++ e ∷ []) - c ≡ suc (length xs - c) =
        omega (arith, length-append xs (e ∷ [])) in
      rw (n, ← drop-append (length xs - c) xs (e ∷ []) (omega arith))
        (drop-drop (length xs - c) (xs ++ e ∷ []))

  trim-last :
      (c : ℕ) (xs : List (Event F)) (e : Event F)
      → trim c (last c xs ++ e ∷ []) ≡ last c (xs ++ e ∷ [])
  trim-last c xs e = elim (Bool-cases (ltb (length xs) c)) [
    | inl room ↦
        let short : length (xs ++ e ∷ []) ≤ c = ground (arith, length-append xs (e ∷ [])) in
        rw (last_all c xs (ground arith)) (trim_short c _ short ∙ sym (last_all c _ short))
    | inr full ↦
        trim_long c _
          (ground (arith, length-append (last c xs) (e ∷ []), length-drop (length xs - c) xs))
        ∙ last_full c xs e (ground arith)
  ]

  pub add_event-events :
      (b : EventBuffer F) (e : Event F)
      → Numbered e
      → ((add_event b e).events ≡ trim b.capacity (b.events ++ e ∷ []))
        × ((add_event b e).capacity ≡ b.capacity)
  unfolding add_event
  add_event-events b e h = ground (arith, eq_int_iff e.id (pos 0))

  add_events-last :
      (b : EventBuffer F) (c : ℕ) (xs es : List (Event F))
      → b.capacity ≡ c
      → b.events ≡ last c xs
      → All Numbered es
      → (add_events b es).events ≡ last c (xs ++ es)
  unfolding add_events
  add_events-last b c xs [] k h n = rw append-nil h
  add_events-last b c xs (e ∷ es) k h n =
      let (added, cap) = add_event-events b e n.0 in
      rw (← append_assoc xs (e ∷ []) es) (
        add_events-last (add_event b e) c (xs ++ e ∷ []) es (cap ∙ k)
          (rw (added, k, h) (trim-last c xs e)) n.1)

  -- After any events that carry a number are added to a new buffer, it holds the last of them, as
  -- many as its capacity, oldest first.
  pub add_events-window :
      (capacity : ℕ) (es : List (Event F))
      → All Numbered es
      → (add_events (new_event_buffer capacity) es).events ≡ last capacity es
  unfolding new_event_buffer
  add_events-window capacity es n =
      add_events-last (new_event_buffer capacity) capacity [] es refl
        (sym (last_all capacity [] (omega arith))) n

  -- The numbers grow along the list and lie above the bound.
  abbrev pub Ascending : ℤ → List (Event F) → Type 0
  Ascending low [] = Unit {0}
  Ascending low (e ∷ es) = (low <ℤ e.id) × Ascending e.id es

  pub Ascending-lower :
      (low high : ℤ) (es : List (Event F)) → low <ℤ high → Ascending high es → Ascending low es
  Ascending-lower low high [] h a = tt
  Ascending-lower low high (e ∷ es) h a = (omega arith, a.1)

  Ascending-All : (low : ℤ) (es : List (Event F)) → Ascending low es → All (λ e. low <ℤ e.id) es
  Ascending-All low [] h = tt
  Ascending-All low (e ∷ es) h = (h.0, Ascending-All low es (Ascending-lower low e.id es h.0 h.1))

  events_after-All :
      (es : List (Event F)) (last_id : ℤ)
      → All (λ e. last_id <ℤ e.id) es
      → events_after es last_id ≡ es
  unfolding events_after
  events_after-All [] last_id h = refl
  events_after-All (e ∷ es) last_id h = ground (arith, events_after-All es last_id h.1)

  abbrev Split : List (Event F) → ℤ → Type 0
  Split es last_id =
      (older : List (Event F)) × (es ≡ older ++ events_after es last_id)
      × All (λ e. e.id ≤ℤ last_id) older
      × All (λ e. last_id <ℤ e.id) (events_after es last_id)

  events_after-Split : (es : List (Event F)) (low last_id : ℤ) → Ascending low es → Split es last_id
  unfolding events_after
  events_after-Split [] low last_id h = ([], refl, tt, tt)
  events_after-Split (e ∷ es) low last_id h = elim (Bool-cases (lt_int last_id e.id)) [
    | inl newer ↦
        let above = (Ascending-All last_id (e ∷ es) (ground arith)) in
        (
          [],
          rw newer (ap (◌∷◌ e) (sym (events_after-All es last_id above.1))),
          tt,
          rw newer (above.0, rw (events_after-All es last_id above.1) above.1),
        )
    | inr seen ↦
        let (older, e₁, lower, upper) = events_after-Split es e.id last_id h.1 in
        (e ∷ older, rw seen (ap (◌∷◌ e) e₁), (ground arith, lower), rw seen upper)
  ]

  -- Of a buffer whose numbers grow, `GetEventsAfter` returns a final part: all before it have a
  -- number up to the given one, and all in it a greater one.
  pub get_events_after-splits :
      (b : EventBuffer F) (low last_id : ℤ)
      → Ascending low b.events
      → (older : List (Event F)) × (b.events ≡ older ++ get_events_after b last_id)
        × All (λ e. e.id ≤ℤ last_id) older
        × All (λ e. last_id <ℤ e.id) (get_events_after b last_id)
  unfolding get_events_after
  get_events_after-splits b low last_id h = events_after-Split b.events low last_id h
