-- ===== src/Telemetry/Hub/Numbering.antt =====
-- The counters and the buffers: events of one radio are numbered upwards.
use radio_container.Prelude.{
  ap, sym, false, subst, if◌then◌else◌, ℕ, ◌+◌, ◌≤◌, ◌<◌, ◌≡◌, ◌≢◌, refl, List, [], ◌∷◌, ◌++◌, All,
  All-append, drop, length, String, str_eq, arith, eq_iff, Bool-cases, inl, inr, ltb,
}
use radio_container.Prelude.Dict.{put, get-put}
use radio_container.Prelude.Int.{ℤ, pos, ◌≤ℤ◌}
use radio_container.Telemetry.Event.{Event, inc64, max_int64}
use radio_container.Telemetry.Buffer.{EventBuffer, trim, add_event}
use radio_container.Telemetry.Buffer.Window.{Ascending, Ascending-lower, add_event-events}
use radio_container.Telemetry.Hub.{
  Hub, counter_key, counter, get_next_event_id, buffer_of, buffer_event, record_event,
}

pub next_number : (n : ℕ) → n < max_int64 → inc64 (pos n) ≡ pos (n + 1)
unfolding inc64
next_number n h = ground arith

not_zero : (n : ℕ) (i : ℤ) → i ≡ pos (n + 1) → i ≢ pos 0
not_zero n i e z = absurd (ground arith)

module _ {F : Type 0} where
  -- The numbers of a buffer's events grow and lie from 1 to `top`, and the events are the radio's.
  abbrev pub Ordered : ℕ → String → List (Event F) → Type 0
  Ordered top r es =
      Ascending (pos 0) es × All (λ e. e.id ≤ℤ pos top) es × All (λ e. e.radio ≡ r) es

  -- Every counter is at most `k`, and each buffer's events are numbered up to its radio's counter.
  abbrev pub Counted : ℕ → Hub F → Type 0
  Counted k h =
      (r : String) → (n : ℕ) × (counter h r ≡ pos n) × (n ≤ k) × Ordered n r (buffer_of h r).events

  Ascending-append :
      (low : ℤ) (n : ℕ) (es : List (Event F)) (e : Event F)
      → Ascending low es
      → All (λ x. x.id ≤ℤ pos n) es
      → low ≤ℤ pos n
      → e.id ≡ pos (n + 1)
      → Ascending low (es ++ e ∷ [])
  Ascending-append low n [] e a below l i = (rw i (omega arith), tt)
  Ascending-append low n (x ∷ es) e a below l i =
      (a.0, Ascending-append x.id n es e a.1 below.1 below.0 i)

  All-drop : (P : Event F → Type 0) (es : List (Event F)) → All P es → All P (drop 1 es)
  All-drop P [] h = tt
  All-drop P (e ∷ es) h = h.1

  Ascending-drop : (low : ℤ) (es : List (Event F)) → Ascending low es → Ascending low (drop 1 es)
  Ascending-drop low [] h = tt
  Ascending-drop low (e ∷ es) h = Ascending-lower low e.id es h.0 h.1

  Ordered-trim :
      (top capacity : ℕ) (r : String) (es : List (Event F))
      → Ordered top r es
      → Ordered top r (trim capacity es)
  unfolding trim
  Ordered-trim top capacity r es (a, b, c) = elim (Bool-cases (ltb capacity (length es))) [
    | inl full ↦ rw full (Ascending-drop (pos 0) es a, All-drop _ es b, All-drop _ es c)
    | inr room ↦ rw room (a, b, c)
  ]

  All-raise :
      (n : ℕ) (es : List (Event F))
      → All (λ e. e.id ≤ℤ pos n) es
      → All (λ e. e.id ≤ℤ pos (n + 1)) es
  All-raise n [] h = tt
  All-raise n (e ∷ es) h = (omega arith, All-raise n es h.1)

  -- A buffer that takes the next event stays in order.
  add_event-Ordered :
      (n : ℕ) (r : String) (b : EventBuffer F) (e : Event F)
      → e.id ≡ pos (n + 1)
      → e.radio ≡ r
      → Ordered n r b.events
      → Ordered (n + 1) r (add_event b e).events
  add_event-Ordered n r b e i same (a, below, radios) =
      rw ((add_event-events b e (not_zero n e.id i)).0) (
        Ordered-trim (n + 1) b.capacity r (b.events ++ e ∷ []) (
          Ascending-append (pos 0) n b.events e a below (omega arith) i,
          All-append _ b.events (e ∷ []) (All-raise n b.events below) (rw i (omega arith), tt),
          All-append _ b.events (e ∷ []) radios (same, tt),
        ))

  Ordered-raise : (n : ℕ) (r : String) (es : List (Event F)) → Ordered n r es → Ordered (n + 1) r es
  Ordered-raise n r es (a, b, c) = (a, All-raise n es b, c)

  -- The counters after the next number is taken.
  counter-get_next_event_id :
      (h : Hub F) (r j : String)
      → counter (get_next_event_id h r).1 j
        ≡ (if str_eq (counter_key r) (counter_key j) then inc64 (counter h j) else counter h j)
  unfolding counter get_next_event_id
  counter-get_next_event_id h r j = elim (Bool-cases (str_eq (counter_key r) (counter_key j))) [
    | inl same ↦
        let e : counter_key r ≡ counter_key j =
          ground (arith, eq_iff (counter_key r) (counter_key j)) in
        rw (get-put h.radio_ids (counter_key r) (counter_key j), same, counter)
          (rw (e, counter) refl)
    | inr other ↦ rw (get-put h.radio_ids (counter_key r) (counter_key j), other, counter) refl
  ]

  buffer_of-put :
      (h : Hub F) (r j : String) (b : EventBuffer F)
      → buffer_of (record h { buffers = put h.buffers r b }) j
        ≡ (if str_eq r j then b else buffer_of h j)
  unfolding buffer_of
  buffer_of-put h r j b = rw (get-put h.buffers r j b, buffer_of) (ground arith)

  -- An event that carries no number yet gets the next one of its radio.
  pub record_event-unnumbered :
      (h : Hub F) (e : Event F)
      → e.id ≡ pos 0
      → record_event h e ≡ (
        record e { id = inc64 (counter h e.radio) },
        buffer_event (get_next_event_id h e.radio).1 (record e { id = inc64 (counter h e.radio) }),
      )
  unfolding record_event get_next_event_id
  record_event-unnumbered h e i = rw (i, record_event) refl

  abbrev numbered : Hub F → Event F → Event F
  numbered h e = record e { id = inc64 (counter h e.radio) }

  -- The buffers after the event was recorded.
  buffer_of-record_event :
      (h : Hub F) (e : Event F) (j : String)
      → e.id ≡ pos 0
      → buffer_of (record_event h e).1 j ≡ (
          if str_eq e.radio ""
          then buffer_of h j
          else if str_eq e.radio j
          then add_event (buffer_of h e.radio) (numbered h e)
          else buffer_of h j)
  unfolding buffer_event get_next_event_id
  buffer_of-record_event h e j i =
      rw (record_event-unnumbered h e i) (elim (Bool-cases (str_eq e.radio "")) [
        | inl blank ↦ rw (blank, buffer_event) refl
        | inr named ↦
            rw (named, buffer_event) (buffer_of-put (get_next_event_id h e.radio).1 e.radio j _)
      ])

  counter-record_event :
      (h : Hub F) (e : Event F) (j : String)
      → e.id ≡ pos 0
      → counter (record_event h e).1 j ≡ counter (get_next_event_id h e.radio).1 j
  unfolding buffer_event counter
  counter-record_event h e j i =
      rw (record_event-unnumbered h e i) (elim (Bool-cases (str_eq e.radio "")) [
        | inl blank ↦ rw (blank, buffer_event) refl
        | inr named ↦ rw (named, buffer_event) refl
      ])

  abbrev buffered : Hub F → Event F → String → EventBuffer F
  buffered h e j =
      if str_eq e.radio ""
      then buffer_of h j
      else if str_eq e.radio j
      then add_event (buffer_of h e.radio) (numbered h e)
      else buffer_of h j

  buffered-Ordered :
      (n : ℕ) (h : Hub F) (e : Event F) (j : String)
      → counter h j ≡ pos n
      → n < max_int64
      → Ordered n j (buffer_of h j).events
      → Ordered (n + 1) j (buffered h e j).events
  buffered-Ordered n h e j at below ordered = elim (Bool-cases (str_eq e.radio "")) [
    | inl blank ↦ rw blank (Ordered-raise n j _ ordered)
    | inr named ↦ elim (Bool-cases (str_eq e.radio j)) [
      | inr other ↦ rw (named, other) (Ordered-raise n j _ ordered)
      | inl same ↦
          let r : e.radio ≡ j = ground (arith, eq_iff e.radio j) in
          let id : inc64 (counter h e.radio) ≡ pos (n + 1) = rw (r, at) (next_number n below) in
          rw (named, same)
            (add_event-Ordered n j (buffer_of h e.radio) (numbered h e) id r
              (subst (λ x. Ordered n j (buffer_of h x).events) (sym r) ordered))
    ]
  ]

  buffered-other :
      (h : Hub F) (e : Event F) (j : String)
      → str_eq (counter_key e.radio) (counter_key j) ≡ false
      → buffered h e j ≡ buffer_of h j
  buffered-other h e j other = elim (Bool-cases (str_eq e.radio j)) [
    | inr apart ↦ rw apart (ground arith)
    | inl same ↦
        let r : e.radio ≡ j = ground (arith, eq_iff e.radio j) in
        let keys : counter_key e.radio ≡ counter_key j = ap counter_key r in
        absurd (ground (arith, eq_iff (counter_key e.radio) (counter_key j)))
  ]

  -- An event that is recorded keeps the count, which it raises by one at most.
  pub record_event-Counted :
      (k : ℕ) (h : Hub F) (e : Event F)
      → e.id ≡ pos 0
      → k < max_int64
      → Counted k h
      → Counted (k + 1) (record_event h e).1
  record_event-Counted k h e i below c j =
      let (n, at, up, ordered) = c j in
      let next = next_number n (omega arith) in
      rw
        (
          counter-record_event h e j i,
          counter-get_next_event_id h e.radio j,
          buffer_of-record_event h e j i,
          at,
          next,
        )
        (elim (Bool-cases (str_eq (counter_key e.radio) (counter_key j))) [
          | inl same ↦
              rw same (n + 1, refl, omega arith, buffered-Ordered n h e j at (omega arith) ordered)
          | inr other ↦ rw (other, buffered-other h e j other) (n, refl, omega arith, ordered)
        ])

  -- A number that is taken, for a new client, keeps the count, which it raises by one at most.
  pub get_next_event_id-Counted :
      (k : ℕ) (h : Hub F) (r : String)
      → k < max_int64
      → Counted k h
      → Counted (k + 1) (get_next_event_id h r).1
  unfolding get_next_event_id buffer_of
  get_next_event_id-Counted k h r below c j =
      let (n, at, up, ordered) = c j in
      let next = next_number n (omega arith) in
      rw (counter-get_next_event_id h r j, at, next)
        (elim (Bool-cases (str_eq (counter_key r) (counter_key j))) [
          | inl same ↦ rw same (n + 1, refl, omega arith, Ordered-raise n j _ ordered)
          | inr other ↦ rw other (n, refl, omega arith, ordered)
        ])
