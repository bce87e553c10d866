-- ===== src/Telemetry/Hub.antt =====
-- hub.go, `Hub`: numbering, buffering and delivery. Here each method runs by itself.
-- A client's connection takes `writable` more writes and then fails; `sent` is what it has taken.
-- A client's channel `events` holds up to 100 events. A connection that ends runs `handleClient`'s
-- deferred calls, here `disconnect`. The ticker's period is not modelled: a tick is `send_heartbeat`.
pub mod Numbering
pub mod Invariant
pub mod Ticker
pub mod Replay
pub mod History
pub mod Ready
use radio_container.Prelude.{
  ℕ, ◌-◌, Bool, true, false, not, ◌&&◌, ◌||◌, List, [], ◌∷◌, ◌++◌, Option, none, some, String,
  str_eq, length, ltb, ◌==◌, is_nil, if◌then◌else◌,
}
use radio_container.Prelude.Dict.{Dict, get, has, put, remove}
use radio_container.Prelude.Int.{ℤ, pos, lt_int, eq_int}
use radio_container.Prelude.Float.{Float}
use radio_container.Telemetry.Event.{Event, ready_snapshot, heartbeat_at, inc64, encodable}
use radio_container.Telemetry.Buffer.{EventBuffer, new_event_buffer, add_event, get_events_after}

pub record Client (F : Type 0) : Type 0 where
  pub radio : String
  pub last_id : ℤ
  pub cancelled : Bool
  pub events : List (Event F)
  pub writable : ℕ
  pub sent : List (Event F)

-- `heartbeat_ticker` says that the fields `heartbeatTicker` and `stopHeartbeat` are set, `ticking` that
-- the goroutine of `startHeartbeat` runs, and `done` that the channel of that name is closed.
pub record Hub (F : Type 0) : Type 0 where
  pub clients : Dict (Client F)
  pub radio_ids : Dict ℤ
  pub buffers : Dict (EventBuffer F)
  pub event_buffer_size : ℕ
  pub heartbeat_ticker : Bool
  pub ticking : Bool
  pub done : Bool

abbrev pub channel_capacity : ℕ
channel_capacity = 100

-- What Go's `select` takes where several cases are ready.
pub data Case : Type 0 where
  context_done hub_done channel_send : Case

-- The counter's key: the events of no radio share "global".
unfoldable pub counter_key : String → String
counter_key radio_id = if str_eq radio_id "" then "global" else radio_id

module _ {F : Type 0} where
  unfoldable pub new_hub : ℕ → Hub F
  new_hub event_buffer_size = record {
    clients = [];
    radio_ids = [];
    buffers = [];
    event_buffer_size = event_buffer_size;
    heartbeat_ticker = false;
    ticking = false;
    done = false;
  }

  -- The counter, which starts at 0.
  unfoldable pub counter : Hub F → String → ℤ
  unfolding counter_key
  counter h radio_id = elim (get h.radio_ids (counter_key radio_id)) [ some n ↦ n | none ↦ pos 0 ]

  unfoldable pub get_next_event_id : Hub F → String → ℤ × Hub F
  unfolding counter
  get_next_event_id h radio_id =
      let n = inc64 (counter h radio_id) in
      (n, record h { radio_ids = put h.radio_ids (counter_key radio_id) n })

  -- The radio's buffer, which is made on first use.
  unfoldable pub buffer_of : Hub F → String → EventBuffer F
  buffer_of h radio_id = elim (get h.buffers radio_id) [
    | some b ↦ b
    | none ↦ new_event_buffer h.event_buffer_size
  ]

  unfoldable pub buffer_event : Hub F → Event F → Hub F
  unfolding buffer_of
  buffer_event h event = if str_eq event.radio "" then h else record h {
    buffers = put h.buffers event.radio (add_event (buffer_of h event.radio) event);
  }

  -- One round of the loop of `Publish`: the client, and whether the loop goes on. `prefer` is the
  -- case that `select` takes if it is ready; with no case ready the event is dropped after 100 ms.
  unfoldable pub offer : Case → Bool → Event F → Client F → Client F × Bool
  offer prefer done event c =
      let room = ltb (length c.events) channel_capacity in
      let sending : Client F × Bool = (record c { events = c.events ++ event ∷ [] }, true) in
      elim prefer [
        | context_done ↦
            if c.cancelled
            then (c, true)
            else if done
            then (c, false)
            else if room
            then sending
            else (c, true)
        | hub_done ↦
            if done
            then (c, false)
            else if c.cancelled
            then (c, true)
            else if room
            then sending
            else (c, true)
        | channel_send ↦
            if room
            then sending
            else if c.cancelled
            then (c, true)
            else if done
            then (c, false)
            else (c, true)
      ]

  -- The loop over the clients; it ends where the hub's shutdown is seen.
  unfoldable pub deliver : (String → Case) → Bool → Event F → Dict (Client F) → Dict (Client F)
  unfolding offer
  deliver prefer done event [] = []
  deliver prefer done event ((id, c) ∷ clients) =
      let rest = deliver prefer done event clients in
      let (c', goes_on) = offer (prefer id) done event c in
      (id, c') ∷ (if goes_on then rest else clients)

  -- The event with its number, and the hub that has counted and buffered it.
  unfoldable pub record_event : Hub F → Event F → Event F × Hub F
  unfolding get_next_event_id buffer_event
  record_event h event =
      let (n, h') = get_next_event_id h event.radio in
      let numbered = record event { id = n } in
      if eq_int event.id (pos 0)
      then (numbered, buffer_event h' numbered)
      else (event, buffer_event h event)

  unfoldable pub publish : (String → Case) → Hub F → Event F → Hub F
  unfolding record_event deliver
  publish prefer h event =
      let (event', h') = record_event h event in
      record h' { clients = deliver prefer h'.done event' h'.clients }

  unfoldable pub publish_radio : (String → Case) → Hub F → String → Event F → Hub F
  unfolding publish
  publish_radio prefer h radio_id event = publish prefer h (record event { radio = radio_id })

  unfoldable pub send_heartbeat : (String → Case) → Hub F → ℕ → Hub F
  unfolding publish
  send_heartbeat prefer h now =
      publish prefer h
        (record { id = pos 0; kind = "heartbeat"; payload = heartbeat_at now; radio = "" })

  unfoldable pub unregister_client : Hub F → String → Hub F
  unregister_client h id =
      let rest = remove h.clients id in
      if has h.clients id
      then record h {
        clients = rest;
        heartbeat_ticker = h.heartbeat_ticker && not (is_nil rest);
        ticking = h.ticking && not (is_nil rest);
      }
      else h

  -- The buffered events after the client's last one; none if the radio has no buffer.
  unfoldable pub missed : Hub F → Client F → List (Event F)
  missed h c = elim (get h.buffers c.radio) [ none ↦ [] | some b ↦ get_events_after b c.last_id ]

  -- The ticker is set; its goroutine ends at once where the hub was stopped.
  unfoldable pub start_heartbeat : Hub F → Hub F
  start_heartbeat h = record h { heartbeat_ticker = true; ticking = not h.done }

  -- The rest of `Subscribe` for the client that was greeted: the heartbeat starts with the first
  -- client, if no ticker is set; a client that could not be written to leaves again, and `Subscribe`
  -- returns an error, here `false`.
  unfoldable pub entered : Hub F → String → Client F × Bool → Hub F × Bool
  unfolding unregister_client start_heartbeat
  entered counted id (c, greeted) =
      let written = record counted { clients = put counted.clients id c } in
      let first = (length written.clients == 1) && not written.heartbeat_ticker in
      if greeted
      then (if first then start_heartbeat written else written, true)
      else (unregister_client written id, false)

  -- A client that has not been sent anything.
  unfoldable pub fresh : String → ℤ → ℕ → Client F
  fresh radio last_id writable = record {
    radio = radio;
    last_id = last_id;
    cancelled = false;
    events = [];
    writable = writable;
    sent = [];
  }

  -- The client's context is cancelled.
  unfoldable pub disconnect : Hub F → String → Hub F
  unfolding unregister_client
  disconnect h id = unregister_client h id

  -- `none` where `close(h.done)` panics because the hub was stopped before.
  unfoldable pub stop : Hub F → Option (Hub F)
  stop h =
      if h.done
      then none
      else some (record h { clients = []; heartbeat_ticker = false; ticking = false; done = true })

module _ {F : Type 0} ⦃o : Float F⦄ where
  -- `false` where a write fails or the payload cannot be encoded. The lines of the event's number and
  -- type are written before the payload is encoded; `sent` has whole events only.
  unfoldable pub send_event_to_client : Client F → Event F → Client F × Bool
  unfolding encodable
  send_event_to_client c event =
      if c.writable == 0
      then (c, false)
      else if not (encodable event.payload)
      then (c, false)
      else (record c { writable = c.writable - 1; sent = c.sent ++ event ∷ [] }, true)

  unfoldable pub send_events : Client F → List (Event F) → Client F × Bool
  unfolding send_event_to_client
  send_events c [] = (c, true)
  send_events c (event ∷ events) =
      let (c', written) = send_event_to_client c event in
      let rest = send_events c' events in if written then rest else (c', false)

  -- What a new client is sent, and whether all of it could be written.
  unfoldable pub greet : Hub F → Client F → ℤ → Client F × Bool
  unfolding send_event_to_client send_events missed
  greet h c ready_id =
      let ready : Event F = record {
        id = ready_id;
        kind = "ready";
        payload = ready_snapshot;
        radio = "";
      } in
      let (c₁, readied) = send_event_to_client c ready in
      let replayed = send_events c₁ (missed h c) in
      if readied then (if lt_int (pos 0) c.last_id then replayed else (c₁, true)) else (c₁, false)

  -- `Subscribe` up to `handleClient`.
  unfoldable pub subscribe : Hub F → String → String → ℤ → ℕ → Hub F × Bool
  unfolding greet entered fresh get_next_event_id
  subscribe h id radio last_id writable =
      let c = fresh radio last_id writable in
      let registered = record h { clients = put h.clients id c } in
      let (ready_id, counted) = get_next_event_id registered radio in
      entered counted id (greet counted c ready_id)

  -- A round of `handleClient` that takes an event: the event is written, or the connection ends.
  unfoldable pub handle_next : Hub F → String → Client F → List (Event F) → Hub F
  unfolding send_event_to_client unregister_client
  handle_next h id c [] = h
  handle_next h id c (event ∷ events) =
      let (c', written) = send_event_to_client (record c { events = events }) event in
      if written then record h { clients = put h.clients id c' } else unregister_client h id

  unfoldable pub handle_client : Hub F → String → Hub F
  unfolding handle_next
  handle_client h id = elim (get h.clients id) [
    | none ↦ h
    | some c ↦ if c.cancelled then unregister_client h id else handle_next h id c c.events
  ]
