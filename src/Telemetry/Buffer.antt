-- ===== src/Telemetry/Buffer.antt =====
-- hub.go, `EventBuffer`: the last events of a radio. The capacity comes from a validated
-- configuration, so it is not negative.
pub mod Window
use radio_container.Prelude.{ℕ, suc, Bool, List, [], ◌∷◌, ◌++◌, length, drop, ltb, if◌then◌else◌}
use radio_container.Prelude.Int.{ℤ, pos, lt_int, eq_int}
use radio_container.Telemetry.Event.{Event, inc64}

pub record EventBuffer (F : Type 0) : Type 0 where
  pub events : List (Event F)
  pub capacity : ℕ
  pub next_id : ℤ

module _ {F : Type 0} where
  unfoldable pub new_event_buffer : ℕ → EventBuffer F
  new_event_buffer capacity = record { events = []; capacity = capacity; next_id = pos 1 }

  -- `if len(b.events) > b.capacity { b.events = b.events[1:] }`
  unfoldable pub trim : ℕ → List (Event F) → List (Event F)
  trim capacity events = if ltb capacity (length events) then drop 1 events else events

  unfoldable pub add_event : EventBuffer F → Event F → EventBuffer F
  unfolding trim
  add_event b event =
      let unset = eq_int event.id (pos 0) in
      let numbered = if unset then record event { id = b.next_id } else event in
      record b {
        events = trim b.capacity (b.events ++ numbered ∷ []);
        next_id = if unset then inc64 b.next_id else b.next_id;
      }

  -- The loop of `GetEventsAfter`.
  unfoldable pub events_after : List (Event F) → ℤ → List (Event F)
  events_after [] last_id = []
  events_after (event ∷ events) last_id =
      let rest = events_after events last_id in
      if lt_int last_id event.id then event ∷ rest else rest

  unfoldable pub get_events_after : EventBuffer F → ℤ → List (Event F)
  unfolding events_after
  get_events_after b last_id = events_after b.events last_id

  unfoldable pub get_capacity : EventBuffer F → ℕ
  get_capacity b = b.capacity

  unfoldable pub get_size : EventBuffer F → ℕ
  get_size b = length b.events
