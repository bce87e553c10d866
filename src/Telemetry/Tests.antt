-- ===== src/Telemetry/Tests.antt =====
-- Tests and examples of the buffer and the hub.
use radio_container.Prelude.{
  ℕ, ◌≡◌, refl, true, List, [], ◌∷◌, ◌++◌, some, String, arith, All, not, ◌&&◌, is_nil,
}
use radio_container.Prelude.Dict.{get, put}
use radio_container.Prelude.Int.{ℤ, pos, ◌≤ℤ◌, ◌<ℤ◌}
use radio_container.Prelude.Float.{Sample, sample_float}
use radio_container.Telemetry.Event.{Event, power_changed, encodable, inc64}
use radio_container.Telemetry.Buffer.{
  add_event, get_size, get_capacity, EventBuffer, new_event_buffer, get_events_after,
}
use radio_container.Telemetry.Buffer.Window.{
  add_events, last, add_events-window, get_events_after-splits,
}
use radio_container.Telemetry.Hub.{
  Client, Hub, Case, channel_send, new_hub, publish, publish_radio, record_event, counter,
  counter_key, buffer_event, buffer_of, deliver, subscribe, get_next_event_id, fresh,
}
use radio_container.Telemetry.Hub.Numbering.{Counted}
use radio_container.Telemetry.Hub.Invariant.{
  Beating, Call, publishes, beats, subscribes, handles, disconnects, stops, run, step,
}
use radio_container.Telemetry.Hub.History.{Unnumbered, run-new_hub-keeps}
use radio_container.Telemetry.Hub.Ready.{run-new_hub-ready}
use radio_container.Telemetry.Hub.Replay.{
  all_take, publish-all_take, replayed, ready_event, subscribe-sent,
}

abbrev event : ℕ → Event Sample
event n = record {
  id = pos n;
  kind = "powerChanged";
  payload = power_changed "a" (some 10) 5;
  radio = "a";
}

abbrev three : List (Event Sample)
three = event 1 ∷ event 2 ∷ event 3 ∷ []

add_events-window_example : (add_events (new_event_buffer 2) three).events ≡ last 2 three
add_events-window_example = add_events-window 2 three (λ e. cc, (λ e. cc, (λ e. cc, tt)))

abbrev full_buffer : EventBuffer Sample
full_buffer = record { events = three; capacity = 3; next_id = pos 1 }

measured : (get_size full_buffer ≡ 3) × (get_capacity full_buffer ≡ 3)
unfolding get_size get_capacity
measured = (refl, refl)

get_events_after-splits_example :
    (older : List (Event Sample)) × (three ≡ older ++ get_events_after full_buffer (pos 1))
    × All (λ e. e.id ≤ℤ pos 1) older
    × All (λ e. pos 1 <ℤ e.id) (get_events_after full_buffer (pos 1))
get_events_after-splits_example =
    get_events_after-splits full_buffer (pos 0) (pos 1)
      (omega arith, (omega arith, (omega arith, tt)))

abbrev prefers_sending : String → Case
prefers_sending id = channel_send

abbrev calls : List (Call Sample)
calls =
    publishes (pos 0) "a" "powerChanged" (power_changed "a" (some 10) 5)
    ∷ subscribes "c" "a" (pos 0) 9
    ∷ publishes (pos 0) "a" "powerChanged" (power_changed "a" (some 11) 6)
    ∷ beats 7
    ∷ handles "c"
    ∷ disconnects "c"
    ∷ stops
    ∷ subscribes "d" "a" (pos 0) 9
    ∷ []

calls-Unnumbered : All Unnumbered calls
calls-Unnumbered = (refl, (tt, (refl, (tt, (tt, (tt, (tt, (tt, tt))))))))

run-new_hub-keeps_example :
    Counted 8 (run prefers_sending (new_hub 50) calls)
    × Beating (run prefers_sending (new_hub 50) calls)
    × ((run prefers_sending (new_hub 50) calls).ticking
        ≡ not (is_nil (run prefers_sending (new_hub 50) calls).clients)
          && not (run prefers_sending (new_hub 50) calls).done)
run-new_hub-keeps_example =
    run-new_hub-keeps prefers_sending 50 calls calls-Unnumbered (omega arith)

-- A hub with one client, which asks for radio b, and with radio a's last events.
abbrev hub : Hub Sample
hub = record (new_hub {F = Sample} 50) {
  clients = ("c", fresh "b" (pos 0) 9) ∷ [];
  buffers = ("a", full_buffer) ∷ [];
}

publish-all_take_example :
    (publish prefers_sending hub (event 0)).clients
    ≡ all_take (record_event hub (event 0)).0 hub.clients
unfolding new_hub fresh
publish-all_take_example = publish-all_take prefers_sending hub (event 0) refl (refl, tt)

subscribe-sent_example :
    ((subscribe hub "d" "a" (pos 1) 5).1 ≡ true)
    × ((c : Client Sample) × (get (subscribe hub "d" "a" (pos 1) 5).0.clients "d" ≡ some c)
        × (c.sent ≡ ready_event (get_next_event_id hub "a").0 ∷ replayed hub "a" (pos 1)))
unfolding get_events_after get encodable
subscribe-sent_example = subscribe-sent hub "d" "a" (pos 1) 5 (omega arith) (refl, (refl, tt))

abbrev two_published : List (Call Sample)
two_published =
    publishes (pos 0) "a" "powerChanged" (power_changed "a" (some 10) 5)
    ∷ publishes (pos 0) "a" "powerChanged" (power_changed "a" (some 11) 6)
    ∷ []

abbrev after_two : Hub Sample
after_two = run prefers_sending (new_hub 50) two_published

run-new_hub-ready_example :
    (c : Client Sample) × (n : ℤ) × (get (subscribe after_two "d" "a" (pos 1) 5).0.clients "d"
      ≡ some c)
    × (c.sent ≡ ready_event n ∷ replayed after_two "a" (pos 1))
    × (pos 0 <ℤ n)
    × All (λ e. e.id <ℤ n) (replayed after_two "a" (pos 1))
unfolding run step publish_radio publish record_event get_next_event_id counter counter_key
    buffer_event buffer_of new_event_buffer add_event get_events_after new_hub get put encodable
    deliver inc64
run-new_hub-ready_example =
    run-new_hub-ready prefers_sending 50 two_published "d" "a" (pos 1) 5 (refl, (refl, tt))
      (omega arith) (omega arith) (refl, tt)
