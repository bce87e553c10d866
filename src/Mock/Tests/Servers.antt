-- ===== src/Mock/Tests/Servers.antt =====
-- Tests and examples of the queue and of the two servers.
use radio_container.Prelude.{ℕ, ◌≡◌, refl, true, false, [], ◌∷◌, some, codes, arith}
use radio_container.Prelude.Int.{int_text}
use radio_container.Prelude.Float.{Sample, sample_float}
use radio_container.Mock.Config.{Text, get_default_config}
use radio_container.Mock.Radio.{
  RadioState, new_radio_state, texts, process_command, dispatch, kind_of, handle_get_power, reply,
}
use radio_container.Mock.Samples.{numbers, readings, gps, small}
use radio_container.Mock.Queue.{
  Entry, System, Reach, initially, then_step, queued, worked, new_system, enqueue, answer,
}
use radio_container.Mock.Queue.Order.{Orderly, Reach-Orderly}
use radio_container.Mock.Direct.{execute_at, radio_request-Honest}
use radio_container.Mock.Commands.{World, Handler}
use radio_container.Mock.Commands.Optional.{read_power_dbm_handler}
use radio_container.Mock.Commands.Positioning.{new_gps}
use radio_container.Mock.Commands.Server.{Request, process_request, new_registry}
use radio_container.Mock.Commands.Power.{request, read_power_registered}
use radio_container.Mock.Maintenance.{Addresses}

abbrev read_power : Entry
read_power = record { call = 1; cmd = record { name = "getPower"; params = [] } }

abbrev read_freq : Entry
read_freq = record { call = 2; cmd = record { name = "getFreq"; params = [] } }

-- Two commands are queued and the first is answered.
abbrev one_answered : System
one_answered =
    answer read_power (read_freq ∷ []) (reply (texts (codes "30" ∷ [])), new_radio_state small)
      (enqueue read_freq (enqueue read_power (new_system small)))

one_answered_reached : Reach numbers 5 small one_answered
unfolding new_system enqueue process_command dispatch kind_of handle_get_power new_radio_state
    numbers small get_default_config int_text
one_answered_reached =
    then_step
      (then_step (then_step initially (queued read_power (omega arith)))
        (queued read_freq (omega arith)))
      (worked read_power (read_freq ∷ []) 1 1
        (reply (texts (codes "30" ∷ [])), new_radio_state small) refl refl refl)

Reach-Orderly_example : Orderly numbers 5 small one_answered
Reach-Orderly_example = Reach-Orderly numbers 5 small one_answered_reached

abbrev id : ℕ
id = 1

abbrev world : World Sample RadioState
world = record { state = new_radio_state small; gps = new_gps gps 0 }

-- Addresses are texts, and a range contains an address that equals it.
abbrev net : Addresses Text Text
net = record {
  split_host_port = λ t. some t;
  parse_ip = λ t. some t;
  parse_cidr = λ t. some t;
  contains = λ network ip. true;
}

abbrev reset : Request ℕ
reset = record { jsonrpc = "2.0"; method = "radio_reset"; params = []; id = 1 }

abbrev read_actual : Handler Sample RadioState
read_actual = read_power_dbm_handler readings (execute_at numbers 5 7)

radio_request-Honest_example :
    (read_actual.read_only ≡ true
      → (process_request
          (new_registry readings gps (execute_at numbers 5 7))
          7
          (request "read_power_dBm" [] id)
          world).1
        ≡ world)
    × (read_actual.requires_blackout ≡ false
        → (process_request
            (new_registry readings gps (execute_at numbers 5 7))
            7
            (request "read_power_dBm" [] id)
            world).1.state.blackout_until
          ≡ world.state.blackout_until)
radio_request-Honest_example =
    radio_request-Honest numbers 5 7 readings gps (request "read_power_dBm" [] id) world read_actual
      (read_power_registered numbers readings gps 5 7)
