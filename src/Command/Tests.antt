-- ===== src/Command/Tests.antt =====
-- Tests and examples of the commands.
use radio_container.Prelude.{ℕ, ◌≡◌, refl, List, [], ◌∷◌, ◌++◌, none, some, String}
use radio_container.Prelude.Dict.{get}
use radio_container.Prelude.Int.{pos}
use radio_container.Prelude.Float.{Sample, sample_float}
use radio_container.Adapter.Errors.{Err, sentinel, unavailable, invalid_parameter}
use radio_container.Adapter.{Channel, FrequencyProfile, ok, err}
use radio_container.Adapter.Samples.{Settings, profile, two_profiles, willing, unwilling}
use radio_container.Radio.{Radio, Manager}
use radio_container.Radio.Discovery.{get_radio}
use radio_container.Radio.Channels.{channels_of_profiles}
use radio_container.Telemetry.Hub.{Case, channel_send}
use radio_container.Command.State.{
  Orchestrator, new_orchestrator, new_orchestrator_with_radio_manager, set_radio_manager,
  set_active_adapter, set_audit_logger,
}
use radio_container.Command.Orchestrator.Wiring.{started, perform_all, started-refuses}
use radio_container.Command.Resolve.{find_channel, resolve_channel_index}
use radio_container.Command.Resolution.{resolve_channel_index-channels_of_profiles}
use radio_container.Command.Numbering.{
  get_elem?, all_frequencies, find_channel-channels_of_profiles, find_channel-shadowed,
}
use radio_container.Command.Orchestrator.{
  select_radio, set_power, set_channel, set_channel_by_index,
}
use radio_container.Command.Orchestrator.Effects.{
  Command, selects, sets_power, perform, Reported, Plan,
}
use radio_container.Command.Orchestrator.Reports.{perform-Reported}
use radio_container.Command.Orchestrator.Routing.{
  set_power-out_of_range, select_radio-no_adapter, set_power-ignores_radio,
}
use radio_container.Command.Orchestrator.Sends.{
  Sent, set_power-Sent, set_channel-Sent, set_channel_by_index-Sent,
}

abbrev radio : String → Radio Sample
radio k = record {
  id = k;
  model = "Unknown-Radio";
  status = "online";
  capabilities = some (record {
    min_power_dbm = pos 0;
    max_power_dbm = pos 39;
    channels = record { index = pos 1; frequency_mhz = some 2200 } ∷ [];
  });
  state = none;
  last_seen = 1;
}

abbrev manager : Manager Sample ℕ
manager = record {
  radios = ("a", radio "a") ∷ ("b", radio "b") ∷ [];
  active_radio_id = "a";
  adapters = ("a", 7) ∷ ("b", 8) ∷ [];
}

abbrev orchestrator : Orchestrator Sample ℕ Settings
orchestrator = record {
  radio_manager = some manager;
  active_adapter = some 7;
  telemetry_hub = none;
  audit_log = some [];
  silvus_band_plan = none;
  world = [];
}

-- The wiring that the orchestrator's setters do.
abbrev created : Orchestrator Sample ℕ Settings
created = new_orchestrator none none []

abbrev given_manager : Orchestrator Sample ℕ Settings
given_manager = new_orchestrator_with_radio_manager none none (some manager) []

wired :
    (set_radio_manager created (some manager) ≡ given_manager)
    × (set_audit_logger (set_active_adapter given_manager (some 7)) (some []) ≡ orchestrator)
unfolding new_orchestrator new_orchestrator_with_radio_manager set_radio_manager set_active_adapter
    set_audit_logger
wired = (refl, refl)

abbrev no_adapter : Orchestrator Sample ℕ Settings
no_adapter = record orchestrator { active_adapter = none }

abbrev prefers_sending : String → Case
prefers_sending id = channel_send

abbrev busy_power : Command Sample ℕ
busy_power = sets_power "a" (some 20)

perform-Reported_example :
    Reported prefers_sending 9 orchestrator "setPower" "a" unwilling
      (Plan unwilling 9 orchestrator busy_power)
      (perform unwilling prefers_sending 9 orchestrator busy_power).0
      (perform unwilling prefers_sending 9 orchestrator busy_power).1
perform-Reported_example = perform-Reported unwilling prefers_sending 9 orchestrator busy_power

started-refuses_example :
    (perform_all willing prefers_sending 9 (busy_power ∷ selects "" ∷ []) (started none none [])).0
    ≡ some (sentinel unavailable) ∷ some invalid_parameter ∷ []
started-refuses_example =
    (started-refuses willing prefers_sending 9 none none [] (busy_power ∷ selects "" ∷ [])).0

set_power-out_of_range_example :
    ((e : Err) × ((set_power willing prefers_sending 9 orchestrator "a" (some 40)).1 ≡ err e))
    × ((set_power willing prefers_sending 9 orchestrator "a" (some 40)).0.world ≡ [])
set_power-out_of_range_example =
    set_power-out_of_range willing prefers_sending 9 orchestrator "a" (some 40) refl

select_radio-no_adapter_example :
    ((select_radio willing prefers_sending 9 no_adapter "b").1 ≡ err (sentinel unavailable))
    × ((m : Manager Sample ℕ) × ((select_radio willing prefers_sending 9 no_adapter
            "b").0.radio_manager
          ≡ some m)
        × (m.active_radio_id ≡ "b"))
unfolding get
select_radio-no_adapter_example =
    select_radio-no_adapter willing prefers_sending 9 no_adapter manager "b" (radio "b") refl refl
      (λ e. cc) refl

set_power-ignores_radio_example :
    ((set_power willing prefers_sending 9 orchestrator "b" (some 20)).1
      ≡ (set_power willing prefers_sending 9 orchestrator "a" (some 20)).1)
    × ((set_power willing prefers_sending 9 orchestrator "b" (some 20)).0.world
        ≡ (set_power willing prefers_sending 9 orchestrator "a" (some 20)).0.world)
unfolding get
set_power-ignores_radio_example =
    set_power-ignores_radio willing prefers_sending 9 orchestrator manager "b" "a" (radio "b")
      (radio "a") (some 20) refl refl refl

set_power-Sent_example :
    Sent (none, (7, some 20) ∷ []) (set_power willing prefers_sending 9 orchestrator "b" (some 20))
unfolding get
set_power-Sent_example =
    set_power-Sent willing prefers_sending 9 orchestrator manager "b" (radio "b") 7 (some 20) refl
      refl refl refl

set_channel-Sent_example :
    Sent
      (none, (7, some 2400) ∷ [])
      (set_channel willing prefers_sending 9 orchestrator "b" (some 2400))
unfolding get
set_channel-Sent_example =
    set_channel-Sent willing prefers_sending 9 orchestrator manager "b" (radio "b") 7 (some 2400)
      refl refl refl refl

set_channel_by_index-Sent_example :
    Sent
      (none, (7, some 2200) ∷ [])
      (set_channel_by_index willing prefers_sending 9 orchestrator "b" (pos 1) none)
unfolding get resolve_channel_index find_channel get_radio
set_channel_by_index-Sent_example =
    set_channel_by_index-Sent willing prefers_sending 9 orchestrator manager "b" (radio "b") 7
      (pos 1) none (some 2200) refl refl refl refl refl refl

find_channel-channels_of_profiles_example :
    find_channel (channels_of_profiles two_profiles) (pos 3)
    ≡ get_elem? (all_frequencies two_profiles) 2
find_channel-channels_of_profiles_example =
    find_channel-channels_of_profiles 2 2 two_profiles (refl, (refl, tt))

-- Three frequencies, then one.
abbrev uneven : List (FrequencyProfile Sample)
uneven = profile (some 2200 ∷ some 2300 ∷ some 2400 ∷ []) ∷ profile (some 4700 ∷ []) ∷ []

find_channel-shadowed_example :
    ((before after : List (Channel Sample)) × (channels_of_profiles uneven
        ≡ before ++ record { index = pos 2; frequency_mhz = some 4700 } ∷ after))
    × (find_channel (channels_of_profiles uneven) (pos 2) ≡ some (some 2300))
unfolding get_elem?
find_channel-shadowed_example =
    find_channel-shadowed (profile (some 2200 ∷ some 2300 ∷ some 2400 ∷ []))
      (profile (some 4700 ∷ [])) [] (some 4700) (some 2300) [] refl refl

-- The radio a with the channels of two profiles.
abbrev tunable : Radio Sample
tunable = record (radio "a") {
  capabilities = some (record {
    min_power_dbm = pos 0;
    max_power_dbm = pos 39;
    channels = channels_of_profiles two_profiles;
  });
}

abbrev tuning : Orchestrator Sample ℕ Settings
tuning = record orchestrator {
  radio_manager = some (record manager { radios = ("a", tunable) ∷ [] });
}

resolve_channel_index-channels_of_profiles_example :
    resolve_channel_index willing tuning "a" (pos 3) none ≡ ok (some 4700)
unfolding get get_elem? all_frequencies
resolve_channel_index-channels_of_profiles_example =
    resolve_channel_index-channels_of_profiles willing tuning
      (record manager { radios = ("a", tunable) ∷ [] }) "a" tunable
      (record {
        min_power_dbm = pos 0;
        max_power_dbm = pos 39;
        channels = channels_of_profiles two_profiles;
      })
      two_profiles 2 2 (some 4700) refl refl refl refl refl (refl, (refl, tt)) refl
