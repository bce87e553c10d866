-- ===== src/Radio/Tests.antt =====
-- Tests and examples of the manager.
use radio_container.Prelude.{none, ℕ, List, [], ◌∷◌}
use radio_container.Prelude.Float.{Sample, sample_float}
use radio_container.Adapter.Samples.{Settings, willing}
use radio_container.Prelude.{◌≡◌, refl, some}
use radio_container.Prelude.Dict.{get, has, put}
use radio_container.Prelude.Int.{pos}
use radio_container.Radio.{Radio, Manager, new_manager, set_active, get_active, list}
use radio_container.Radio.Active.{Active, set_active-Active}
use radio_container.Radio.Invariant.{Inv, put-Inv}
use radio_container.Radio.History.{
  Call, loads, selects, gets, updates_status, refreshes, removes, Keeps, run, run-new_manager-Keeps,
}

-- Two radios are loaded, the second is selected, and both are worked with and removed.
abbrev calls : List (Call Sample ℕ)
calls =
    loads 1 "a" 7
    ∷ loads 2 "b" 8
    ∷ selects "b"
    ∷ gets "a"
    ∷ refreshes 3 "b"
    ∷ updates_status 4 "a" "offline"
    ∷ removes "b"
    ∷ refreshes 5 "b"
    ∷ removes "a"
    ∷ []

abbrev untouched : Settings
untouched = []

run-new_manager-Keeps_example : Keeps willing (run willing new_manager untouched calls).0
run-new_manager-Keeps_example = run-new_manager-Keeps willing untouched calls

abbrev radio : Radio Sample
radio = record {
  id = "a";
  model = "Unknown-Radio";
  status = "online";
  capabilities = some (record { min_power_dbm = pos 0; max_power_dbm = pos 39; channels = [] });
  state = none;
  last_seen = 1;
}

abbrev manager : Manager Sample ℕ
manager = record { radios = ("a", radio) ∷ []; active_radio_id = ""; adapters = ("a", 7) ∷ [] }

listed : list manager ≡ record { active_radio_id = ""; items = radio ∷ [] }
unfolding list
listed = refl

abbrev no_radio : Manager Sample ℕ
no_radio = record { radios = []; active_radio_id = ""; adapters = ("a", 7) ∷ [] }

no_radio-Inv : Inv no_radio
unfolding get has
no_radio-Inv = record {
  active_known = λ h. absurd (h refl);
  adapter_known = λ k h. cc;
  keyed = λ k r h. cc;
  capable = λ k r h. cc;
}

manager-Inv : Inv manager
unfolding put has
manager-Inv = put-Inv no_radio "a" radio refl (λ e. cc) refl no_radio-Inv

set_active-Active_example :
    ((set_active manager "a").1 ≡ none)
    × (get_active (set_active manager "a").0 ≡ "a")
    × Active (set_active manager "a").0
unfolding has
set_active-Active_example = set_active-Active manager "a" (λ e. cc) refl manager-Inv
