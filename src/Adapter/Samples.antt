-- ===== src/Adapter/Samples.antt =====
-- Concrete adapters for the tests. The handle is a number, and the world is the list of all settings
-- that an adapter took.
use radio_container.Prelude.{ℕ, List, [], ◌∷◌, ◌++◌, none, some, codes}
use radio_container.Prelude.Int.{pos}
use radio_container.Prelude.Float.{Sample}
use radio_container.Adapter.Errors.{Err, message}
use radio_container.Adapter.{FrequencyProfile, ok, RadioAdapter}

abbrev pub Settings : Type 0
Settings = List (ℕ × Sample)

abbrev pub profile : List Sample → FrequencyProfile Sample
profile frequencies = record { frequencies = frequencies; bandwidth = some 5; antenna_mask = pos 3 }

-- Two profiles of two frequencies.
abbrev pub two_profiles : List (FrequencyProfile Sample)
two_profiles = profile (some 2200 ∷ some 2300 ∷ []) ∷ profile (some 4700 ∷ some 4800 ∷ []) ∷ []

-- It takes every setting.
abbrev pub willing : RadioAdapter Sample ℕ Settings
willing = record {
  get_state = λ a w. (ok (record { power_dbm = some 20; frequency_mhz = some 2200 }), w);
  set_power = λ a dbm w. (none, w ++ (a, dbm) ∷ []);
  set_frequency = λ a f w. (none, w ++ (a, f) ∷ []);
  read_power_actual = λ a w. (ok (some 20), w);
  supported_frequency_profiles = λ a w. (ok two_profiles, w);
  get_band_plan = λ a w. none;
}

abbrev pub busy_message : Err
busy_message = message (codes "radio: rf_busy now")

-- It refuses every setting.
abbrev pub unwilling : RadioAdapter Sample ℕ Settings
unwilling = record willing {
  set_power = λ a dbm w. (some busy_message, w);
  set_frequency = λ a f w. (some busy_message, w);
}
