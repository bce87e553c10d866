-- ===== src/Radio/Discovery.antt =====
-- manager.go: the methods that call an adapter, `LoadCapabilities`, `GetRadio` and
-- `RefreshCapabilities`.
use radio_container.Prelude.{
  ℕ, ◌++◌, List, Option, none, some, String, str_eq, codes, if◌then◌else◌,
}
use radio_container.Prelude.Dict.{get, put}
use radio_container.Prelude.Int.{ℤ, pos}
use radio_container.Prelude.Float.{Float, lit}
use radio_container.Adapter.Errors.{Err, message, wrapped}
use radio_container.Adapter.{RadioState, Channel, FrequencyProfile, Result, ok, err, RadioAdapter}
use radio_container.Radio.{Radio, Manager, Outcome, returns, panics, radio_not_found}
use radio_container.Radio.Channels.{channels_of_profiles}

module _ {F : Type 0} where
  get_model_from_capabilities : List (FrequencyProfile F) → String
  get_model_from_capabilities capabilities = "Unknown-Radio"

  get_min_power_from_capabilities : List (FrequencyProfile F) → ℤ
  get_min_power_from_capabilities capabilities = pos 0

  get_max_power_from_capabilities : List (FrequencyProfile F) → ℤ
  get_max_power_from_capabilities capabilities = pos 39

  determine_status : Result (RadioState F) → String
  determine_status (err e) = "offline"
  determine_status (ok s) = "online"

module _ {F A W : Type 0} (adapter : RadioAdapter F A W) where
  -- The band plan of an adapter that has one; else the channels made from the profiles.
  get_channels_from_capabilities : List (FrequencyProfile F) → A → W → List (Channel F)
  get_channels_from_capabilities capabilities a w = elim (adapter.get_band_plan a w) [
    | some channels ↦ channels
    | none ↦ channels_of_profiles capabilities
  ]

  module _ ⦃o : Float F⦄ where
    state_or_default : Result (RadioState F) → RadioState F
    state_or_default (ok s) = s
    state_or_default (err e) = record { power_dbm = lit 0; frequency_mhz = lit 0 }

    pub new_radio : ℕ → String → A → List (FrequencyProfile F) → Result (RadioState F) → W → Radio F
    unfolding state_or_default determine_status get_model_from_capabilities
        get_min_power_from_capabilities get_max_power_from_capabilities
        get_channels_from_capabilities
    new_radio now radio_id a capabilities state w = record {
      id = radio_id;
      model = get_model_from_capabilities capabilities;
      status = determine_status state;
      capabilities = some (record {
        min_power_dbm = get_min_power_from_capabilities capabilities;
        max_power_dbm = get_max_power_from_capabilities capabilities;
        channels = get_channels_from_capabilities capabilities a w;
      });
      state = some (state_or_default state);
      last_seen = now;
    }

    -- The rest of `LoadCapabilities`, once the profiles are read; `stored` has the adapter already.
    unfoldable pub loaded :
        Manager F A
        → ℕ
        → String
        → A
        → Result (List (FrequencyProfile F))
        → W
        → (Manager F A × Option Err) × W
    unfolding new_radio
    loaded stored now radio_id a (err e) w₁ =
        let text =
          codes "failed to load capabilities for radio " ++ (codes radio_id ++ codes ": ") in
        ((stored, some (wrapped text e)), w₁)
    loaded stored now radio_id a (ok capabilities) w₁ =
        let (state, w₂) = adapter.get_state a w₁ in
        let radio = new_radio now radio_id a capabilities state w₂ in
        (
          (
            record stored {
              radios = put stored.radios radio_id radio;
              active_radio_id =
                  if str_eq stored.active_radio_id "" then radio_id else stored.active_radio_id;
            },
            none,
          ),
          w₂,
        )

    -- The adapter is stored before its capabilities are read, and stays if that fails.
    unfoldable pub load_capabilities :
        Manager F A → W → ℕ → String → A → (Manager F A × Option Err) × W
    unfolding loaded
    load_capabilities m w now radio_id a =
        let (profiles, w₁) = adapter.supported_frequency_profiles a w in
        loaded (record m { adapters = put m.adapters radio_id a }) now radio_id a profiles w₁

  -- Missing capabilities are filled in from the adapter's band plan, where it has one.
  unfoldable pub fill_capabilities : Manager F A → W → String → Radio F → Option (Radio F)
  fill_capabilities m w radio_id r = elim r.capabilities [
    | some c ↦ none
    | none ↦ elim (get m.adapters radio_id) [
      | none ↦ none
      | some a ↦ elim (adapter.get_band_plan a w) [
        | none ↦ none
        | some channels ↦ some (record r {
          capabilities =
              some (record { min_power_dbm = pos 0; max_power_dbm = pos 0; channels = channels });
        })
      ]
    ]
  ]

  unfoldable pub get_radio : Manager F A → W → String → Manager F A × Result (Radio F)
  unfolding fill_capabilities
  get_radio m w radio_id = elim (get m.radios radio_id) [
    | none ↦ (m, err (radio_not_found radio_id))
    | some r ↦ elim (fill_capabilities m w radio_id r) [
      | none ↦ (m, ok r)
      | some filled ↦ (record m { radios = put m.radios radio_id filled }, ok filled)
    ]
  ]

  -- `radio.Capabilities.Channels = …` panics where the pointer is nil.
  unfoldable pub set_channels :
      Manager F A → ℕ → String → List (Channel F) → Radio F → Outcome (Manager F A)
  set_channels m now radio_id channels r = elim r.capabilities [
    | none ↦ panics
    | some c ↦ returns (record m {
      radios =
          put m.radios radio_id
            (record r { capabilities = some (record c { channels = channels }); last_seen = now });
    })
  ]

  abbrev pub no_error : Outcome (Manager F A) → Outcome (Manager F A × Option Err)
  no_error panics = panics
  no_error (returns m) = returns (m, none)

  -- The rest of `RefreshCapabilities`, once the profiles are read.
  unfoldable pub refreshed :
      Manager F A
      → ℕ
      → String
      → A
      → Radio F
      → Result (List (FrequencyProfile F))
      → W
      → Outcome (Manager F A × Option Err)
  unfolding set_channels get_channels_from_capabilities
  refreshed m now radio_id a r (err e) w₁ =
      let text =
        codes "failed to refresh capabilities for radio " ++ (codes radio_id ++ codes ": ") in
      returns (m, some (wrapped text e))
  refreshed m now radio_id a r (ok capabilities) w₁ =
      no_error (set_channels m now radio_id (get_channels_from_capabilities capabilities a w₁) r)

  unfoldable pub refresh_capabilities :
      Manager F A → W → ℕ → String → Outcome (Manager F A × Option Err) × W
  unfolding refreshed
  refresh_capabilities m w now radio_id = elim (get m.adapters radio_id) [
    | none ↦ (returns (m, some (message (codes "no adapter for radio " ++ codes radio_id))), w)
    | some a ↦ elim (get m.radios radio_id) [
      | none ↦ (returns (m, some (radio_not_found radio_id)), w)
      | some r ↦
          let (profiles, w₁) = adapter.supported_frequency_profiles a w in
          (refreshed m now radio_id a r profiles w₁, w₁)
    ]
  ]
