-- ===== src/Config/BandPlan.antt =====
-- rcc/internal/config/timing.go, `SilvusBandPlan`: channels by model and band.
pub mod RoundTrip
use radio_container.Prelude.{
  ℕ, Bool, false, List, [], ◌∷◌, ◌++◌, Option, none, some, String, map, codes, if◌then◌else◌,
}
use radio_container.Prelude.Dict.{Dict, get, has}
use radio_container.Prelude.Int.{ℤ, eq_int, int_text}
use radio_container.Prelude.Float.{Float, feq}
use radio_container.Adapter.Errors.{message}
use radio_container.Adapter.{Result, ok, err}

pub record SilvusChannel (F : Type 0) : Type 0 where
  pub channel_index : ℤ
  pub frequency_mhz : F

-- `models` is `none` where the map is nil.
pub record SilvusBandPlan (F : Type 0) : Type 0 where
  pub models : Option (Dict (Dict (List (SilvusChannel F))))

-- `found in model M band B`
place_text : String → String → List ℕ
place_text model band =
    codes " not found in model " ++ (codes model ++ (codes " band " ++ codes band))

module _ {F : Type 0} where
  -- The guards that both lookups begin with.
  pub band_channels : Option (SilvusBandPlan F) → String → String → Result (List (SilvusChannel F))
  band_channels none model band = err (message (codes "no Silvus band plan configured"))
  band_channels (some plan) model band = elim plan.models [
    | none ↦ err (message (codes "no Silvus band plan configured"))
    | some models ↦ elim (get models model) [
      | none ↦ err (message (codes "model " ++ (codes model ++ codes " not found in band plan")))
      | some bands ↦ elim (get bands band) [
        | none ↦ err (
            message
              (codes "band " ++ (codes band ++ (codes " not found for model " ++ codes model))))
        | some channels ↦ ok channels
      ]
    ]
  ]

  frequency_of : List (SilvusChannel F) → String → String → ℤ → Result F
  unfolding place_text
  frequency_of [] model band index =
      err (message (codes "channel index " ++ (int_text index ++ place_text model band)))
  frequency_of (c ∷ cs) model band index =
      if eq_int c.channel_index index then ok c.frequency_mhz else frequency_of cs model band index

  pub get_silvus_channel_frequency : Option (SilvusBandPlan F) → String → String → ℤ → Result F
  unfolding band_channels frequency_of
  get_silvus_channel_frequency plan model band index = elim (band_channels plan model band) [
    | err e ↦ err e
    | ok channels ↦ frequency_of channels model band index
  ]

  unfoldable pub has_model_band : Option (SilvusBandPlan F) → String → String → Bool
  has_model_band none model band = false
  has_model_band (some plan) model band = elim plan.models [
    | none ↦ false
    | some models ↦ elim (get models model) [ none ↦ false | some bands ↦ has bands band ]
  ]

  unfoldable pub get_available_models : Option (SilvusBandPlan F) → List String
  get_available_models none = []
  get_available_models (some plan) = elim plan.models [
    | none ↦ []
    | some models ↦ map (λ entry. entry.0) models
  ]

  unfoldable pub get_available_bands : Option (SilvusBandPlan F) → String → List String
  get_available_bands none model = []
  get_available_bands (some plan) model = elim plan.models [
    | none ↦ []
    | some models ↦ elim (get models model) [
      | none ↦ []
      | some bands ↦ map (λ entry. entry.0) bands
    ]
  ]

  module _ ⦃o : Float F⦄ where
    -- The message leaves out the number, whose rendering is Go's.
    index_of : List (SilvusChannel F) → String → String → F → Result ℤ
    unfolding place_text
    index_of [] model band frequency_mhz =
        err (message (codes "frequency" ++ place_text model band))
    index_of (c ∷ cs) model band frequency_mhz =
        if feq c.frequency_mhz frequency_mhz
        then ok c.channel_index
        else index_of cs model band frequency_mhz

    unfoldable pub get_silvus_channel_index :
        Option (SilvusBandPlan F) → String → String → F → Result ℤ
    unfolding band_channels index_of
    get_silvus_channel_index plan model band frequency_mhz = elim (band_channels plan model band) [
      | err e ↦ err e
      | ok channels ↦ index_of channels model band frequency_mhz
    ]
