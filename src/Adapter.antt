-- ===== src/Adapter.antt =====
-- rcc/internal/adapter/adapter.go: the data of the southbound contract and the interface
-- `IRadioAdapter`. An adapter is a handle `A`; all that adapters keep is the outside world `W`, which
-- each call takes and returns, so two uses of one handle share their radio. A context with its
-- timeout is part of what an adapter may do: it may fail at any call.
pub mod Errors
pub mod Samples
pub mod SilvusMock
pub mod Fake
pub mod Tests
use radio_container.Prelude.{◌≡◌, refl, ◌⊎◌, inl, inr, Option, List, String}
use radio_container.Prelude.Int.{ℤ}
use Errors.{Err}

pub record RadioState (F : Type 0) : Type 0 where
  pub power_dbm : F
  pub frequency_mhz : F

pub record Channel (F : Type 0) : Type 0 where
  pub index : ℤ
  pub frequency_mhz : F

pub record RadioCapabilities (F : Type 0) : Type 0 where
  pub min_power_dbm : ℤ
  pub max_power_dbm : ℤ
  pub channels : List (Channel F)

pub record FrequencyProfile (F : Type 0) : Type 0 where
  pub frequencies : List F
  pub bandwidth : F
  pub antenna_mask : ℤ

-- A value or an error.
pub data Result (A : Type 0) : Type 0 where
  ok : A → Result A
  err : Err → Result A

-- `get_band_plan` answers the type assertion on `GetBandPlan`: `none` where the adapter lacks it.
pub record RadioAdapter (F A W : Type 0) : Type 0 where
  pub get_state : A → W → Result (RadioState F) × W
  pub set_power : A → F → W → Option Err × W
  pub set_frequency : A → F → W → Option Err × W
  pub read_power_actual : A → W → Result F × W
  pub supported_frequency_profiles : A → W → Result (List (FrequencyProfile F)) × W
  pub get_band_plan : A → W → Option (List (Channel F))

pub Result-cases : {X : Type 0} (r : Result X) → ((x : X) × (r ≡ ok x)) ⊎ ((e : Err) × (r ≡ err e))
Result-cases (ok x) = inl (x, refl)
Result-cases (err e) = inr (e, refl)
