-- ===== src/Adapter/Fake.antt =====
-- rcc/internal/adapter/fake/fake.go: the adapter of the tests, which keeps its radio in memory and can
-- be told to fail. `ctx` is the error of a context that is done.
use radio_container.Prelude.{
  ℕ, Bool, true, false, ◌||◌, List, [], ◌∷◌, ◌++◌, Option, none, some, String, str_eq, codes,
  if◌then◌else◌,
}
use radio_container.Prelude.Int.{pos}
use radio_container.Prelude.Float.{Float, flt, fle, lit}
use radio_container.Adapter.Errors.{Err, message}
use radio_container.Adapter.{RadioState, Channel, FrequencyProfile, Result, RadioAdapter}
use radio_container.Adapter.SilvusMock.{Formats, unless_blocked, default_band_plan}

pub record FakeAdapter (F : Type 0) : Type 0 where
  pub radio_id : String
  pub model : String
  pub status : String
  pub current_power : F
  pub current_frequency : F
  pub min_power : ℕ
  pub max_power : ℕ
  pub valid_freqs : List F
  pub channels : List (Channel F)
  pub simulate_errors : Bool
  pub error_type : String

unfoldable pub get_simulated_error : {F : Type 0} → FakeAdapter F → Err
get_simulated_error f =
    if str_eq f.error_type "INVALID_RANGE"
    then message (codes "INVALID_RANGE: simulated range error")
    else if str_eq f.error_type "BUSY"
    then message (codes "BUSY: simulated busy error")
    else if str_eq f.error_type "UNAVAILABLE"
    then message (codes "UNAVAILABLE: simulated unavailable error")
    else if str_eq f.error_type "INTERNAL"
    then message (codes "INTERNAL: simulated internal error")
    else message (codes "INTERNAL: unknown simulated error")

-- The checks that every operation of the interface starts with.
unfoldable pub fails : {F : Type 0} → Option Err → FakeAdapter F → Option Err
unfolding get_simulated_error
fails (some e) f = some e
fails none f = if f.simulate_errors then some (get_simulated_error f) else none

module _ {F : Type 0} where
  unfoldable pub get_fake_state : Option Err → FakeAdapter F → Result (RadioState F)
  unfolding fails unless_blocked
  get_fake_state ctx f =
      unless_blocked (fails ctx f)
        (record { power_dbm = f.current_power; frequency_mhz = f.current_frequency })

  unfoldable pub read_fake_power : Option Err → FakeAdapter F → Result F
  unfolding fails unless_blocked
  read_fake_power ctx f = unless_blocked (fails ctx f) f.current_power

  unfoldable pub set_error_simulation : String → FakeAdapter F → FakeAdapter F
  set_error_simulation error_type f = record f { simulate_errors = true; error_type = error_type }

  unfoldable pub disable_error_simulation : FakeAdapter F → FakeAdapter F
  disable_error_simulation f = record f { simulate_errors = false; error_type = "" }

  unfoldable pub get_fake_current : FakeAdapter F → F × F
  get_fake_current f = (f.current_power, f.current_frequency)

  unfoldable pub set_fake_current : F → F → FakeAdapter F → FakeAdapter F
  set_fake_current power frequency f = record f {
    current_power = power;
    current_frequency = frequency;
  }

module _ {F : Type 0} ⦃o : Float F⦄ where
  unfoldable pub new_fake_adapter : String → FakeAdapter F
  unfolding default_band_plan
  new_fake_adapter radio_id = record {
    radio_id = radio_id;
    model = "Fake-Radio-Test";
    status = "online";
    current_power = lit 20;
    current_frequency = lit 2412;
    min_power = 0;
    max_power = 39;
    valid_freqs = lit 2412 ∷ lit 2417 ∷ lit 2422 ∷ lit 2427 ∷ lit 2432 ∷ [];
    channels = default_band_plan;
    simulate_errors = false;
    error_type = "";
  }

  unfoldable pub fake_profiles : Option Err → FakeAdapter F → Result (List (FrequencyProfile F))
  unfolding fails unless_blocked
  fake_profiles ctx f =
      unless_blocked (fails ctx f)
        (record { frequencies = f.valid_freqs; bandwidth = lit 20; antenna_mask = pos 1 } ∷ [])

  module _ (formats : Formats F) (digits : ℕ → List ℕ) where
    unfoldable pub set_fake_power : Option Err → F → FakeAdapter F → Option Err × FakeAdapter F
    unfolding fails
    set_fake_power ctx dbm f = elim (fails ctx f) [
      | some e ↦ (some e, f)
      | none ↦
          if flt dbm (lit f.min_power) || flt (lit f.max_power) dbm
          then (
            some (
                message (
                  codes "INVALID_RANGE: power "
                  ++ (formats.six_places dbm
                      ++ (codes " is outside valid range ["
                          ++ (digits f.min_power
                              ++ (codes ", " ++ (digits f.max_power ++ codes "]"))))))),
            f,
          )
          else (none, record f { current_power = dbm })
    ]

    unfoldable pub set_fake_frequency : Option Err → F → FakeAdapter F → Option Err × FakeAdapter F
    unfolding fails
    set_fake_frequency ctx x f = elim (fails ctx f) [
      | some e ↦ (some e, f)
      | none ↦
          if fle x (lit 0)
          then (
            some (
                message (
                  codes "INVALID_RANGE: frequency "
                  ++ (formats.one_place x ++ codes " is invalid"))),
            f,
          )
          else if flt x (lit 100) || flt (lit 6000) x
          then (
            some (
                message (
                  codes "INVALID_RANGE: frequency "
                  ++ (formats.one_place x ++ codes " is outside valid range [100, 6000]"))),
            f,
          )
          else (none, record f { current_frequency = x })
    ]

-- The adapter that one `FakeAdapter` implements, at one state of the context. It has no
-- `GetBandPlan`.
unfoldable pub fake_adapter :
    {F A : Type 0} ⦃o : Float F⦄
    → Formats F
    → (ℕ → List ℕ)
    → Option Err
    → RadioAdapter F A (FakeAdapter F)
unfolding set_fake_power set_fake_frequency read_fake_power fake_profiles get_fake_state
fake_adapter formats digits ctx = record {
  get_state = λ a f. (get_fake_state ctx f, f);
  set_power = λ a dbm f. set_fake_power formats digits ctx dbm f;
  set_frequency = λ a x f. set_fake_frequency formats digits ctx x f;
  read_power_actual = λ a f. (read_fake_power ctx f, f);
  supported_frequency_profiles = λ a f. (fake_profiles ctx f, f);
  get_band_plan = λ a f. none;
}
