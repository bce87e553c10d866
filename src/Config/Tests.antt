-- ===== src/Config/Tests.antt =====
-- Tests and examples of the configuration.
use radio_container.Prelude.{◌≡◌, ◌↔◌, ◌*◌, ◌^◌, ℕ, none, some}
use radio_container.Prelude.Int.{ℤ, pos}
use radio_container.Prelude.Float.{Sample, sample_float}
use radio_container.Prelude.{refl, true, false, List, [], ◌∷◌, Option}
use radio_container.Prelude.Dict.{get, has}
use radio_container.Prelude.Float.{feq}
use radio_container.Adapter.{ok}
use radio_container.Config.BandPlan.{
  SilvusChannel, SilvusBandPlan, get_silvus_channel_frequency, get_silvus_channel_index,
  has_model_band, get_available_models, get_available_bands,
}
use radio_container.Config.BandPlan.RoundTrip.{
  get_silvus_channel_frequency-get_silvus_channel_index,
}
use radio_container.Config.Timing.{TimingConfig}
use radio_container.Config.Validate.{validate_timing}
use radio_container.Config.Validate.Rules.{IsValid, validate_timing-IsValid}

abbrev seconds : ℕ → ℤ
seconds n = pos (n * 10 ^ 9)

abbrev config : TimingConfig Sample
config = record {
  heartbeat_interval = seconds 15;
  heartbeat_jitter = seconds 2;
  heartbeat_timeout = seconds 45;
  probe_normal_interval = seconds 30;
  probe_recovering_initial = seconds 5;
  probe_recovering_backoff = some 2;
  probe_recovering_max = seconds 15;
  probe_offline_initial = seconds 10;
  probe_offline_backoff = some 2;
  probe_offline_max = seconds 300;
  command_timeout_set_power = seconds 10;
  command_timeout_set_channel = seconds 30;
  command_timeout_select_radio = seconds 5;
  command_timeout_get_state = seconds 5;
  event_buffer_size = pos 50;
  event_buffer_retention = seconds 3600;
  silvus_band_plan = none;
}

validate_timing-IsValid_example : (validate_timing (some config) ≡ none) ↔ IsValid config
validate_timing-IsValid_example = validate_timing-IsValid config

abbrev channels : List (SilvusChannel Sample)
channels =
    record { channel_index = pos 1; frequency_mhz = some 2200 }
    ∷ record { channel_index = pos 2; frequency_mhz = some 2300 }
    ∷ []

abbrev plan : Option (SilvusBandPlan Sample)
plan = some (record { models = some (("m", ("b", channels) ∷ []) ∷ []) })

has_model_band_examples :
    (has_model_band plan "m" "b" ≡ true)
    × (has_model_band plan "m" "c" ≡ false)
    × (has_model_band plan "n" "b" ≡ false)
unfolding has_model_band get has
has_model_band_examples = (refl, refl, refl)

available :
    (get_available_models plan ≡ "m" ∷ [])
    × (get_available_bands plan "m" ≡ "b" ∷ [])
    × (get_available_bands plan "n" ≡ [])
unfolding get_available_models get_available_bands get
available = (refl, refl, refl)

get_silvus_channel_frequency-get_silvus_channel_index_example :
    (g : Sample) × (get_silvus_channel_frequency plan "m" "b" (pos 2) ≡ ok g)
    × (feq g (some 2300) ≡ true)
unfolding get get_silvus_channel_index
get_silvus_channel_frequency-get_silvus_channel_index_example =
    get_silvus_channel_frequency-get_silvus_channel_index plan "m" "b" channels (some 2300) (pos 2)
      refl (((λ e. cc), tt), (tt, tt)) refl
