-- ===== src/Radio/Channels.antt =====
-- `getChannelsFromCapabilities`: the two loops that number the channels of frequency profiles.
use radio_container.Prelude.{ℕ, suc, ◌+◌, ◌*◌, List, [], ◌∷◌, ◌++◌, length}
use radio_container.Prelude.Int.{pos}
use radio_container.Adapter.{Channel, FrequencyProfile}

module _ {F : Type 0} where
  -- `for j, freq := range profile.Frequencies`, with `offset` = i * len(profile.Frequencies)
  unfoldable pub channels_from : ℕ → ℕ → List F → List (Channel F)
  channels_from offset j [] = []
  channels_from offset j (freq ∷ freqs) =
      record { index = pos (offset + j + 1); frequency_mhz = freq }
      ∷ channels_from offset (suc j) freqs

  -- `for i, profile := range capabilities`
  unfoldable pub profiles_from : ℕ → List (FrequencyProfile F) → List (Channel F)
  unfolding channels_from
  profiles_from i [] = []
  profiles_from i (profile ∷ profiles) =
      channels_from (i * length profile.frequencies) 0 profile.frequencies
      ++ profiles_from (suc i) profiles

  unfoldable pub channels_of_profiles : List (FrequencyProfile F) → List (Channel F)
  unfolding profiles_from
  channels_of_profiles profiles = profiles_from 0 profiles
