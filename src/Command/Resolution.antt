-- ===== src/Command/Resolution.antt =====
-- What a channel index resolves to, from the profiles that an adapter reported.
use radio_container.Prelude.{
  ℕ, suc, ◌≡◌, refl, ◌∙◌, List, [], ◌∷◌, All, length, Option, none, some, String,
}
use radio_container.Prelude.Dict.{get}
use radio_container.Prelude.Int.{ℤ, pos}
use radio_container.Adapter.{Channel, FrequencyProfile, RadioCapabilities, ok, RadioAdapter}
use radio_container.Radio.{Radio, Manager}
use radio_container.Radio.Channels.{channels_of_profiles}
use radio_container.Radio.Lookup.{get_radio-capable}
use radio_container.Command.State.{Orchestrator}
use radio_container.Command.Resolve.{
  find_channel, channel_of, planned_frequency, resolve_channel_index_from_radio_manager,
  resolve_channel_index,
}
use radio_container.Command.Numbering.{
  get_elem?, all_frequencies, find_channel-channels_of_profiles,
}

module _ {F A W : Type 0} (adapter : RadioAdapter F A W) where
  channel_of-found :
      (k : String) (i : ℤ) (cs : List (Channel F)) (f : F)
      → find_channel cs i ≡ some f
      → channel_of adapter k i cs ≡ ok f
  unfolding channel_of find_channel
  channel_of-found k i [] f h = absurd (cc)
  channel_of-found k i (c ∷ cs) f h = rw (h, channel_of) refl

  no_plan :
      (s : Orchestrator F A W) (k : String) (i : ℤ) (given : Option (Manager F A))
      → s.silvus_band_plan ≡ none
      → planned_frequency adapter s k i given ≡ none
  unfolding planned_frequency
  no_plan s k i given h = rw (h, planned_frequency) refl

  -- Without a band plan, and for a radio of the orchestrator's manager whose channels were made from
  -- profiles with equally many frequencies, the channel index `j` + 1 resolves to entry `j` of the
  -- profiles' frequencies in order.
  pub resolve_channel_index-channels_of_profiles :
      (s : Orchestrator F A W) (m : Manager F A) (k : String) (r : Radio F)
      (c : RadioCapabilities F) (ps : List (FrequencyProfile F)) (n j : ℕ) (f : F)
      → s.silvus_band_plan ≡ none
      → s.radio_manager ≡ some m
      → get m.radios k ≡ some r
      → r.capabilities ≡ some c
      → c.channels ≡ channels_of_profiles ps
      → All (λ p. length p.frequencies ≡ n) ps
      → get_elem? (all_frequencies ps) j ≡ some f
      → resolve_channel_index adapter s k (pos (suc j)) none ≡ ok f
  unfolding resolve_channel_index resolve_channel_index_from_radio_manager
  resolve_channel_index-channels_of_profiles s m k r c ps n j f p sm e h cs uniform at =
      let found = find_channel-channels_of_profiles n j ps uniform ∙ at in
      rw (no_plan s k (pos (suc j)) none p, resolve_channel_index)
        (rw
          (
            sm,
            get_radio-capable adapter m s.world k r c e h,
            h,
            cs,
            resolve_channel_index_from_radio_manager,
          )
          (channel_of-found k (pos (suc j)) (channels_of_profiles ps) f found))
