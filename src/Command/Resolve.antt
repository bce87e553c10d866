-- ===== src/Command/Resolve.antt =====
-- orchestrator.go: `resolveChannelIndex` and what it calls. The manager that the caller gives wins
-- over the orchestrator's own. What `GetRadio` may write into that manager is not kept here: it
-- would be computed again, to the same value, at the next call.
use radio_container.Prelude.{
  List, [], ◌∷◌, ◌++◌, Option, none, some, String, codes, length, if◌then◌else◌,
}
use radio_container.Prelude.Int.{ℤ, eq_int, int_text}
use radio_container.Adapter.Errors.{message, wrapped, vendor_error, invalid_range, channel_lookup}
use radio_container.Adapter.{Channel, Result, ok, err, RadioAdapter}
use radio_container.Radio.Discovery.{get_radio}
use radio_container.Radio.{Manager}
use radio_container.Config.BandPlan.{get_silvus_channel_frequency}
use radio_container.Command.State.{Orchestrator}

-- The loop that looks for the channel with the index.
unfoldable pub find_channel : {F : Type 0} → List (Channel F) → ℤ → Option F
find_channel [] index = none
find_channel (c ∷ cs) index =
    if eq_int c.index index then some c.frequency_mhz else find_channel cs index

module _ {F A W : Type 0} (adapter : RadioAdapter F A W) where
  -- The given manager, or else the orchestrator's.
  abbrev manager_to_use : Option (Manager F A) → Orchestrator F A W → Option (Manager F A)
  manager_to_use (some m) s = some m
  manager_to_use none s = s.radio_manager

  get_radio_model_and_band :
      Orchestrator F A W → String → Option (Manager F A) → Result (String × String)
  get_radio_model_and_band s radio_id given = elim (manager_to_use given s) [
    | none ↦ err (message (codes "no radio manager available"))
    | some m ↦ elim (get_radio adapter m s.world radio_id).1 [
      | err e ↦ err (wrapped (codes "radio " ++ (codes radio_id ++ codes " not found: ")) e)
      | ok r ↦ ok (r.model, "default")
    ]
  ]

  unfoldable pub channel_of : String → ℤ → List (Channel F) → Result F
  unfolding find_channel
  channel_of radio_id index [] =
      err (message (codes "radio " ++ (codes radio_id ++ codes " has no channels")))
  channel_of radio_id index (c ∷ cs) = elim (find_channel (c ∷ cs) index) [
    | some f ↦ ok f
    | none ↦ err (
        vendor_error invalid_range
          (message (
            codes "channel index "
            ++ (int_text index ++ (codes " not found for radio " ++ codes radio_id))))
          (channel_lookup radio_id index (length (c ∷ cs))))
  ]

  unfoldable pub resolve_channel_index_from_radio_manager :
      Orchestrator F A W → String → ℤ → Option (Manager F A) → Result F
  unfolding channel_of
  resolve_channel_index_from_radio_manager s radio_id index given = elim (manager_to_use given s) [
    | none ↦ err (message (codes "no radio manager available for channel index resolution"))
    | some m ↦ elim (get_radio adapter m s.world radio_id).1 [
      | err e ↦ err (wrapped (codes "radio " ++ (codes radio_id ++ codes " not found: ")) e)
      | ok r ↦ elim r.capabilities [
        | none ↦ err (message (codes "radio " ++ (codes radio_id ++ codes " has no capabilities")))
        | some capabilities ↦ channel_of radio_id index capabilities.channels
      ]
    ]
  ]

  -- The band plan's frequency, where there is a band plan and it has the channel.
  unfoldable pub planned_frequency :
      Orchestrator F A W → String → ℤ → Option (Manager F A) → Option F
  unfolding get_radio_model_and_band
  planned_frequency s radio_id index given = elim s.silvus_band_plan [
    | none ↦ none
    | some plan ↦ elim (get_radio_model_and_band s radio_id given) [
      | err e ↦ none
      | ok found ↦ elim (get_silvus_channel_frequency (some plan) found.0 found.1 index) [
        | err e ↦ none
        | ok f ↦ some f
      ]
    ]
  ]

  unfoldable pub resolve_channel_index :
      Orchestrator F A W → String → ℤ → Option (Manager F A) → Result F
  unfolding planned_frequency resolve_channel_index_from_radio_manager
  resolve_channel_index s radio_id index given = elim (planned_frequency s radio_id index given) [
    | some f ↦ ok f
    | none ↦ resolve_channel_index_from_radio_manager s radio_id index given
  ]
