-- ===== src/Command/Orchestrator/Reports.antt =====
-- Every command reports what it did: the effects of each command, from those of its parts.
use radio_container.Prelude.{
  ℕ, ◌≡◌, refl, inl, inr, Option, some, String, str_eq, Option-cases, Bool-cases,
}
use radio_container.Prelude.Int.{ℤ, pos, lt_int}
use radio_container.Prelude.Float.{Float}
use radio_container.Adapter.{ok, RadioAdapter, Result-cases}
use radio_container.Command.Resolve.{resolve_channel_index}
use radio_container.Radio.{Manager, set_active}
use radio_container.Telemetry.Hub.{Case}
use radio_container.Command.State.{Orchestrator}
use radio_container.Command.Orchestrator.{
  validate_power_range, validate_frequency_range, tune, ping, select_known, read_state, state_known,
  send_power, power_known, channel_known, resolve_and_set, index_known, select_radio, get_state,
  set_power, set_channel, set_resolved, set_channel_by_index,
}
use radio_container.Command.Orchestrator.Effects.{
  Command, selects, gets_state, sets_power, sets_channel, sets_channel_by_index, action_of,
  radio_of, perform, Same, Reported, Effect, Request, News, Plan, after_lookup,
}
use radio_container.Command.Orchestrator.Parts.{
  refuse-Effect, check_range-Effect, ensure_adapter-Effect, ensure_radio-Effect, ping-Effect,
  tune-Effect, read_state-Effect, send_power-Effect,
}

module _ {F A W : Type 0} (prefer : String → Case) (now : ℕ) (adapter : RadioAdapter F A W)
    (s : Orchestrator F A W) (radio_id : String) where
  abbrev Planned : Command F A → Request F → News F → Type 0
  Planned c = Plan adapter now s c

  abbrev found : Manager F A → Orchestrator F A W
  found m = after_lookup adapter s m radio_id

  found-Same : (m : Manager F A) → Same s (found m)
  found-Same m = (refl, refl, refl, refl)

  select_known-Effect :
      (m m' : Manager F A)
      → Effect prefer now s "selectRadio" radio_id adapter
          (Planned (selects radio_id))
          (select_known adapter prefer now radio_id (found m) m')
  unfolding select_known
  select_known-Effect m m' =
      let s₂ = record (found m) { radio_manager = some (set_active m' radio_id).0 } in
      elim (Option-cases (set_active m' radio_id).1) [
        | inl e ↦
            rw (e, select_known)
              (ensure_adapter-Effect prefer now s "selectRadio" radio_id adapter
                (Planned (selects radio_id)) s₂ (ping adapter prefer now radio_id s₂)
                (refl, refl, refl, refl)
                (λ a active.
                  ping-Effect prefer now adapter s radio_id (Planned (selects radio_id)) s₂ a
                    (refl, refl, refl, refl) active (refl, refl)))
        | inr (x, e) ↦
            rw (e, select_known)
              (refuse-Effect prefer now s "selectRadio" radio_id adapter
                (Planned (selects radio_id)) (Unit {0}) s₂ _ _ refl (refl, refl, refl, refl))
      ]

  select_radio-Effect :
      Effect prefer now s "selectRadio" radio_id adapter
        (Planned (selects radio_id))
        (select_radio adapter prefer now s radio_id)
  unfolding select_radio
  select_radio-Effect = elim (Bool-cases (str_eq radio_id "")) [
    | inl e ↦ rw e (
        refuse-Effect prefer now s "selectRadio" radio_id adapter (Planned (selects radio_id))
          (Unit {0}) s _ _ refl (refl, refl, refl, refl))
    | inr e ↦ rw e (
        ensure_radio-Effect prefer now s "selectRadio" radio_id adapter (Planned (selects radio_id))
          (select_known adapter prefer now radio_id) (λ m m' known. select_known-Effect m m'))
  ]

  get_state-Effect :
      Effect prefer now s "getState" radio_id adapter
        (Planned (gets_state radio_id))
        (get_state adapter prefer now s radio_id)
  unfolding get_state state_known
  get_state-Effect =
      ensure_radio-Effect prefer now s "getState" radio_id adapter (Planned (gets_state radio_id))
        (state_known adapter prefer now radio_id)
        (λ m m' known.
          ensure_adapter-Effect prefer now s "getState" radio_id adapter
            (Planned (gets_state radio_id)) (found m)
            (read_state adapter prefer now radio_id (found m)) (found-Same m)
            (λ a active.
              read_state-Effect prefer now adapter s radio_id (Planned (gets_state radio_id))
                (found m) a (found-Same m) active (refl, refl)))

  module _ ⦃o : Float F⦄ where
    set_power-Effect :
        (dbm : F)
        → Effect prefer now s "setPower" radio_id adapter
            (Planned (sets_power radio_id dbm))
            (set_power adapter prefer now s radio_id dbm)
    unfolding set_power power_known
    set_power-Effect dbm =
        let plan = Planned (sets_power radio_id dbm) in
        ensure_radio-Effect prefer now s "setPower" radio_id adapter plan
          (power_known adapter prefer now radio_id dbm)
          (λ m m' known.
            check_range-Effect prefer now s "setPower" radio_id adapter plan (found m)
              (validate_power_range dbm) _ (found-Same m)
              (ensure_adapter-Effect prefer now s "setPower" radio_id adapter plan (found m)
                (send_power adapter prefer now radio_id dbm (found m)) (found-Same m)
                (λ a active.
                  send_power-Effect prefer now adapter s radio_id plan (found m) a (found-Same m)
                    active dbm (refl, refl))))

    set_channel-Effect :
        (f : F)
        → Effect prefer now s "setChannel" radio_id adapter
            (Planned (sets_channel radio_id f))
            (set_channel adapter prefer now s radio_id f)
    unfolding set_channel channel_known
    set_channel-Effect f =
        let plan = Planned (sets_channel radio_id f) in
        ensure_radio-Effect prefer now s "setChannel" radio_id adapter plan
          (channel_known adapter prefer now radio_id f)
          (λ m m' known.
            check_range-Effect prefer now s "setChannel" radio_id adapter plan (found m)
              (validate_frequency_range f) _ (found-Same m)
              (ensure_adapter-Effect prefer now s "setChannel" radio_id adapter plan (found m)
                (tune adapter prefer now radio_id f (pos 0) (found m)) (found-Same m)
                (λ a active.
                  tune-Effect prefer now adapter s radio_id plan (found m) a (found-Same m) active f
                    (pos 0) (refl, refl))))

    module _ (i : ℤ) (given : Option (Manager F A)) where
      abbrev PlannedIndex : Request F → News F → Type 0
      PlannedIndex = Planned (sets_channel_by_index radio_id i given)

      set_resolved-Effect :
          (m : Manager F A) (a : A) (f : F)
          → s.radio_manager ≡ some m
          → s.active_adapter ≡ some a
          → resolve_channel_index adapter (found m) radio_id i given ≡ ok f
          → Effect prefer now s "setChannel" radio_id adapter PlannedIndex
              (set_resolved adapter prefer now radio_id i (found m) a (ok f))
      unfolding set_resolved
      set_resolved-Effect m a f known active resolved =
          check_range-Effect prefer now s "setChannel" radio_id adapter PlannedIndex (found m)
            (validate_frequency_range f) _ (found-Same m)
            (tune-Effect prefer now adapter s radio_id PlannedIndex (found m) a (found-Same m)
              active f i (m, f, known, resolved, refl, refl))

      resolve_and_set-Effect :
          (m : Manager F A) (a : A)
          → s.radio_manager ≡ some m
          → s.active_adapter ≡ some a
          → Effect prefer now s "setChannel" radio_id adapter PlannedIndex
              (resolve_and_set adapter prefer now radio_id i given (found m) a)
      unfolding resolve_and_set set_resolved
      resolve_and_set-Effect m a known active =
          elim (Result-cases (resolve_channel_index adapter (found m) radio_id i given)) [
            | inl (f, e) ↦ rw (e, resolve_and_set) (set_resolved-Effect m a f known active e)
            | inr (x, e) ↦
                rw (e, resolve_and_set)
                  (refuse-Effect prefer now s "setChannel" radio_id adapter PlannedIndex (Unit {0})
                    (found m) _ x refl (found-Same m))
          ]

      set_channel_by_index-Effect :
          Effect prefer now s "setChannel" radio_id adapter PlannedIndex
            (set_channel_by_index adapter prefer now s radio_id i given)
      unfolding set_channel_by_index index_known
      set_channel_by_index-Effect =
          ensure_radio-Effect prefer now s "setChannel" radio_id adapter PlannedIndex
            (index_known adapter prefer now radio_id i given)
            (λ m m' known. elim (Bool-cases (lt_int i (pos 1))) [
              | inl e ↦ rw e (
                  refuse-Effect prefer now s "setChannel" radio_id adapter PlannedIndex (Unit {0})
                    (found m) _ _ refl (found-Same m))
              | inr e ↦ rw e (
                  ensure_adapter-Effect prefer now s "setChannel" radio_id adapter PlannedIndex
                    (found m) (resolve_and_set adapter prefer now radio_id i given (found m))
                    (found-Same m) (λ a active. resolve_and_set-Effect m a known active))
            ])

-- Every command reports what it did. Either a guard refused it: it returns an error, writes one audit
-- record that is no SUCCESS, publishes nothing and touches no adapter. Or the active adapter was asked
-- once for what the command is to ask (its state, or to take the given power, the given frequency or
-- the frequency that the channel index resolves to), and its answer decides: if it failed, the command
-- returns that error in normalized form, writes one record ERROR and publishes one fault event with
-- the text of that error; else it returns no error, writes one record SUCCESS and publishes the event
-- of its success, none for reading a state. Each record names the command's action and radio, and the
-- adapters are left as the call left them.
pub perform-Reported :
    {F A W : Type 0} ⦃o : Float F⦄ (adapter : RadioAdapter F A W) (prefer : String → Case) (now : ℕ)
    (s : Orchestrator F A W) (c : Command F A)
    → Reported prefer now s
        (action_of c)
        (radio_of c)
        adapter
        (Plan adapter now s c)
        (perform adapter prefer now s c).0
        (perform adapter prefer now s c).1
unfolding perform
perform-Reported adapter prefer now s (selects r) = select_radio-Effect prefer now adapter s r
perform-Reported adapter prefer now s (gets_state r) = get_state-Effect prefer now adapter s r
perform-Reported adapter prefer now s (sets_power r dbm) =
    set_power-Effect prefer now adapter s r dbm
perform-Reported adapter prefer now s (sets_channel r f) =
    set_channel-Effect prefer now adapter s r f
perform-Reported adapter prefer now s (sets_channel_by_index r i m) =
    set_channel_by_index-Effect prefer now adapter s r i m
