-- ===== src/Radio/History.antt =====
-- Histories of calls of the manager.
use radio_container.Prelude.{
  ℕ, ◌≡◌, refl, true, List, [], ◌∷◌, Option, some, String, arith, eq_iff, Option-cases, inl, inr,
}
use radio_container.Prelude.Dict.{get, has, put, has-put}
use radio_container.Prelude.Float.{Float}
use radio_container.Adapter.{RadioState, Channel, FrequencyProfile, Result, RadioAdapter, ok, err}
use radio_container.Adapter.Errors.{Err}
use radio_container.Radio.Discovery.{
  new_radio, load_capabilities, get_radio, fill_capabilities, set_channels, no_error, refreshed,
  loaded, refresh_capabilities,
}
use radio_container.Radio.{
  Radio, Manager, Outcome, returns, panics, new_manager, set_active, update_state, update_status,
  remove_radio,
}
use radio_container.Radio.Invariant.{
  Inv, new_manager-Inv, put-Inv, get-has, set_active-Inv, update_radio-Inv, remove_radio-Inv,
  get-has,
}

-- A call of the manager, with the time that it reads.
pub data Call (F A : Type 0) : Type 0 where
  loads : ℕ → String → A → Call F A
  selects : String → Call F A
  gets : String → Call F A
  updates_state : ℕ → String → Option (RadioState F) → Call F A
  updates_status : ℕ → String → String → Call F A
  refreshes : ℕ → String → Call F A
  removes : String → Call F A

module _ {F A W : Type 0} (adapter : RadioAdapter F A W) where
  -- The call returned, and the manager that it left satisfies the invariant.
  abbrev pub Keeps : Outcome (Manager F A) → Type 0
  Keeps (returns m) = Inv m
  Keeps panics = ⊥

  abbrev pub manager_of : Outcome (Manager F A × Option Err) → Outcome (Manager F A)
  manager_of (returns r) = returns r.0
  manager_of panics = panics

  get_radio-Inv : (m : Manager F A) (w : W) (k : String) → Inv m → Inv (get_radio adapter m w k).0
  unfolding get_radio
  get_radio-Inv m w k v = elim (Option-cases (get m.radios k)) [
    | inl e ↦ rw (e, get_radio) v
    | inr (r, e) ↦ elim (Option-cases r.capabilities) [
      | inl absent ↦ absurd (v.capable k r e absent)
      | inr (c, present) ↦ rw (e, get_radio) (rw (present, fill_capabilities) v)
    ]
  ]

  set_channels-Keeps :
      (m : Manager F A) (now : ℕ) (k : String) (channels : List (Channel F)) (r : Radio F)
      → get m.radios k ≡ some r
      → Inv m
      → Keeps (set_channels adapter m now k channels r)
  unfolding set_channels
  set_channels-Keeps m now k channels r e v = elim (Option-cases r.capabilities) [
    | inl absent ↦ absurd (v.capable k r e absent)
    | inr (c, present) ↦
        rw (present, set_channels)
          (put-Inv m k _ (v.keyed k r e) (λ h. cc) (v.adapter_known k (get-has m k r e)) v)
  ]

  Keeps-no_error :
      (out : Outcome (Manager F A)) → Keeps out → Keeps (manager_of (no_error adapter out))
  Keeps-no_error (returns m) v = v
  Keeps-no_error panics v = v

  refreshed-Keeps :
      (m : Manager F A) (now : ℕ) (k : String) (a : A) (r : Radio F)
      (profiles : Result (List (FrequencyProfile F))) (w : W)
      → get m.radios k ≡ some r
      → Inv m
      → Keeps (manager_of (refreshed adapter m now k a r profiles w))
  unfolding refreshed
  refreshed-Keeps m now k a r (err x) w e v = v
  refreshed-Keeps m now k a r (ok capabilities) w e v =
      Keeps-no_error _ (set_channels-Keeps m now k _ r e v)

  refresh-Keeps :
      (m : Manager F A) (w : W) (now : ℕ) (k : String)
      → Inv m
      → Keeps (manager_of (refresh_capabilities adapter m w now k).0)
  unfolding refresh_capabilities
  refresh-Keeps m w now k v = elim (Option-cases (get m.adapters k)) [
    | inl e ↦ rw (e, refresh_capabilities) v
    | inr (a, e) ↦ elim (Option-cases (get m.radios k)) [
      | inl n ↦ rw (e, n, refresh_capabilities) v
      | inr (r, f) ↦ rw (e, f, refresh_capabilities) (refreshed-Keeps m now k a r _ _ f v)
    ]
  ]

  module _ ⦃o : Float F⦄ where
    stored-Inv :
        (m : Manager F A) (k : String) (a : A)
        → Inv m
        → Inv (record m { adapters = put m.adapters k a })
    stored-Inv m k a v = record {
      active_known = v.active_known;
      adapter_known = λ j h. ground (arith, has-put m.adapters k j a, v.adapter_known j);
      keyed = v.keyed;
      capable = v.capable;
    }

    loaded-Inv :
        (m : Manager F A) (now : ℕ) (k : String) (a : A)
        (profiles : Result (List (FrequencyProfile F))) (w : W)
        → has m.adapters k ≡ true
        → Inv m
        → Inv (loaded adapter m now k a profiles w).0.0
    unfolding loaded
    loaded-Inv m now k a (err e) w h v = v
    loaded-Inv m now k a (ok capabilities) w h v =
        let (state, w₂) = adapter.get_state a w in
        let radio = new_radio adapter now k a capabilities state w₂ in
        let put_v : Inv (record m { radios = put m.radios k radio }) =
          put-Inv m k radio refl (λ e. cc) h v in
        record {
          active_known = λ e. ground (
            arith,
            has-put m.radios k k radio,
            eq_iff k k,
            has-put m.radios k m.active_radio_id radio,
            eq_iff m.active_radio_id "",
            v.active_known,
          );
          adapter_known = put_v.adapter_known;
          keyed = put_v.keyed;
          capable = put_v.capable;
        }

    load-Inv :
        (m : Manager F A) (w : W) (now : ℕ) (k : String) (a : A)
        → Inv m
        → Inv (load_capabilities adapter m w now k a).0.0
    unfolding load_capabilities
    load-Inv m w now k a v =
        loaded-Inv _ now k a _ _ (ground (arith, has-put m.adapters k k a, eq_iff k k))
          (stored-Inv m k a v)

    pub step : Manager F A → W → Call F A → Outcome (Manager F A) × W
    step m w (loads now k a) = let r = load_capabilities adapter m w now k a in (returns r.0.0, r.1)
    step m w (selects k) = (returns (set_active m k).0, w)
    step m w (gets k) = (returns (get_radio adapter m w k).0, w)
    step m w (updates_state now k state) = (returns (update_state m now k state).0, w)
    step m w (updates_status now k status) = (returns (update_status m now k status).0, w)
    step m w (refreshes now k) =
        let r = refresh_capabilities adapter m w now k in (manager_of r.0, r.1)
    step m w (removes k) = (returns (remove_radio m k).0, w)

    -- A panic ends the run.
    pub run : Manager F A → W → List (Call F A) → Outcome (Manager F A) × W
    run m w [] = (returns m, w)
    run m w (c ∷ cs) =
        let (out, w') = step m w c in
        elim out as (λ _. Outcome (Manager F A) × W) [
          | panics ↦ (panics, w')
          | returns m' ↦ run m' w' cs
        ]

    step-Keeps : (m : Manager F A) (w : W) (c : Call F A) → Inv m → Keeps (step m w c).0
    unfolding step update_state update_status
    step-Keeps m w (loads now k a) v = load-Inv m w now k a v
    step-Keeps m w (selects k) v = set_active-Inv m k v
    step-Keeps m w (gets k) v = get_radio-Inv m w k v
    step-Keeps m w (updates_state now k state) v = update_radio-Inv m k _ (λ r. (refl, refl)) v
    step-Keeps m w (updates_status now k status) v = update_radio-Inv m k _ (λ r. (refl, refl)) v
    step-Keeps m w (refreshes now k) v = refresh-Keeps m w now k v
    step-Keeps m w (removes k) v = remove_radio-Inv m k v

    run-Keeps : (m : Manager F A) (w : W) (cs : List (Call F A)) → Inv m → Keeps (run m w cs).0
    unfolding run
    run-Keeps m w [] v = v
    run-Keeps m w (c ∷ cs) v =
        (elim (step m w c).0
            as (λ out.
              Keeps out
              → Keeps
                  (elim out as (λ _. Outcome (Manager F A) × W) [
                    | panics ↦ (panics, (step m w c).1)
                    | returns m' ↦ run m' (step m w c).1 cs
                  ]).0) [
                    | returns m' ↦ λ v'. run-Keeps m' (step m w c).1 cs v'
                    | panics ↦ λ v'. v'
                  ])
          (step-Keeps m w c v)

    -- Whatever calls are made of a new manager, whatever the adapters answer: no call panics, the
    -- active radio is in the inventory, and every radio stands under its own id, has an adapter and
    -- has its capabilities.
    pub run-new_manager-Keeps : (w : W) (cs : List (Call F A)) → Keeps (run new_manager w cs).0
    run-new_manager-Keeps w cs = run-Keeps new_manager w cs new_manager-Inv
