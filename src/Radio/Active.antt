-- ===== src/Radio/Active.antt =====
-- The active radio and its adapter, where the manager's invariant holds.
use radio_container.Prelude.{
  ◌≡◌, ◌≢◌, refl, true, false, List, none, some, String, str_eq, arith, eq_iff, Option-cases, inl,
  inr,
}
use radio_container.Prelude.Dict.{get, has, has-get}
use radio_container.Adapter.{ok}
use radio_container.Radio.{
  Radio, Manager, set_active, get_active, get_active_radio, get_active_adapter,
}
use radio_container.Radio.Invariant.{Inv}

has-some :
    {V : Type 0} (m : List (String × V)) (k : String)
    → has m k ≡ true
    → (v : V) × (get m k ≡ some v)
has-some m k h = elim (Option-cases (get m k)) [
  | inl absent ↦ absurd (ground (arith, has-get m k))
  | inr (v, present) ↦ (v, present)
]

module _ {F A : Type 0} where
  pub Active : Manager F A → Type 0
  Active m =
      (r : Radio F) × (a : A) × (get_active_radio m ≡ some r)
      × (r.id ≡ get_active m)
      × (get_active_adapter m ≡ ok (a, get_active m))

  Inv-Active : (m : Manager F A) → m.active_radio_id ≢ "" → Inv m → Active m
  unfolding Active get_active get_active_radio get_active_adapter
  Inv-Active m named v =
      let known = v.active_known named in
      let (r, found) = has-some m.radios m.active_radio_id known in
      let (a, held) =
        has-some m.adapters m.active_radio_id (v.adapter_known m.active_radio_id known) in
      let set : str_eq m.active_radio_id "" ≡ false = ground (arith, eq_iff m.active_radio_id "") in
      (
        r,
        a,
        rw (set, get_active_radio) found,
        v.keyed m.active_radio_id r found,
        rw (set, held, get_active_adapter) refl,
      )

  -- Where the manager's invariant holds, `SetActive` of a radio in the inventory, with an id that is not
  -- empty, succeeds. Then the active radio is that one, `GetActiveRadio` finds it under its id, and `GetActiveAdapter` returns
  -- an adapter for it.
  pub set_active-Active :
      (m : Manager F A) (k : String)
      → k ≢ ""
      → has m.radios k ≡ true
      → Inv m
      → ((set_active m k).1 ≡ none)
        × (get_active (set_active m k).0 ≡ k)
        × Active (set_active m k).0
  unfolding set_active get_active
  set_active-Active m k named known v =
      let v' : Inv (record m { active_radio_id = k }) = record {
        active_known = λ h. known;
        adapter_known = v.adapter_known;
        keyed = v.keyed;
        capable = v.capable;
      } in
      rw (known, set_active) (refl, refl, Inv-Active (record m { active_radio_id = k }) named v')
