-- ===== src/Radio/Invariant.antt =====
-- What holds of the manager between two calls, for every history of calls.
use radio_container.Prelude.{
  ◌≡◌, ◌≢◌, refl, true, none, some, String, arith, eq_iff, Option-cases, Bool-cases, inl, inr,
}
use radio_container.Prelude.Dict.{get, has, put, get-put, get-remove, has-put, has-remove, has-get}
use radio_container.Radio.{Radio, Manager, new_manager, set_active, update_radio, remove_radio}

-- The active radio is in the inventory; each radio stands under its own id, has an adapter and has
-- its capabilities.
pub record Inv {F A : Type 0} (m : Manager F A) : Type 0 where
  pub active_known : m.active_radio_id ≢ "" → has m.radios m.active_radio_id ≡ true
  pub adapter_known : (k : String) → has m.radios k ≡ true → has m.adapters k ≡ true
  pub keyed : (k : String) (r : Radio F) → get m.radios k ≡ some r → r.id ≡ k
  pub capable : (k : String) (r : Radio F) → get m.radios k ≡ some r → r.capabilities ≢ none

module _ {F A : Type 0} where
  pub new_manager-Inv : Inv (new_manager {F = F} {A = A})
  unfolding new_manager has get
  new_manager-Inv = record {
    active_known = λ h. absurd (h refl);
    adapter_known = λ k h. cc;
    keyed = λ k r h. cc;
    capable = λ k r h. cc;
  }

  -- A radio written under its own id, with capabilities and an adapter, keeps the invariant.
  pub put-Inv :
      (m : Manager F A) (k : String) (r : Radio F)
      → r.id ≡ k
      → r.capabilities ≢ none
      → has m.adapters k ≡ true
      → Inv m
      → Inv (record m { radios = put m.radios k r })
  put-Inv m k r keyed capable adapter v = record {
    active_known = λ h. ground (arith, has-put m.radios k m.active_radio_id r, v.active_known h);
    adapter_known = λ j h. ground (arith, has-put m.radios k j r, eq_iff k j, v.adapter_known j);
    keyed = λ j s h. ground (arith, get-put m.radios k j r, eq_iff k j, v.keyed j s);
    capable = λ j s h. ground (arith, get-put m.radios k j r, eq_iff k j, v.capable j s);
  }

  pub get-has :
      (m : Manager F A) (k : String) (r : Radio F) → get m.radios k ≡ some r → has m.radios k ≡ true
  get-has m k r h = rw (has-get m.radios k, h)

  pub set_active-Inv : (m : Manager F A) (k : String) → Inv m → Inv (set_active m k).0
  unfolding set_active
  set_active-Inv m k v = elim (Bool-cases (has m.radios k)) [
    | inl known ↦ rw known (record {
      active_known = λ h. known;
      adapter_known = v.adapter_known;
      keyed = v.keyed;
      capable = v.capable;
    })
    | inr unknown ↦ rw unknown v
  ]

  pub update_radio-Inv :
      (m : Manager F A) (k : String) (f : Radio F → Radio F)
      → ((r : Radio F) → ((f r).id ≡ r.id) × ((f r).capabilities ≡ r.capabilities))
      → Inv m
      → Inv (update_radio m k f).0
  unfolding update_radio
  update_radio-Inv m k f same v = elim (Option-cases (get m.radios k)) [
    | inl e ↦ rw (e, update_radio) v
    | inr (r, e) ↦
        rw (e, update_radio)
          (put-Inv m k (f r) (ground (arith, same r, v.keyed k r e))
            (ground (arith, same r, v.capable k r e)) (v.adapter_known k (get-has m k r e)) v)
  ]

  pub remove_radio-Inv : (m : Manager F A) (k : String) → Inv m → Inv (remove_radio m k).0
  unfolding remove_radio
  remove_radio-Inv m k v = elim (Bool-cases (has m.radios k)) [
    | inl known ↦ rw known (record {
      active_known = λ h. ground (
        arith,
        has-remove m.radios k m.active_radio_id,
        eq_iff k m.active_radio_id,
        eq_iff m.active_radio_id k,
        v.active_known,
      );
      adapter_known = λ j h.
          ground (arith, has-remove m.radios k j, has-remove m.adapters k j, v.adapter_known j);
      keyed = λ j r h. ground (arith, get-remove m.radios k j, v.keyed j r);
      capable = λ j r h. ground (arith, get-remove m.radios k j, v.capable j r);
    })
    | inr unknown ↦ rw unknown v
  ]
