-- ===== src/Radio/Lookup.antt =====
-- What `GetRadio` finds.
use radio_container.Prelude.{
  none, refl, eq_iff, true, arith, ◌≡◌, refl, some, String, Option-cases, inl, inr,
}
use radio_container.Prelude.Dict.{get, has, has-get, has-put}
use radio_container.Adapter.{RadioCapabilities, RadioAdapter, ok}
use radio_container.Radio.Discovery.{get_radio, fill_capabilities}
use radio_container.Radio.{Radio, Manager}

module _ {F A W : Type 0} (adapter : RadioAdapter F A W) (m : Manager F A) (w : W)
    (k : String) where
  pub get_radio-ok :
      (r : Radio F)
      → get m.radios k ≡ some r
      → (r' : Radio F) × ((get_radio adapter m w k).1 ≡ ok r')
  unfolding get_radio
  get_radio-ok r e = elim (Option-cases (fill_capabilities adapter m w k r)) [
    | inl f ↦ (r, rw (e, f, get_radio) refl)
    | inr (r', f) ↦ (r', rw (e, f, get_radio) refl)
  ]

  -- The radio stays known.
  pub get_radio-has :
      (r : Radio F) → get m.radios k ≡ some r → has (get_radio adapter m w k).0.radios k ≡ true
  unfolding get_radio
  get_radio-has r e = elim (Option-cases (fill_capabilities adapter m w k r)) [
    | inl f ↦ rw (e, f, get_radio) (rw (has-get m.radios k, e) refl)
    | inr (r', f) ↦ rw (e, f, get_radio) (ground (arith, has-put m.radios k k r', eq_iff k k))
  ]

  -- A radio that has its capabilities is returned as it is.
  pub get_radio-capable :
      (r : Radio F) (c : RadioCapabilities F)
      → get m.radios k ≡ some r
      → r.capabilities ≡ some c
      → get_radio adapter m w k ≡ (m, ok r)
  unfolding get_radio
  get_radio-capable r c e h =
      let same : fill_capabilities adapter m w k r ≡ none = unfold fill_capabilities in rw h refl in
      rw (e, same, get_radio) refl
