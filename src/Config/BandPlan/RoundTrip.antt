-- ===== src/Config/BandPlan/RoundTrip.antt =====
-- The two lookups of the band plan against each other.
use radio_container.Prelude.{
  subst, sym, ◌∙◌, ◌≡◌, ◌≢◌, refl, inl, inr, true, false, List, [], ◌∷◌, Option, String, All, arith,
  Bool-cases,
}
use radio_container.Prelude.Int.{ℤ, eq_int, eq_int_iff}
use radio_container.Prelude.Float.{Float, feq}
use radio_container.Adapter.{ok, err}
use radio_container.Config.BandPlan.{
  SilvusChannel, SilvusBandPlan, band_channels, frequency_of, index_of,
  get_silvus_channel_frequency, get_silvus_channel_index,
}

module _ {F : Type 0} where
  -- No two channels have the same index.
  abbrev pub Distinct : List (SilvusChannel F) → Type 0
  Distinct [] = Unit {0}
  Distinct (c ∷ cs) = All (λ d. c.channel_index ≢ d.channel_index) cs × Distinct cs

  module _ ⦃o : Float F⦄ (model band : String) where
    -- The channel that `index_of` found is in the list.
    Found : List (SilvusChannel F) → ℤ → F → Type 0
    Found cs i f =
        (g : F) × (frequency_of cs model band i ≡ ok g)
        × (feq g f ≡ true)
        × ((k : ℤ) → All (λ d. k ≢ d.channel_index) cs → k ≢ i)

    index_of-Found :
        (cs : List (SilvusChannel F)) (f : F) (i : ℤ)
        → Distinct cs
        → index_of cs model band f ≡ ok i
        → Found cs i f
    unfolding index_of frequency_of Found
    index_of-Found [] f i d h = absurd (cc)
    index_of-Found (c ∷ cs) f i d h = elim (Bool-cases (feq c.frequency_mhz f)) [
      | inl here ↦
          let e : c.channel_index ≡ i = ground arith in
          let same : eq_int c.channel_index i ≡ true =
            ground (arith, eq_int_iff c.channel_index i) in
          (c.frequency_mhz, rw (same, frequency_of) refl, here, λ k n z. n.0 (z ∙ sym e))
      | inr there ↦
          let (g, found, near, apart) = index_of-Found cs f i d.1 (ground arith) in
          let n : c.channel_index ≢ i = apart c.channel_index d.0 in
          let other : eq_int c.channel_index i ≡ false =
            ground (arith, eq_int_iff c.channel_index i) in
          (g, rw (other, frequency_of) found, near, λ k m z. apart k m.1 z)
    ]

  -- If no two channels of a model's band have the same index, the index that
  -- `GetSilvusChannelIndex` gives for a frequency leads `GetSilvusChannelFrequency` back to a
  -- frequency that is equal to it.
  pub get_silvus_channel_frequency-get_silvus_channel_index :
      ⦃o : Float F⦄ (plan : Option (SilvusBandPlan F)) (model band : String)
      (channels : List (SilvusChannel F)) (f : F) (i : ℤ)
      → band_channels plan model band ≡ ok channels
      → Distinct channels
      → get_silvus_channel_index plan model band f ≡ ok i
      → (g : F) × (get_silvus_channel_frequency plan model band i ≡ ok g) × (feq g f ≡ true)
  unfolding get_silvus_channel_frequency get_silvus_channel_index Found
  get_silvus_channel_frequency-get_silvus_channel_index plan model band channels f i e d h =
      let h' : index_of channels model band f ≡ ok i =
        subst (λ x. (elim x [ err e ↦ err e | ok cs ↦ index_of cs model band f ]) ≡ ok i) e h in
      let (g, found, near, apart) = index_of-Found model band channels f i d h' in
      (g, rw (e, get_silvus_channel_frequency) found, near)
