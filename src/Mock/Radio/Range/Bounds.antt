-- ===== src/Mock/Radio/Range/Bounds.antt =====
-- The loop over a range of frequencies against the bounds of the range. What is used of floats are
-- laws of IEEE 754 that hold for infinities and NaN too.
use radio_container.Prelude.{
  ◌≡◌, Bool, true, false, ◌&&◌, not, List, any, none, some, arith, split, contains, codes,
  if◌then◌else◌,
}
use radio_container.Prelude.Float.{Float, fle, feq, lit}
use radio_container.Mock.Config.{Text, FrequencyProfile}
use radio_container.Mock.Radio.Range.{Numbers, stepped, between, is_single}

-- The order of floats: it is transitive and symmetric where it says that two are equal, a float
-- that is compared is equal to itself, and a sum with a step that is not up to 0 is not smaller, if
-- it can be compared.
pub record Laws {F : Type 0} ⦃o : Float F⦄ (numbers : Numbers F) : Type 0 where
  pub trans : (a b c : F) → fle a b ≡ true → fle b c ≡ true → fle a c ≡ true
  pub symmetric : (a b : F) → feq a b ≡ true → fle b a ≡ true
  pub reflexive : (a b : F) → fle a b ≡ true → fle a a ≡ true
  pub grows :
      (a s e : F)
      → fle s (lit 0) ≡ false
      → fle (numbers.add a s) e ≡ true
      → fle a (numbers.add a s) ≡ true

pub fle-feq : {F : Type 0} ⦃o : Float F⦄ (a b : F) → feq a b ≡ true → fle a b ≡ true
fle-feq a b h = ground (arith, h)

module _ {F : Type 0} ⦃o : Float F⦄ (numbers : Numbers F) where
  -- A range without the loop.
  unfoldable pub covers : F → Text → Bool
  unfolding split between is_single stepped
  covers freq text =
      if contains text (codes ":")
      then elim (stepped numbers (split b':' text)) [
        | none ↦ false
        | some r ↦ not (fle r.step (lit 0)) && between numbers freq r
      ]
      else is_single numbers freq (numbers.parse_float text)

  -- Some range of some profile covers the frequency that a text denotes.
  unfoldable pub is_covered : List FrequencyProfile → Text → Bool
  unfolding covers
  is_covered profiles text = elim (numbers.parse_float text) [
    | none ↦ false
    | some freq ↦ any (λ (p : FrequencyProfile). any (covers freq) p.frequencies) profiles
  ]
