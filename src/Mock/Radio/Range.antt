-- ===== src/Mock/Radio/Range.antt =====
-- silvus-mock/internal/state/radio.go: which frequencies the profiles allow. A range is a text: one
-- frequency, or `start:step:end`.
pub mod Termination
pub mod Bounds
use radio_container.Prelude.{
  ℕ, zero, suc, Bool, true, false, ◌&&◌, List, [], ◌∷◌, Option, none, some, codes, contains, split,
  if◌then◌else◌,
}
use radio_container.Prelude.Float.{Float, fle, feq, lit}
use radio_container.Prelude.Int.{ℤ}
use radio_container.Mock.Config.{Text, FrequencyProfile}

-- What the radio uses of Go's numbers: `strconv.ParseFloat`, the sum of two floats, `strconv.Atoi`.
pub record Numbers (F : Type 0) : Type 0 where
  pub parse_float : Text → Option F
  pub add : F → F → F
  pub atoi : Text → Option ℤ

-- The three numbers of a range.
pub record Stepped (F : Type 0) : Type 0 where
  pub start : F
  pub step : F
  pub stop : F

-- A loop that returns true at the first entry that passes.
unfoldable pub first_true : {A : Type 0} → (A → Option Bool) → List A → Option Bool
first_true p [] = some false
first_true p (x ∷ xs) = elim (p x) [
  | none ↦ none
  | some true ↦ some true
  | some false ↦ first_true p xs
]

unfoldable pub triple : {F : Type 0} → Option F → Option F → Option F → Option (Stepped F)
triple (some a) (some b) (some c) = some (record { start = a; step = b; stop = c })
triple _ _ _ = none

module _ {F : Type 0} ⦃o : Float F⦄ (numbers : Numbers F) where
  -- `len(parts) != 3`, and the errors of the three conversions.
  unfoldable pub stepped : List Text → Option (Stepped F)
  unfolding triple
  stepped (a ∷ b ∷ c ∷ []) =
      triple (numbers.parse_float a) (numbers.parse_float b) (numbers.parse_float c)
  stepped _ = none

  -- `for f := start; f <= end; f += step { if freq == f { return true } }`: whether it returned.
  unfoldable pub scan : ℕ → F → Stepped F → F → Option Bool
  scan zero freq r f = none
  scan (suc rounds) freq r f = elim (fle f r.stop) [
    | true ↦ elim (feq freq f) [
      | true ↦ some true
      | false ↦ scan rounds freq r (numbers.add f r.step)
    ]
    | false ↦ some false
  ]

  -- The bounds that are tested after the loop.
  unfoldable pub between : F → Stepped F → Bool
  between freq r = fle r.start freq && fle freq r.stop

  unfoldable pub in_steps : ℕ → F → Stepped F → Option Bool
  unfolding scan between
  in_steps rounds freq r =
      if fle r.step (lit 0) then some false else elim (scan rounds freq r r.start) [
        | none ↦ none
        | some true ↦ some true
        | some false ↦ some (between freq r)
      ]

  -- A range without a colon.
  unfoldable pub is_single : F → Option F → Bool
  is_single freq none = false
  is_single freq (some f) = feq freq f

  unfoldable pub frequency_in_range : ℕ → F → Text → Option Bool
  unfolding stepped in_steps is_single split
  frequency_in_range rounds freq text =
      if contains text (codes ":")
      then elim (stepped (split b':' text)) [ none ↦ some false | some r ↦ in_steps rounds freq r ]
      else some (is_single freq (numbers.parse_float text))

  unfoldable pub frequency_matches_profile : ℕ → F → FrequencyProfile → Option Bool
  unfolding first_true frequency_in_range
  frequency_matches_profile rounds freq profile =
      first_true (frequency_in_range rounds freq) profile.frequencies

  unfoldable pub is_valid_frequency : ℕ → List FrequencyProfile → Text → Option Bool
  unfolding first_true frequency_matches_profile
  is_valid_frequency rounds profiles text = elim (numbers.parse_float text) [
    | none ↦ some false
    | some freq ↦ first_true (frequency_matches_profile rounds freq) profiles
  ]
