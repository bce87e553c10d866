-- ===== src/Mock/Radio/Range/Termination.antt =====
-- When the loop over a range of frequencies ends: floats may stop to grow when a step is added, so
-- the number of rounds that is enough is stated by the float that passes the end.
use radio_container.Prelude.{
  ℕ, zero, suc, ◌<◌, ◌≡◌, ◌⊎◌, inl, inr, refl, Bool, true, false, List, [], ◌∷◌, All, Option, some,
  arith, split, contains, codes, Bool-cases, Option-cases,
}
use radio_container.Prelude.Float.{Float, fle, feq, lit}
use radio_container.Mock.Config.{Text, FrequencyProfile}
use radio_container.Mock.Radio.Range.{
  Numbers, Stepped, first_true, stepped, scan, between, in_steps, is_single, frequency_in_range,
  frequency_matches_profile, is_valid_frequency,
}

abbrev pub Returns : Option Bool → Type 0
Returns r = (b : Bool) × (r ≡ some b)

pub first_true-Returns :
    {A : Type 0} (p : A → Option Bool) (xs : List A)
    → All (λ x. Returns (p x)) xs
    → Returns (first_true p xs)
unfolding first_true
first_true-Returns p [] h = (false, refl)
first_true-Returns p (x ∷ xs) ((true, e), rest) = (true, rw (e, first_true) refl)
first_true-Returns p (x ∷ xs) ((false, e), rest) =
    let (b, e') = first_true-Returns p xs rest in (b, rw (e, first_true) e')

module _ {F : Type 0} ⦃o : Float F⦄ (numbers : Numbers F) where
  -- The loop's variable after some rounds.
  unfoldable pub after_rounds : ℕ → F → F → F
  after_rounds zero step f = f
  after_rounds (suc n) step f = after_rounds n step (numbers.add f step)

  pub scan-Returns :
      (rounds n : ℕ) (freq : F) (r : Stepped F) (f : F)
      → n < rounds
      → fle (after_rounds n r.step f) r.stop ≡ false
      → Returns (scan numbers rounds freq r f)
  unfolding scan after_rounds
  scan-Returns zero n freq r f h past = absurd (omega arith)
  scan-Returns (suc rounds) zero freq r f h past = (false, rw (past, scan) refl)
  scan-Returns (suc rounds) (suc n) freq r f h past = elim (Bool-cases (fle f r.stop)) [
    | inl more ↦ elim (Bool-cases (feq freq f)) [
      | inl hit ↦ (true, rw (more, hit, scan) refl)
      | inr miss ↦
          let (b, e) = scan-Returns rounds n freq r (numbers.add f r.step) (omega arith) past in
          (b, rw (more, miss, scan) e)
    ]
    | inr stops ↦ (false, rw (stops, scan) refl)
  ]

  -- A range that the loop gets through: the step is refused, or some float passes the end.
  unfoldable pub Passes : ℕ → Stepped F → Type 0
  Passes rounds r =
      (fle r.step (lit 0) ≡ true)
      ⊎ ((n : ℕ) × (n < rounds) × (fle (after_rounds n r.step r.start) r.stop ≡ false))

  scanned-Returns :
      (rounds : ℕ) (freq : F) (r : Stepped F)
      → fle r.step (lit 0) ≡ false
      → Returns (scan numbers rounds freq r r.start)
      → Returns (in_steps numbers rounds freq r)
  unfolding in_steps
  scanned-Returns rounds freq r grows (true, e) = (true, rw (grows, e, in_steps) refl)
  scanned-Returns rounds freq r grows (false, e) =
      (between numbers freq r, rw (grows, e, in_steps) refl)

  in_steps-Returns :
      (rounds : ℕ) (freq : F) (r : Stepped F)
      → Passes rounds r
      → Returns (in_steps numbers rounds freq r)
  unfolding in_steps Passes
  in_steps-Returns rounds freq r (inl e) = (false, rw (e, in_steps) refl)
  in_steps-Returns rounds freq r (inr (n, h, past)) = elim (Bool-cases (fle r.step (lit 0))) [
    | inl e ↦ (false, rw (e, in_steps) refl)
    | inr grows ↦ scanned-Returns rounds freq r grows (scan-Returns rounds n freq r r.start h past)
  ]

  unfoldable pub Ends : ℕ → Text → Type 0
  Ends rounds text = (r : Stepped F) → stepped numbers (split b':' text) ≡ some r → Passes rounds r

  unfoldable pub AllEnd : ℕ → List FrequencyProfile → Type 0
  AllEnd rounds profiles = All (λ (p : FrequencyProfile). All (Ends rounds) p.frequencies) profiles

  frequency_in_range-Returns :
      (rounds : ℕ) (freq : F) (text : Text)
      → Ends rounds text
      → Returns (frequency_in_range numbers rounds freq text)
  unfolding frequency_in_range Ends
  frequency_in_range-Returns rounds freq text h = elim (Bool-cases (contains text (codes ":"))) [
    | inl many ↦ elim (Option-cases (stepped numbers (split b':' text))) [
      | inl e ↦ (false, rw (many, e, frequency_in_range) refl)
      | inr (r, e) ↦
          let (b, e') = in_steps-Returns rounds freq r (h r e) in
          (b, rw (many, e, frequency_in_range) e')
    ]
    | inr single ↦
        (is_single numbers freq (numbers.parse_float text), rw (single, frequency_in_range) refl)
  ]

  All-Returns :
      (rounds : ℕ) (freq : F) (texts : List Text)
      → All (Ends rounds) texts
      → All (λ t. Returns (frequency_in_range numbers rounds freq t)) texts
  All-Returns rounds freq [] h = tt
  All-Returns rounds freq (t ∷ texts) (h, rest) =
      (frequency_in_range-Returns rounds freq t h, All-Returns rounds freq texts rest)

  profiles-Returns :
      (rounds : ℕ) (freq : F) (profiles : List FrequencyProfile)
      → AllEnd rounds profiles
      → All (λ p. Returns (frequency_matches_profile numbers rounds freq p)) profiles
  unfolding frequency_matches_profile AllEnd
  profiles-Returns rounds freq [] h = tt
  profiles-Returns rounds freq (p ∷ profiles) (h, rest) = (
    first_true-Returns (frequency_in_range numbers rounds freq) p.frequencies
        (All-Returns rounds freq p.frequencies h),
    profiles-Returns rounds freq profiles rest,
  )

  -- The test of a frequency ends with an answer, for every text, if the loop over every range of
  -- the profiles passes its end within the rounds.
  pub is_valid_frequency-Returns :
      (rounds : ℕ) (profiles : List FrequencyProfile) (text : Text)
      → AllEnd rounds profiles
      → Returns (is_valid_frequency numbers rounds profiles text)
  unfolding is_valid_frequency
  is_valid_frequency-Returns rounds profiles text h =
      elim (Option-cases (numbers.parse_float text)) [
        | inl e ↦ (false, rw (e, is_valid_frequency) refl)
        | inr (freq, e) ↦
            let (b, e') =
              first_true-Returns (frequency_matches_profile numbers rounds freq) profiles
                (profiles-Returns rounds freq profiles h) in
            (b, rw (e, is_valid_frequency) e')
      ]
