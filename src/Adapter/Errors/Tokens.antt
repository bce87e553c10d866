-- ===== src/Adapter/Errors/Tokens.antt =====
-- `strings.Contains` and `strings.ToUpper` against their meaning.
use radio_container.Prelude.{
  ℕ, ◌≡◌, refl, ap, ◌↔◌, inl, inr, true, List, [], ◌∷◌, ◌++◌, arith, has_prefix, contains,
  upper_code, to_upper, ==_iff, Bool-cases,
}

-- `t` stands in `s` at some place.
abbrev pub Occurs : List ℕ → List ℕ → Type 0
Occurs t s = (before : List ℕ) × (after : List ℕ) × (s ≡ before ++ (t ++ after))

abbrev Prefix : List ℕ → List ℕ → Type 0
Prefix t s = (after : List ℕ) × (s ≡ t ++ after)

Prefix-of : (s t : List ℕ) → has_prefix s t ≡ true → Prefix t s
Prefix-of s [] h = (s, refl)
Prefix-of [] (p ∷ ps) h = cc
Prefix-of (c ∷ s) (p ∷ ps) h =
    let (after, e) = Prefix-of s ps (ground arith) in (after, ground (arith, ==_iff c p))

has_prefix-append : (t after : List ℕ) → has_prefix (t ++ after) t ≡ true
has_prefix-append [] [] = refl
has_prefix-append [] (x ∷ after) = refl
has_prefix-append (c ∷ t) after = ground (arith, has_prefix-append t after)

has_prefix-nil : (s : List ℕ) → has_prefix s [] ≡ true
has_prefix-nil [] = refl
has_prefix-nil (c ∷ s) = refl

Occurs-of : (s t : List ℕ) → contains s t ≡ true → Occurs t s
Occurs-of [] t h = let (after, e) = Prefix-of [] t h in ([], after, e)
Occurs-of (c ∷ s) t h = elim (Bool-cases (has_prefix (c ∷ s) t)) [
  | inl here ↦ let (after, e) = Prefix-of (c ∷ s) t here in ([], after, e)
  | inr later ↦
      let (before, after, e) = Occurs-of s t (ground arith) in (c ∷ before, after, ap (◌∷◌ c) e)
]

contains-append : (before t after : List ℕ) → contains (before ++ (t ++ after)) t ≡ true
contains-append [] [] [] = refl
contains-append [] [] (x ∷ after) = refl
contains-append [] (c ∷ t) after = ground (arith, has_prefix-append t after)
contains-append (c ∷ before) t after = ground (arith, contains-append before t after)

-- `strings.Contains` finds exactly the texts that occur.
pub contains_iff : (s t : List ℕ) → (contains s t ≡ true) ↔ Occurs t s
contains_iff s t =
    (Occurs-of s t, λ o. let (before, after, e) = o in rw e (contains-append before t after))

upper_code_idem : (c : ℕ) → upper_code (upper_code c) ≡ upper_code c
unfolding upper_code
upper_code_idem c = ground arith

pub to_upper_idem : (s : List ℕ) → to_upper (to_upper s) ≡ to_upper s
unfolding to_upper
to_upper_idem [] = refl
to_upper_idem (c ∷ s) = cc (upper_code_idem c, to_upper_idem s)
