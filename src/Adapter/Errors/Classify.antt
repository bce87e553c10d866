-- ===== src/Adapter/Errors/Classify.antt =====
-- What `mapVendorErrorToCode` decides.
use radio_container.Prelude.{
  if◌then◌else◌, str_eq, subst, sym, ◌≢◌, refl, eq_iff, ℕ, ◌≡◌, ◌⊎◌, inl, inr, true, false, List,
  [], ◌∷◌, String, codes, contains, to_upper, arith, Bool-cases,
}
use radio_container.Adapter.Errors.Tokens.{Occurs, contains_iff, to_upper_idem}
use radio_container.Adapter.Errors.{
  Code, invalid_range, busy, unavailable, internal, VendorMap, silvus, generic, vendor_map,
  mentions, classify, map_vendor_error_to_code,
}

-- Some token of the list occurs in the message, letter case aside.
abbrev pub Mentions : List ℕ → List String → Type 0
Mentions msg [] = ⊥
Mentions msg (token ∷ tokens) = Occurs (to_upper (codes token)) (to_upper msg) ⊎ Mentions msg tokens

-- What it means for a message to have a code under a vendor's table.
abbrev pub Means : VendorMap → List ℕ → Code → Type 0
Means m msg invalid_range = Mentions msg m.range
Means m msg busy = ¬ Mentions msg m.range × Mentions msg m.busy
Means m msg unavailable =
    ¬ Mentions msg m.range × ¬ Mentions msg m.busy × Mentions msg m.unavailable
Means m msg internal = ¬ Mentions msg m.range × ¬ Mentions msg m.busy × ¬ Mentions msg m.unavailable

Mentions-of :
    (msg : List ℕ) (tokens : List String)
    → mentions (to_upper msg) tokens ≡ true
    → Mentions msg tokens
unfolding mentions
Mentions-of msg [] h = cc
Mentions-of msg (token ∷ tokens) h =
    elim (Bool-cases (contains (to_upper msg) (to_upper (codes token)))) [
      | inl here ↦ inl ((contains_iff _ _).0 here)
      | inr later ↦ inr (Mentions-of msg tokens (ground arith))
    ]

pub mentions_complete :
    (msg : List ℕ) (tokens : List String)
    → Mentions msg tokens
    → mentions (to_upper msg) tokens ≡ true
unfolding mentions
mentions_complete msg [] m = absurd m
mentions_complete msg (token ∷ tokens) (inl here) = rw ((contains_iff _ _).1 here)
mentions_complete msg (token ∷ tokens) (inr later) =
    ground (arith, mentions_complete msg tokens later)

not-Mentions :
    (msg : List ℕ) (tokens : List String)
    → mentions (to_upper msg) tokens ≡ false
    → ¬ Mentions msg tokens
not-Mentions msg tokens h m = cc (mentions_complete msg tokens m)

classify-Means : (m : VendorMap) (msg : List ℕ) → Means m msg (classify m (to_upper msg))
unfolding classify
classify-Means m msg = elim (Bool-cases (mentions (to_upper msg) m.range)) [
  | inl r ↦ rw r (Mentions-of msg m.range r)
  | inr r ↦ elim (Bool-cases (mentions (to_upper msg) m.busy)) [
    | inl b ↦ rw (r, b) (not-Mentions msg m.range r, Mentions-of msg m.busy b)
    | inr b ↦ elim (Bool-cases (mentions (to_upper msg) m.unavailable)) [
      | inl u ↦
          rw (r, b, u)
            (not-Mentions msg m.range r, not-Mentions msg m.busy b, Mentions-of msg m.unavailable u)
      | inr u ↦
          rw (r, b, u)
            (
              not-Mentions msg m.range r,
              not-Mentions msg m.busy b,
              not-Mentions msg m.unavailable u,
            )
    ]
  ]
]

vendor_map-silvus : vendor_map "silvus" ≡ silvus
unfolding vendor_map
vendor_map-silvus = refl

vendor_map-other : (vendor_id : String) → vendor_id ≢ "silvus" → vendor_map vendor_id ≡ generic
unfolding vendor_map
vendor_map-other vendor_id h = ground (arith, eq_iff "silvus" vendor_id, eq_iff "generic" vendor_id)

-- The code of a message is invalid_range where a range token of the vendor's table occurs in it,
-- letter case aside; else busy where a busy token does; else unavailable where an unavailable token
-- does; else internal. The vendor "silvus" has its own table, and every other one the generic table.
pub map_vendor_error_to_code-Means :
    (msg : List ℕ) (vendor_id : String)
    → Means
        (if str_eq vendor_id "silvus" then silvus else generic)
        msg
        (map_vendor_error_to_code msg vendor_id)
unfolding map_vendor_error_to_code
map_vendor_error_to_code-Means msg vendor_id = elim (Bool-cases (str_eq vendor_id "silvus")) [
  | inl own ↦
      let e : vendor_id ≡ "silvus" = ground (arith, eq_iff vendor_id "silvus") in
      rw (own, map_vendor_error_to_code)
        (subst (λ v. Means silvus msg (classify (vendor_map v) (to_upper msg))) (sym e)
          (rw vendor_map-silvus (classify-Means silvus msg)))
  | inr other ↦
      let h : vendor_id ≢ "silvus" = ground (arith, eq_iff vendor_id "silvus") in
      rw (other, map_vendor_error_to_code, vendor_map-other vendor_id h)
        (classify-Means generic msg)
]

-- The code does not depend on letter case.
pub map_vendor_error_to_code-to_upper :
    (msg : List ℕ) (vendor_id : String)
    → map_vendor_error_to_code (to_upper msg) vendor_id ≡ map_vendor_error_to_code msg vendor_id
map_vendor_error_to_code-to_upper msg vendor_id =
    let e = to_upper_idem msg in unfold map_vendor_error_to_code in rw e
