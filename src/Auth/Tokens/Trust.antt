-- ===== src/Auth/Tokens/Trust.antt =====
-- Which tokens rcc/internal/auth/verifier.go accepts.
use radio_container.Prelude.{
  ◌≡◌, ◌⊎◌, inl, inr, subst, true, false, List, [], ◌∷◌, All, Option, none, some, some_inj, String,
  is_nil, Option-cases, eq_iff, arith,
}
use radio_container.Prelude.Dict.{get}
use radio_container.Auth.{Claims}
use radio_container.Auth.Tokens.{
  MapClaims, text_of, extract_string_slice, all_valid, validate_roles, validate_scopes,
  checked_claims, extract_claims_from_map,
}

-- The roles and scopes that the API knows.
abbrev pub Known : Claims → Type 0
Known claims =
    (is_nil claims.roles ≡ false)
    × (is_nil claims.scopes ≡ false)
    × All (λ (r : String). (r ≡ "viewer") ⊎ (r ≡ "controller")) claims.roles
    × All (λ (s : String). (s ≡ "read") ⊎ ((s ≡ "control") ⊎ (s ≡ "telemetry"))) claims.scopes

roles-Known :
    (xs : List String)
    → all_valid ("viewer" ∷ "controller" ∷ []) xs ≡ true
    → All (λ (r : String). (r ≡ "viewer") ⊎ (r ≡ "controller")) xs
unfolding all_valid
roles-Known [] h = tt
roles-Known (x ∷ xs) h =
    (ground (arith, eq_iff x "viewer", eq_iff x "controller"), roles-Known xs (ground arith))

scopes-Known :
    (xs : List String)
    → all_valid ("read" ∷ "control" ∷ "telemetry" ∷ []) xs ≡ true
    → All (λ (s : String). (s ≡ "read") ⊎ ((s ≡ "control") ⊎ (s ≡ "telemetry"))) xs
unfolding all_valid
scopes-Known [] h = tt
scopes-Known (x ∷ xs) h = (
  ground (arith, eq_iff x "read", eq_iff x "control", eq_iff x "telemetry"),
  scopes-Known xs (ground arith),
)

checked_claims-Known :
    (sub : String) (roles scopes : List String) (claims : Claims)
    → checked_claims sub roles scopes ≡ some claims
    → Known claims
unfolding checked_claims validate_roles validate_scopes
checked_claims-Known sub roles scopes claims h = subst Known (some_inj same) (
  ground arith,
  ground arith,
  roles-Known roles (ground arith),
  scopes-Known scopes (ground arith),
)
  where
    same : some (record { subject = sub; roles = roles; scopes = scopes }) ≡ some claims
    same = ground arith

pub extract_claims_from_map-Known :
    (map_claims : MapClaims) (claims : Claims)
    → extract_claims_from_map map_claims ≡ some claims
    → Known claims
unfolding extract_claims_from_map
extract_claims_from_map-Known m claims h = elim (Option-cases (text_of (get m "sub"))) [
  | inl e ↦ absurd (missing (subst (λ o. by_sub o ≡ some claims) e h))
  | inr (sub, e) ↦ elim (Option-cases (extract_string_slice (get m "roles"))) [
    | inl n ↦ absurd (
        missing
          (subst (λ o. by_roles sub o ≡ some claims) n (subst (λ o. by_sub o ≡ some claims) e h)))
    | inr (roles, n) ↦
        by_scopes-Known sub roles (extract_string_slice (get m "scopes"))
          (subst (λ o. by_roles sub o ≡ some claims) n (subst (λ o. by_sub o ≡ some claims) e h))
  ]
]
  where
    missing : none ≡ some claims → ⊥
    missing u = cc

    by_scopes : String → List String → Option (List String) → Option Claims
    by_scopes sub roles none = none
    by_scopes sub roles (some scopes) = checked_claims sub roles scopes

    by_roles : String → Option (List String) → Option Claims
    by_roles sub none = none
    by_roles sub (some roles) = by_scopes sub roles (extract_string_slice (get m "scopes"))

    by_sub : Option String → Option Claims
    by_sub none = none
    by_sub (some sub) = by_roles sub (extract_string_slice (get m "roles"))

    by_scopes-Known :
        (sub : String) (roles : List String) (scopes : Option (List String))
        → by_scopes sub roles scopes ≡ some claims
        → Known claims
    by_scopes-Known sub roles none u = absurd (missing u)
    by_scopes-Known sub roles (some scopes) u = checked_claims-Known sub roles scopes claims u
