-- ===== src/Auth/Scopes.antt =====
-- Which requests get through the checks of rcc/internal/auth/middleware.go.
use radio_container.Prelude.{
  ℕ, ◌≡◌, ◌⊎◌, inl, inr, refl, true, List, [], ◌∷◌, Option, none, some, String, str_eq, Bool-cases,
  Option-cases,
}
use radio_container.Auth.{
  Claims, Request, HandlerFunc, Verifier, extract_bearer_token, verify_token, holds, holds_all,
  has_required_scopes, with_claims, require_auth, require, require_scope,
}

-- A request with a bearer token that verifies to claims with the scope.
pub record Granted {B : Type 0} (verifier : Option Verifier) (scope : String) (r : Request B)
    : Type 0 where
  pub token : List ℕ
  pub claims : Claims
  pub presented : extract_bearer_token r ≡ some token
  pub verified : verify_token verifier token ≡ some claims
  pub scoped : holds claims.scopes scope ≡ true

holds_all-one :
    (granted : List String) (scope : String) → holds_all granted (scope ∷ []) ≡ holds granted scope
unfolding holds_all
holds_all-one granted scope = elim (Bool-cases (holds granted scope)) [
  | inl held ↦ rw (held, holds_all) refl
  | inr missing ↦ rw (missing, holds_all) refl
]

abbrev pub guard :
    {B S R : Type 0}
    → (ℕ → String → String → R)
    → Option Verifier
    → String
    → HandlerFunc B S R
    → HandlerFunc B S R
guard write_error verifier scope next =
    require_auth write_error verifier (require_scope write_error (scope ∷ []) next)

module _ {B S R : Type 0} (write_error : ℕ → String → String → R) (scope : String)
    (next : HandlerFunc B S R) where
  require_scope-none :
      (r : Request B) (s : S)
      → r.claims ≡ none
      → (require_scope write_error (scope ∷ []) next r s).1 ≡ s
  unfolding require_scope require
  require_scope-none r s e = rw (e, require) refl

  require_scope-some :
      (r : Request B) (s : S) (claims : Claims)
      → ((require_scope write_error (scope ∷ []) next (with_claims claims r) s).1 ≡ s)
        ⊎ ((holds claims.scopes scope ≡ true)
            × (require_scope write_error (scope ∷ []) next (with_claims claims r) s
                ≡ next (with_claims claims r) s))
  unfolding require_scope require has_required_scopes
  require_scope-some r s claims = elim (Bool-cases (holds claims.scopes scope)) [
    | inl held ↦ inr (held, rw (holds_all-one claims.scopes scope, held) refl)
    | inr missing ↦ inl (rw (holds_all-one claims.scopes scope, missing) refl)
  ]

  -- A guarded handler leaves the state as it was, or the request was granted the scope and the
  -- handler got it with the claims of its token.
  pub guard-Granted :
      (verifier : Option Verifier) (r : Request B) (s : S)
      → r.claims ≡ none
      → ((guard write_error verifier scope next r s).1 ≡ s)
        ⊎ ((g : Granted verifier scope r) × (guard write_error verifier scope next r s
              ≡ next (with_claims g.claims r) s))
  unfolding require_auth
  guard-Granted verifier r s fresh = elim (Bool-cases (str_eq r.path "/api/v1/health")) [
    | inl health ↦ inl (rw (health, require_auth) (require_scope-none r s fresh))
    | inr other ↦ elim (Option-cases (extract_bearer_token r)) [
      | inl e ↦ inl (rw (other, e, require_auth) refl)
      | inr (token, presented) ↦ elim (Option-cases (verify_token verifier token)) [
        | inl e ↦ inl (rw (other, presented, e, require_auth) refl)
        | inr (claims, verified) ↦ elim (require_scope-some r s claims) [
          | inl same ↦ inl (rw (other, presented, verified, require_auth) same)
          | inr (scoped, through) ↦ inr (
            record {
              token = token;
              claims = claims;
              presented = presented;
              verified = verified;
              scoped = scoped;
            },
            rw (other, presented, verified, require_auth) through,
          )
        ]
      ]
    ]
  ]
