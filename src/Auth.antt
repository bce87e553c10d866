-- ===== src/Auth.antt =====
-- rcc/internal/auth/middleware.go: who may call a handler. A handler takes the request with the
-- claims of its context, and the state `S`; the response's type `R` and how an error is written as
-- one (`writeError`) are parameters. The verifier of tokens is one too.
pub mod Scopes
pub mod Tokens
use radio_container.Prelude.{
  ℕ, Bool, true, false, ◌&&◌, List, [], ◌∷◌, Option, none, some, String, str_eq, codes, has_prefix,
  drop, is_nil, any, if◌then◌else◌,
}

pub record Claims : Type 0 where
  pub subject : String
  pub roles : List String
  pub scopes : List String

-- A request: its path, its method, the header `Authorization` (empty if there is none), its body and
-- the claims in its context.
pub record Request (B : Type 0) : Type 0 where
  pub path : String
  pub method : String
  pub authorization : List ℕ
  pub body : B
  pub claims : Option Claims

abbrev pub HandlerFunc : Type 0 → Type 0 → Type 0 → Type 0
HandlerFunc B S R = Request B → S → R × S

-- `VerifyToken`
abbrev pub Verifier : Type 0
Verifier = List ℕ → Option Claims

abbrev pub text_eq : List ℕ → List ℕ → Bool
text_eq a b = has_prefix a b && has_prefix b a

abbrev pub bearer : List ℕ
bearer = codes "Bearer "

unfoldable pub extract_bearer_token : {B : Type 0} → Request B → Option (List ℕ)
extract_bearer_token r =
    if is_nil r.authorization
    then none
    else if has_prefix r.authorization bearer
    then if is_nil (drop 7 r.authorization) then none else some (drop 7 r.authorization)
    else none

abbrev pub viewer_scopes : List String
viewer_scopes = "read" ∷ "telemetry" ∷ []

-- Without a verifier: the tokens of the tests, and a viewer for any other.
unfoldable pub verify_mock : Verifier
verify_mock token =
    if text_eq token (codes "viewer-token")
    then some (record { subject = "user-123"; roles = "viewer" ∷ []; scopes = viewer_scopes })
    else if text_eq token (codes "controller-token")
    then some (record {
      subject = "admin-456";
      roles = "controller" ∷ [];
      scopes = "read" ∷ "control" ∷ "telemetry" ∷ [];
    })
    else if text_eq token (codes "invalid-token")
    then none
    else some (record { subject = "user-unknown"; roles = "viewer" ∷ []; scopes = viewer_scopes })

unfoldable pub verify_token : Option Verifier → Verifier
unfolding verify_mock
verify_token (some verifier) token = verifier token
verify_token none token = verify_mock token

-- `found` of the inner loop.
unfoldable pub holds : List String → String → Bool
holds granted required = any (λ g. str_eq g required) granted

unfoldable pub holds_all : List String → List String → Bool
unfolding holds
holds_all granted [] = true
holds_all granted (r ∷ required) =
    let rest = holds_all granted required in if holds granted r then rest else false

unfoldable pub has_required_scopes : Option Claims → List String → Bool
unfolding holds_all
has_required_scopes none required = false
has_required_scopes (some claims) required = holds_all claims.scopes required

unfoldable pub has_required_roles : Option Claims → List String → Bool
unfolding holds
has_required_roles none required = false
has_required_roles (some claims) [] = true
has_required_roles (some claims) (r ∷ required) =
    any (λ role. holds claims.roles role) (r ∷ required)

unfoldable pub is_viewer : Option Claims → Bool
unfolding has_required_roles
is_viewer claims = has_required_roles claims ("viewer" ∷ [])

unfoldable pub is_controller : Option Claims → Bool
unfolding has_required_roles
is_controller claims = has_required_roles claims ("controller" ∷ [])

unfoldable pub can_read : Option Claims → Bool
unfolding has_required_scopes
can_read claims = has_required_scopes claims ("read" ∷ [])

unfoldable pub can_control : Option Claims → Bool
unfolding has_required_scopes
can_control claims = has_required_scopes claims ("control" ∷ [])

unfoldable pub can_access_telemetry : Option Claims → Bool
unfolding has_required_scopes
can_access_telemetry claims = has_required_scopes claims ("telemetry" ∷ [])

abbrev pub with_claims : {B : Type 0} → Claims → Request B → Request B
with_claims claims r = record r { claims = some claims }

module _ {B S R : Type 0} (write_error : ℕ → String → String → R) where
  unfoldable pub require_auth : Option Verifier → HandlerFunc B S R → HandlerFunc B S R
  unfolding extract_bearer_token verify_token
  require_auth verifier next r s =
      if str_eq r.path "/api/v1/health" then next r s else elim (extract_bearer_token r) [
        | none ↦ (write_error 401 "UNAUTHORIZED" "Authentication required", s)
        | some token ↦ elim (verify_token verifier token) [
          | none ↦ (write_error 401 "UNAUTHORIZED" "Invalid token", s)
          | some claims ↦ next (with_claims claims r) s
        ]
      ]

  -- The last step of both checks: the claims that are required, and whether they suffice.
  unfoldable pub require : (Option Claims → Bool) → HandlerFunc B S R → HandlerFunc B S R
  require enough next r s = elim r.claims [
    | none ↦ (write_error 401 "UNAUTHORIZED" "Authentication required", s)
    | some claims ↦
        if enough (some claims)
        then next r s
        else (write_error 403 "FORBIDDEN" "Insufficient permissions", s)
  ]

  unfoldable pub require_scope : List String → HandlerFunc B S R → HandlerFunc B S R
  unfolding has_required_scopes require
  require_scope required next = require (λ c. has_required_scopes c required) next

  unfoldable pub require_role : List String → HandlerFunc B S R → HandlerFunc B S R
  unfolding has_required_roles require
  require_role required next = require (λ c. has_required_roles c required) next
