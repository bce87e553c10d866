-- ===== src/Auth/Tokens.antt =====
-- rcc/internal/auth/verifier.go: the verification of tokens. The JWT library, HTTP, PEM and base64 are
-- parameters; a key has a type `K`, and times are numbers. A lock that its own goroutine holds blocks
-- for ever.
pub mod Trust
pub mod Verified
mod Examples
use radio_container.Prelude.{
  ℕ, ◌+◌, ◌-◌, ◌*◌, ◌^◌, Bool, true, false, ◌&&◌, ◌||◌, ◌==◌, leb, not, List, [], ◌∷◌, ◌++◌, ◌%◌,
  length, Option, none, some, String, str_eq, is_nil, any, if◌then◌else◌,
}
use radio_container.Prelude.Int.{ℤ, pos, lt_int}
use radio_container.Prelude.Dict.{Dict, get, put}
use radio_container.Auth.{Claims}

pub record VerifierConfig : Type 0 where
  pub public_key_pem : String
  pub jwks_url : String
  pub secret_key : String
  pub algorithm : String
  pub jwks_refresh_interval : ℤ
  pub jwks_cache_timeout : ℤ

pub record Jwk : Type 0 where
  pub kty : String
  pub kid : String
  pub usage : String
  pub alg : String
  pub n : List ℕ
  pub e : List ℕ

-- A value in the claims of a token; an item that is not a string is `none`.
pub data ClaimValue : Type 0 where
  text : String → ClaimValue
  texts : List String → ClaimValue
  items : List (Option String) → ClaimValue
  other : ClaimValue

abbrev pub MapClaims : Type 0
MapClaims = Dict ClaimValue

-- What a signature is checked with.
pub data SigningKey (K : Type 0) : Type 0 where
  rsa : K → SigningKey K
  hmac : String → SigningKey K

-- The library's parser: the header's algorithm and `kid`, and the claims of a token that is valid
-- under a key.
pub record Jwt (K : Type 0) : Type 0 where
  pub header : List ℕ → Option (String × Option String)
  pub claims_under : SigningKey K → List ℕ → Option MapClaims

pub record JwtVerifier (K : Type 0) : Type 0 where
  pub config : VerifierConfig
  pub public_key : Option K
  -- by id, with the time of the entry
  pub jwks_cache : Dict (K × ℕ)
  pub last_fetch : ℕ

-- A call that returns, or that waits for a lock which is never released.
pub data Outcome (X : Type 0) : Type 0 where
  returned : X → Outcome X
  blocked : Outcome X

-- `(*claims)[key].(string)`
unfoldable pub text_of : Option ClaimValue → Option String
text_of (some (text s)) = some s
text_of _ = none

unfoldable pub all_texts : List (Option String) → Option (List String)
all_texts [] = some []
all_texts (none ∷ xs) = none
all_texts (some s ∷ xs) = elim (all_texts xs) [ none ↦ none | some rest ↦ some (s ∷ rest) ]

unfoldable pub extract_string_slice : Option ClaimValue → Option (List String)
unfolding all_texts
extract_string_slice none = none
extract_string_slice (some (text s)) = none
extract_string_slice (some (texts xs)) = some xs
extract_string_slice (some (items xs)) = all_texts xs
extract_string_slice (some other) = none

-- The loop of both validations.
unfoldable pub all_valid : List String → List String → Bool
all_valid valid [] = true
all_valid valid (x ∷ xs) = any (λ v. str_eq x v) valid && all_valid valid xs

unfoldable pub validate_roles : List String → Bool
unfolding all_valid
validate_roles roles = all_valid ("viewer" ∷ "controller" ∷ []) roles && not (is_nil roles)

unfoldable pub validate_scopes : List String → Bool
unfolding all_valid
validate_scopes scopes =
    all_valid ("read" ∷ "control" ∷ "telemetry" ∷ []) scopes && not (is_nil scopes)

-- The validation of both lists.
unfoldable pub checked_claims : String → List String → List String → Option Claims
unfolding validate_roles validate_scopes
checked_claims sub roles scopes =
    if validate_roles roles && validate_scopes scopes
    then some (record { subject = sub; roles = roles; scopes = scopes })
    else none

unfoldable pub extract_claims_from_map : MapClaims → Option Claims
unfolding text_of extract_string_slice checked_claims
extract_claims_from_map claims = elim (text_of (get claims "sub")) [
  | none ↦ none
  | some sub ↦ elim (extract_string_slice (get claims "roles")) [
    | none ↦ none
    | some roles ↦ elim (extract_string_slice (get claims "scopes")) [
      | none ↦ none
      | some scopes ↦ checked_claims sub roles scopes
    ]
  ]
]

-- The padding, and then the decoder `raw_decode`, which is made for texts without it.
unfoldable pub base64_url_decode : (List ℕ → Option (List ℕ)) → List ℕ → Option (List ℕ)
base64_url_decode raw_decode data_text =
    if length data_text % 4 == 2
    then raw_decode (data_text ++ b'=' ∷ b'=' ∷ [])
    else if length data_text % 4 == 3
    then raw_decode (data_text ++ b'=' ∷ [])
    else raw_decode data_text

-- `for _, b := range e { exp = exp<<8 + int(b) }`, as the 64 bits of the int.
unfoldable pub exponent : ℕ → List ℕ → ℕ
exponent bits [] = bits
exponent bits (b ∷ bs) = exponent ((bits * 256 + b) % 2 ^ 64) bs

-- `make_key` is the key of a modulus in bytes and an exponent.
unfoldable pub jwk_to_rsa_public_key :
    {K : Type 0} → (List ℕ → Option (List ℕ)) → (List ℕ → ℕ → K) → Jwk → Option K
unfolding base64_url_decode exponent
jwk_to_rsa_public_key raw_decode make_key jwk = elim (base64_url_decode raw_decode jwk.n) [
  | none ↦ none
  | some n ↦ elim (base64_url_decode raw_decode jwk.e) [
    | none ↦ none
    | some e ↦ some (make_key n (exponent 0 e))
  ]
]

-- `strings.TrimSpace(token) == ""`
unfoldable pub is_blank : List ℕ → Bool
is_blank [] = true
is_blank (c ∷ cs) = (c == 32 || (leb 9 c && leb c 13)) && is_blank cs

-- `key_of` is `jwk_to_rsa_public_key` with its parameters.
module _ {K : Type 0} (key_of : Jwk → Option K) (now : ℕ) where
  -- The loop over the fetched keys.
  unfoldable pub cache_keys : List Jwk → Dict (K × ℕ) → Dict (K × ℕ)
  cache_keys [] cache = cache
  cache_keys (jwk ∷ keys) cache = cache_keys keys (
      if str_eq jwk.kty "RSA" && (str_eq jwk.usage "sig" && str_eq jwk.alg "RS256")
      then elim (key_of jwk) [ none ↦ cache | some key ↦ put cache jwk.kid (key, now) ]
      else cache)

  -- `held` is whether the caller holds the lock; `reply` is the key set of the URL's answer, if
  -- there is one that can be read. An error is `none`.
  unfoldable pub fetch_jwks :
      Bool → Option (List Jwk) → JwtVerifier K → Outcome (Option (JwtVerifier K))
  unfolding cache_keys
  fetch_jwks held none v = returned none
  fetch_jwks held (some keys) v =
      if str_eq v.config.jwks_url ""
      then returned none
      else if held
      then blocked
      else returned
          (some (record v { jwks_cache = cache_keys keys v.jwks_cache; last_fetch = now }))

  unfoldable pub with_jwks : Option (List Jwk) → JwtVerifier K → Outcome (Option (JwtVerifier K))
  unfolding fetch_jwks
  with_jwks reply v =
      if str_eq v.config.jwks_url "" then returned (some v) else fetch_jwks false reply v

  -- `load` is `loadPublicKeyFromPEM`, up to the key; an error is `none`.
  unfoldable pub new_verifier :
      (String → Option K) → Option (List Jwk) → VerifierConfig → Outcome (Option (JwtVerifier K))
  unfolding with_jwks
  new_verifier load reply config =
      let v : JwtVerifier K = record {
        config = config;
        public_key = none;
        jwks_cache = [];
        last_fetch = 0;
      } in
      if str_eq config.algorithm "RS256"
      then if str_eq config.public_key_pem ""
        then with_jwks reply v
        else elim (load config.public_key_pem) [
          | none ↦ returned none
          | some key ↦ with_jwks reply (record v { public_key = some key })
        ]
      else if str_eq config.algorithm "HS256"
      then if str_eq config.secret_key "" then returned none else returned (some v)
      else returned none

  -- An entry that is younger than the timeout.
  unfoldable pub fresh_key : JwtVerifier K → String → Option K
  fresh_key v kid = elim (get v.jwks_cache kid) [
    | none ↦ none
    | some (key, stamp) ↦
        if lt_int (pos (now - stamp)) v.config.jwks_cache_timeout then some key else none
  ]

  unfoldable pub any_key : JwtVerifier K → String → Option K
  any_key v kid = elim (get v.jwks_cache kid) [ none ↦ none | some (key, stamp) ↦ some key ]

  -- `fetchJWKS` is called with the lock held.
  unfoldable pub get_key_from_jwks :
      Option (List Jwk) → JwtVerifier K → String → Outcome (Option K × JwtVerifier K)
  unfolding fetch_jwks fresh_key any_key
  get_key_from_jwks reply v kid = elim (fresh_key v kid) [
    | some key ↦ returned (some key, v)
    | none ↦
        if lt_int v.config.jwks_refresh_interval (pos (now - v.last_fetch))
        then elim (fetch_jwks true reply v) [
          | blocked ↦ blocked
          | returned none ↦ returned (none, v)
          | returned (some v') ↦ returned (any_key v' kid, v')
        ]
        else returned (none, v)
  ]

  module _ (jwt : Jwt K) (reply : Option (List Jwk)) where
    -- What both verifications end with, for a key or none.
    unfoldable pub claims_with : Option (SigningKey K) → List ℕ → Option Claims
    unfolding extract_claims_from_map
    claims_with none token = none
    claims_with (some key) token = elim (jwt.claims_under key token) [
      | none ↦ none
      | some claims ↦ extract_claims_from_map claims
    ]

    abbrev pub rsa_key : Option K → Option (SigningKey K)
    rsa_key none = none
    rsa_key (some key) = some (rsa key)

    unfoldable pub verify_rs256_token :
        JwtVerifier K → List ℕ → Outcome (Option Claims × JwtVerifier K)
    unfolding get_key_from_jwks claims_with
    verify_rs256_token v token = elim (jwt.header token) [
      | none ↦ returned (none, v)
      | some (alg, kid) ↦
          if str_eq alg "RS256"
          then elim kid [
            | none ↦ returned (claims_with (rsa_key v.public_key) token, v)
            | some k ↦ elim (get_key_from_jwks reply v k) [
              | blocked ↦ blocked
              | returned (key, v') ↦ returned (claims_with (rsa_key key) token, v')
            ]
          ]
          else returned (none, v)
    ]

    unfoldable pub verify_hs256_token :
        JwtVerifier K → List ℕ → Outcome (Option Claims × JwtVerifier K)
    unfolding claims_with
    verify_hs256_token v token = elim (jwt.header token) [
      | none ↦ returned (none, v)
      | some (alg, kid) ↦
          if str_eq alg "HS256"
          then returned (claims_with (some (hmac v.config.secret_key)) token, v)
          else returned (none, v)
    ]

    unfoldable pub verify_jwt : JwtVerifier K → List ℕ → Outcome (Option Claims × JwtVerifier K)
    unfolding verify_rs256_token verify_hs256_token is_blank
    verify_jwt v token =
        if is_blank token
        then returned (none, v)
        else if str_eq v.config.algorithm "RS256"
        then verify_rs256_token v token
        else if str_eq v.config.algorithm "HS256"
        then verify_hs256_token v token
        else returned (none, v)
