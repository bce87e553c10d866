-- ===== src/Auth/Tokens/Verified.antt =====
-- What a verified token rests on, and what a call leaves behind, in rcc/internal/auth/verifier.go.
use radio_container.Prelude.{
  ℕ, ◌-◌, ◌≡◌, ◌⊎◌, inl, inr, refl, ap, subst, true, List, Option, none, some, some_inj, String,
  str_eq, Option-cases, Bool-cases, eq_iff, arith, if◌then◌else◌,
}
use radio_container.Prelude.Int.{pos, lt_int}
use radio_container.Prelude.Dict.{get}
use radio_container.Auth.{Claims}
use radio_container.Auth.Tokens.{
  Jwk, MapClaims, SigningKey, rsa, hmac, Jwt, JwtVerifier, Outcome, returned, blocked, is_blank,
  fetch_jwks, fresh_key, extract_claims_from_map, get_key_from_jwks, claims_with,
  verify_hs256_token, verify_rs256_token, verify_jwt,
}
use radio_container.Auth.Tokens.Trust.{Known, extract_claims_from_map-Known}

-- The secret of a verifier for HS256, and the keys of one for RS256: the configured one and those of
-- the cache.
pub data Trusted {K : Type 0} (v : JwtVerifier K) : SigningKey K → Type 0 where
  by_secret : v.config.algorithm ≡ "HS256" → Trusted v (hmac v.config.secret_key)
  by_configured :
      (key : K) → v.config.algorithm ≡ "RS256" → v.public_key ≡ some key → Trusted v (rsa key)
  by_cached :
      (kid : String) (key : K) (stamp : ℕ)
      → v.config.algorithm ≡ "RS256"
      → get v.jwks_cache kid ≡ some (key, stamp)
      → Trusted v (rsa key)

-- The token names the configured algorithm, is valid under a trusted key, and holds the claims, whose
-- roles and scopes are known and not empty.
pub record Vouched {K : Type 0} (jwt : Jwt K) (v : JwtVerifier K) (token : List ℕ) (claims : Claims)
    : Type 0 where
  pub key : SigningKey K
  pub kid : Option String
  pub inside : MapClaims
  pub named : jwt.header token ≡ some (v.config.algorithm, kid)
  pub trusted : Trusted v key
  pub signed : jwt.claims_under key token ≡ some inside
  pub extracted : extract_claims_from_map inside ≡ some claims
  pub known : Known claims

module _ {K : Type 0} (key_of : Jwk → Option K) (now : ℕ) where
  fetch_jwks-held :
      (reply : Option (List Jwk)) (v : JwtVerifier K)
      → (fetch_jwks key_of now true reply v ≡ blocked)
        ⊎ (fetch_jwks key_of now true reply v ≡ returned none)
  unfolding fetch_jwks
  fetch_jwks-held none v = inr refl
  fetch_jwks-held (some keys) v = elim (Bool-cases (str_eq v.config.jwks_url "")) [
    | inl e ↦ inr (rw (e, fetch_jwks) refl)
    | inr e ↦ inl (rw (e, fetch_jwks) refl)
  ]

  fresh_key-cached :
      (v : JwtVerifier K) (kid : String) (key : K)
      → fresh_key key_of now v kid ≡ some key
      → (stamp : ℕ) × (get v.jwks_cache kid ≡ some (key, stamp))
  unfolding fresh_key
  fresh_key-cached v kid key h = found (get v.jwks_cache kid) h
    where
      found :
          (entry : Option (K × ℕ))
          → (elim entry [
            | none ↦ none
            | some (k, stamp) ↦
                if lt_int (pos (now - stamp)) v.config.jwks_cache_timeout then some k else none
          ])
            ≡ some key
          → (stamp : ℕ) × (entry ≡ some (key, stamp))
      found none u = absurd (cc)
      found (some (k, stamp)) u =
          let same : some k ≡ some key = ground arith in
          (stamp, ap (λ x. some (x, stamp)) (some_inj same))

  -- A call for a key that returns leaves the verifier as it was, and gives a key only if it is cached.
  get_key_from_jwks-cases :
      (reply : Option (List Jwk)) (v : JwtVerifier K) (kid : String)
      → (get_key_from_jwks key_of now reply v kid ≡ blocked)
        ⊎ ((found : Option K) × ((get_key_from_jwks key_of now reply v kid ≡ returned (found, v))
              × ((key : K)
                  → found ≡ some key
                  → (stamp : ℕ) × (get v.jwks_cache kid ≡ some (key, stamp)))))
  unfolding get_key_from_jwks
  get_key_from_jwks-cases reply v kid = elim (Option-cases (fresh_key key_of now v kid)) [
    | inr (key, e) ↦
        inr (
          some key,
          (rw (e, get_key_from_jwks) refl, λ k same. fresh_key-cached v kid k (rw e same)),
        )
    | inl e ↦ elim (Bool-cases (lt_int v.config.jwks_refresh_interval (pos (now - v.last_fetch)))) [
      | inr early ↦ inr (none, (rw (e, early, get_key_from_jwks) refl, λ k u. absurd (cc)))
      | inl due ↦ elim (fetch_jwks-held reply v) [
        | inl stuck ↦ inl (rw (e, due, stuck, get_key_from_jwks) refl)
        | inr failed ↦ inr (none, (rw (e, due, failed, get_key_from_jwks) refl, λ k u. absurd (cc)))
      ]
    ]
  ]

  module _ (jwt : Jwt K) (reply : Option (List Jwk)) (v : JwtVerifier K) (token : List ℕ) where
    -- An outcome that left the verifier as it was, with no claims or claims that are vouched for.
    abbrev Good : Option Claims × JwtVerifier K → Type 0
    Good (found, v') =
        (v' ≡ v) × ((claims : Claims) → found ≡ some claims → Vouched jwt v token claims)

    abbrev Fine : Outcome (Option Claims × JwtVerifier K) → Type 0
    Fine out = (result : Option Claims × JwtVerifier K) → out ≡ returned result → Good result

    returned-Fine : (result : Option Claims × JwtVerifier K) → Good result → Fine (returned result)
    returned-Fine result good result' h = subst Good (same h) good
      where
        same : returned result ≡ returned result' → result ≡ result'
        same u = cc

    none-Fine : Fine (returned (none, v))
    none-Fine = returned-Fine (none, v) (refl, λ claims u. absurd (cc))

    blocked-Fine : Fine blocked
    blocked-Fine result h = absurd (cc)

    claims_with-Vouched :
        (key : SigningKey K) (kid : Option String) (claims : Claims)
        → jwt.header token ≡ some (v.config.algorithm, kid)
        → Trusted v key
        → claims_with key_of now jwt reply (some key) token ≡ some claims
        → Vouched jwt v token claims
    unfolding claims_with
    claims_with-Vouched key kid claims named trusted h =
        elim (Option-cases (jwt.claims_under key token)) [
          | inl e ↦ absurd (none_some (subst (λ o. extracted o ≡ some claims) e h))
          | inr (inside, e) ↦
              let got : extract_claims_from_map inside ≡ some claims =
                subst (λ o. extracted o ≡ some claims) e h in
              record {
                key = key;
                kid = kid;
                inside = inside;
                named = named;
                trusted = trusted;
                signed = e;
                extracted = got;
                known = extract_claims_from_map-Known inside claims got;
              }
        ]
      where
        extracted : Option MapClaims → Option Claims
        extracted none = none
        extracted (some inside) = extract_claims_from_map inside

        none_some : none ≡ some claims → ⊥
        none_some u = cc

    rsa-Good :
        (found : Option K) (kid : Option String)
        → jwt.header token ≡ some (v.config.algorithm, kid)
        → ((key : K) → found ≡ some key → Trusted v (rsa key))
        → Good (
          claims_with key_of now jwt reply
              (elim found [ none ↦ none | some key ↦ some (rsa key) ])
              token,
          v,
        )
    unfolding claims_with
    rsa-Good none kid named trusted = (refl, λ claims u. absurd (cc))
    rsa-Good (some key) kid named trusted =
        (refl, λ claims u. claims_with-Vouched (rsa key) kid claims named (trusted key refl) u)

    named_as :
        (alg name : String) (kid : Option String)
        → jwt.header token ≡ some (alg, kid)
        → str_eq alg name ≡ true
        → v.config.algorithm ≡ name
        → jwt.header token ≡ some (v.config.algorithm, kid)
    named_as alg name kid h e a =
        let same : alg ≡ name = (eq_iff alg name).0 e in rw (h, same, a) refl

    verify_hs256_token-Fine :
        v.config.algorithm ≡ "HS256" → Fine (verify_hs256_token key_of now jwt reply v token)
    unfolding verify_hs256_token
    verify_hs256_token-Fine a = elim (Option-cases (jwt.header token)) [
      | inl e ↦ rw (e, verify_hs256_token) none-Fine
      | inr ((alg, kid), e) ↦ elim (Bool-cases (str_eq alg "HS256")) [
        | inr n ↦ rw (e, n, verify_hs256_token) none-Fine
        | inl y ↦
            rw (e, y, verify_hs256_token)
              (returned-Fine
                (claims_with key_of now jwt reply (some (hmac v.config.secret_key)) token, v)
                (
                  refl,
                  λ claims u.
                      claims_with-Vouched (hmac v.config.secret_key) kid claims
                        (named_as alg "HS256" kid e y a) (by_secret a) u,
                ))
      ]
    ]

    verify_rs256_token-Fine :
        v.config.algorithm ≡ "RS256" → Fine (verify_rs256_token key_of now jwt reply v token)
    unfolding verify_rs256_token
    verify_rs256_token-Fine a = elim (Option-cases (jwt.header token)) [
      | inl e ↦ rw (e, verify_rs256_token) none-Fine
      | inr ((alg, kid), e) ↦ elim (Bool-cases (str_eq alg "RS256")) [
        | inr n ↦ rw (e, n, verify_rs256_token) none-Fine
        | inl y ↦ rw (e, y, verify_rs256_token) (by_kid kid (named_as alg "RS256" kid e y a))
      ]
    ]
      where
        answer : Option K → Option Claims × JwtVerifier K
        answer found = (
          claims_with key_of now jwt reply (elim found [ none ↦ none | some key ↦ some (rsa key) ])
              token,
          v,
        )

        by_kid :
            (kid : Option String)
            → jwt.header token ≡ some (v.config.algorithm, kid)
            → Fine (elim kid [
              | none ↦ returned (answer v.public_key)
              | some k ↦ elim (get_key_from_jwks key_of now reply v k) [
                | blocked ↦ blocked
                | returned (key, v') ↦ returned (
                  claims_with key_of now jwt reply
                      (elim key [ none ↦ none | some x ↦ some (rsa x) ])
                      token,
                  v',
                )
              ]
            ])
        by_kid none named =
            returned-Fine (answer v.public_key)
              (rsa-Good v.public_key none named (λ key u. by_configured key a u))
        by_kid (some k) named = elim (get_key_from_jwks-cases reply v k) [
          | inl stuck ↦ rw stuck blocked-Fine
          | inr (found, (e, cached)) ↦ rw e (
              returned-Fine (answer found) (
                rsa-Good found (some k) named
                  (λ key u. let (stamp, there) = cached key u in by_cached k key stamp a there)))
        ]

    -- A verification that returns leaves the verifier's keys as they were (none is fetched after the
    -- start), and if it returns claims, then the token names the configured algorithm and is valid
    -- under the configured secret or key or under a cached key, and the claims are the token's, with
    -- roles and scopes that are known and not empty.
    pub verify_jwt-Vouched :
        (found : Option Claims) (v' : JwtVerifier K)
        → verify_jwt key_of now jwt reply v token ≡ returned (found, v')
        → (v' ≡ v) × ((claims : Claims) → found ≡ some claims → Vouched jwt v token claims)
    unfolding verify_jwt
    verify_jwt-Vouched found v' h = fine (found, v') h
      where
        fine : Fine (verify_jwt key_of now jwt reply v token)
        fine = elim (Bool-cases (is_blank token)) [
          | inl e ↦ rw (e, verify_jwt) none-Fine
          | inr nonblank ↦ elim (Bool-cases (str_eq v.config.algorithm "RS256")) [
            | inl r ↦
                rw (nonblank, r, verify_jwt)
                  (verify_rs256_token-Fine ((eq_iff v.config.algorithm "RS256").0 r))
            | inr n ↦ elim (Bool-cases (str_eq v.config.algorithm "HS256")) [
              | inl s ↦
                  rw (nonblank, n, s, verify_jwt)
                    (verify_hs256_token-Fine ((eq_iff v.config.algorithm "HS256").0 s))
              | inr m ↦ rw (nonblank, n, m, verify_jwt) none-Fine
            ]
          ]
        ]
