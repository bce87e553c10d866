-- ===== src/Auth/Tokens/Examples.antt =====
-- Tests and an example of the verification of tokens.
use radio_container.Prelude.{
  ℕ, ◌≡◌, refl, List, [], ◌∷◌, Option, none, some, codes, any, ◌==◌, if◌then◌else◌,
}
use radio_container.Prelude.Int.{pos}
use radio_container.Prelude.Dict.{get}
use radio_container.Auth.{Claims}
use radio_container.Auth.Tokens.{
  Jwk, MapClaims, text, items, rsa, hmac, Jwt, JwtVerifier, returned, blocked, base64_url_decode,
  exponent, verify_jwt,
}
use radio_container.Auth.Tokens.Verified.{Vouched, verify_jwt-Vouched}

abbrev inside : MapClaims
inside =
    ("sub", text "u")
    ∷ ("roles", items (some "viewer" ∷ []))
    ∷ ("scopes", items (some "read" ∷ some "telemetry" ∷ []))
    ∷ []

abbrev viewer : Claims
viewer = record { subject = "u"; roles = "viewer" ∷ []; scopes = "read" ∷ "telemetry" ∷ [] }

-- A library for which every token names RS256 and the key "k", and is valid under the key 7.
abbrev library : Jwt ℕ
library = record {
  header = λ token. some ("RS256", some "k");
  claims_under =
      λ key token. elim key [ rsa k ↦ if k == 7 then some inside else none | hmac s ↦ none ];
}

abbrev verifier : JwtVerifier ℕ
verifier = record {
  config = record {
    public_key_pem = "";
    jwks_url = "https://keys";
    secret_key = "";
    algorithm = "RS256";
    jwks_refresh_interval = pos 10;
    jwks_cache_timeout = pos 100;
  };
  public_key = none;
  jwks_cache = ("k", (7, 5)) ∷ [];
  last_fetch = 5;
}

abbrev no_key : Jwk → Option ℕ
no_key jwk = none

verifies : verify_jwt no_key 20 library none verifier (codes "t") ≡ returned (some viewer, verifier)
unfolding verify_jwt get
verifies = refl

-- Once the entry is too old the call blocks, if the keys can be fetched.
blocks : verify_jwt no_key 200 library (some []) verifier (codes "t") ≡ blocked
unfolding verify_jwt get
blocks = refl

-- A decoder that takes no padding, here one that takes every text without a padding character.
abbrev raw_decode : List ℕ → Option (List ℕ)
raw_decode t = if any (λ c. c == b'=') t then none else some t

padding :
    (base64_url_decode raw_decode (codes "AQAB") ≡ some (codes "AQAB"))
    × (base64_url_decode raw_decode (codes "AQ") ≡ none)
    × (base64_url_decode raw_decode (codes "AQA") ≡ none)
unfolding base64_url_decode
padding = (refl, refl, refl)

-- The usual exponent, "AQAB" in base64, from its bytes.
exponent_bytes : exponent 0 (1 ∷ 0 ∷ 1 ∷ []) ≡ 65537
unfolding exponent
exponent_bytes = refl

verify_jwt-Vouched_example :
    (verifier ≡ verifier)
    × ((claims : Claims) → some viewer ≡ some claims → Vouched library verifier (codes "t") claims)
verify_jwt-Vouched_example =
    verify_jwt-Vouched no_key 20 library none verifier (codes "t") (some viewer) verifier verifies
