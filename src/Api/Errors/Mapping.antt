-- ===== src/Api/Errors/Mapping.antt =====
-- The API's answer to the errors of the adapters.
use radio_container.Prelude.{ap, ℕ, ◌≡◌, refl, List, some, Option-cases, inl, inr}
use radio_container.Adapter.Errors.{
  Code, invalid_range, busy, unavailable, internal, Details, Err, sentinel, vendor_error, not_found,
  invalid_parameter, message, wrapped, code_text, error_text, map_vendor_error_to_code,
  normalize_vendor_error,
}
use radio_container.Api.Errors.{
  adapter_reply, program, of_error, Reply, as_vendor_error, root, map_adapter_error, sentinel_reply,
  program_reply, to_api_error,
}

code_text-reply : (c : Code) → (map_adapter_error c).0 ≡ code_text c
unfolding map_adapter_error code_text
code_text-reply invalid_range = refl
code_text-reply busy = refl
code_text-reply unavailable = refl
code_text-reply internal = refl

-- The status that an HTTP client expects of a code.
abbrev pub status_of : Code → ℕ
status_of invalid_range = 400
status_of busy = 503
status_of unavailable = 503
status_of internal = 500

status-reply : (c : Code) → (map_adapter_error c).1 ≡ status_of c
unfolding map_adapter_error
status-reply invalid_range = refl
status-reply busy = refl
status-reply unavailable = refl
status-reply internal = refl

-- An adapter's error that was normalized and wrapped in a text is answered by the code that its text was mapped to, as
-- text and as HTTP status (400 for a range, 503 for busy and unavailable, 500 for internal), with the
-- details that came with it.
pub to_api_error-normalize_vendor_error :
    (e : Err) (payload : Details) (text : List ℕ)
    → (reply : Reply) × (to_api_error
          (some (program (wrapped text (normalize_vendor_error e payload))))
        ≡ (status_of (map_vendor_error_to_code (error_text e) "generic"), some reply))
      × (reply.code ≡ code_text (map_vendor_error_to_code (error_text e) "generic"))
      × (reply.details ≡ of_error payload)
unfolding to_api_error program_reply as_vendor_error normalize_vendor_error
to_api_error-normalize_vendor_error e payload text =
    let c = map_vendor_error_to_code (error_text e) "generic" in
    (
      adapter_reply c payload,
      ap (λ n. (n, some (adapter_reply c payload))) (status-reply c),
      code_text-reply c,
      refl,
    )

-- The answer depends on the error itself only in its details.
sentinel_reply-same :
    (a b r : Err)
    → ((sentinel_reply a r).status ≡ (sentinel_reply b r).status)
      × ((sentinel_reply a r).code ≡ (sentinel_reply b r).code)
unfolding sentinel_reply
sentinel_reply-same a b (sentinel c) = (refl, refl)
sentinel_reply-same a b (vendor_error c o d) = (refl, refl)
sentinel_reply-same a b not_found = (refl, refl)
sentinel_reply-same a b invalid_parameter = (refl, refl)
sentinel_reply-same a b (message t) = (refl, refl)
sentinel_reply-same a b (wrapped t e) = (refl, refl)

-- Wrapping an error in more text changes neither the status nor the code of the answer.
pub to_api_error-wrapped :
    (text : List ℕ) (e : Err)
    → ((to_api_error (some (program (wrapped text e)))).0 ≡ (to_api_error (some (program e))).0)
      × ((program_reply (wrapped text e)).code ≡ (program_reply e).code)
unfolding to_api_error program_reply root as_vendor_error
to_api_error-wrapped text e = elim (Option-cases (as_vendor_error e)) [
  | inl other ↦ rw (other, program_reply) (sentinel_reply-same (wrapped text e) e (root e))
  | inr (found, vendor) ↦ rw (vendor, program_reply) (refl, refl)
]
