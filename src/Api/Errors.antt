-- ===== src/Api/Errors.antt =====
-- rcc/internal/api/errors.go: the HTTP status and the body of an error. The body's correlation id and
-- its rendering as JSON are left out, and so is the fallback for a body that cannot be rendered.
pub mod Mapping
use radio_container.Prelude.{ℕ, List, Option, none, some, String, codes}
use radio_container.Adapter.Errors.{
  Code, invalid_range, busy, unavailable, internal, Details, no_details, Err, sentinel,
  vendor_error, not_found, invalid_parameter, message, wrapped, error_text,
}

-- The errors that the API answers: those of the program, its own sentinels `ErrUnauthorizedError`,
-- `ErrForbiddenError` and `ErrNotFoundError`, and an `APIError`.
pub data Failure : Type 0 where
  program : Err → Failure
  unauthorized : Failure
  forbidden : Failure
  resource_not_found : Failure
  api_error : (code : String) (text : List ℕ) (status : ℕ) → Failure

-- The details of a body: those of the error, or the text under the key "original".
pub data BodyDetails : Type 0 where
  of_error : Details → BodyDetails
  original : List ℕ → BodyDetails

pub record Reply : Type 0 where
  pub status : ℕ
  pub code : String
  pub text : List ℕ
  pub details : BodyDetails

-- `errors.As(err, &vendorErr)`: the first vendor error behind the wrappings.
pub as_vendor_error : Err → Option (Code × Err × Details)
as_vendor_error (vendor_error c e d) = some (c, e, d)
as_vendor_error (wrapped text e) = as_vendor_error e
as_vendor_error _ = none

-- What stands behind the wrappings: `errors.Is` compares this with a sentinel.
pub root : Err → Err
root (wrapped text e) = root e
root e = e

pub map_adapter_error : Code → String × ℕ
map_adapter_error invalid_range = ("INVALID_RANGE", 400)
map_adapter_error busy = ("BUSY", 503)
map_adapter_error unavailable = ("UNAVAILABLE", 503)
map_adapter_error internal = ("INTERNAL", 500)

-- `getErrorMessage` for an adapter's code.
pub get_error_message : Code → List ℕ
get_error_message invalid_range = codes "Parameter value is outside the allowed range"
get_error_message busy = codes "Service is busy, please retry with backoff"
get_error_message unavailable = codes "Service is temporarily unavailable"
get_error_message internal = codes "Internal server error"

abbrev pub plain : ℕ → String → String → Reply
plain status code text = record {
  status = status;
  code = code;
  text = codes text;
  details = of_error no_details;
}

abbrev pub adapter_reply : Code → Details → Reply
adapter_reply c d = record {
  status = (map_adapter_error c).1;
  code = (map_adapter_error c).0;
  text = get_error_message c;
  details = of_error d;
}

-- The checks by `errors.Is`, on what stands behind the wrappings of the error `e`.
pub sentinel_reply : Err → Err → Reply
sentinel_reply e (sentinel c) = adapter_reply c no_details
sentinel_reply e not_found = plain 404 "NOT_FOUND" "Resource not found"
sentinel_reply e invalid_parameter =
    plain 400 "BAD_REQUEST" "Malformed or missing required parameter"
sentinel_reply e _ = record (plain 500 "INTERNAL" "Internal server error") {
  details = original (error_text e);
}

-- An error of the program: as a vendor error if there is one behind the wrappings, else by sentinel.
pub program_reply : Err → Reply
unfolding as_vendor_error root map_adapter_error get_error_message sentinel_reply
program_reply e = elim (as_vendor_error e) [
  | some (c, cause, d) ↦ adapter_reply c d
  | none ↦ sentinel_reply e (root e)
]

-- An error that is nil is answered by status 200 and no body.
unfoldable pub to_api_error : Option Failure → ℕ × Option Reply
unfolding program_reply
to_api_error none = (200, none)
to_api_error (some (program e)) = ((program_reply e).status, some (program_reply e))
to_api_error (some unauthorized) = (401, some (plain 401 "UNAUTHORIZED" "Authentication required"))
to_api_error (some forbidden) = (403, some (plain 403 "FORBIDDEN" "Insufficient permissions"))
to_api_error (some resource_not_found) = (404, some (plain 404 "NOT_FOUND" "Resource not found"))
to_api_error (some (api_error c text status)) = (
  status,
  some (record { status = status; code = c; text = text; details = of_error no_details }),
)
