-- ===== src/Adapter/Errors.antt =====
-- rcc/internal/adapter/errors.go and command/ports.go: the errors that travel through the program,
-- the token tables, and the mapping of a vendor's message to a normalized code.
-- Messages are ASCII: `strings.ToUpper` is modelled on ASCII letters.
pub mod Tokens
pub mod Classify
use radio_container.Prelude.{
  ℕ, ◌++◌, ◌≡◌, refl, Bool, List, [], ◌∷◌, Option, none, some, String, codes, contains, to_upper,
  any, if◌then◌else◌,
}
use radio_container.Prelude.Dict.{Dict, get}
use radio_container.Prelude.Int.{ℤ}

-- `ErrInvalidRange`, `ErrBusy`, `ErrUnavailable`, `ErrInternal`
pub data Code : Type 0 where
  invalid_range busy unavailable internal : Code

-- The payload of a `VendorError`: nil, or the map that a failed channel lookup builds.
pub data Details : Type 0 where
  no_details : Details
  channel_lookup : (radio_id : String) (requested_index : ℤ) (available_channels : ℕ) → Details

-- The values of Go's `error` that the program passes on: a sentinel, a `VendorError` with the code,
-- the original error and the details, the sentinels of the command package, any other message, and
-- an error wrapped by `%w` behind a text.
pub data Err : Type 0 where
  sentinel : Code → Err
  vendor_error : Code → Err → Details → Err
  not_found : Err
  invalid_parameter : Err
  message : List ℕ → Err
  wrapped : List ℕ → Err → Err

unfoldable pub code_text : Code → String
code_text invalid_range = "INVALID_RANGE"
code_text busy = "BUSY"
code_text unavailable = "UNAVAILABLE"
code_text internal = "INTERNAL"

-- `err.Error()`
unfoldable pub error_text : Err → List ℕ
unfolding code_text
error_text (sentinel c) = codes (code_text c)
error_text (vendor_error c original _) =
    codes (code_text c) ++ (codes " (vendor: " ++ (error_text original ++ codes ")"))
error_text not_found = codes "NOT_FOUND"
error_text invalid_parameter = codes "BAD_REQUEST"
error_text (message text) = text
error_text (wrapped text e) = text ++ error_text e

pub record VendorMap : Type 0 where
  pub range : List String
  pub busy : List String
  pub unavailable : List String

unfoldable pub silvus : VendorMap
silvus = record {
  range =
      "TX_POWER_OUT_OF_RANGE" ∷ "FREQUENCY_OUT_OF_RANGE" ∷ "INVALID_POWER_LEVEL"
      ∷ "INVALID_FREQUENCY" ∷ "PARAMETER_OUT_OF_RANGE" ∷ "VALUE_OUT_OF_BOUNDS" ∷ "INVALID_PARAMETER"
      ∷ [];
  busy =
      "RF_BUSY" ∷ "TRANSMITTER_BUSY" ∷ "RADIO_BUSY" ∷ "OPERATION_IN_PROGRESS" ∷ "COMMAND_QUEUE_FULL"
      ∷ "RATE_LIMITED" ∷ [];
  unavailable =
      "NODE_UNAVAILABLE" ∷ "RADIO_OFFLINE" ∷ "REBOOTING" ∷ "SOFT_BOOT_IN_PROGRESS"
      ∷ "SYSTEM_INITIALIZING" ∷ "NOT_READY" ∷ "OFFLINE" ∷ [];
}

unfoldable pub generic : VendorMap
generic = record {
  range = "OUT_OF_RANGE" ∷ "INVALID_PARAMETER" ∷ "INVALID_RANGE" ∷ "BAD_VALUE" ∷ "RANGE_ERROR" ∷ [];
  busy = "BUSY" ∷ "RETRY" ∷ "RATE_LIMIT" ∷ "TOO_MANY_REQUESTS" ∷ "BACKOFF" ∷ [];
  unavailable = "UNAVAILABLE" ∷ "REBOOT" ∷ "SOFT_BOOT" ∷ "OFFLINE" ∷ "NOT_READY" ∷ [];
}

unfoldable pub vendor_error_mappings : Dict VendorMap
unfolding silvus generic
vendor_error_mappings = ("silvus", silvus) ∷ ("generic", generic) ∷ []

-- A missing key yields Go's zero value.
abbrev or_zero : Option VendorMap → VendorMap
or_zero (some m) = m
or_zero none = record { range = []; busy = []; unavailable = [] }

-- The vendor's table, or the generic one for an unknown vendor.
unfoldable pub vendor_map : String → VendorMap
unfolding get vendor_error_mappings
vendor_map vendor_id = elim (get vendor_error_mappings vendor_id) [
  | some m ↦ m
  | none ↦ or_zero (get vendor_error_mappings "generic")
]

-- One of the three loops over tokens.
unfoldable pub mentions : List ℕ → List String → Bool
mentions upper_msg tokens = any (λ token. contains upper_msg (to_upper (codes token))) tokens

-- The cascade of the three loops.
unfoldable pub classify : VendorMap → List ℕ → Code
unfolding mentions
classify m upper_msg =
    if mentions upper_msg m.range
    then invalid_range
    else if mentions upper_msg m.busy
    then busy
    else if mentions upper_msg m.unavailable
    then unavailable
    else internal

unfoldable pub map_vendor_error_to_code : List ℕ → String → Code
unfolding vendor_map classify to_upper
map_vendor_error_to_code msg vendor_id = classify (vendor_map vendor_id) (to_upper msg)

unfoldable pub normalize_vendor_error_with_vendor : Option Err → Details → String → Option Err
unfolding map_vendor_error_to_code error_text
normalize_vendor_error_with_vendor none payload vendor_id = none
normalize_vendor_error_with_vendor (some e) payload vendor_id =
    some (vendor_error (map_vendor_error_to_code (error_text e) vendor_id) e payload)

-- `NormalizeVendorError` on an error that is not nil.
unfoldable pub normalize_vendor_error : Err → Details → Err
unfolding map_vendor_error_to_code error_text
normalize_vendor_error e payload =
    vendor_error (map_vendor_error_to_code (error_text e) "generic") e payload
