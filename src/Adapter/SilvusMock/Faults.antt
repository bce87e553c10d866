-- ===== src/Adapter/SilvusMock/Faults.antt =====
-- The faults of rcc/internal/adapter/silvusmock/silvusmock.go and their codes.
use radio_container.Prelude.{
  ◌≡◌, refl, ◌∙◌, ◌++◌, Option, none, some, String, str_eq, codes, inl, inr, Bool-cases,
  if◌then◌else◌, to_upper,
}
use radio_container.Prelude.Dict.{get}
use radio_container.Adapter.Errors.{
  Code, invalid_range, busy, unavailable, Err, message, error_text, map_vendor_error_to_code,
  classify, vendor_map, mentions, vendor_error_mappings, generic,
}
use radio_container.Adapter.SilvusMock.{SilvusMock, check_fault_mode}

-- The code that a fault mode stands for.
unfoldable pub fault_code : String → Option Code
fault_code mode =
    if str_eq mode "ReturnBusy"
    then some busy
    else if str_eq mode "ReturnUnavailable"
    then some unavailable
    else if str_eq mode "ReturnInvalidRange"
    then some invalid_range
    else none

abbrev pub code_of : Err → Code
code_of e = map_vendor_error_to_code (error_text e) "generic"

abbrev pub busy_error : String → Err
busy_error operation =
    message (codes "BUSY: SilvusMock simulated busy error for " ++ codes operation)

abbrev pub unavailable_error : String → Err
unavailable_error operation =
    message (codes "UNAVAILABLE: SilvusMock simulated unavailable error for " ++ codes operation)

abbrev pub range_error : String → Err
range_error operation =
    message
      (codes "INVALID_RANGE: SilvusMock simulated invalid range error for " ++ codes operation)

-- The messages of an operation have the codes that they begin with.
pub record Named (operation : String) : Type 0 where
  pub as_busy : code_of (busy_error operation) ≡ busy
  pub as_unavailable : code_of (unavailable_error operation) ≡ unavailable
  pub as_invalid_range : code_of (range_error operation) ≡ invalid_range

pub set_power-Named : Named "SetPower"
unfolding map_vendor_error_to_code classify vendor_map mentions vendor_error_mappings generic get
    error_text to_upper
set_power-Named = record { as_busy = refl; as_unavailable = refl; as_invalid_range = refl }

pub set_frequency-Named : Named "SetFrequency"
unfolding map_vendor_error_to_code classify vendor_map mentions vendor_error_mappings generic get
    error_text to_upper
set_frequency-Named = record { as_busy = refl; as_unavailable = refl; as_invalid_range = refl }

pub get_state-Named : Named "GetState"
unfolding map_vendor_error_to_code classify vendor_map mentions vendor_error_mappings generic get
    error_text to_upper
get_state-Named = record { as_busy = refl; as_unavailable = refl; as_invalid_range = refl }

-- In a fault mode an operation fails, by an error with the mode's code.
pub check_fault_mode-code :
    {F : Type 0} (s : SilvusMock F) (operation : String) (c : Code)
    → Named operation
    → fault_code s.fault_mode ≡ some c
    → (e : Err) × (check_fault_mode s operation ≡ some e) × (code_of e ≡ c)
unfolding fault_code check_fault_mode
check_fault_mode-code s operation c named h = elim (Bool-cases (str_eq s.fault_mode "ReturnBusy")) [
  | inl b ↦
      let kind : fault_code s.fault_mode ≡ some busy = rw (b, fault_code) refl in
      (busy_error operation, rw (b, check_fault_mode) refl, named.as_busy ∙ cc)
  | inr nb ↦ elim (Bool-cases (str_eq s.fault_mode "ReturnUnavailable")) [
    | inl u ↦
        let kind : fault_code s.fault_mode ≡ some unavailable = rw (nb, u, fault_code) refl in
        (unavailable_error operation, rw (nb, u, check_fault_mode) refl, named.as_unavailable ∙ cc)
    | inr nu ↦ elim (Bool-cases (str_eq s.fault_mode "ReturnInvalidRange")) [
      | inl r ↦
          let kind : fault_code s.fault_mode ≡ some invalid_range =
            rw (nb, nu, r, fault_code) refl in
          (
            range_error operation,
            rw (nb, nu, r, check_fault_mode) refl,
            named.as_invalid_range ∙ cc,
          )
      | inr nr ↦
          let kind : fault_code s.fault_mode ≡ none = rw (nb, nu, nr, fault_code) refl in
          absurd (cc)
    ]
  ]
]
