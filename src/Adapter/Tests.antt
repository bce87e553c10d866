-- ===== src/Adapter/Tests.antt =====
-- Tests and examples of the error mapping.
use radio_container.Prelude.{some, ℕ, ◌≡◌, refl, List, codes}
use radio_container.Adapter.Errors.{
  normalize_vendor_error_with_vendor, busy, vendor_error, no_details, silvus, message,
  map_vendor_error_to_code, normalize_vendor_error,
}
use radio_container.Adapter.Errors.Classify.{Means, map_vendor_error_to_code-Means}

abbrev busy_text : List ℕ
busy_text = codes "radio: rf_busy now"

normalize_busy :
    normalize_vendor_error (message busy_text) no_details
    ≡ vendor_error busy (message busy_text) no_details
unfolding normalize_vendor_error
normalize_busy = refl

normalize_generic :
    normalize_vendor_error_with_vendor (some (message busy_text)) no_details "generic"
    ≡ some (normalize_vendor_error (message busy_text) no_details)
unfolding normalize_vendor_error_with_vendor normalize_vendor_error
normalize_generic = refl

map_vendor_error_to_code-Means_example :
    Means silvus busy_text (map_vendor_error_to_code busy_text "silvus")
map_vendor_error_to_code-Means_example = map_vendor_error_to_code-Means busy_text "silvus"
