-- ===== src/Api/Tests.antt =====
-- Tests and examples of the answers to errors.
use radio_container.Prelude.{◌≡◌, refl, [], none, some, codes}
use radio_container.Adapter.Errors.{
  Err, message, wrapped, no_details, code_text, error_text, map_vendor_error_to_code,
  normalize_vendor_error,
}
use radio_container.Api.Errors.{
  Reply, program, unauthorized, forbidden, resource_not_found, api_error, of_error, to_api_error,
}
use radio_container.Api.Errors.Mapping.{status_of, to_api_error-normalize_vendor_error}

abbrev busy_error : Err
busy_error = message (codes "radio: rf_busy now")

statuses :
    ((to_api_error none).0 ≡ 200)
    × ((to_api_error (some unauthorized)).0 ≡ 401)
    × ((to_api_error (some forbidden)).0 ≡ 403)
    × ((to_api_error (some resource_not_found)).0 ≡ 404)
    × ((to_api_error (some (api_error "NOT_IMPLEMENTED" [] 501))).0 ≡ 501)
unfolding to_api_error
statuses = (refl, refl, refl, refl, refl)

to_api_error-normalize_vendor_error_example :
    (reply : Reply) × (to_api_error (
        some
          (program (wrapped (codes "set power: ") (normalize_vendor_error busy_error no_details))))
      ≡ (status_of (map_vendor_error_to_code (error_text busy_error) "generic"), some reply))
    × (reply.code ≡ code_text (map_vendor_error_to_code (error_text busy_error) "generic"))
    × (reply.details ≡ of_error no_details)
to_api_error-normalize_vendor_error_example =
    to_api_error-normalize_vendor_error busy_error no_details (codes "set power: ")
