-- ===== src/Api/Routes.antt =====
-- rcc/internal/api/routes.go: which handler gets a request, behind which check. Go's `ServeMux` takes
-- the longest pattern that matches the path; its redirects are left out.
use radio_container.Prelude.{[], ◌∷◌, none, some, String, str_eq, codes, has_prefix, if◌then◌else◌}
use radio_container.Auth.{HandlerFunc, require_auth, require_scope}
use radio_container.Api.Server.{
  Server, Decoders, Answer, failure, extract_radio_id, has_suffix, handle_capabilities,
  handle_radios, handle_select_radio, handle_radio_by_id, handle_radio_power, handle_radio_channel,
  handle_telemetry, handle_health,
}

module _ {F S B : Type 0} (server : Server F S) (decode : Decoders B F) where
  abbrev Handler : Type 0
  Handler = HandlerFunc B S (Answer F)

  -- `RequireAuth(RequireScope(scope)(next))`, or `next` where there is no middleware.
  unfoldable pub protect : String → Handler → Handler
  unfolding require_auth require_scope
  protect scope next r s = elim server.auth_middleware [
    | none ↦ next r s
    | some verifier ↦ require_auth failure verifier (require_scope failure (scope ∷ []) next) r s
  ]

  -- A handler for reading and writing: the scope depends on the method.
  unfoldable pub protect_by_method : Handler → Handler
  unfolding protect
  protect_by_method next r s =
      if str_eq r.method "GET"
      then protect "read" next r s
      else if str_eq r.method "POST"
      then protect "control" next r s
      else next r s

  unfoldable pub handle_radio_endpoints : Handler
  unfolding protect_by_method extract_radio_id has_suffix
  handle_radio_endpoints r s =
      if str_eq (extract_radio_id r.path) ""
      then (failure 400 "INVALID_RANGE" "Radio ID is required", s)
      else if has_suffix (codes r.path) (codes "/power")
      then protect_by_method (handle_radio_power server decode) r s
      else if has_suffix (codes r.path) (codes "/channel")
      then protect_by_method (handle_radio_channel server decode) r s
      else protect "read" (handle_radio_by_id server decode) r s

  -- `RegisterRoutes`, with what `ServeMux` does on a request.
  unfoldable pub serve : Handler
  unfolding handle_radio_endpoints
  serve r s =
      if str_eq r.path "/api/v1/health"
      then handle_health server decode r s
      else if str_eq r.path "/api/v1/capabilities"
      then protect "read" (handle_capabilities server decode) r s
      else if str_eq r.path "/api/v1/radios"
      then protect "read" (handle_radios server decode) r s
      else if str_eq r.path "/api/v1/radios/select"
      then protect "control" (handle_select_radio server decode) r s
      else if str_eq r.path "/api/v1/telemetry"
      then protect "telemetry" (handle_telemetry server decode) r s
      else if has_prefix (codes r.path) (codes "/api/v1/radios/")
      then handle_radio_endpoints r s
      else (failure 404 "NOT_FOUND" "404 page not found", s)
