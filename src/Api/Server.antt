-- ===== src/Api/Server.antt =====
-- rcc/internal/api/ports.go, server.go, response.go and routes.go: the server's ports and the handlers
-- of its endpoints. A body is a value of a type `B` with the results of the strict decoding of JSON;
-- correlation ids and headers are left out. `S` is all that stands behind the ports.
use radio_container.Prelude.{
  ℕ, Bool, true, false, ◌&&◌, ◌||◌, ◌==◌, zero, suc, is_nil, List, [], ◌∷◌, Option, none, some,
  String, str_eq, codes, has_prefix, if◌then◌else◌,
}
use Prim.Native.Char.{code}
use radio_container.Prelude.Int.{ℤ}
use radio_container.Adapter.Errors.{Err}
use radio_container.Adapter.{RadioState, Result, ok, err}
use radio_container.Radio.{Radio, RadioList}
use radio_container.Api.Errors.{Reply, program, to_api_error}
use radio_container.Auth.{HandlerFunc, Verifier, text_eq}

-- `OrchestratorPort`, where the last call gets the server's radio manager.
pub record OrchestratorPort (F S : Type 0) : Type 0 where
  pub select_radio : String → S → Option Err × S
  pub get_state : String → S → Result (RadioState F) × S
  pub set_power : String → F → S → Option Err × S
  pub set_channel : String → F → S → Option Err × S
  pub set_channel_by_index : String → ℤ → S → Option Err × S

-- `RadioReadPort`, as far as the handlers use it.
pub record RadioReadPort (F S : Type 0) : Type 0 where
  pub get_radio : String → S → Option (Radio F) × S
  pub list : S → RadioList F

-- `Subscribe`: whether it failed.
pub record TelemetryPort (S : Type 0) : Type 0 where
  pub subscribe : S → Bool × S

-- The server, with its ports where they are not nil.
pub record Server (F S : Type 0) : Type 0 where
  pub telemetry_hub : Option (TelemetryPort S)
  pub orchestrator : Option (OrchestratorPort F S)
  pub radio_manager : Option (RadioReadPort F S)
  -- a middleware, with its verifier
  pub auth_middleware : Option (Option Verifier)

-- A body that is not one JSON object of the expected fields, one with data after it, or a value.
pub data Decoded (X : Type 0) : Type 0 where
  malformed trailing : Decoded X
  decoded : X → Decoded X

pub record Decoders (B F : Type 0) : Type 0 where
  pub radio_id : B → Decoded String
  pub power : B → Decoded F
  pub channel : B → Decoded (Option ℤ × Option F)

-- The data of a success.
pub data Payload (F : Type 0) : Type 0 where
  capabilities : Payload F
  radios : RadioList F → Payload F
  active_radio : String → Payload F
  one_radio : Radio F → Payload F
  power : F → Payload F
  channel : Option F → Option ℤ → Payload F
  -- overall status "ok"
  healthy : Payload F

-- What a handler writes: a success, an error, the answer to an error of the program, a stream of
-- events, or the health of the three subsystems with an error.
pub data Answer (F : Type 0) : Type 0 where
  success : Payload F → Answer F
  failure : ℕ → String → String → Answer F
  api_reply : ℕ × Option Reply → Answer F
  stream : Answer F
  degraded : Bool → Bool → Bool → Answer F

abbrev pub unavailable_answer : {F : Type 0} → String → Answer F
unavailable_answer message = failure 503 "UNAVAILABLE" message

abbrev pub not_allowed : {F : Type 0} → String → Answer F
not_allowed message = failure 405 "METHOD_NOT_ALLOWED" message

abbrev pub only_get : {F : Type 0} → Answer F
only_get = not_allowed "Only GET method is allowed"

-- The answer to an error of the orchestrator, or a success.
unfoldable pub answer_of : {F : Type 0} → Option Err → Payload F → Answer F
answer_of none payload = success payload
answer_of (some e) payload = api_reply (to_api_error (some (program e)))

-- The two checks of a body.
unfoldable pub with_body : {X F S : Type 0} → Decoded X → (X → S → Answer F × S) → S → Answer F × S
with_body malformed next s = (failure 400 "BAD_REQUEST" "Malformed JSON or unknown fields", s)
with_body trailing next s = (failure 400 "BAD_REQUEST" "Trailing data after JSON object", s)
with_body (decoded x) next s = next x s

-- `path[n:]`
unfoldable pub drop_chars : ℕ → String → String
drop_chars zero s = s
drop_chars (suc n) String.[] = String.[]
drop_chars (suc n) (String.◌∷◌ c s) = drop_chars n s

-- The first part of `strings.Split(path, "/")`
unfoldable pub first_part : String → String
first_part String.[] = String.[]
first_part (String.◌∷◌ c s) =
    let rest = first_part s in if code c == b'/' then String.[] else String.◌∷◌ c rest

-- `strings.HasSuffix`
unfoldable pub has_suffix : List ℕ → List ℕ → Bool
has_suffix [] t = is_nil t
has_suffix (c ∷ s) t = text_eq (c ∷ s) t || has_suffix s t

-- Empty where there is no id.
unfoldable pub extract_radio_id : String → String
unfolding drop_chars first_part
extract_radio_id path =
    if has_prefix (codes path) (codes "/api/v1/radios/")
    then first_part (drop_chars 15 path)
    else ""

abbrev pub is_some : {X : Type 0} → Option X → Bool
is_some none = false
is_some (some x) = true

module _ {F S B : Type 0} (server : Server F S) (decode : Decoders B F) where
  abbrev pub Handler : Type 0
  Handler = HandlerFunc B S (Answer F)

  unfoldable pub handle_capabilities : Handler
  handle_capabilities r s =
      if str_eq r.method "GET" then (success capabilities, s) else (only_get, s)

  unfoldable pub handle_radios : Handler
  handle_radios r s =
      if str_eq r.method "GET"
      then elim server.radio_manager [
        | none ↦ (unavailable_answer "Radio manager not available", s)
        | some manager ↦ (success (radios (manager.list s)), s)
      ]
      else (only_get, s)

  -- The call of the orchestrator, which also needs the radio manager.
  unfoldable pub select : String → S → Answer F × S
  unfolding answer_of
  select radio_id s =
      if is_some server.radio_manager
      then elim server.orchestrator [
        | none ↦ (unavailable_answer "Service not available", s)
        | some o ↦
            let out = o.select_radio radio_id s in (answer_of out.0 (active_radio radio_id), out.1)
      ]
      else (unavailable_answer "Service not available", s)

  unfoldable pub handle_select_radio : Handler
  unfolding with_body select
  handle_select_radio r s =
      if str_eq r.method "POST"
      then with_body (decode.radio_id r.body) select s
      else (not_allowed "Only POST method is allowed", s)

  -- Without an id in the path a request is refused.
  unfoldable pub with_radio_id : (String → S → Answer F × S) → Handler
  unfolding extract_radio_id
  with_radio_id next r s =
      if str_eq (extract_radio_id r.path) ""
      then (failure 400 "INVALID_RANGE" "Radio ID is required", s)
      else next (extract_radio_id r.path) s

  unfoldable pub radio_answer : Option (Radio F) → Answer F
  radio_answer none = failure 404 "NOT_FOUND" "Radio not found"
  radio_answer (some radio) = success (one_radio radio)

  unfoldable pub read_radio : String → S → Answer F × S
  unfolding radio_answer
  read_radio radio_id s = elim server.radio_manager [
    | none ↦ (unavailable_answer "Radio manager not available", s)
    | some manager ↦ let out = manager.get_radio radio_id s in (radio_answer out.0, out.1)
  ]

  unfoldable pub handle_radio_by_id : Handler
  unfolding with_radio_id read_radio
  handle_radio_by_id r s =
      if str_eq r.method "GET" then with_radio_id read_radio r s else (only_get, s)

  unfoldable pub state_answer : (RadioState F → Payload F) → Result (RadioState F) → Answer F
  state_answer show (ok state) = success (show state)
  state_answer show (err e) = api_reply (to_api_error (some (program e)))

  -- `handleGetPower` and `handleGetChannel`
  unfoldable pub read_state : (RadioState F → Payload F) → String → S → Answer F × S
  unfolding state_answer
  read_state show radio_id s = elim server.orchestrator [
    | none ↦ (unavailable_answer "Service not available", s)
    | some o ↦ let out = o.get_state radio_id s in (state_answer show out.0, out.1)
  ]

  abbrev show_power : RadioState F → Payload F
  show_power state = power state.power_dbm

  abbrev show_channel : RadioState F → Payload F
  show_channel state = channel (some state.frequency_mhz) none

  unfoldable pub set_power_to : String → F → S → Answer F × S
  unfolding answer_of
  set_power_to radio_id dbm s = elim server.orchestrator [
    | none ↦ (unavailable_answer "Service not available", s)
    | some o ↦ let out = o.set_power radio_id dbm s in (answer_of out.0 (power dbm), out.1)
  ]

  unfoldable pub handle_radio_power : Handler
  unfolding with_radio_id read_state with_body set_power_to
  handle_radio_power r s =
      with_radio_id
        (λ radio_id s'.
          if str_eq r.method "GET"
          then read_state show_power radio_id s'
          else if str_eq r.method "POST"
          then with_body (decode.power r.body) (set_power_to radio_id) s'
          else (not_allowed "Only GET and POST methods are allowed", s'))
        r s

  -- The frequency wins if both are given.
  unfoldable pub tune : OrchestratorPort F S → String → Option ℤ → Option F → S → Answer F × S
  unfolding answer_of
  tune o radio_id index (some f) s =
      let out = o.set_channel radio_id f s in (answer_of out.0 (channel (some f) index), out.1)
  tune o radio_id (some index) none s =
      let out = o.set_channel_by_index radio_id index s in
      (answer_of out.0 (channel none (some index)), out.1)
  tune o radio_id none none s =
      (failure 400 "BAD_REQUEST" "Either channelIndex or frequencyMhz must be provided", s)

  unfoldable pub set_channel_to : String → Option ℤ × Option F → S → Answer F × S
  unfolding tune
  set_channel_to radio_id (index, f) s =
      if is_some index || is_some f
      then elim server.orchestrator [
        | none ↦ (unavailable_answer "Service not available", s)
        | some o ↦ tune o radio_id index f s
      ]
      else (failure 400 "BAD_REQUEST" "Either channelIndex or frequencyMhz must be provided", s)

  unfoldable pub handle_radio_channel : Handler
  unfolding with_radio_id read_state with_body set_channel_to
  handle_radio_channel r s =
      with_radio_id
        (λ radio_id s'.
          if str_eq r.method "GET"
          then read_state show_channel radio_id s'
          else if str_eq r.method "POST"
          then with_body (decode.channel r.body) (set_channel_to radio_id) s'
          else (not_allowed "Only GET and POST methods are allowed", s'))
        r s

  unfoldable pub handle_telemetry : Handler
  handle_telemetry r s =
      if str_eq r.method "GET"
      then elim server.telemetry_hub [
        | none ↦ (unavailable_answer "Telemetry service not available", s)
        | some hub ↦
            let out = hub.subscribe s in
            (
              if out.0
                  then failure 500 "INTERNAL" "Failed to subscribe to telemetry stream"
                  else stream,
              out.1,
            )
      ]
      else (only_get, s)

  -- `checkSubsystemHealth` is the three tests on nil.
  unfoldable pub handle_health : Handler
  handle_health r s =
      let telemetry = is_some server.telemetry_hub in
      let orchestrator = is_some server.orchestrator in
      let manager = is_some server.radio_manager in
      if str_eq r.method "GET"
      then (
        if telemetry && (orchestrator && manager)
            then success healthy
            else degraded telemetry orchestrator manager,
        s,
      )
      else (only_get, s)
