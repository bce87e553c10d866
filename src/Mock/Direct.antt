-- ===== src/Mock/Direct.antt =====
-- `ExecuteCommand` of silvus-mock/internal/state/radio.go for a call that finds the queue empty and
-- the worker idle: its command is processed at one time, and a command that hangs is given up.
use radio_container.Prelude.{
  ℕ, ◌≤◌, ◌≡◌, refl, true, false, List, [], ◌∷◌, none, some, String, ltb, arith, Bool-cases, inl,
  inr, Option,
}
use radio_container.Prelude.Float.{Float}
use radio_container.Prelude.Int.{ℤ, ◌≤ℤ◌, lt_int, int_text}
use radio_container.Mock.Config.{Text}
use radio_container.Mock.Radio.Range.{Numbers}
use radio_container.Mock.Radio.{
  RadioState, CommandResponse, reply, refusal, done, texts, process_command, dispatch, kind_of,
  handle_get_freq, handle_get_power, handle_get_profiles, handle_set_power, take_power,
  set_current_power,
}
use radio_container.Mock.Queue.{execute_result, answered, response_late}
use radio_container.Mock.Commands.{Execute, World, Handler, get_handler}
use radio_container.Mock.Commands.Optional.{Readings}
use radio_container.Mock.Commands.Positioning.{GpsNumbers}
use radio_container.Mock.Commands.Server.{Request, process_request, new_registry}
use radio_container.Mock.Commands.Honest.{process_request-Honest}
use radio_container.Mock.Commands.Flags.{Promises}

-- The call's result and the radio after it.
unfoldable pub settle :
    RadioState → Option (CommandResponse × RadioState) → CommandResponse × RadioState
unfolding execute_result
settle rs none = (execute_result response_late, rs)
settle rs (some out) = (execute_result (answered out.0), out.1)

module _ {F : Type 0} ⦃o : Float F⦄ (numbers : Numbers F) (rounds now : ℕ) where
  unfoldable pub execute_at : Execute RadioState
  unfolding settle process_command
  execute_at name params rs =
      settle rs
        (process_command numbers rounds now now (record { name = name; params = params }) rs)

  execute_at-dark :
      (name : String) (params : List Text) (rs : RadioState)
      → ltb now rs.blackout_until ≡ true
      → execute_at name params rs ≡ (refusal "UNAVAILABLE", rs)
  unfolding execute_at process_command settle execute_result
  execute_at-dark name params rs dark = rw (dark, process_command) refl

  execute_at-clear :
      (name : String) (params : List Text) (rs : RadioState)
      → ltb now rs.blackout_until ≡ false
      → execute_at name params rs ≡ settle rs (dispatch numbers rounds now (kind_of name) params rs)
  unfolding execute_at process_command
  execute_at-clear name params rs clear = rw (clear, process_command) refl

  -- A command of which every answer leaves some part of the radio alone.
  execute_at-keeps :
      {X : Type 0} (part : RadioState → X) (name : String) (params : List Text) (rs : RadioState)
      → part (settle rs (dispatch numbers rounds now (kind_of name) params rs)).1 ≡ part rs
      → part (execute_at name params rs).1 ≡ part rs
  execute_at-keeps part name params rs h = elim (Bool-cases (ltb now rs.blackout_until)) [
    | inl dark ↦ rw (execute_at-dark name params rs dark) refl
    | inr clear ↦ rw (execute_at-clear name params rs clear) h
  ]

  take_power-until :
      (power : Option ℤ) (rs : RadioState)
      → (take_power power rs).1.blackout_until ≡ rs.blackout_until
  unfolding take_power set_current_power
  take_power-until none rs = refl
  take_power-until (some power) rs = ground arith

  handle_set_power-until :
      (params : List Text) (rs : RadioState)
      → (handle_set_power numbers params rs).1.blackout_until ≡ rs.blackout_until
  unfolding handle_set_power
  handle_set_power-until [] rs = refl
  handle_set_power-until (text ∷ []) rs = take_power-until (numbers.atoi text) rs
  handle_set_power-until (text ∷ other ∷ more) rs = refl

  pub execute_at-Promises : Promises (λ (rs : RadioState). rs.blackout_until) execute_at
  unfolding settle dispatch kind_of handle_get_freq handle_get_power handle_get_profiles
  execute_at-Promises = record {
    get_freq = λ params rs. execute_at-keeps (λ s. s) "getFreq" params rs refl;
    get_power = λ params rs. execute_at-keeps (λ s. s) "getPower" params rs refl;
    get_profiles = λ params rs. execute_at-keeps (λ s. s) "getProfiles" params rs refl;
    set_power = λ params rs.
        execute_at-keeps (λ s. s.blackout_until) "setPower" params rs
          (handle_set_power-until params rs);
    maintenance = λ params rs. execute_at-keeps (λ s. s) "maintenance" params rs refl;
  }

  pub execute_at-set_power :
      (text : Text) (power : ℤ) (rs : RadioState)
      → rs.blackout_until ≤ now
      → numbers.atoi text ≡ some power
      → rs.power_limits.min_dbm ≤ℤ power
      → power ≤ℤ rs.power_limits.max_dbm
      → execute_at "setPower" (text ∷ []) rs ≡ (done, set_current_power power rs)
  unfolding dispatch kind_of settle handle_set_power take_power execute_result
  execute_at-set_power text power rs h parsed low high =
      let clear : ltb now rs.blackout_until ≡ false = ground arith in
      let above : lt_int power rs.power_limits.min_dbm ≡ false = ground arith in
      let below : lt_int rs.power_limits.max_dbm power ≡ false = ground arith in
      rw
        (
          execute_at-clear "setPower" (text ∷ []) rs clear,
          parsed,
          above,
          below,
          dispatch,
          handle_set_power,
          take_power,
        )
        refl

  pub execute_at-get_power :
      (rs : RadioState)
      → rs.blackout_until ≤ now
      → execute_at "getPower" [] rs ≡ (reply (texts (int_text rs.current_power ∷ [])), rs)
  unfolding dispatch kind_of settle handle_get_power execute_result
  execute_at-get_power rs h =
      let clear : ltb now rs.blackout_until ≡ false = ground arith in
      execute_at-clear "getPower" [] rs clear

  -- A request to the server for a registered command that is declared read-only leaves the radio and
  -- the GPS as they were, and one for a command that is declared to require no blackout leaves the
  -- end of the radio's blackout as it was, if the radio's worker is idle.
  pub radio_request-Honest :
      {J : Type 0} (readings : Readings) (gps : GpsNumbers F) (req : Request J)
      (w : World F RadioState) (handler : Handler F RadioState)
      → get_handler req.method (new_registry readings gps execute_at) ≡ some handler
      → (handler.read_only ≡ true
          → (process_request (new_registry readings gps execute_at) now req w).1 ≡ w)
        × (handler.requires_blackout ≡ false
            → (process_request
                (new_registry readings gps execute_at)
                now
                req
                w).1.state.blackout_until
              ≡ w.state.blackout_until)
  radio_request-Honest readings gps req w handler =
      process_request-Honest (λ (rs : RadioState). rs.blackout_until) readings execute_at
        execute_at-Promises gps now req w handler
