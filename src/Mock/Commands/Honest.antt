-- ===== src/Mock/Commands/Honest.antt =====
-- Every handler that silvus-mock's server registers keeps what its flags promise.
use radio_container.Prelude.{
  arith, ℕ, ◌≡◌, refl, ap, sym, true, false, List, [], ◌∷◌, none, some, String,
}
use radio_container.Prelude.Float.{Float}
use radio_container.Prelude.Dict.{All-put, All-get}
use radio_container.Mock.Config.{Text}
use radio_container.Mock.Commands.{
  World, Execute, Context, Handler, Registry, register, get_handler, new_command_registry, Handle,
}
use radio_container.Mock.Commands.Optional.{
  Readings, read_power, handle_read_power_dbm, handle_read_power_mw, handle_max_link_distance,
  read_power_dbm_handler, read_power_mw_handler, max_link_distance_handler,
  register_optional_commands,
}
use radio_container.Mock.Commands.Positioning.{
  GpsNumbers, place, set_coordinates, handle_coordinates, handle_mode, handle_time,
  gps_coordinates_handler, gps_mode_handler, gps_time_handler, register_gps_commands,
}
use radio_container.Mock.Commands.Server.{Request, process_request, new_registry}
use radio_container.Mock.Commands.Flags.{Promises, Honest, Entry, Registered, core-Honest}

module _ {F S : Type 0} (dark : S → ℕ) where
  -- A handler that changes nothing, and one that may move the GPS only.
  still-Honest :
      (name description : String) (handle : Handle F S)
      → ((ctx : Context) (params : List Text) (w : World F S) → (handle ctx params w).1 ≡ w)
      → Honest dark (record {
        name = name;
        description = description;
        read_only = true;
        requires_blackout = false;
        handle = handle;
      })
  still-Honest name description handle same = record {
    read_only = λ ctx params w r named. same ctx params w;
    no_blackout = λ ctx params w r named. ap (λ (v : World F S). dark v.state) (same ctx params w);
  }

  moving-Honest :
      (name description : String) (handle : Handle F S)
      → ((ctx : Context) (params : List Text) (w : World F S)
          → (handle ctx params w).1.state ≡ w.state)
      → Honest dark (record {
        name = name;
        description = description;
        read_only = false;
        requires_blackout = false;
        handle = handle;
      })
  moving-Honest name description handle same = record {
    read_only = λ ctx params w r named. absurd (cc);
    no_blackout = λ ctx params w r named. ap dark (same ctx params w);
  }

  module _ ⦃o : Float F⦄ (gps : GpsNumbers F) where
    place-state : (now : ℕ) (x y z : F) (w : World F S) → (place gps now x y z w).1.state ≡ w.state
    unfolding place
    place-state now x y z w = ground arith

    set_coordinates-state :
        (now : ℕ) (lat lon alt : Text) (w : World F S)
        → (set_coordinates gps now lat lon alt w).1.state ≡ w.state
    unfolding set_coordinates
    set_coordinates-state now lat lon alt w = ground (arith, place-state now)

    coordinates-state :
        (ctx : Context) (params : List Text) (w : World F S)
        → (handle_coordinates gps ctx params w).1.state ≡ w.state
    unfolding handle_coordinates
    coordinates-state ctx [] w = refl
    coordinates-state ctx (a ∷ []) w = refl
    coordinates-state ctx (a ∷ b ∷ []) w = refl
    coordinates-state ctx (a ∷ b ∷ c ∷ []) w = set_coordinates-state ctx.now a b c w
    coordinates-state ctx (a ∷ b ∷ c ∷ d ∷ more) w = refl

    mode-state :
        (ctx : Context) (params : List Text) (w : World F S)
        → (handle_mode gps ctx params w).1.state ≡ w.state
    unfolding handle_mode
    mode-state ctx [] w = refl
    mode-state ctx (a ∷ []) w = refl
    mode-state ctx (a ∷ b ∷ more) w = refl

    time-state :
        (ctx : Context) (params : List Text) (w : World F S)
        → (handle_time gps ctx params w).1.state ≡ w.state
    unfolding handle_time
    time-state ctx [] w = refl
    time-state ctx (a ∷ []) w = refl
    time-state ctx (a ∷ b ∷ more) w = refl

    gps-Registered :
        (registry : Registry F S)
        → Registered dark registry
        → Registered dark (register_gps_commands gps registry)
    unfolding register_gps_commands register gps_coordinates_handler gps_mode_handler
        gps_time_handler
    gps-Registered registry h =
        All-put (Entry dark) _ "gps_time" (gps_time_handler gps)
          (All-put (Entry dark) _ "gps_mode" (gps_mode_handler gps)
            (All-put (Entry dark) registry "gps_coordinates" (gps_coordinates_handler gps) h
              (moving-Honest _ _ (handle_coordinates gps) coordinates-state, refl))
            (moving-Honest _ _ (handle_mode gps) mode-state, refl))
          (moving-Honest _ _ (handle_time gps) time-state, refl)

  distance-same :
      (ctx : Context) (params : List Text) (w : World F S)
      → (handle_max_link_distance ctx params w).1 ≡ w
  unfolding handle_max_link_distance
  distance-same ctx [] w = refl
  distance-same ctx (p ∷ params) w = refl

  module _ (readings : Readings) (execute : Execute S) (promises : Promises dark execute) where
    read_power_dbm-same :
        (ctx : Context) (params : List Text) (w : World F S)
        → (handle_read_power_dbm readings execute ctx params w).1 ≡ w
    unfolding handle_read_power_dbm read_power
    read_power_dbm-same ctx [] w = ap (λ s. record w { state = s }) (promises.get_power [] w.state)
    read_power_dbm-same ctx (p ∷ params) w = refl

    read_power_mw-same :
        (ctx : Context) (params : List Text) (w : World F S)
        → (handle_read_power_mw readings execute ctx params w).1 ≡ w
    unfolding handle_read_power_mw read_power
    read_power_mw-same ctx [] w = ap (λ s. record w { state = s }) (promises.get_power [] w.state)
    read_power_mw-same ctx (p ∷ params) w = refl

    optional-Registered :
        (registry : Registry F S)
        → Registered dark registry
        → Registered dark (register_optional_commands readings execute registry)
    unfolding register_optional_commands register read_power_dbm_handler read_power_mw_handler
        max_link_distance_handler
    optional-Registered registry h =
        All-put (Entry dark) _ "max_link_distance" max_link_distance_handler
          (All-put (Entry dark) _ "read_power_mw" (read_power_mw_handler readings execute)
            (All-put (Entry dark) registry "read_power_dBm"
              (read_power_dbm_handler readings execute) h
              (still-Honest _ _ (handle_read_power_dbm readings execute) read_power_dbm-same, refl))
            (still-Honest _ _ (handle_read_power_mw readings execute) read_power_mw-same, refl))
          (still-Honest _ _ handle_max_link_distance distance-same, refl)

    module _ ⦃o : Float F⦄ (gps : GpsNumbers F) where
      new_registry-Registered : Registered dark (new_registry readings gps execute)
      unfolding new_registry new_command_registry
      new_registry-Registered =
          gps-Registered gps _ (optional-Registered _ (core-Honest dark execute promises [] tt))

      -- Where `ExecuteCommand` keeps the promises, so do the requests to the server.
      pub process_request-Honest :
          {J : Type 0} (now : ℕ) (req : Request J) (w : World F S) (handler : Handler F S)
          → get_handler req.method (new_registry readings gps execute) ≡ some handler
          → (handler.read_only ≡ true
              → (process_request (new_registry readings gps execute) now req w).1 ≡ w)
            × (handler.requires_blackout ≡ false
                → dark (process_request (new_registry readings gps execute) now req w).1.state
                  ≡ dark w.state)
      unfolding process_request get_handler
      process_request-Honest now req w handler found =
          let (honest, named) =
            All-get (Entry dark) (new_registry readings gps execute) req.method handler
              new_registry-Registered found in
          let ctx : Context = record {
            command_name = some req.method;
            subcommand = none;
            now = now;
          } in
          (
            λ r.
                rw (found, process_request)
                  (honest.read_only ctx req.params w r (ap some (sym named))),
            λ r.
                rw (found, process_request)
                  (honest.no_blackout ctx req.params w r (ap some (sym named))),
          )
