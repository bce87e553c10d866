-- ===== src/Mock/Commands/Flags.antt =====
-- What the handlers of silvus-mock/internal/commands declare of themselves, against what they do to
-- the radio.
use radio_container.Prelude.{ℕ, ◌≡◌, refl, ap, true, false, List, [], ◌∷◌, All, some, String}
use radio_container.Prelude.Dict.{All-put}
use radio_container.Mock.Config.{Text}
use radio_container.Mock.Commands.{World, Execute, Context, Handler, Registry, register}
use radio_container.Mock.Commands.Core.{
  forward, handle_power, handle_profiles, handle_named, handle_maintenance, freq_handler,
  power_handler, profiles_handler, maintenance_handler, register_core_commands,
}

-- What `ExecuteCommand` must leave alone: readings change nothing, and neither they nor the power,
-- nor a name that the radio does not know, start a blackout. `dark` is the end of the blackout.
pub record Promises {S : Type 0} (dark : S → ℕ) (execute : Execute S) : Type 0 where
  pub get_freq : (params : List Text) (s : S) → (execute "getFreq" params s).1 ≡ s
  pub get_power : (params : List Text) (s : S) → (execute "getPower" params s).1 ≡ s
  pub get_profiles : (params : List Text) (s : S) → (execute "getProfiles" params s).1 ≡ s
  pub set_power : (params : List Text) (s : S) → dark (execute "setPower" params s).1 ≡ dark s
  pub maintenance : (params : List Text) (s : S) → (execute "maintenance" params s).1 ≡ s

module _ {F S : Type 0} (dark : S → ℕ) where
  -- A handler whose flags are true of it, when it is called under its name.
  pub record Honest (handler : Handler F S) : Type 0 where
    pub read_only :
        (ctx : Context) (params : List Text) (w : World F S)
        → handler.read_only ≡ true
        → ctx.command_name ≡ some handler.name
        → (handler.handle ctx params w).1 ≡ w
    pub no_blackout :
        (ctx : Context) (params : List Text) (w : World F S)
        → handler.requires_blackout ≡ false
        → ctx.command_name ≡ some handler.name
        → dark (handler.handle ctx params w).1.state ≡ dark w.state

  -- The entry of a handler in the registry.
  abbrev pub Entry : String × Handler F S → Type 0
  Entry e = Honest e.1 × (e.1.name ≡ e.0)

  abbrev pub Registered : Registry F S → Type 0
  Registered registry = All Entry registry

  module _ (execute : Execute S) (promises : Promises dark execute) where
    freq-Honest : Honest (freq_handler execute)
    unfolding freq_handler
    freq-Honest = record {
      read_only = λ ctx params w r named. absurd (cc);
      no_blackout = λ ctx params w r named. absurd (cc);
    }

    power-dark :
        (ctx : Context) (params : List Text) (w : World F S)
        → dark (handle_power execute ctx params w).1.state ≡ dark w.state
    unfolding handle_power forward
    power-dark ctx [] w = ap dark (promises.get_power [] w.state)
    power-dark ctx (p ∷ params) w = promises.set_power (p ∷ params) w.state

    power-Honest : Honest (power_handler execute)
    unfolding power_handler
    power-Honest = record {
      read_only = λ ctx params w r named. absurd (cc);
      no_blackout = λ ctx params w r named. power-dark ctx params w;
    }

    -- A handler that leaves the whole world alone keeps both promises.
    profiles-same :
        (ctx : Context) (params : List Text) (w : World F S)
        → (handle_profiles execute ctx params w).1 ≡ w
    unfolding handle_profiles forward
    profiles-same ctx [] w = ap (λ s. record w { state = s }) (promises.get_profiles [] w.state)
    profiles-same ctx (p ∷ params) w = refl

    profiles-Honest : Honest (profiles_handler execute)
    unfolding profiles_handler
    profiles-Honest = record {
      read_only = λ ctx params w r named. profiles-same ctx params w;
      no_blackout =
          λ ctx params w r named. ap (λ (v : World F S). dark v.state) (profiles-same ctx params w);
    }

    maintenance-dark :
        (ctx : Context) (params : List Text) (w : World F S)
        → ctx.command_name ≡ some "maintenance"
        → dark (handle_maintenance execute ctx params w).1.state ≡ dark w.state
    unfolding handle_maintenance handle_named forward
    maintenance-dark ctx params w named =
        rw (named, handle_maintenance, handle_named) (ap dark (promises.maintenance params w.state))

    maintenance-Honest : Honest (maintenance_handler execute)
    unfolding maintenance_handler
    maintenance-Honest = record {
      read_only = λ ctx params w r named. absurd (cc);
      no_blackout = λ ctx params w r named. maintenance-dark ctx params w named;
    }

    pub core-Honest :
        (registry : Registry F S)
        → Registered registry
        → Registered (register_core_commands execute registry)
    unfolding register_core_commands register
    core-Honest registry h =
        All-put Entry _ "maintenance" (maintenance_handler execute)
          (All-put Entry _ "supported_frequency_profiles" (profiles_handler execute)
            (All-put Entry _ "power_dBm" (power_handler execute)
              (All-put Entry registry "freq" (freq_handler execute) h (freq-Honest, refl))
              (power-Honest, refl))
            (profiles-Honest, refl))
          (maintenance-Honest, refl)
