-- ===== src/Mock/Commands/Optional.antt =====
-- silvus-mock/internal/commands/optional.go: the readings of the actual power and of the distance.
use radio_container.Prelude.{
  zero, suc, true, false, [], ◌∷◌, Option, none, some, str_eq, codes, if◌then◌else◌,
}
use radio_container.Prelude.Int.{ℤ, pos, negsuc, int64, int_text}
use radio_container.Mock.Config.{Text}
use radio_container.Mock.Radio.{Value, texts}
use radio_container.Mock.Commands.{
  World, Execute, of_radio, Handled, succeeded, command_error, panics, Handle, Handler, Registry,
  register,
}

-- What these handlers use of Go: `strconv.Atoi`, the number that it returns with an error, and
-- `int(10.0 * math.Pow(10.0, float64(x) / 10.0))`.
pub record Readings : Type 0 where
  pub atoi : Text → Option ℤ
  pub atoi_failed : Text → ℤ
  pub milliwatts : ℤ → ℤ

abbrev minus_two : ℤ → ℤ
minus_two (pos zero) = negsuc 1
minus_two (pos (suc zero)) = negsuc 0
minus_two (pos (suc (suc n))) = pos n
minus_two (negsuc n) = negsuc (suc (suc n))

-- `setPower - 2`
unfoldable pub actual_power : ℤ → ℤ
actual_power power = int64 (minus_two power)

abbrev pub no_parameters : {F : Type 0} → Handled F
no_parameters = command_error "INVALID_PARAMS" (codes "This command does not accept parameters")

-- `setPower, _ := strconv.Atoi(text)`
unfoldable pub set_power_of : Readings → Text → ℤ
set_power_of readings text = elim (readings.atoi text) [
  | none ↦ readings.atoi_failed text
  | some power ↦ power
]

-- The first text of a response: the type assertion and the index panic where there is none.
unfoldable pub read_first : {F : Type 0} → Readings → (ℤ → ℤ) → Value → Handled F
unfolding set_power_of
read_first readings convert (texts (text ∷ more)) =
    succeeded (of_radio (texts (int_text (convert (set_power_of readings text)) ∷ [])))
read_first readings convert _ = panics

module _ {F S : Type 0} where
  unfoldable pub handle_max_link_distance : Handle F S
  handle_max_link_distance ctx [] w = (succeeded (of_radio (texts (int_text (pos 5000) ∷ []))), w)
  handle_max_link_distance ctx (p ∷ params) w = (no_parameters, w)

  unfoldable pub max_link_distance_handler : Handler F S
  unfolding handle_max_link_distance
  max_link_distance_handler = record {
    name = "max_link_distance";
    description = "Read maximum link distance in meters";
    read_only = true;
    requires_blackout = false;
    handle = handle_max_link_distance;
  }

module _ {F S : Type 0} (readings : Readings) (execute : Execute S) where
  unfoldable pub read_power : (ℤ → ℤ) → World F S → Handled F × World F S
  unfolding read_first
  read_power convert w =
      let out = execute "getPower" [] w.state in
      (
        if str_eq out.0.error ""
            then read_first readings convert out.0.result
            else command_error out.0.error (codes out.0.error),
        record w { state = out.1 },
      )

  unfoldable pub handle_read_power_dbm : Handle F S
  unfolding read_power actual_power
  handle_read_power_dbm ctx [] w = read_power actual_power w
  handle_read_power_dbm ctx (p ∷ params) w = (no_parameters, w)

  unfoldable pub handle_read_power_mw : Handle F S
  unfolding read_power actual_power
  handle_read_power_mw ctx [] w = read_power (λ p. readings.milliwatts (actual_power p)) w
  handle_read_power_mw ctx (p ∷ params) w = (no_parameters, w)

  unfoldable pub read_power_dbm_handler : Handler F S
  unfolding handle_read_power_dbm
  read_power_dbm_handler = record {
    name = "read_power_dBm";
    description = "Read actual transmitted total output power in dBm";
    read_only = true;
    requires_blackout = false;
    handle = handle_read_power_dbm;
  }

  unfoldable pub read_power_mw_handler : Handler F S
  unfolding handle_read_power_mw
  read_power_mw_handler = record {
    name = "read_power_mw";
    description = "Read actual transmitted total output power in milliwatts";
    read_only = true;
    requires_blackout = false;
    handle = handle_read_power_mw;
  }

  unfoldable pub register_optional_commands : Registry F S → Registry F S
  unfolding register read_power_dbm_handler read_power_mw_handler max_link_distance_handler
  register_optional_commands registry =
      register max_link_distance_handler
        (register read_power_mw_handler (register read_power_dbm_handler registry))
