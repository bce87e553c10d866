-- ===== src/Mock/Config/Rules.antt =====
-- What the validation of silvus-mock/internal/config/config.go accepts.
use radio_container.Prelude.{
  ◌≡◌, ◌↔◌, refl, Bool, true, false, is_nil, Option, none, some, String, str_eq, arith, subst, ap,
  sym, ◌∙◌, codes, if◌then◌else◌, any,
}
use radio_container.Prelude.Int.{ℤ, pos, ◌≤ℤ◌, ◌<ℤ◌}
use radio_container.Mock.Config.{
  Text, Config, valid_modes, validate_config, verdict, validated, set_mode, override_soft_boot,
  set_soft_boot, load, load_overrides, apply_env_overrides, loaded, not_loaded, load_failed, Fault,
}

-- The rules, in numbers.
pub record IsValid (cfg : Config) : Type 0 where
  pub mode : any (λ m. str_eq m cfg.mode) valid_modes ≡ true
  pub power_bottom : pos 0 ≤ℤ cfg.power.min_dbm
  pub power_order : cfg.power.min_dbm ≤ℤ cfg.power.max_dbm
  pub power_top : cfg.power.max_dbm ≤ℤ pos 39
  pub soft_boot : pos 0 <ℤ cfg.timing.blackout.soft_boot_sec
  pub soft_boot_top : cfg.timing.blackout.soft_boot_sec ≤ℤ pos 60
  pub set_power : pos 0 <ℤ cfg.timing.commands.set_power
  pub set_power_top : cfg.timing.commands.set_power ≤ℤ pos 30
  pub set_channel : pos 0 <ℤ cfg.timing.commands.set_channel
  pub set_channel_top : cfg.timing.commands.set_channel ≤ℤ pos 60
  pub profiles : is_nil cfg.frequency_profiles ≡ false

pub validate_config-IsValid : (cfg : Config) → (validate_config cfg ≡ none) ↔ IsValid cfg
unfolding validate_config
validate_config-IsValid cfg = (there, back)
  where
    there : validate_config cfg ≡ none → IsValid cfg
    there h = record {
      mode = ground arith;
      power_bottom = ground arith;
      power_order = ground arith;
      power_top = ground arith;
      soft_boot = ground arith;
      soft_boot_top = ground arith;
      set_power = ground arith;
      set_power_top = ground arith;
      set_channel = ground arith;
      set_channel_top = ground arith;
      profiles = ground arith;
    }

    back : IsValid cfg → validate_config cfg ≡ none
    back v = ground (
      arith, v.mode, v.power_bottom, v.power_order, v.power_top, v.soft_boot, v.soft_boot_top,
      v.set_power, v.set_power_top, v.set_channel, v.set_channel_top, v.profiles,
    )

verdict-loaded :
    (fault : Option Fault) (cfg out : Config)
    → verdict fault cfg ≡ loaded out
    → (fault ≡ none) × (cfg ≡ out)
unfolding verdict
verdict-loaded none cfg out h = (refl, cc)
verdict-loaded (some fault) cfg out h = absurd (cc)

validated-loaded : (cfg out : Config) → validated cfg ≡ loaded out → IsValid out × (cfg ≡ out)
unfolding validated
validated-loaded cfg out h =
    let (passed, same) = verdict-loaded (validate_config cfg) cfg out h in
    (subst IsValid same ((validate_config-IsValid cfg).0 passed), same)

loaded_if :
    (read : Bool) (cfg out : Config)
    → (if read then validated cfg else not_loaded load_failed) ≡ loaded out
    → IsValid out × (cfg ≡ out)
loaded_if true cfg out h = validated-loaded cfg out h
loaded_if false cfg out h = absurd (cc)

mode-override_soft_boot :
    (sec : Option ℤ) (cfg : Config) → (override_soft_boot sec cfg).mode ≡ cfg.mode
unfolding override_soft_boot set_soft_boot
mode-override_soft_boot none cfg = refl
mode-override_soft_boot (some sec) cfg = refl

module _ (getenv : String → String) (atoi : Text → Option ℤ) where
  apply_env_overrides-mode :
      (cfg : Config)
      → (apply_env_overrides getenv atoi cfg).mode
        ≡ (if str_eq (getenv "SILVUS_MOCK_MODE") "" then cfg.mode else getenv "SILVUS_MOCK_MODE")
  unfolding apply_env_overrides set_mode
  apply_env_overrides-mode cfg = ground (
    arith,
    mode-override_soft_boot (atoi (codes (getenv "SILVUS_MOCK_SOFT_BOOT_TIME"))) cfg,
    mode-override_soft_boot (atoi (codes (getenv "SILVUS_MOCK_SOFT_BOOT_TIME")))
        (set_mode (getenv "SILVUS_MOCK_MODE") cfg),
  )

  module _ (read_file : String → Config → Bool × Config) (defaults : Config) where
    -- A configuration that Load returns obeys the rules, and its mode is the one that the
    -- environment names, if it names one.
    pub load-IsValid :
        (out : Config)
        → load read_file getenv atoi defaults ≡ loaded out
        → IsValid out
          × (str_eq (getenv "SILVUS_MOCK_MODE") "" ≡ false → out.mode ≡ getenv "SILVUS_MOCK_MODE")
    unfolding load
    load-IsValid out h =
        let (valid, same) =
          loaded_if from_file.0 (apply_env_overrides getenv atoi from_file.1) out h in
        (
          valid,
          λ e. ap (λ c. c.mode) (sym same) ∙ (apply_env_overrides-mode from_file.1 ∙ rw e refl),
        )
      where
        from_file : Bool × Config
        from_file = load_overrides read_file getenv (read_file "config/default.yaml" defaults).1
