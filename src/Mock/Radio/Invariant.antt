-- ===== src/Mock/Radio/Invariant.antt =====
-- What holds of the radio of silvus-mock/internal/state/radio.go after any history of commands.
use radio_container.Prelude.{ℕ, ◌≡◌, ◌⊎◌, refl, true, List, [], ◌∷◌, some, codes, inl, inr, subst}
use radio_container.Prelude.Int.{pos, ◌≤ℤ◌}
use radio_container.Prelude.Float.{Float}
use radio_container.Mock.Config.{Config}
use radio_container.Mock.Radio.Range.{Numbers, is_valid_frequency}
use radio_container.Mock.Radio.{
  RadioState, PowerLimits, CommandResponse, new_radio_state, handle_zeroize, handle_radio_reset,
  handle_factory_reset, enter_soft_boot, set_current_power, seconds,
}
use radio_container.Mock.Radio.Changes.{
  Timed, Change, same, tuned, powered, zeroized, rebooted, restored, process_command-Change, run,
  run-first,
}

module _ {F : Type 0} ⦃o : Float F⦄ (numbers : Numbers F) (rounds : ℕ) (cfg : Config) where
  -- The power is 30 dBm or within the limits; the frequency is one of two defaults or was accepted;
  -- what came from the configuration stays.
  pub record Sound (rs : RadioState) : Type 0 where
    pub profiles : rs.frequency_profiles ≡ cfg.frequency_profiles
    pub limits :
        rs.power_limits ≡ record { min_dbm = cfg.power.min_dbm; max_dbm = cfg.power.max_dbm }
    pub soft_boot : rs.soft_boot_duration ≡ seconds cfg.timing.blackout.soft_boot_sec
    pub reset : rs.radio_reset_duration ≡ seconds cfg.timing.blackout.radio_reset_sec
    pub power :
        (rs.current_power ≡ pos 30)
        ⊎ ((cfg.power.min_dbm ≤ℤ rs.current_power) × (rs.current_power ≤ℤ cfg.power.max_dbm))
    pub freq :
        (rs.current_freq ≡ codes "4700.0")
        ⊎ ((rs.current_freq ≡ codes "2490.0")
            ⊎ (is_valid_frequency numbers rounds cfg.frequency_profiles rs.current_freq
                ≡ some true))

  pub new_radio_state-Sound : Sound (new_radio_state cfg)
  unfolding new_radio_state
  new_radio_state-Sound = record {
    profiles = refl;
    limits = refl;
    soft_boot = refl;
    reset = refl;
    power = inl refl;
    freq = inl refl;
  }

  pub Change-Sound :
      (later : ℕ) (rs rs' : RadioState) → Sound rs → Change numbers rounds later rs rs' → Sound rs'
  unfolding handle_zeroize handle_radio_reset handle_factory_reset enter_soft_boot set_current_power
  Change-Sound later rs _ s same = s
  Change-Sound later rs _ s (tuned freq valid) = record {
    profiles = s.profiles;
    limits = s.limits;
    soft_boot = s.soft_boot;
    reset = s.reset;
    power = s.power;
    freq = inr (inr (rw (← s.profiles) valid));
  }
  Change-Sound later rs _ s (powered power low high) = record {
    profiles = s.profiles;
    limits = s.limits;
    soft_boot = s.soft_boot;
    reset = s.reset;
    power = inr (
      subst (λ (l : PowerLimits). l.min_dbm ≤ℤ power) s.limits low,
      subst (λ (l : PowerLimits). power ≤ℤ l.max_dbm) s.limits high,
    );
    freq = s.freq;
  }
  Change-Sound later rs _ s zeroized = record {
    profiles = s.profiles;
    limits = s.limits;
    soft_boot = s.soft_boot;
    reset = s.reset;
    power = inl refl;
    freq = inr (inl refl);
  }
  Change-Sound later rs _ s rebooted = record {
    profiles = s.profiles;
    limits = s.limits;
    soft_boot = s.soft_boot;
    reset = s.reset;
    power = s.power;
    freq = s.freq;
  }
  Change-Sound later rs _ s restored = record {
    profiles = s.profiles;
    limits = s.limits;
    soft_boot = s.soft_boot;
    reset = s.reset;
    power = inl refl;
    freq = inr (inl refl);
  }

  pub run-Sound :
      (ts : List Timed) (rs : RadioState) (out : List CommandResponse × RadioState)
      → Sound rs
      → run numbers rounds ts rs ≡ some out
      → Sound out.1
  unfolding run
  run-Sound [] rs out s e = let same_state : out ≡ ([], rs) = cc in rw same_state s
  run-Sound (t ∷ ts) rs out s e =
      let (mid, first, rest, others, ends) = run-first numbers rounds t ts rs out e in
      let next =
        Change-Sound t.later rs mid.1 s
          (process_command-Change numbers rounds t.now t.later t.cmd rs mid first) in
      rw ends (run-Sound ts mid.1 rest next others)
