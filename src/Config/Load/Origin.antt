-- ===== src/Config/Load/Origin.antt =====
-- Where the parts of a loaded configuration come from.
use radio_container.Prelude.{
  ◌≡◌, ◌∙◌, refl, sym, ap, subst, Option, none, some, String, str_eq, Option-cases, inl, inr,
  if◌then◌else◌, some_inj, arith,
}
use radio_container.Prelude.Float.{Float}
use radio_container.Config.BandPlan.{SilvusBandPlan}
use radio_container.Config.Timing.{TimingConfig}
use radio_container.Config.Validate.{Failure, validate_timing}
use radio_container.Config.Validate.Rules.{IsValid, validate_timing-IsValid}
use radio_container.Config.Load.{
  Environment, File, absent, unreadable, contents, LoadResult, accepted, failed_to_validate,
  failed_to_load, load, load_cb_timing_baseline, apply_env_overrides, merge_file,
  merge_timing_configs, take_plan, validated, get_env, or_default,
}

-- The band plan of silvus-band-plan.json, or else the one that the environment holds, if it parses.
abbrev pub plan_source :
    {F : Type 0} → Environment F → File (SilvusBandPlan F) → Option (SilvusBandPlan F)
plan_source env (contents plan) = some plan
plan_source env _ =
    if str_eq (env.getenv "RCC_SILVUS_BAND_PLAN") ""
    then none
    else env.unmarshal_plan (env.getenv "RCC_SILVUS_BAND_PLAN")

module _ {F : Type 0} ⦃o : Float F⦄ where
  validated-accepted :
      (c out : TimingConfig F) → validated c ≡ accepted out → (c ≡ out) × IsValid out
  unfolding validated
  validated-accepted c out h = elim (Option-cases (validate_timing (some c))) [
    | inl passed ↦
        let same : c ≡ out = accepted_inj (subst (λ v. verdict c v ≡ accepted out) passed h) in
        (same, subst IsValid same ((validate_timing-IsValid c).0 passed))
    | inr (e, failed) ↦ absurd (refused e (subst (λ v. verdict c v ≡ accepted out) failed h))
  ]
    where
      verdict : TimingConfig F → Option Failure → LoadResult F
      verdict c none = accepted c
      verdict c (some e) = failed_to_validate e

      accepted_inj : {a b : TimingConfig F} → accepted a ≡ accepted b → a ≡ b
      accepted_inj h = cc

      refused : (e : Failure) → failed_to_validate e ≡ accepted out → ⊥
      refused e h = cc

  merge_file-plan :
      (file : File (TimingConfig F)) (c d : TimingConfig F)
      → merge_file file c ≡ some d
      → d.silvus_band_plan ≡ c.silvus_band_plan
  unfolding merge_file merge_timing_configs
  merge_file-plan absent c d h = ap (λ x. x.silvus_band_plan) (sym (some_inj h))
  merge_file-plan unreadable c d h = absurd (cc)
  merge_file-plan (contents file) c d h = ap (λ x. x.silvus_band_plan) (sym (some_inj h))

  apply_env_overrides-plan :
      (env : Environment F) (one_and_half : F)
      → (apply_env_overrides env (load_cb_timing_baseline one_and_half)).silvus_band_plan
        ≡ plan_source env absent
  unfolding apply_env_overrides load_cb_timing_baseline get_env or_default
  apply_env_overrides-plan env one_and_half = ground arith

  take_plan-source :
      (env : Environment F) (file : File (SilvusBandPlan F)) (c d : TimingConfig F)
      → c.silvus_band_plan ≡ plan_source env absent
      → take_plan file c ≡ some d
      → d.silvus_band_plan ≡ plan_source env file
  unfolding take_plan
  take_plan-source env absent c d e h = ap (λ x. x.silvus_band_plan) (sym (some_inj h)) ∙ e
  take_plan-source env unreadable c d e h = absurd (cc)
  take_plan-source env (contents plan) c d e h = ap (λ x. x.silvus_band_plan) (sym (some_inj h))

  -- A configuration that Load returns obeys the rules of ValidateTiming, and its band plan is that of
  -- silvus-band-plan.json, or where there is no such file the one of RCC_SILVUS_BAND_PLAN if that is
  -- set and parses, whatever config.json holds.
  pub load-IsValid_sourced :
      (env : Environment F) (one_and_half : F) (config_file : File (TimingConfig F))
      (plan_file : File (SilvusBandPlan F)) (out : TimingConfig F)
      → load env one_and_half config_file plan_file ≡ accepted out
      → IsValid out × (out.silvus_band_plan ≡ plan_source env plan_file)
  unfolding load
  load-IsValid_sourced env one_and_half config_file plan_file out h =
      elim (Option-cases (merge_file config_file base)) [
        | inl e ↦ absurd (unread "config.json" (sym (rw (e, load) refl) ∙ h))
        | inr (c, e) ↦ elim (Option-cases (take_plan plan_file c)) [
          | inl n ↦ absurd (unread "silvus-band-plan.json" (sym (rw (e, n, load) refl) ∙ h))
          | inr (d, n) ↦
              let (same, valid) = validated-accepted d out (sym (rw (e, n, load) refl) ∙ h) in
              let from_env : c.silvus_band_plan ≡ plan_source env absent =
                merge_file-plan config_file base c e ∙ apply_env_overrides-plan env one_and_half in
              (
                valid,
                ap (λ x. x.silvus_band_plan) (sym same)
                    ∙ take_plan-source env plan_file c d from_env n,
              )
        ]
      ]
    where
      base : TimingConfig F
      base = apply_env_overrides env (load_cb_timing_baseline one_and_half)

      unread : (name : String) → failed_to_load name ≡ accepted out → ⊥
      unread name u = cc
