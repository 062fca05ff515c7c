-- ===== src/Exposure/Precedence.antt =====
-- Recomputing is settled after one pass, and an asset's own override is permanent.
use getvul.Prelude.{
  ℕ, ◌≡◌, refl, ap, ◌∙◌, Bool, true, false, Option, none, some, List, update_where-again,
  count_where-updated, ◌==◌, eq_refl,
}
use mathlib.Core.Path.{ap₂}
use getvul.Exposure.{
  Texts, ExposureFieldSource, auto, asset_override, group_override, Field, Asset, ExposureField,
  GroupOverride, resolve_group_override, value_of, apply_source, apply_field, bool_of, same_bool,
  infer_business_criticality, infer_data_sensitivity, infer_internet_facing,
  apply_precedence_to_asset, is_changed, recompute_exposure_context,
}

apply_source-again :
    {A : Type 0} (v : A) (s : ExposureFieldSource) (group : Option A) (inferred : A)
    → apply_field (apply_source v s group inferred) group inferred ≡ apply_source v s group inferred
unfolding apply_field apply_source
apply_source-again v asset_override group inferred = refl
apply_source-again v auto (some g) inferred = refl
apply_source-again v auto none inferred = refl
apply_source-again v group_override (some g) inferred = refl
apply_source-again v group_override none inferred = refl

apply_field-again :
    {A : Type 0} (f : Field A) (group : Option A) (inferred : A)
    → apply_field (apply_field f group inferred) group inferred ≡ apply_field f group inferred
unfolding apply_field
apply_field-again f group inferred = apply_source-again f.value f.source group inferred

same_bool_refl : (b : Bool) → same_bool b b ≡ true
same_bool_refl true = refl
same_bool_refl false = refl

not_changed : (a : Asset) → is_changed a a ≡ false
unfolding is_changed
not_changed a =
    rw
      (
        eq_refl a.business_criticality.value,
        eq_refl a.data_sensitivity.value,
        same_bool_refl a.internet_facing.value,
      )
      refl

module _ (tx : Texts) (members : List (ℕ × ℕ)) (overrides : List GroupOverride) where
  abbrev pub step : Asset → Asset
  step = apply_precedence_to_asset tx members overrides

  pub step-again : (a : Asset) → step (step a) ≡ step a
  unfolding apply_precedence_to_asset infer_business_criticality infer_data_sensitivity
      infer_internet_facing
  step-again a =
      rw
        (
          apply_field-again a.business_criticality
              (value_of
                (resolve_group_override members overrides a.id ExposureField.business_criticality))
              _,
          apply_field-again a.data_sensitivity
              (value_of
                (resolve_group_override members overrides a.id ExposureField.data_sensitivity))
              _,
          apply_field-again a.internet_facing
              (bool_of tx (
                value_of
                  (resolve_group_override members overrides a.id ExposureField.internet_facing)))
              _,
        )
        refl

  pub apply-tenant : (a : Asset) → (step a).tenant_id ≡ a.tenant_id
  unfolding apply_precedence_to_asset
  apply-tenant a = refl

  step-unchanged : (a : Asset) → is_changed (step a) (step (step a)) ≡ false
  step-unchanged a = ap (is_changed (step a)) (step-again a) ∙ not_changed (step a)

  -- A second recomputation of a tenant's exposure, with the same groups and overrides, changes no
  -- asset and counts none as updated.
  pub recompute_exposure_context-again :
      (tenant_id : ℕ) (assets : List Asset)
      → recompute_exposure_context tx tenant_id members overrides
          (recompute_exposure_context tx tenant_id members overrides assets).0
        ≡ ((recompute_exposure_context tx tenant_id members overrides assets).0, 0)
  unfolding recompute_exposure_context
  recompute_exposure_context-again tenant_id assets =
      ap₂ (λ (assets' : List Asset) (n : ℕ). (assets', n))
        (update_where-again (λ a. a.tenant_id == tenant_id) step assets
          (λ a. ap (λ i. i == tenant_id) (apply-tenant a)) step-again)
        (count_where-updated (λ a. a.tenant_id == tenant_id) (λ a. is_changed a (step a)) step
          assets (λ a. ap (λ i. i == tenant_id) (apply-tenant a)) step-unchanged)
