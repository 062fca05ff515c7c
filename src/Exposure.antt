-- ===== src/Exposure.antt =====
-- backend/app/assets/exposure.py: how exposed and how critical an asset is, by its own override, by
-- its groups', or inferred. `lower` and `strip` are Python's; a text in a text is `is_in`.
pub mod Precedence
pub mod Groups
mod Examples
use getvul.Prelude.{
  ℕ, suc, String, Bool, true, false, not, ◌&&◌, ◌||◌, Option, none, some, is_some, List, [], ◌∷◌,
  filter, any, map, count_where, update_where, ltb, ◌==◌, str_eq, if◌then◌else◌,
}

pub record Texts : Type 0 where
  pub lower : String → String
  pub strip : String → String
  pub is_in : String → String → Bool

pub data ExposureFieldSource : Type 0 where
  auto asset_override group_override : ExposureFieldSource

-- A column with its `*_source`.
pub record Field (A : Type 0) : Type 0 where
  pub value : A
  pub source : ExposureFieldSource

pub record Asset : Type 0 where
  pub id : ℕ
  pub tenant_id : ℕ
  pub tags : List String
  pub department : Option String
  pub job_title : Option String
  pub external_ip : Option String
  pub internet_facing_detected : Option Bool
  pub business_criticality : Field String
  pub data_sensitivity : Field String
  pub internet_facing : Field Bool

pub data ExposureField : Type 0 where
  business_criticality data_sensitivity internet_facing : ExposureField

abbrev pub same_field : ExposureField → ExposureField → Bool
same_field business_criticality business_criticality = true
same_field data_sensitivity data_sensitivity = true
same_field internet_facing internet_facing = true
same_field _ _ = false

-- A group's override of one field.
pub record GroupOverride : Type 0 where
  pub group_id : ℕ
  pub field : ExposureField
  pub value : String
  pub updated_at : ℕ

abbrev pub or_empty : Option String → String
or_empty none = ""
or_empty (some s) = s

abbrev pub one_of : List String → String → Bool
one_of ss s = any (λ t. str_eq t s) ss

-- The most recently updated override, the first of equals.
unfoldable pub latest : Option GroupOverride → List GroupOverride → Option GroupOverride
latest best [] = best
latest none (o ∷ os) = latest (some o) os
latest (some b) (o ∷ os) = latest (some (if ltb b.updated_at o.updated_at then o else b)) os

-- The overrides of the groups that the asset is a member of; a membership is (group, asset).
unfoldable pub resolve_group_override :
    List (ℕ × ℕ) → List GroupOverride → ℕ → ExposureField → Option GroupOverride
resolve_group_override members overrides asset_id field = latest none (
    filter
      (λ o. same_field o.field field && any (λ m. m.0 == o.group_id && m.1 == asset_id) members)
      overrides)

abbrev pub value_of : Option GroupOverride → Option String
value_of none = none
value_of (some o) = some o.value

-- One field: the asset's own override stays, a group's comes next, the inferred value last.
unfoldable pub apply_source : {A : Type 0} → A → ExposureFieldSource → Option A → A → Field A
apply_source v asset_override group inferred = record { value = v; source = asset_override }
apply_source v _ (some g) inferred = record { value = g; source = group_override }
apply_source v _ none inferred = record { value = inferred; source = auto }

unfoldable pub apply_field : {A : Type 0} → Field A → Option A → A → Field A
apply_field f group inferred = apply_source f.value f.source group inferred

unfoldable pub bool_of : Texts → Option String → Option Bool
bool_of tx none = none
bool_of tx (some s) = some (str_eq (tx.lower (tx.strip s)) "true")

-- The AUTO gate: an overridden field stays.
unfoldable pub infer_source : {A : Type 0} → A → ExposureFieldSource → A → Field A
infer_source v auto inferred = record { value = inferred; source = auto }
infer_source v s inferred = record { value = v; source = s }

unfoldable pub infer_field : {A : Type 0} → Field A → A → Field A
infer_field f inferred = infer_source f.value f.source inferred

-- A change record is written when the value differs.
abbrev pub same_bool : Bool → Bool → Bool
same_bool true b = b
same_bool false b = not b

-- Whether there are change records: a value differs.
unfoldable pub is_changed : Asset → Asset → Bool
is_changed a b =
    not (str_eq a.business_criticality.value b.business_criticality.value)
    || not (str_eq a.data_sensitivity.value b.data_sensitivity.value)
    || not (same_bool a.internet_facing.value b.internet_facing.value)

module _ (tx : Texts) where
  open tx use {lower, strip, is_in}

  abbrev contains_any : List String → String → Bool
  contains_any keywords s = any (λ k. is_in k s) keywords

  -- `tag_set & ...`
  abbrev tagged : List String → List String → Bool
  tagged wanted tags = any (λ t. one_of wanted (lower t)) tags

  unfoldable pub infer_business_criticality : Asset → String
  infer_business_criticality a =
      let title = lower (or_empty a.job_title) in
      let department = lower (strip (or_empty a.department)) in
      if contains_any ("ceo" ∷ "cto" ∷ "ciso" ∷ "cfo" ∷ "coo" ∷ "chief" ∷ []) title
        || one_of ("finance" ∷ "legal" ∷ "security" ∷ "executive" ∷ []) department
        || tagged ("pci" ∷ "tier-1" ∷ []) a.tags
      then "CRITICAL"
      else if contains_any ("vp" ∷ "vice president" ∷ "director" ∷ "head of" ∷ []) title
          || one_of ("hr" ∷ "human resources" ∷ "it" ∷ "engineering" ∷ []) department
      then "HIGH"
      else if one_of ("dev" ∷ "development" ∷ "qa" ∷ "test" ∷ "sandbox" ∷ []) department
      then "LOW"
      else "MEDIUM"

  unfoldable pub infer_data_sensitivity : Asset → String
  infer_data_sensitivity a =
      let department = lower (strip (or_empty a.department)) in
      if tagged ("pii" ∷ "phi" ∷ "restricted" ∷ []) a.tags
      then "RESTRICTED"
      else if tagged ("pci" ∷ "confidential" ∷ []) a.tags
          || one_of ("finance" ∷ "legal" ∷ []) department
      then "CONFIDENTIAL"
      else if tagged ("public" ∷ "www" ∷ []) a.tags || one_of ("marketing" ∷ []) department
      then "PUBLIC"
      else "INTERNAL"

  abbrev detected_or : Option Bool → Bool → Bool
  detected_or none b = b
  detected_or (some d) b = d

  unfoldable pub infer_internet_facing : Asset → Bool
  infer_internet_facing a =
      detected_or a.internet_facing_detected
        (tagged ("internet-facing" ∷ []) a.tags || is_some a.external_ip)

  -- Without the groups: what an upsert by a connector applies.
  unfoldable pub apply_inference_to_asset : Asset → Asset
  apply_inference_to_asset a = record a {
    business_criticality = infer_field a.business_criticality (infer_business_criticality a);
    data_sensitivity = infer_field a.data_sensitivity (infer_data_sensitivity a);
    internet_facing = infer_field a.internet_facing (infer_internet_facing a);
  }

  unfoldable pub apply_precedence_to_asset : List (ℕ × ℕ) → List GroupOverride → Asset → Asset
  apply_precedence_to_asset members overrides a =
      let group =
        λ (field : ExposureField). value_of (resolve_group_override members overrides a.id field) in
      record a {
        business_criticality =
            apply_field a.business_criticality (group business_criticality)
              (infer_business_criticality a);
        data_sensitivity =
            apply_field a.data_sensitivity (group data_sensitivity) (infer_data_sensitivity a);
        internet_facing =
            apply_field a.internet_facing (bool_of tx (group internet_facing))
              (infer_internet_facing a);
      }

  -- The tenant's assets, and how many changed.
  unfoldable pub recompute_exposure_context :
      ℕ → List (ℕ × ℕ) → List GroupOverride → List Asset → List Asset × ℕ
  recompute_exposure_context tenant_id members overrides assets = (
    update_where (λ a. a.tenant_id == tenant_id) (apply_precedence_to_asset members overrides)
        assets,
    count_where
        (λ a.
          a.tenant_id == tenant_id && is_changed a (apply_precedence_to_asset members overrides a))
        assets,
  )
