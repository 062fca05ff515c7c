-- ===== src/Exposure/Groups/Reach.antt =====
-- The edits of a tenant's groups in any order, and the upserts of its connectors between them.
use getvul.Prelude.{
  ℕ, ◌≡◌, refl, sym, ap, subst, String, Bool, true, false, Option, none, some, List, if◌then◌else◌,
}
use mathlib.Core.Option.{some-injective}
use getvul.Exposure.{
  Texts, Asset, ExposureField, ExposureFieldSource, Field, auto, asset_override, group_override,
  apply_source, apply_field, infer_source, infer_field, GroupOverride, resolve_group_override,
  value_of, bool_of, apply_precedence_to_asset, apply_inference_to_asset,
  infer_business_criticality, infer_data_sensitivity, infer_internet_facing,
}
use getvul.Exposure.Groups.{
  AssetGroup, GroupStore, Membership, create_group, update_group, add_member, remove_member,
  set_group_exposure_override, recompute,
}
use getvul.Exposure.Groups.Settled.{
  IsSettled, recompute-IsSettled, add_member-IsSettled, remove_member-IsSettled,
  set_override-IsSettled,
}

-- A field that the precedence has settled, for what was inferred before: what an upsert infers
-- now is what the precedence gives now.
settled_source :
    {A : Type 0} (v : A) (s : ExposureFieldSource) (g : Option A) (old new : A)
    → (apply_source v s g old).source ≡ s
    → (apply_source v s g old).value ≡ v
    → infer_source v s new ≡ apply_source v s g new
unfolding apply_source infer_source
settled_source v auto none old new h k = refl
settled_source v auto (some g) old new h k = absurd cc
settled_source v asset_override g old new h k = refl
settled_source v group_override none old new h k = absurd cc
settled_source v group_override (some g) old new h k =
    ap (λ w. record { value = w; source = group_override }) (sym k)

settled_field :
    {A : Type 0} (f : Field A) (g : Option A) (old new : A)
    → apply_field f g old ≡ f
    → infer_field f new ≡ apply_field f g new
unfolding apply_field infer_field
settled_field f g old new h =
    settled_source f.value f.source g old new (ap (λ (x : Field _). x.source) h)
      (ap (λ (x : Field _). x.value) h)

created : {A : Type 0} (b : Bool) (x y : A) → (if b then none else some x) ≡ some y → x ≡ y
created true x y e = absurd cc
created false x y e = some-injective _ _ e

-- What a sync may change of an asset before the inference.
abbrev pub with_signals : Option String → Option Bool → Asset → Asset
with_signals ip detected a = record a { external_ip = ip; internet_facing_detected = detected }

-- A step of the tenant's administration.
pub data Edit (tx : Texts) (tn : ℕ) : GroupStore → GroupStore → Type 0 where
  create :
      {s t : GroupStore} (id : ℕ) (name : String) (description : Option String) (g : AssetGroup)
      → create_group id tn name description s ≡ some (t, g)
      → Edit tx tn s t
  update :
      {s : GroupStore} (g : ℕ) (name description : Option String)
      → Edit tx tn s (update_group tn g name description s).0
  add : {s : GroupStore} (g i : ℕ) → Edit tx tn s (add_member tx tn g i s).0
  remove : {s : GroupStore} (g i : ℕ) → Edit tx tn s (remove_member tx tn g i s).0
  override :
      {s : GroupStore} (now g : ℕ) (field : ExposureField) (value : String)
      → Edit tx tn s (set_group_exposure_override tx now tn g field value s).0

-- Edits after a recomputation.
pub data Reach (tx : Texts) (tn : ℕ) : GroupStore → Type 0 where
  recomputed : (s : GroupStore) → Reach tx tn (recompute tx tn s)
  edited : {s t : GroupStore} → Reach tx tn s → Edit tx tn s t → Reach tx tn t

module _ (tx : Texts) where
  -- For an asset that the precedence has settled: when a connector reports other network signals,
  -- the inference that the upsert runs, which knows no groups, gives what the precedence with
  -- groups and overrides would give.
  pub apply_inference-apply_precedence :
      (m : List Membership) (o : List GroupOverride) (ip : Option String) (detected : Option Bool)
      (a : Asset)
      → apply_precedence_to_asset tx m o a ≡ a
      → apply_inference_to_asset tx (with_signals ip detected a)
        ≡ apply_precedence_to_asset tx m o (with_signals ip detected a)
  unfolding apply_precedence_to_asset apply_inference_to_asset
  apply_inference-apply_precedence m o ip detected a h =
      let group = λ (field : ExposureField). value_of (resolve_group_override m o a.id field) in
      rw
        (
          settled_field a.business_criticality (group ExposureField.business_criticality)
              (infer_business_criticality tx a)
              (infer_business_criticality tx (with_signals ip detected a))
              (ap (λ (x : Asset). x.business_criticality) h),
          settled_field a.data_sensitivity (group ExposureField.data_sensitivity)
              (infer_data_sensitivity tx a) (infer_data_sensitivity tx (with_signals ip detected a))
              (ap (λ (x : Asset). x.data_sensitivity) h),
          settled_field a.internet_facing (bool_of tx (group ExposureField.internet_facing))
              (infer_internet_facing tx a) (infer_internet_facing tx (with_signals ip detected a))
              (ap (λ (x : Asset). x.internet_facing) h),
        )
        refl

  Edit-IsSettled :
      {tn : ℕ} {s t : GroupStore} → Edit tx tn s t → IsSettled tx tn s → IsSettled tx tn t
  unfolding create_group update_group
  Edit-IsSettled {tn} {s} (create id name description g e) h =
      subst (λ (r : GroupStore × AssetGroup). IsSettled tx tn r.0) (created _ _ _ e) h
  Edit-IsSettled (update g name description) h = h
  Edit-IsSettled {tn} {s} (add g i) h = add_member-IsSettled tx tn g i s h
  Edit-IsSettled {tn} {s} (remove g i) h = remove_member-IsSettled tx tn g i s h
  Edit-IsSettled {tn} {s} (override now g field value) h =
      set_override-IsSettled tx tn now g field value s h

  -- After a recomputation of a tenant's exposure, and any sequence of its administrators' edits
  -- (groups created or renamed, members added or removed, overrides set), recomputing any asset
  -- of the tenant changes nothing: each edit has already applied the precedence wherever it matters.
  pub Reach-IsSettled : {tn : ℕ} {s : GroupStore} → Reach tx tn s → IsSettled tx tn s
  Reach-IsSettled {tn} (recomputed s) = recompute-IsSettled tx tn s
  Reach-IsSettled (edited r e) = Edit-IsSettled e (Reach-IsSettled r)
