-- ===== src/Exposure/Groups/Settled.antt =====
-- Which edits of groups leave the exposure contexts of a tenant's assets settled.
use getvul.Prelude.{
  ℕ, ◌≡◌, refl, ap, ◌∙◌, String, Bool, true, false, ◌&&◌, List, [], ◌∷◌, All, filter, filter-All,
  update_where, arith, ◌==◌, Bool-cases, inl, inr, if_case,
}
use getvul.Exposure.{
  Texts, Asset, ExposureField, GroupOverride, resolve_group_override, apply_precedence_to_asset,
  recompute_exposure_context,
}
use getvul.Exposure.Precedence.{step, step-again, apply-tenant}
use getvul.Exposure.Groups.{
  GroupStore, Membership, has_member, put_member, put_override, reapply, add_member, remove_member,
  set_group_exposure_override, recompute,
}
use getvul.Exposure.Groups.Lookups.{
  resolve-members, has_member-put_member, has_member-removed, resolve-put_override,
}

abbrev pub of_tenant : ℕ → Asset → Bool
of_tenant tn a = a.tenant_id == tn

-- What a selected asset satisfies.
abbrev Guarded : (Asset → Bool) → (Asset → Asset) → Asset → Type 0
Guarded p f a = p a ≡ true → f a ≡ a

All-filtered :
    (p : Asset → Bool) (f : Asset → Asset) (xs : List Asset)
    → All (Guarded p f) xs
    → All (λ a. f a ≡ a) (filter p xs)
All-filtered p f [] h = tt
All-filtered p f (x ∷ xs) h = elim (Bool-cases (p x)) [
  | inl e ↦ rw e (h.0 e, All-filtered p f xs h.1)
  | inr e ↦ rw e (All-filtered p f xs h.1)
]

-- Changed assets are settled by `g`; the others need the same under `f` and `g`.
update-Guarded :
    (p q : Asset → Bool) (f g : Asset → Asset) (xs : List Asset)
    → ((a : Asset) → g (g a) ≡ g a)
    → ((a : Asset) → p (g a) ≡ p a)
    → ((a : Asset) → q a ≡ false → p a ≡ true → g a ≡ f a)
    → All (Guarded p f) xs
    → All (Guarded p g) (update_where q g xs)
update-Guarded p q f g [] again keep same h = tt
update-Guarded p q f g (x ∷ xs) again keep same h = elim (Bool-cases (q x)) [
  | inl e ↦ rw e ((λ _. again x), update-Guarded p q f g xs again keep same h.1)
  | inr e ↦ rw e ((λ k. same x e k ∙ h.0 k), update-Guarded p q f g xs again keep same h.1)
]

pub update-All :
    (p : Asset → Bool) (g : Asset → Asset) (xs : List Asset)
    → ((a : Asset) → g (g a) ≡ g a)
    → ((a : Asset) → p (g a) ≡ p a)
    → All (λ a. g a ≡ a) (filter p (update_where p g xs))
update-All p g [] again keep = tt
update-All p g (x ∷ xs) again keep = elim (Bool-cases (p x)) [
  | inl e ↦ rw (e, keep x, e) (again x, update-All p g xs again keep)
  | inr e ↦ rw (e, e) (update-All p g xs again keep)
]

unselected : (b c : Bool) → (b && c) ≡ false → c ≡ true → b ≡ false
unselected b c h k = ground arith

module _ (tx : Texts) where
  -- Recomputing any asset of the tenant changes nothing.
  abbrev pub IsSettled : ℕ → GroupStore → Type 0
  IsSettled tn s = All (λ a. step tx s.members s.overrides a ≡ a) (filter (of_tenant tn) s.assets)

  step-cong :
      (m n : List Membership) (o p : List GroupOverride) (a : Asset)
      → ((field : ExposureField)
          → resolve_group_override m o a.id field ≡ resolve_group_override n p a.id field)
      → step tx m o a ≡ step tx n p a
  unfolding apply_precedence_to_asset
  step-cong m n o p a h =
      rw
        (
          h ExposureField.business_criticality,
          h ExposureField.data_sensitivity,
          h ExposureField.internet_facing,
        )
        refl

  reapply-IsSettled :
      (tn : ℕ) (selects : ℕ → Bool) (s : GroupStore) (n : List Membership) (p : List GroupOverride)
      → ((i : ℕ)
          → selects i ≡ false
          → (field : ExposureField)
          → resolve_group_override n p i field
            ≡ resolve_group_override s.members s.overrides i field)
      → IsSettled tn s
      → IsSettled tn
          (record s { members = n; overrides = p; assets = reapply tx tn selects n p s.assets })
  unfolding reapply
  reapply-IsSettled tn selects s n p same h = All-filtered (of_tenant tn) (step tx n p) _ (
      update-Guarded (of_tenant tn) (λ a. selects a.id && of_tenant tn a)
        (step tx s.members s.overrides) (step tx n p) s.assets (step-again tx n p)
        (λ a. ap (λ i. i == tn) (apply-tenant tx n p a))
        (λ a q t.
          step-cong n s.members p s.overrides a
            (same a.id (unselected (selects a.id) (of_tenant tn a) q t)))
        (filter-All (λ a. step tx s.members s.overrides a ≡ a) (of_tenant tn) s.assets h))

module _ (tx : Texts) (tn : ℕ) where
  pub add_member-IsSettled :
      (g i : ℕ) (s : GroupStore) → IsSettled tx tn s → IsSettled tx tn (add_member tx tn g i s).0
  unfolding add_member
  add_member-IsSettled g i s h =
      if_case (λ (r : GroupStore × Bool). IsSettled tx tn r.0) _ _ _
        (λ _.
          reapply-IsSettled tx tn (λ j. j == i) s (put_member g i s.members) s.overrides
            (λ j e f.
              resolve-members _ _ s.overrides j f (λ k. has_member-put_member g i k j s.members e))
            h)
        (λ _. h)

  pub remove_member-IsSettled :
      (g i : ℕ) (s : GroupStore) → IsSettled tx tn s → IsSettled tx tn (remove_member tx tn g i s).0
  unfolding remove_member
  remove_member-IsSettled g i s h =
      if_case (λ (r : GroupStore × Bool). IsSettled tx tn r.0) _ _ _
        (λ _.
          reapply-IsSettled tx tn (λ j. j == i) s _ s.overrides
            (λ j e f.
              resolve-members _ _ s.overrides j f (λ k. has_member-removed g i k j s.members e))
            h)
        (λ _. h)

  pub set_override-IsSettled :
      (now g : ℕ) (f : ExposureField) (v : String) (s : GroupStore)
      → IsSettled tx tn s
      → IsSettled tx tn (set_group_exposure_override tx now tn g f v s).0
  unfolding set_group_exposure_override
  set_override-IsSettled now g f v s h =
      if_case (λ (r : GroupStore × Bool). IsSettled tx tn r.0) _ _ _
        (λ _.
          reapply-IsSettled tx tn (λ j. has_member s.members g j) s s.members
            (put_override now g f v s.overrides)
            (λ j e k. resolve-put_override now g f v s.members s.overrides j k e) h)
        (λ _. h)

  pub recompute-IsSettled : (s : GroupStore) → IsSettled tx tn (recompute tx tn s)
  unfolding recompute recompute_exposure_context
  recompute-IsSettled s =
      update-All (of_tenant tn) (step tx s.members s.overrides) s.assets
        (step-again tx s.members s.overrides)
        (λ a. ap (λ i. i == tn) (apply-tenant tx s.members s.overrides a))
