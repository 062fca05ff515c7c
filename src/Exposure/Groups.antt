-- ===== src/Exposure/Groups.antt =====
-- backend/app/assets/groups_service.py, and `set_group_exposure_override` of
-- backend/app/assets/groups_router.py: the groups of assets, and what their edits do to the
-- exposure context of the members. The rows of the audit log are left out.
mod Lookups
pub mod Settled
pub mod Reach
use getvul.Prelude.{
  ℕ, String, Bool, true, false, not, ◌&&◌, Option, none, some, is_some, List, [], ◌∷◌, ◌++◌, any,
  filter, update_where, ◌==◌, str_eq, if◌then◌else◌,
}
use getvul.Exposure.{
  Texts, Asset, ExposureField, same_field, GroupOverride, apply_precedence_to_asset,
  recompute_exposure_context,
}

pub record AssetGroup : Type 0 where
  pub id : ℕ
  pub tenant_id : ℕ
  pub name : String
  pub description : Option String

-- (group, asset)
abbrev pub Membership : Type 0
Membership = ℕ × ℕ

pub record GroupStore : Type 0 where
  pub groups : List AssetGroup
  pub members : List Membership
  pub overrides : List GroupOverride
  pub assets : List Asset

unfoldable pub has_group : ℕ → ℕ → List AssetGroup → Bool
has_group tenant_id group_id groups = any (λ g. g.id == group_id && g.tenant_id == tenant_id) groups

unfoldable pub owns_asset : ℕ → ℕ → List Asset → Bool
owns_asset tenant_id asset_id assets =
    any (λ a. a.id == asset_id && a.tenant_id == tenant_id) assets

unfoldable pub same_member : ℕ → ℕ → Membership → Bool
same_member group_id asset_id m = m.0 == group_id && m.1 == asset_id

unfoldable pub has_member : List Membership → ℕ → ℕ → Bool
has_member members group_id asset_id = any (same_member group_id asset_id) members

abbrev add_group : AssetGroup → GroupStore → GroupStore × AssetGroup
add_group g s = (record s { groups = s.groups ++ g ∷ [] }, g)

-- `uq_asset_group_tenant_name` refuses a second group of a name.
unfoldable pub create_group :
    ℕ → ℕ → String → Option String → GroupStore → Option (GroupStore × AssetGroup)
create_group id tenant_id name description s =
    if any (λ h. h.tenant_id == tenant_id && str_eq h.name name) s.groups
    then none
    else some (
        add_group
          (record { id = id; tenant_id = tenant_id; name = name; description = description }) s)

abbrev rename : Option String → Option String → AssetGroup → AssetGroup
rename none none g = g
rename (some n) none g = record g { name = n }
rename none (some d) g = record g { description = some d }
rename (some n) (some d) g = record g { name = n; description = some d }

-- A missing value keeps the old one; `false` when there is no such group.
unfoldable pub update_group : ℕ → ℕ → Option String → Option String → GroupStore → GroupStore × Bool
update_group tenant_id group_id name description s = (
  record s {
    groups =
        update_where (λ g. g.id == group_id && g.tenant_id == tenant_id) (rename name description)
          s.groups;
  },
  has_group tenant_id group_id s.groups,
)

-- A deleted group takes its memberships and overrides with it (ON DELETE CASCADE).
unfoldable pub delete_group : ℕ → ℕ → GroupStore → GroupStore × Bool
delete_group tenant_id group_id s =
    if has_group tenant_id group_id s.groups
    then (
      record s {
        groups = filter (λ g. not (g.id == group_id && g.tenant_id == tenant_id)) s.groups;
        members = filter (λ m. not (m.0 == group_id)) s.members;
        overrides = filter (λ o. not (o.group_id == group_id)) s.overrides;
      },
      true,
    )
    else (s, false)

abbrev pub put_member : ℕ → ℕ → List Membership → List Membership
put_member group_id asset_id members =
    if has_member members group_id asset_id then members else members ++ (group_id, asset_id) ∷ []

abbrev pub put_override : ℕ → ℕ → ExposureField → String → List GroupOverride → List GroupOverride
put_override now group_id field value overrides =
    let at = λ (o : GroupOverride). o.group_id == group_id && same_field o.field field in
    if any at overrides
    then update_where at
        (λ o. if str_eq o.value value then o else record o { value = value; updated_at = now })
        overrides
    else overrides
      ++ record { group_id = group_id; field = field; value = value; updated_at = now } ∷ []

module _ (tx : Texts) where
  -- `apply_precedence_to_asset` on the tenant's assets that a test selects.
  unfoldable pub reapply :
      ℕ → (ℕ → Bool) → List Membership → List GroupOverride → List Asset → List Asset
  reapply tenant_id selects members overrides assets =
      update_where (λ a. selects a.id && a.tenant_id == tenant_id)
        (apply_precedence_to_asset tx members overrides) assets

  unfoldable pub add_member : ℕ → ℕ → ℕ → GroupStore → GroupStore × Bool
  add_member tenant_id group_id asset_id s =
      let members = put_member group_id asset_id s.members in
      if has_group tenant_id group_id s.groups && owns_asset tenant_id asset_id s.assets
      then (
        record s {
          members = members;
          assets = reapply tenant_id (λ i. i == asset_id) members s.overrides s.assets;
        },
        true,
      )
      else (s, false)

  unfoldable pub remove_member : ℕ → ℕ → ℕ → GroupStore → GroupStore × Bool
  remove_member tenant_id group_id asset_id s =
      let members = filter (λ m. not (same_member group_id asset_id m)) s.members in
      if has_group tenant_id group_id s.groups && has_member s.members group_id asset_id
      then (
        record s {
          members = members;
          assets = reapply tenant_id (λ i. i == asset_id) members s.overrides s.assets;
        },
        true,
      )
      else (s, false)

  -- A 404 is `false`.
  unfoldable pub set_group_exposure_override :
      ℕ → ℕ → ℕ → ExposureField → String → GroupStore → GroupStore × Bool
  set_group_exposure_override now tenant_id group_id field value s =
      let overrides = put_override now group_id field value s.overrides in
      if has_group tenant_id group_id s.groups
      then (
        record s {
          overrides = overrides;
          assets =
              reapply tenant_id (λ i. has_member s.members group_id i) s.members overrides s.assets;
        },
        true,
      )
      else (s, false)

  -- `POST /assets/exposure-context/recompute`
  unfoldable pub recompute : ℕ → GroupStore → GroupStore
  recompute tenant_id s = record s {
    assets = (recompute_exposure_context tx tenant_id s.members s.overrides s.assets).0;
  }
