-- ===== src/Exposure/Groups/Lookups.antt =====
-- What the lookup of an asset's overrides reads, and which edits it does not see.
use getvul.Prelude.{
  ℕ, ◌≡◌, refl, ap, ◌∙◌, String, Bool, true, false, not, ◌&&◌, ◌||◌, none, List, [], ◌∷◌, ◌++◌, any,
  filter, update_where, arith, ◌==◌, str_eq, Bool-cases, inl, inr, if◌then◌else◌,
}
use mathlib.Core.Path.{fun_ext}
use getvul.Exposure.{ExposureField, same_field, GroupOverride, latest, resolve_group_override}
use getvul.Exposure.Groups.{Membership, same_member, has_member, put_member, put_override}

any-append :
    {A : Type 0} (p : A → Bool) (xs : List A) (y : A)
    → p y ≡ false
    → any p (xs ++ y ∷ []) ≡ any p xs
any-append p [] y h = ground arith
any-append p (x ∷ xs) y h = ground (arith, any-append p xs y h)

any-filter :
    {A : Type 0} (p q : A → Bool) (xs : List A)
    → ((x : A) → q x ≡ false → p x ≡ false)
    → any p (filter q xs) ≡ any p xs
any-filter p q [] h = refl
any-filter p q (x ∷ xs) h = elim (Bool-cases (q x)) [
  | inl e ↦ rw e (ap (λ b. p x || b) (any-filter p q xs h))
  | inr e ↦ rw (e, h x e) (any-filter p q xs h)
]

filter-unselected :
    {A : Type 0} (p q : A → Bool) (f : A → A) (xs : List A)
    → ((x : A) → q x ≡ true → p x ≡ false)
    → ((x : A) → q x ≡ true → p (f x) ≡ false)
    → filter p (update_where q f xs) ≡ filter p xs
filter-unselected p q f [] h k = refl
filter-unselected p q f (x ∷ xs) h k = elim (Bool-cases (q x)) [
  | inl e ↦ rw (e, h x e, k x e) (filter-unselected p q f xs h k)
  | inr e ↦ rw e (ap (λ (ys : List _). if p x then x ∷ ys else ys) (filter-unselected p q f xs h k))
]

-- An asset's overrides read its own memberships only.
pub resolve-members :
    (m n : List Membership) (o : List GroupOverride) (i : ℕ) (field : ExposureField)
    → ((g : ℕ) → has_member m g i ≡ has_member n g i)
    → resolve_group_override m o i field ≡ resolve_group_override n o i field
unfolding resolve_group_override has_member same_member
resolve-members m n o i field h =
    ap (λ (p : GroupOverride → Bool). latest none (filter p o))
      (fun_ext λ w. ap (λ b. same_field w.field field && b) (h w.group_id))

pub has_member-put_member :
    (g a h i : ℕ) (m : List Membership)
    → (i == a) ≡ false
    → has_member (put_member g a m) h i ≡ has_member m h i
unfolding has_member same_member
has_member-put_member g a h i m e = elim (Bool-cases (has_member m g a)) [
  | inl k ↦ rw k refl
  | inr k ↦ rw k (any-append (same_member h i) m (g, a) (ground arith))
]

pub has_member-removed :
    (g a h i : ℕ) (m : List Membership)
    → (i == a) ≡ false
    → has_member (filter (λ x. not (same_member g a x)) m) h i ≡ has_member m h i
unfolding has_member same_member
has_member-removed g a h i m e =
    any-filter (same_member h i) (λ x. not (same_member g a x)) m (λ x k. ground arith)

-- Which overrides the asset's field reads.
abbrev reads : List Membership → ℕ → ExposureField → GroupOverride → Bool
reads m i field w = same_field w.field field && has_member m w.group_id i

abbrev at_field : ℕ → ExposureField → GroupOverride → Bool
at_field g f w = w.group_id == g && same_field w.field f

abbrev set_value : ℕ → String → GroupOverride → GroupOverride
set_value now v w = if str_eq w.value v then w else record w { value = v; updated_at = now }

reads-foreign :
    (m : List Membership) (g i : ℕ) (field : ExposureField) (w : GroupOverride)
    → has_member m g i ≡ false
    → w.group_id ≡ g
    → reads m i field w ≡ false
reads-foreign m g i field w e q =
    ap (λ h. same_field w.field field && has_member m h i) q
    ∙ ap (λ b. same_field w.field field && b) e
    ∙ ground arith

at_field-group :
    (g : ℕ) (f : ExposureField) (w : GroupOverride) → at_field g f w ≡ true → w.group_id ≡ g
at_field-group g f w h = ground arith

set_value-group :
    (now : ℕ) (v : String) (w : GroupOverride) → (set_value now v w).group_id ≡ w.group_id
set_value-group now v w = elim (Bool-cases (str_eq w.value v)) [
  | inl e ↦ rw e refl
  | inr e ↦ rw e refl
]

filter-new :
    {A : Type 0} (p : A → Bool) (xs : List A) (y : A)
    → p y ≡ false
    → filter p (xs ++ y ∷ []) ≡ filter p xs
filter-new p [] y h = ground arith
filter-new p (x ∷ xs) y h = ground (arith, filter-new p xs y h)

filter-put_override :
    (now g : ℕ) (f : ExposureField) (v : String) (m : List Membership) (o : List GroupOverride)
    (i : ℕ) (field : ExposureField)
    → has_member m g i ≡ false
    → filter (reads m i field) (put_override now g f v o) ≡ filter (reads m i field) o
filter-put_override now g f v m o i field e = elim (Bool-cases (any (at_field g f) o)) [
  | inl k ↦ rw k (
      filter-unselected (reads m i field) (at_field g f) (set_value now v) o
        (λ w q. reads-foreign m g i field w e (at_field-group g f w q))
        (λ w q.
          reads-foreign m g i field (set_value now v w) e
            (set_value-group now v w ∙ at_field-group g f w q)))
  | inr k ↦ rw k (
      filter-new (reads m i field) o
        (record { group_id = g; field = f; value = v; updated_at = now })
        (reads-foreign m g i field (record { group_id = g; field = f; value = v; updated_at = now })
          e refl))
]

pub resolve-put_override :
    (now g : ℕ) (f : ExposureField) (v : String) (m : List Membership) (o : List GroupOverride)
    (i : ℕ) (field : ExposureField)
    → has_member m g i ≡ false
    → resolve_group_override m (put_override now g f v o) i field
      ≡ resolve_group_override m o i field
unfolding resolve_group_override has_member same_member
resolve-put_override now g f v m o i field e =
    ap (latest none) (filter-put_override now g f v m o i field e)
