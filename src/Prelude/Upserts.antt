-- ===== src/Prelude/Upserts.antt =====
-- A select by key, its `scalar_one_or_none()`, then an update of the row found or an insert.
use Prim.Native.Nat.{suc, ◌+◌}
use mathlib.Core.Path.{◌≡◌, refl, ap}
use mathlib.Core.Bool.{Bool, true, false}
use mathlib.Core.Option.{Option, none, some}
use mathlib.Core.List.{List, [], ◌∷◌, ◌++◌}
use native.Mathlib.Omega.{arith}
use getvul.Prelude.Tests.{if◌then◌else◌}
use getvul.Prelude.Lists.{filter, length}
use getvul.Prelude.Rows.{update_where, count_where}

-- `scalar_one_or_none()`: several rows are an exception.
pub data Lookup {ℓ} (A : Type ℓ) : Type ℓ where
  absent : Lookup A
  found : A → Lookup A
  several : Lookup A

unfoldable pub scalar_one_or_none {ℓ} : {A : Type ℓ} → List A → Lookup A
scalar_one_or_none [] = absent
scalar_one_or_none (x ∷ []) = found x
scalar_one_or_none (_ ∷ _ ∷ _) = several

pub record Upserted {ℓ} (A : Type ℓ) : Type ℓ where
  pub rows : List A
  pub row : A
  pub created : Bool

module _ {ℓ} {A : Type ℓ} where
  unfoldable pub upsert_found : (A → Bool) → (A → A) → A → List A → Lookup A → Option (Upserted A)
  upsert_found p f new xs absent =
      some (record { rows = xs ++ new ∷ []; row = new; created = true })
  upsert_found p f new xs (found x) =
      some (record { rows = update_where p f xs; row = f x; created = false })
  upsert_found p f new xs several = none

  -- The row that the condition selects is changed, or the new one added; `none` when it raises.
  unfoldable pub upsert_row : (A → Bool) → (A → A) → A → List A → Option (Upserted A)
  upsert_row p f new xs = upsert_found p f new xs (scalar_one_or_none (filter p xs))

  pub length-filter : (p : A → Bool) (xs : List A) → length (filter p xs) ≡ count_where p xs
  length-filter p [] = refl
  length-filter p (x ∷ xs) = ground (arith, length-filter p xs)

  pub count_where-append :
      (p : A → Bool) (xs : List A) (y : A)
      → count_where p (xs ++ y ∷ []) ≡ count_where p xs + (if p y then 1 else 0)
  count_where-append p [] y = ground arith
  count_where-append p (x ∷ xs) y = ground (arith, count_where-append p xs y)

  pub count_where-update_where :
      (q p : A → Bool) (f : A → A) (xs : List A)
      → ((x : A) → q (f x) ≡ q x)
      → count_where q (update_where p f xs) ≡ count_where q xs
  count_where-update_where q p f [] keep = refl
  count_where-update_where q p f (x ∷ xs) keep =
      ground (arith, count_where-update_where q p f xs keep, keep x)

  pub length-update_where :
      (p : A → Bool) (f : A → A) (xs : List A) → length (update_where p f xs) ≡ length xs
  length-update_where p f [] = refl
  length-update_where p f (x ∷ xs) = ap suc (length-update_where p f xs)
