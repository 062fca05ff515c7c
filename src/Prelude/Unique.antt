-- ===== src/Prelude/Unique.antt =====
-- A table whose rows have distinct keys, under an upsert by key.
use Prim.Native.Nat.{◌+◌, ◌≤◌}
use mathlib.Core.Path.{◌≡◌, refl, sym, ap, ◌∙◌, subst}
use mathlib.Core.Logic.{inl, inr}
use mathlib.Core.Bool.{Bool, true, false}
use mathlib.Core.Option.{Option, some, some-injective}
use mathlib.Core.List.{List, [], ◌∷◌, ◌++◌}
use native.Mathlib.Omega.{arith}
use getvul.Prelude.Tests.{Bool-cases, ◌==◌, if◌then◌else◌}
use getvul.Prelude.Lists.{All, filter, length, length-append}
use getvul.Prelude.Rows.{update_where, count_where}
use getvul.Prelude.Upserts.{
  scalar_one_or_none, Upserted, upsert_found, upsert_row, length-filter, count_where-append,
  count_where-update_where, length-update_where,
}

-- The two ways in which an upsert can end on a table with distinct keys.
pub data Upserts {ℓ} {A : Type ℓ} (p : A → Bool) (f : A → A) (new : A) (xs : List A)
    : Option (Upserted A) → Type ℓ where
  inserted :
      filter p xs ≡ []
      → Upserts p f new xs (some (record { rows = xs ++ new ∷ []; row = new; created = true }))
  updated :
      (x : A)
      → filter p xs ≡ x ∷ []
      → Upserts p f new xs
          (some (record { rows = update_where p f xs; row = f x; created = false }))

pub head_same {ℓ} : {A : Type ℓ} {x y : A} → x ∷ [] ≡ y ∷ [] → x ≡ y
head_same {A = A} {x} e = ap (λ (xs : List A). elim xs [ [] ↦ x | z ∷ _ ↦ z ]) e

module _ {ℓ} {A : Type ℓ} where
  found-Upserts :
      (p : A → Bool) (f : A → A) (new : A) (xs ys : List A)
      → filter p xs ≡ ys
      → length ys ≤ 1
      → Upserts p f new xs (upsert_found p f new xs (scalar_one_or_none ys))
  unfolding upsert_found scalar_one_or_none
  found-Upserts p f new xs [] e h = inserted e
  found-Upserts p f new xs (x ∷ []) e h = updated x e
  found-Upserts p f new xs (x ∷ y ∷ ys) e h = absurd (omega arith)

  -- With at most one row to select, an upsert does not raise.
  pub upsert_row-Upserts :
      (p : A → Bool) (f : A → A) (new : A) (xs : List A)
      → count_where p xs ≤ 1
      → Upserts p f new xs (upsert_row p f new xs)
  unfolding upsert_row
  upsert_row-Upserts p f new xs h =
      found-Upserts p f new xs (filter p xs) refl (subst (λ n. n ≤ 1) (sym (length-filter p xs)) h)

  -- What holds of the row that an upsert answers with.
  pub Upserts-row {κ} :
      (P : A → Type κ) (p : A → Bool) (f : A → A) (new : A) (xs : List A) (o : Option (Upserted A))
      (u : Upserted A)
      → Upserts p f new xs o
      → o ≡ some u
      → (filter p xs ≡ [] → P new)
      → ((x : A) → filter p xs ≡ x ∷ [] → P (f x))
      → P u.row
  Upserts-row P p f new xs _ u (inserted e) h n c =
      subst (λ (w : Upserted A). P w.row) (some-injective _ _ h) (n e)
  Upserts-row P p f new xs _ u (updated x e) h n c =
      subst (λ (w : Upserted A). P w.row) (some-injective _ _ h) (c x e)

  pub filter-append :
      (p : A → Bool) (xs : List A) (y : A)
      → filter p (xs ++ y ∷ []) ≡ filter p xs ++ (if p y then y ∷ [] else [])
  filter-append p [] y = ground arith
  filter-append p (x ∷ xs) y = ground (arith, filter-append p xs y)

  pub filter-update_where :
      (q p : A → Bool) (f : A → A) (xs : List A)
      → ((x : A) → q (f x) ≡ q x)
      → filter q (update_where p f xs) ≡ update_where p f (filter q xs)
  filter-update_where q p f [] keep = refl
  filter-update_where q p f (x ∷ xs) keep =
      ground (arith, filter-update_where q p f xs keep, keep x)

  filter-holds : (p : A → Bool) (xs : List A) → All (λ x. p x ≡ true) (filter p xs)
  filter-holds p [] = tt
  filter-holds p (x ∷ xs) = elim (Bool-cases (p x)) [
    | inl e ↦ rw e (e, filter-holds p xs)
    | inr e ↦ rw e (filter-holds p xs)
  ]

  -- The row that a test selects meets it.
  pub filter-found : (p : A → Bool) (x : A) (xs : List A) → filter p xs ≡ x ∷ [] → p x ≡ true
  filter-found p x xs e = (subst (All (λ y. p y ≡ true)) e (filter-holds p xs)).0

  -- The only row at a key is the changed one after the update.
  filter-updated :
      (p : A → Bool) (f : A → A) (x : A) (xs : List A)
      → ((y : A) → p (f y) ≡ p y)
      → filter p xs ≡ x ∷ []
      → filter p (update_where p f xs) ≡ f x ∷ []
  filter-updated p f x xs keep e =
      filter-update_where p p f xs keep
      ∙ ap (update_where p f) e
      ∙ ap (λ (b : Bool). (if b then f x else x) ∷ []) (filter-found p x xs e)

  count-none : (p : A → Bool) (xs : List A) → filter p xs ≡ [] → count_where p xs ≡ 0
  count-none p xs e = sym (length-filter p xs) ∙ ap length e

  count-one : (p : A → Bool) (x : A) (xs : List A) → filter p xs ≡ x ∷ [] → count_where p xs ≡ 1
  count-one p x xs e = sym (length-filter p xs) ∙ ap length e

-- `at k x`: the row `x` has the key `k`.
module _ {ℓ κ} {A : Type ℓ} {K : Type κ} (at : K → A → Bool) where
  abbrev pub IsUnique : List A → Type κ
  IsUnique xs = (k : K) → count_where (at k) xs ≤ 1

  -- A row has one key only, and the update keeps it, and what `id` reads.
  pub record Keyed {ι} {I : Type ι} (id : A → I) (f : A → A) : Type (ℓ ⊔ κ ⊔ ι) where
    pub only : (j k : K) (x : A) → at j x ≡ true → at k x ≡ true → j ≡ k
    pub keep : (k : K) (x : A) → at k (f x) ≡ at k x
    pub same : (x : A) → id (f x) ≡ id x

  -- What an upsert at `k` did.
  pub record Outcome {ι} {I : Type ι} (id : A → I) (k : K) (xs : List A) (u : Upserted A)
      : Type (ℓ ⊔ κ ⊔ ι) where
    pub unique : IsUnique u.rows
    pub self : filter (at k) u.rows ≡ u.row ∷ []
    pub grown : length u.rows ≡ length xs + (if u.created then 1 else 0)
    pub fresh : u.created ≡ (count_where (at k) xs == 0)
    pub kept :
        (j : K) (y : A)
        → filter (at j) xs ≡ y ∷ []
        → (z : A) × ((filter (at j) u.rows ≡ z ∷ []) × (id z ≡ id y))

  module _ {ι} {I : Type ι} (id : A → I) (f : A → A) (d : Keyed id f) (k : K) (new : A)
      (xs : List A) where
    inserted-IsUnique :
        at k new ≡ true → filter (at k) xs ≡ [] → IsUnique xs → IsUnique (xs ++ new ∷ [])
    inserted-IsUnique n e h j = elim (Bool-cases (at j new)) [
      | inl y ↦
          let same = d.only j k new y n in
          let none_at =
            subst (λ i. count_where (at i) xs ≡ 0) (sym same) (count-none (at k) xs e) in
          ground (arith, count_where-append (at j) xs new)
      | inr y ↦ let at_most = h j in ground (arith, count_where-append (at j) xs new)
    ]

    inserted-Outcome :
        at k new ≡ true
        → IsUnique xs
        → filter (at k) xs ≡ []
        → Outcome id k xs (record { rows = xs ++ new ∷ []; row = new; created = true })
    inserted-Outcome n h e = record {
      unique = inserted-IsUnique n e h;
      self = filter-append (at k) xs new ∙ cc (e, n);
      grown = length-append xs (new ∷ []);
      fresh = cc (count-none (at k) xs e);
      kept = λ j y m. elim (Bool-cases (at j new)) [
        | inl w ↦
            let same = d.only j k new w n in
            let none_at = subst (λ i. filter (at i) xs ≡ []) (sym same) e in
            absurd (omega (arith, ap length (sym none_at ∙ m)))
        | inr w ↦ (y, (filter-append (at j) xs new ∙ cc (m, w), refl))
      ];
    }

    update-kept :
        (b : Bool) (y : A) → (z : A) × (((if b then f y else y) ∷ [] ≡ z ∷ []) × (id z ≡ id y))
    update-kept true y = (f y, (refl, d.same y))
    update-kept false y = (y, (refl, refl))

    updated-Outcome :
        (x : A)
        → IsUnique xs
        → filter (at k) xs ≡ x ∷ []
        → Outcome id k xs (record { rows = update_where (at k) f xs; row = f x; created = false })
    updated-Outcome x h e = record {
      unique = λ j.
          subst (λ n. n ≤ 1) (sym (count_where-update_where (at j) (at k) f xs (d.keep j))) (h j);
      self = filter-updated (at k) f x xs (d.keep k) e;
      grown = ground (arith, length-update_where (at k) f xs);
      fresh = cc (count-one (at k) x xs e);
      kept = λ j y m.
          let (z, (e', s)) = update-kept (at k y) y in
          (
            z,
            (
              filter-update_where (at j) (at k) f xs (d.keep j) ∙ ap (update_where (at k) f) m ∙ e',
              s,
            ),
          );
    }

    Upserts-Outcome :
        (o : Option (Upserted A))
        → Upserts (at k) f new xs o
        → at k new ≡ true
        → IsUnique xs
        → (u : Upserted A) × ((o ≡ some u) × Outcome id k xs u)
    Upserts-Outcome _ (inserted e) n h = (_, (refl, inserted-Outcome n h e))
    Upserts-Outcome _ (updated x e) n h = (_, (refl, updated-Outcome x h e))

    -- On a table with distinct keys an upsert does not raise.
    pub upsert_row-Outcome :
        at k new ≡ true
        → IsUnique xs
        → (u : Upserted A) × ((upsert_row (at k) f new xs ≡ some u) × Outcome id k xs u)
    upsert_row-Outcome n h = Upserts-Outcome _ (upsert_row-Upserts (at k) f new xs (h k)) n h
