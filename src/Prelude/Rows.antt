-- ===== src/Prelude/Rows.antt =====
-- A table's statements: `UPDATE ... WHERE`, its row count, and `SELECT COUNT(*) ... WHERE`.
use Prim.Native.Nat.{ℕ, zero, suc, ◌≤◌}
use mathlib.Core.Path.{◌≡◌, refl}
use mathlib.Core.Logic.{inl, inr}
use mathlib.Core.Bool.{Bool, true, false, ◌&&◌}
use mathlib.Core.List.{List, [], ◌∷◌}
use native.Mathlib.Omega.{arith}
use getvul.Prelude.Tests.{Bool-cases, if◌then◌else◌}
use getvul.Prelude.Lists.{All}

module _ {ℓ} {A : Type ℓ} where
  abbrev pub update_where : (A → Bool) → (A → A) → List A → List A
  update_where p f [] = []
  update_where p f (x ∷ xs) = (if p x then f x else x) ∷ update_where p f xs

  abbrev pub count_where : (A → Bool) → List A → ℕ
  count_where p [] = zero
  count_where p (x ∷ xs) = let rest = count_where p xs in if p x then suc rest else rest

  pub count_where-le :
      (p q : A → Bool) (xs : List A)
      → All (λ x. p x ≡ true → q x ≡ true) xs
      → count_where p xs ≤ count_where q xs
  count_where-le p q [] h = omega arith
  count_where-le p q (x ∷ xs) h = ground (arith, count_where-le p q xs h.1, h.0)

  -- A statement that changes nothing in a row that it has changed, and keeps its own condition.
  pub update_where-again :
      (p : A → Bool) (f : A → A) (xs : List A)
      → ((x : A) → p (f x) ≡ p x)
      → ((x : A) → f (f x) ≡ f x)
      → update_where p f (update_where p f xs) ≡ update_where p f xs
  update_where-again p f [] keep again = refl
  update_where-again p f (x ∷ xs) keep again = elim (Bool-cases (p x)) [
    | inl e ↦ rw (e, keep x, e, again x, update_where-again p f xs keep again) refl
    | inr e ↦ rw (e, e, update_where-again p f xs keep again) refl
  ]

  pub count_where-updated :
      (p q : A → Bool) (f : A → A) (xs : List A)
      → ((x : A) → p (f x) ≡ p x)
      → ((x : A) → q (f x) ≡ false)
      → count_where (λ x. p x && q x) (update_where p f xs) ≡ 0
  count_where-updated p q f [] keep done = refl
  count_where-updated p q f (x ∷ xs) keep done = elim (Bool-cases (p x)) [
    | inl e ↦ rw (e, keep x, e, done x) (count_where-updated p q f xs keep done)
    | inr e ↦ rw (e, e) (count_where-updated p q f xs keep done)
  ]
