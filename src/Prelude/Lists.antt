-- ===== src/Prelude/Lists.antt =====
-- Lists measured by native numbers, Boolean filters, and predicates by recursion.
use Prim.Native.Nat.{ℕ, zero, suc, ◌+◌, ◌-◌, ◌≤◌}
use Prim.Native.Char.{code}
use Prim.Native.String.{String}
use mathlib.Core.Path.{◌≡◌, refl, sym, subst}
use mathlib.Core.Logic.{inl, inr}
use mathlib.Core.Bool.{Bool, true, false, ◌||◌}
use mathlib.Core.List.{List, [], ◌∷◌, ◌++◌, Memᴰ}
use native.Mathlib.Omega.{arith}
use getvul.Prelude.Tests.{◌==◌, Bool-cases, if◌then◌else◌}

module _ {ℓ} {A : Type ℓ} where
  abbrev pub length : List A → ℕ
  length [] = 0
  length (_ ∷ xs) = suc (length xs)

  -- `[x for x in xs if p(x)]`, and a `WHERE` clause over a table.
  abbrev pub filter : (A → Bool) → List A → List A
  filter p [] = []
  filter p (x ∷ xs) = let rest = filter p xs in if p x then x ∷ rest else rest

  -- `any(p(x) for x in xs)`
  abbrev pub any : (A → Bool) → List A → Bool
  any p [] = false
  any p (x ∷ xs) = p x || any p xs

  abbrev pub take : ℕ → List A → List A
  take zero xs = []
  take (suc n) [] = []
  take (suc n) (x ∷ xs) = x ∷ take n xs

  abbrev pub drop : ℕ → List A → List A
  drop zero xs = xs
  drop (suc n) [] = []
  drop (suc n) (_ ∷ xs) = drop n xs

  pub length-append : (xs ys : List A) → length (xs ++ ys) ≡ length xs + length ys
  length-append [] ys = omega arith
  length-append (x ∷ xs) ys = omega (arith, length-append xs ys)

  pub length-drop : (n : ℕ) (xs : List A) → length (drop n xs) ≡ length xs - n
  length-drop zero xs = omega arith
  length-drop (suc n) [] = omega arith
  length-drop (suc n) (x ∷ xs) = omega (arith, length-drop n xs)

  pub length-filter-le : (p : A → Bool) (xs : List A) → length (filter p xs) ≤ length xs
  length-filter-le p [] = omega arith
  length-filter-le p (x ∷ xs) = ground (arith, length-filter-le p xs)

abbrev pub All {ℓ κ} : {A : Type ℓ} → (A → Type κ) → List A → Type κ
All P [] = Unit
All P (x ∷ xs) = P x × All P xs

pub All-map {ℓ κ ι} :
    {A : Type ℓ} (P : A → Type κ) (Q : A → Type ι) (xs : List A)
    → ((x : A) → P x → Q x)
    → All P xs
    → All Q xs
All-map P Q [] f h = tt
All-map P Q (x ∷ xs) f h = (f x h.0, All-map P Q xs f h.1)

pub All-filter {ℓ κ} :
    {A : Type ℓ} (P : A → Type κ) (p : A → Bool) (xs : List A) → All P xs → All P (filter p xs)
All-filter P p [] h = tt
All-filter P p (x ∷ xs) h = elim (Bool-cases (p x)) [
  | inl e ↦ rw e (h.0, All-filter P p xs h.1)
  | inr e ↦ rw e (All-filter P p xs h.1)
]

-- Two tests that agree on the members select the same rows.
pub filter_ext {ℓ} :
    {A : Type ℓ} (p q : A → Bool) (xs : List A)
    → All (λ x. p x ≡ q x) xs
    → filter p xs ≡ filter q xs
filter_ext p q [] h = refl
filter_ext p q (x ∷ xs) h = ground (arith, h.0, filter_ext p q xs h.1)

-- The code points of a text.
abbrev pub codes : String → List ℕ
codes String.[] = []
codes (String.◌∷◌ c s) = code c ∷ codes s

-- `i in ids`
abbrev pub mem_id : ℕ → List ℕ → Bool
mem_id i ids = any (λ j. j == i) ids

filter-head {ℓ κ} :
    {A : Type ℓ} (P : A → Type κ) (b : Bool) (x : A) (xs : List A)
    → All P (if b then x ∷ xs else xs)
    → (b ≡ true → P x) × All P xs
filter-head P true x xs h = (λ _. h.0, h.1)
filter-head P false x xs h = (λ e. absurd cc, h)

-- What holds of the selected elements holds of the elements that the test selects.
pub filter-All {ℓ κ} :
    {A : Type ℓ} (P : A → Type κ) (p : A → Bool) (xs : List A)
    → All P (filter p xs)
    → All (λ x. p x ≡ true → P x) xs
filter-All P p [] h = tt
filter-All P p (x ∷ xs) h =
    let k = filter-head P (p x) x (filter p xs) h in (k.0, filter-All P p xs k.1)

pub All-Memᴰ {ℓ κ} :
    {A : Type ℓ} (P : A → Type κ) (x : A) (xs : List A) → All P xs → Memᴰ x xs → P x
All-Memᴰ P x [] h m = elim m [ ]
All-Memᴰ P x (y ∷ ys) h (Memᴰ.head e) = subst P (sym e) h.0
All-Memᴰ P x (y ∷ ys) h (Memᴰ.tail m) = All-Memᴰ P x ys h.1 m
