-- ===== src/Risk/Order.antt =====
-- What the score relies on of Python's floats: correctly rounded operations are monotone, and
-- exact on small whole numbers. The values are floats other than NaN. The built-in `sum` carries a
-- compensation from Python 3.12 on; its error is far below a hundredth, so that on values rounded
-- to hundredths it is monotone, and on small whole numbers it is exact.
use getvul.Prelude.{
  ℕ, ◌+◌, ◌*◌, ◌^◌, ◌≤◌, ◌≡◌, inl, inr, ◌⊎◌, true, false, pos, ◌≤ℤ◌, arith, Bool-cases, List, [],
  ◌∷◌, All, if◌then◌else◌,
}
use getvul.Models.{Decimal}
use getvul.Risk.{Floats, whole, clamp}

-- `not (b < a)`
abbrev pub le : (fl : Floats) → fl.F → fl.F → Type 0
le fl a b = fl.lt b a ≡ false

-- The divisors of the code.
abbrev pub IsDivisor : ℕ → Type 0
IsDivisor n = (n ≡ 3) ⊎ (n ≡ 10) ⊎ (n ≡ 100) ⊎ (n ≡ 1000)

-- A value between 0 and 100, rounded to two digits.
pub record IsCents (fl : Floats) (x : fl.F) : Type 0 where
  pub raw : fl.F
  pub is_rounded : x ≡ fl.round2 raw
  pub low : le fl (whole fl 0) x
  pub high : le fl x (whole fl 100)

-- Place by place.
abbrev pub AllLe : (fl : Floats) → List fl.F → List fl.F → Type 0
AllLe fl [] [] = Unit
AllLe fl (x ∷ xs) (y ∷ ys) = le fl x y × AllLe fl xs ys
AllLe fl _ _ = ⊥

abbrev pub total : List ℕ → ℕ
total [] = 0
total (w ∷ ws) = w + total ws

abbrev pub wholes : (fl : Floats) → List ℕ → List fl.F
wholes fl [] = []
wholes fl (w ∷ ws) = whole fl w ∷ wholes fl ws

-- Whole numbers up to 2^53 are exact.
abbrev pub IsExact : ℕ → Type 0
IsExact n = n ≤ 2 ^ 53

pub record IsFloats (fl : Floats) : Type 0 where
  pub lt_asymm : (a b : fl.F) → fl.lt a b ≡ true → le fl a b
  pub le_trans : (a b c : fl.F) → le fl a b → le fl b c → le fl a c
  pub of_int_mono : (m n : ℕ) → m ≤ n → le fl (whole fl m) (whole fl n)
  pub of_decimal_mono :
      (d e : Decimal)
      → d.scale ≡ e.scale
      → d.digits ≤ℤ e.digits
      → le fl (fl.of_decimal d) (fl.of_decimal e)
  pub of_decimal-le-whole :
      (d : Decimal) (n : ℕ)
      → d.digits ≤ℤ pos (n * 10 ^ d.scale)
      → le fl (fl.of_decimal d) (whole fl n)
  pub whole-le-of_decimal :
      (d : Decimal) (n : ℕ)
      → pos (n * 10 ^ d.scale) ≤ℤ d.digits
      → le fl (whole fl n) (fl.of_decimal d)
  pub sum_mono :
      (xs ys : List fl.F)
      → All (IsCents fl) xs
      → All (IsCents fl) ys
      → AllLe fl xs ys
      → le fl (fl.sum xs) (fl.sum ys)
  pub mul_mono :
      (a b : fl.F) (n : ℕ) → le fl a b → le fl (fl.mul a (whole fl n)) (fl.mul b (whole fl n))
  pub div_mono :
      (a b : fl.F) (n : ℕ)
      → IsDivisor n
      → le fl a b
      → le fl (fl.div a (whole fl n)) (fl.div b (whole fl n))
  pub round2_mono : (a b : fl.F) → le fl a b → le fl (fl.round2 a) (fl.round2 b)
  pub round_mono : (a b : fl.F) → le fl a b → fl.round a ≤ℤ fl.round b
  pub sum_exact : (ws : List ℕ) → IsExact (total ws) → fl.sum (wholes fl ws) ≡ whole fl (total ws)
  pub zero_mul : (n : ℕ) → IsExact n → fl.mul (whole fl 0) (whole fl n) ≡ whole fl 0
  pub one_mul : (n : ℕ) → IsExact n → fl.mul (whole fl 1) (whole fl n) ≡ whole fl n
  pub div_self : (n : ℕ) → IsDivisor n → fl.div (whole fl n) (whole fl n) ≡ whole fl 1
  pub zero_div : (n : ℕ) → IsDivisor n → fl.div (whole fl 0) (whole fl n) ≡ whole fl 0
  pub round2_whole : (n : ℕ) → IsExact n → fl.round2 (whole fl n) ≡ whole fl n
  pub round_whole : (n : ℕ) → IsExact n → fl.round (whole fl n) ≡ pos n

module _ (fl : Floats) (laws : IsFloats fl) where
  pub le_self : (a : fl.F) → le fl a a
  le_self a = elim (Bool-cases (fl.lt a a)) [ inl e ↦ laws.lt_asymm a a e | inr e ↦ e ]

  pub clamp_bounds : (x : fl.F) → le fl (whole fl 0) (clamp fl x) × le fl (clamp fl x) (whole fl 1)
  unfolding clamp
  clamp_bounds x =
      let one = laws.of_int_mono 0 1 (omega arith) in
      (ground (arith, le_self (whole fl 0)), ground (arith, le_self (whole fl 1)))

  max_zero : fl.F → fl.F
  max_zero x = if fl.lt x (whole fl 0) then whole fl 0 else x

  max_zero_mono : (x y : fl.F) → le fl x y → le fl (max_zero x) (max_zero y)
  unfolding max_zero
  max_zero_mono x y h = ground (arith, le_self (whole fl 0), laws.le_trans (whole fl 0) x y)

  pub min_one_mono :
      (x y : fl.F)
      → le fl x y
      → le fl
          (if fl.lt (whole fl 1) x then whole fl 1 else x)
          (if fl.lt (whole fl 1) y then whole fl 1 else y)
  min_one_mono x y h = ground (arith, le_self (whole fl 1), laws.le_trans x y (whole fl 1))

  pub clamp_mono : (x y : fl.F) → le fl x y → le fl (clamp fl x) (clamp fl y)
  unfolding clamp max_zero
  clamp_mono x y h = min_one_mono (max_zero x) (max_zero y) (max_zero_mono x y h)

  -- A fraction of a budget is within the budget.
  pub budget :
      (x : fl.F) (n : ℕ)
      → IsExact n
      → le fl (whole fl 0) x
      → le fl x (whole fl 1)
      → le fl (whole fl 0) (fl.mul x (whole fl n)) × le fl (fl.mul x (whole fl n)) (whole fl n)
  budget x n e lo hi = (
    ground (arith, laws.zero_mul n e, laws.mul_mono (whole fl 0) x n lo),
    ground (arith, laws.one_mul n e, laws.mul_mono x (whole fl 1) n hi),
  )
