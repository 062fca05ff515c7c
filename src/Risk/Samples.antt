-- ===== src/Risk/Samples.antt =====
-- Decimals rounded down to millionths, in place of floats.
use getvul.Prelude.{ℕ, ◌+◌, ◌*◌, ◌/◌, ◌^◌, pos, pos_part, ltb, List, [], ◌∷◌}
use getvul.Risk.{Floats}

abbrev pub sum_all : List ℕ → ℕ
sum_all [] = 0
sum_all (n ∷ ns) = n + sum_all ns

abbrev pub fixed : Floats
fixed = record {
  F = ℕ;
  of_int = λ n. pos_part n * 1000000;
  of_decimal = λ d. pos_part d.digits * 1000000 / 10 ^ d.scale;
  sum = sum_all;
  mul = λ a b. a * b / 1000000;
  div = λ a b. a * 1000000 / b;
  lt = ltb;
  round2 = λ a. (a + 5000) / 10000 * 10000;
  round = λ a. pos ((a + 500000) / 1000000);
}
