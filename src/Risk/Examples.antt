-- ===== src/Risk/Examples.antt =====
-- The sample arithmetic satisfies the laws, and two findings are scored with it.
use getvul.Prelude.{
  ℕ, ◌*◌, ◌/◌, ◌^◌, ◌≤◌, ◌≡◌, ◌<◌, refl, ap, inl, inr, String, true, false, none, some, pos,
  pos_part, ◌≤ℤ◌, arith, List, [], ◌∷◌,
}
use native.Mathlib.Nat.{
  le-div_iff_mul-le, div-mul-le_self, div-le_of_le-mul, one-le-pow, mul-le-mul_right,
}
use getvul.Models.{Decimal}
use getvul.Risk.{FindingScoreInputs, score_components, score_finding, whole}
use getvul.Risk.Samples.{fixed, sum_all}
use getvul.Risk.Bounds.{IsScorable, WithinBudget, budgets, score_finding-bounds}
use getvul.Risk.Monotone.{IsWorse, score_finding-mono}
use getvul.Risk.Order.{IsFloats, IsDivisor, AllLe, le, total, wholes}

le_of : (a b : ℕ) → a ≤ b → le fixed a b
le_of a b h = ground arith

of_le : (a b : ℕ) → le fixed a b → a ≤ b
of_le a b h = ground arith

div_mono_of_le : (a b k : ℕ) → 0 < k → a ≤ b → a / k ≤ b / k
div_mono_of_le a b k h l = (le-div_iff_mul-le h).1 (omega (arith, div-mul-le_self a k, l))

ten_pos : (s : ℕ) → 0 < 10 ^ s
ten_pos s = one-le-pow s 10 (omega arith)

of_decimal_mono :
    (d e : Decimal)
    → d.scale ≡ e.scale
    → d.digits ≤ℤ e.digits
    → le fixed (fixed.of_decimal d) (fixed.of_decimal e)
of_decimal_mono d e s h = le_of _ _ (
    rw s (
      div_mono_of_le (pos_part d.digits * 1000000) (pos_part e.digits * 1000000) (10 ^ e.scale)
        (ten_pos e.scale) (ground (arith, h))))

below :
    (d : Decimal) (n : ℕ)
    → d.digits ≤ℤ pos (n * 10 ^ d.scale)
    → le fixed (fixed.of_decimal d) (whole fixed n)
below d n h = le_of _ _ (div-le_of_le-mul (10 ^ d.scale) (grind (arith, h)))

above :
    (d : Decimal) (n : ℕ)
    → pos (n * 10 ^ d.scale) ≤ℤ d.digits
    → le fixed (whole fixed n) (fixed.of_decimal d)
above d n h = le_of _ _ ((le-div_iff_mul-le (ten_pos d.scale)).1 (grind (arith, h)))

mul_mono :
    (a b n : ℕ)
    → le fixed a b
    → le fixed (fixed.mul a (whole fixed n)) (fixed.mul b (whole fixed n))
mul_mono a b n h = le_of _ _ (
    div_mono_of_le (a * (n * 1000000)) (b * (n * 1000000)) 1000000 (omega arith)
      (mul-le-mul_right (n * 1000000) (of_le a b h)))

divisor_pos : (n : ℕ) → IsDivisor n → 0 < n * 1000000
divisor_pos n (inl e) = omega (arith, e)
divisor_pos n (inr (inl e)) = omega (arith, e)
divisor_pos n (inr (inr (inl e))) = omega (arith, e)
divisor_pos n (inr (inr (inr e))) = omega (arith, e)

div_mono :
    (a b n : ℕ)
    → IsDivisor n
    → le fixed a b
    → le fixed (fixed.div a (whole fixed n)) (fixed.div b (whole fixed n))
div_mono a b n d h = le_of _ _ (
    div_mono_of_le (a * 1000000) (b * 1000000) (n * 1000000) (divisor_pos n d)
      (omega (arith, of_le a b h)))

div_self : (n : ℕ) → IsDivisor n → fixed.div (whole fixed n) (whole fixed n) ≡ whole fixed 1
div_self n (inl e) = rw e refl
div_self n (inr (inl e)) = rw e refl
div_self n (inr (inr (inl e))) = rw e refl
div_self n (inr (inr (inr e))) = rw e refl

zero_div : (n : ℕ) → IsDivisor n → fixed.div (whole fixed 0) (whole fixed n) ≡ whole fixed 0
zero_div n (inl e) = rw e refl
zero_div n (inr (inl e)) = rw e refl
zero_div n (inr (inr (inl e))) = rw e refl
zero_div n (inr (inr (inr e))) = rw e refl

sum_all_mono : (xs ys : List ℕ) → AllLe fixed xs ys → le fixed (sum_all xs) (sum_all ys)
sum_all_mono [] [] h = refl
sum_all_mono [] (y ∷ ys) h = absurd h
sum_all_mono (x ∷ xs) [] h = absurd h
sum_all_mono (x ∷ xs) (y ∷ ys) h = ground (arith, h.0, sum_all_mono xs ys h.1)

sum_all-wholes : (ws : List ℕ) → sum_all (wholes fixed ws) ≡ whole fixed (total ws)
sum_all-wholes [] = refl
sum_all-wholes (w ∷ ws) = omega (arith, sum_all-wholes ws)

fixed-IsFloats : IsFloats fixed
fixed-IsFloats = record {
  lt_asymm = λ a b h. ground arith;
  le_trans = λ a b c h k. ground arith;
  of_int_mono = λ m n h. le_of _ _ (omega arith);
  of_decimal_mono = of_decimal_mono;
  of_decimal-le-whole = below;
  whole-le-of_decimal = above;
  sum_mono = λ xs ys p q h. sum_all_mono xs ys h;
  mul_mono = mul_mono;
  div_mono = div_mono;
  round2_mono = λ a b h. ground arith;
  round_mono = λ a b h. ground arith;
  sum_exact = λ ws h. sum_all-wholes ws;
  zero_mul = λ n h. omega arith;
  one_mul = λ n h. omega arith;
  div_self = div_self;
  zero_div = zero_div;
  round2_whole = λ n h. omega arith;
  round_whole = λ n h. ap pos (omega arith);
}

abbrev as_is : String → String
as_is s = s

abbrev plain : FindingScoreInputs
plain = record {
  severity = "HIGH";
  cvss_v3_score = some (record { digits = pos 75; scale = 1 });
  epss_score = none;
  cisa_kev = false;
  source = "QUALYS";
  native_priority_score = some (record { digits = pos 40; scale = 0 });
  native_priority_rating = none;
  sources_count = 1;
  business_criticality = "MEDIUM";
  data_sensitivity = "INTERNAL";
  internet_facing = false;
}

abbrev exposed : FindingScoreInputs
exposed = record plain {
  cvss_v3_score = some (record { digits = pos 98; scale = 1 });
  epss_score = some (record { digits = pos 9000; scale = 4 });
  sources_count = 3;
  internet_facing = true;
}

exposed-IsScorable : IsScorable exposed
exposed-IsScorable = record { cvss = (omega arith, omega arith); epss = (omega arith, omega arith) }

plain-IsScorable : IsScorable plain
plain-IsScorable = record { cvss = (omega arith, omega arith); epss = tt }

plain-IsWorse : IsWorse plain exposed
plain-IsWorse = ground arith

score_finding-bounds_example :
    WithinBudget fixed (score_components fixed as_is exposed) budgets
    × (pos 0 ≤ℤ (score_finding fixed as_is exposed).final_score)
    × ((score_finding fixed as_is exposed).final_score ≤ℤ pos 100)
score_finding-bounds_example =
    score_finding-bounds fixed fixed-IsFloats as_is exposed exposed-IsScorable

score_finding-mono_example :
    (score_finding fixed as_is plain).final_score ≤ℤ (score_finding fixed as_is exposed).final_score
score_finding-mono_example =
    score_finding-mono fixed fixed-IsFloats as_is plain exposed plain-IsScorable exposed-IsScorable
      plain-IsWorse
