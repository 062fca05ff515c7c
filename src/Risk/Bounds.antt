-- ===== src/Risk/Bounds.antt =====
-- The score of a finding whose inputs are in their documented ranges stays within the budget.
use getvul.Prelude.{
  ℕ, ◌*◌, ◌-◌, ◌^◌, ◌≤◌, ◌≡◌, refl, sym, All, inl, inr, String, Bool, true, false, Option, none,
  some, List, [], ◌∷◌, ℤ, pos, ◌≤ℤ◌, arith, str_eq, if◌then◌else◌,
}
use getvul.Models.{Decimal}
use getvul.Risk.{
  Floats, FindingScoreInputs, RiskBreakdownComponent, whole, scaled, rated, severity_points,
  epss_points, corroboration_fraction, component, points_of, sum_points, score_components,
  score_finding, normalize_native_signal, severity_fallback, criticality_fraction,
  sensitivity_fraction, rating_fraction,
}
use getvul.Risk.Floor.{floored, final-score_finding}
use getvul.Risk.Order.{
  IsFloats, IsExact, IsDivisor, le, le_self, clamp_bounds, budget, IsCents, AllLe, total, wholes,
}

-- 0 ≤ d ≤ n
abbrev pub InRange : ℕ → Option Decimal → Type 0
InRange n none = Unit
InRange n (some d) = (pos 0 ≤ℤ d.digits) × (d.digits ≤ℤ pos (n * 10 ^ d.scale))

if_split {ℓ κ} :
    {A : Type ℓ} (P : A → Type κ) (b : Bool) {x y : A} → P x → P y → P (if b then x else y)
if_split P true p q = p
if_split P false p q = q

-- A CVSS score is at most 10, an EPSS probability at most 1.
pub record IsScorable (i : FindingScoreInputs) : Type 0 where
  pub cvss : InRange 10 i.cvss_v3_score
  pub epss : InRange 1 i.epss_score

-- Each component stays between 0 and its budget.
abbrev pub WithinBudget : (fl : Floats) → List (RiskBreakdownComponent fl.F) → List ℕ → Type 0
WithinBudget fl [] [] = Unit
WithinBudget fl (c ∷ cs) (w ∷ ws) =
    le fl (whole fl 0) c.points
    × le fl c.points (whole fl w)
    × (c.max_points ≡ whole fl w)
    × WithinBudget fl cs ws
WithinBudget fl _ _ = ⊥

abbrev pub budgets : List ℕ
budgets = 35 ∷ 20 ∷ 15 ∷ 10 ∷ 6 ∷ 4 ∷ 10 ∷ []

floored_range :
    (kev : Bool) (n : ℤ)
    → pos 0 ≤ℤ n
    → n ≤ℤ pos 100
    → (pos 0 ≤ℤ floored kev n) × (floored kev n ≤ℤ pos 100)
floored_range true n lo hi = ground arith
floored_range false n lo hi = (lo, hi)

module _ (fl : Floats) (laws : IsFloats fl) where
  abbrev Between : fl.F → ℕ → Type 0
  Between x n = le fl (whole fl 0) x × le fl x (whole fl n)

  in_range : (n : ℕ) (d : Decimal) → InRange n (some d) → Between (fl.of_decimal d) n
  in_range n d h =
      (laws.whole-le-of_decimal d 0 (omega arith), laws.of_decimal-le-whole d n (omega arith))

  severity_points-Between :
      (s : String) (o : Option Decimal) → InRange 10 o → Between (severity_points fl s o) 35
  unfolding severity_points severity_fallback
  severity_points-Between s none h =
      (laws.of_int_mono 0 _ (ground arith), laws.of_int_mono _ 35 (ground arith))
  severity_points-Between s (some d) h =
      let r = in_range 10 d h in
      let ten : IsDivisor 10 = inr (inl refl) in
      budget fl laws (fl.div (fl.of_decimal d) (whole fl 10)) 35 (omega arith)
        (ground
          (arith, laws.zero_div 10 ten, laws.div_mono (whole fl 0) (fl.of_decimal d) 10 ten r.0))
        (ground
          (arith, laws.div_self 10 ten, laws.div_mono (fl.of_decimal d) (whole fl 10) 10 ten r.1))

  epss_points-Between : (o : Option Decimal) → InRange 1 o → Between (epss_points fl o) 20
  unfolding epss_points
  epss_points-Between none h = (le_self fl laws (whole fl 0), laws.of_int_mono 0 20 (omega arith))
  epss_points-Between (some d) h =
      let r = in_range 1 d h in budget fl laws (fl.of_decimal d) 20 (omega arith) r.0 r.1

  table_fractions :
      (c s r : String)
      → InRange 1 (some (criticality_fraction c))
        × InRange 1 (some (sensitivity_fraction s))
        × InRange 1 (some (rating_fraction r))
  unfolding criticality_fraction sensitivity_fraction rating_fraction
  table_fractions c s r = (ground arith, ground arith, ground arith)

  corroboration_fraction-Between : (n : ℕ) → Between (corroboration_fraction fl n) 1
  unfolding corroboration_fraction
  corroboration_fraction-Between n =
      let three : IsDivisor 3 = inl refl in
      let pos3 : le fl (whole fl 0) (fl.div (whole fl (n - 1)) (whole fl 3)) = ground (
        arith,
        laws.zero_div 3 three,
        laws.div_mono (whole fl 0) (whole fl (n - 1)) 3 three
            (laws.of_int_mono 0 (n - 1) (omega arith)),
      ) in
      (
        ground (arith, laws.of_int_mono 0 1 (omega arith)),
        ground (arith, le_self fl laws (whole fl 1)),
      )

  zero-Between : Between (whole fl 0) 1
  zero-Between = (le_self fl laws (whole fl 0), laws.of_int_mono 0 1 (omega arith))

  scaled-Between : (n : ℕ) (o : Option Decimal) → Between (scaled fl n o) 1
  scaled-Between n none = zero-Between
  scaled-Between n (some d) = clamp_bounds fl laws (fl.div (fl.of_decimal d) (whole fl n))

  rated-Between : (upper : String → String) (o : Option String) → Between (rated fl upper o) 1
  rated-Between upper none = zero-Between
  rated-Between upper (some r) =
      in_range 1 (rating_fraction (upper r)) (table_fractions "" "" (upper r)).2

  -- The native signal is a fraction, whatever the vendor sent.
  native-Between :
      (upper : String → String) (source : String) (o : Option Decimal) (r : Option String)
      → Between (normalize_native_signal fl upper source o r) 1
  unfolding normalize_native_signal
  native-Between upper source o r =
      let a = scaled-Between 10 o in
      let b = scaled-Between 100 o in
      let c = scaled-Between 1000 o in
      let d = rated-Between upper r in
      let z = zero-Between in
      (
        if_split (λ x. le fl (whole fl 0) x) (str_eq source "NESSUS") a.0
            (if_split (λ x. le fl (whole fl 0) x) (str_eq source "QUALYS") b.0
              (if_split (λ x. le fl (whole fl 0) x) (str_eq source "RAPID7") c.0
                (if_split (λ x. le fl (whole fl 0) x) (str_eq source "CROWDSTRIKE") d.0 z.0))),
        if_split (λ x. le fl x (whole fl 1)) (str_eq source "NESSUS") a.1
            (if_split (λ x. le fl x (whole fl 1)) (str_eq source "QUALYS") b.1
              (if_split (λ x. le fl x (whole fl 1)) (str_eq source "RAPID7") c.1
                (if_split (λ x. le fl x (whole fl 1)) (str_eq source "CROWDSTRIKE") d.1 z.1))),
      )

  rounded :
      (key : String) (x : fl.F) (w : ℕ)
      → IsExact w
      → Between x w
      → Between (component fl key x w).points w
  rounded key x w e h = (
    ground (arith, laws.round2_whole 0 (omega arith), laws.round2_mono (whole fl 0) x h.0),
    ground (arith, laws.round2_whole w e, laws.round2_mono x (whole fl w) h.1),
  )

  facing-Between : (b : Bool) → Between (if b then whole fl 6 else whole fl 0) 6
  facing-Between true = (laws.of_int_mono 0 6 (omega arith), le_self fl laws (whole fl 6))
  facing-Between false = (le_self fl laws (whole fl 0), laws.of_int_mono 0 6 (omega arith))

  pub components-WithinBudget :
      (upper : String → String) (i : FindingScoreInputs)
      → IsScorable i
      → WithinBudget fl (score_components fl upper i) budgets
  unfolding score_components
  components-WithinBudget upper i h =
      let native = native-Between upper i.source i.native_priority_score i.native_priority_rating in
      let tables = table_fractions i.business_criticality i.data_sensitivity "" in
      let crit = in_range 1 (criticality_fraction i.business_criticality) tables.0 in
      let sens = in_range 1 (sensitivity_fraction i.data_sensitivity) tables.1 in
      let corr = corroboration_fraction-Between i.sources_count in
      let c1 =
        rounded "" _ 35 (omega arith) (severity_points-Between i.severity i.cvss_v3_score h.cvss) in
      let c2 = rounded "" _ 20 (omega arith) (epss_points-Between i.epss_score h.epss) in
      let c3 =
        rounded "" _ 15 (omega arith) (budget fl laws _ 15 (omega arith) native.0 native.1) in
      let c4 = rounded "" _ 10 (omega arith) (budget fl laws _ 10 (omega arith) crit.0 crit.1) in
      let c5 = rounded "" _ 6 (omega arith) (facing-Between i.internet_facing) in
      let c6 = rounded "" _ 4 (omega arith) (budget fl laws _ 4 (omega arith) sens.0 sens.1) in
      let c7 = rounded "" _ 10 (omega arith) (budget fl laws _ 10 (omega arith) corr.0 corr.1) in
      (
        c1.0,
        c1.1,
        refl,
        (
          c2.0,
          c2.1,
          refl,
          (
            c3.0,
            c3.1,
            refl,
            (c4.0, c4.1, refl, (c5.0, c5.1, refl, (c6.0, c6.1, refl, (c7.0, c7.1, refl, tt)))),
          ),
        ),
      )

  -- Every component is the result of `round(points, 2)`.
  abbrev pub Rounded : List (RiskBreakdownComponent fl.F) → Type 0
  Rounded [] = Unit
  Rounded (c ∷ cs) = (x : fl.F) × (c.points ≡ fl.round2 x) × Rounded cs

  pub components-Rounded :
      (upper : String → String) (i : FindingScoreInputs) → Rounded (score_components fl upper i)
  unfolding score_components
  components-Rounded upper i =
      (_, refl, (_, refl, (_, refl, (_, refl, (_, refl, (_, refl, (_, refl, tt)))))))

  pub points-IsCents :
      (cs : List (RiskBreakdownComponent fl.F)) (ws : List ℕ)
      → All (λ n. n ≤ 100) ws
      → Rounded cs
      → WithinBudget fl cs ws
      → All (IsCents fl) (points_of fl cs)
  points-IsCents [] [] small r b = tt
  points-IsCents [] (w ∷ ws) small r b = absurd b
  points-IsCents (c ∷ cs) [] small r b = absurd b
  points-IsCents (c ∷ cs) (w ∷ ws) small r b = (
    record {
      raw = r.0;
      is_rounded = r.1;
      low = b.0;
      high =
          laws.le_trans c.points (whole fl w) (whole fl 100) b.1 (laws.of_int_mono w 100 small.0);
    },
    points-IsCents cs ws small.1 r.2 b.3,
  )

  wholes-IsCents : (ws : List ℕ) → All (λ n. n ≤ 100) ws → All (IsCents fl) (wholes fl ws)
  wholes-IsCents [] small = tt
  wholes-IsCents (w ∷ ws) small = (
    record {
      raw = whole fl w;
      is_rounded = sym (laws.round2_whole w (omega (arith, small.0)));
      low = laws.of_int_mono 0 w (omega arith);
      high = laws.of_int_mono w 100 small.0;
    },
    wholes-IsCents ws small.1,
  )

  zeros : List ℕ → List ℕ
  zeros [] = []
  zeros (w ∷ ws) = 0 ∷ zeros ws

  total-zeros : (ws : List ℕ) → total (zeros ws) ≡ 0
  unfolding zeros
  total-zeros [] = refl
  total-zeros (w ∷ ws) = omega (arith, total-zeros ws)

  zeros_small : (ws : List ℕ) → All (λ n. n ≤ 100) (zeros ws)
  unfolding zeros
  zeros_small [] = tt
  zeros_small (w ∷ ws) = (omega arith, zeros_small ws)

  points-AllLe :
      (cs : List (RiskBreakdownComponent fl.F)) (ws : List ℕ)
      → WithinBudget fl cs ws
      → AllLe fl (wholes fl (zeros ws)) (points_of fl cs)
        × AllLe fl (points_of fl cs) (wholes fl ws)
  unfolding zeros
  points-AllLe [] [] b = (tt, tt)
  points-AllLe [] (w ∷ ws) b = absurd b
  points-AllLe (c ∷ cs) [] b = absurd b
  points-AllLe (c ∷ cs) (w ∷ ws) b =
      let rest = points-AllLe cs ws b.3 in ((b.0, rest.0), (b.1, rest.1))

  sum_points-Between :
      (cs : List (RiskBreakdownComponent fl.F)) (ws : List ℕ)
      → All (λ n. n ≤ 100) ws
      → IsExact (total ws)
      → Rounded cs
      → WithinBudget fl cs ws
      → Between (sum_points fl cs) (total ws)
  unfolding sum_points
  sum_points-Between cs ws small e r b =
      let cents = points-IsCents cs ws small r b in
      let sides = points-AllLe cs ws b in
      let lo =
        laws.sum_mono (wholes fl (zeros ws)) (points_of fl cs)
          (wholes-IsCents (zeros ws) (zeros_small ws)) cents sides.0 in
      let hi =
        laws.sum_mono (points_of fl cs) (wholes fl ws) cents (wholes-IsCents ws small) sides.1 in
      let none_left = laws.sum_exact (zeros ws) (omega (arith, total-zeros ws)) in
      (rw (none_left, total-zeros ws) at lo, rw (laws.sum_exact ws e) at hi)

  pub budgets_small : All (λ n. n ≤ 100) budgets
  budgets_small = ground arith

  -- For float operations that are monotone (the sum on hundredths) and exact on small whole
  -- numbers: a finding with a
  -- CVSS score of at most 10 and an EPSS probability of at most 1 scores between 0 and 100,
  -- and each of its seven components stays between 0 and its own budget, whatever the native
  -- signal, the exposure values and the number of sources.
  pub score_finding-bounds :
      (upper : String → String) (i : FindingScoreInputs)
      → IsScorable i
      → WithinBudget fl (score_components fl upper i) budgets
        × (pos 0 ≤ℤ (score_finding fl upper i).final_score)
        × ((score_finding fl upper i).final_score ≤ℤ pos 100)
  score_finding-bounds upper i h =
      let within = components-WithinBudget upper i h in
      let cs = score_components fl upper i in
      let sum =
        sum_points-Between cs budgets budgets_small (omega arith) (components-Rounded upper i)
          within in
      let s = sum_points fl cs in
      let lo : pos 0 ≤ℤ fl.round s =
        rw (laws.round_whole 0 (omega arith)) at (laws.round_mono (whole fl 0) s sum.0) in
      let hi : fl.round s ≤ℤ pos 100 =
        rw (laws.round_whole 100 (omega arith)) at (laws.round_mono s (whole fl 100) sum.1) in
      let range = floored_range i.cisa_kev (fl.round s) lo hi in
      rw (final-score_finding fl upper i) (within, range.0, range.1)
