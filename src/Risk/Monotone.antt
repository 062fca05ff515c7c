-- ===== src/Risk/Monotone.antt =====
-- A worse finding never scores lower.
use getvul.Prelude.{
  ℕ, ◌-◌, ◌≤◌, ◌≡◌, refl, inl, inr, String, Bool, true, false, Option, none, some, ℤ, pos, ◌≤ℤ◌,
  arith, str_eq, if◌then◌else◌,
}
use getvul.Models.{Decimal}
use getvul.Risk.{
  Floats, FindingScoreInputs, whole, scaled, severity_points, epss_points, corroboration_fraction,
  points_of, sum_points, score_components, score_finding, normalize_native_signal,
}
use getvul.Risk.Floor.{floored, final-score_finding}
use getvul.Risk.Bounds.{
  IsScorable, budgets, budgets_small, points-IsCents, components-Rounded, components-WithinBudget,
}
use getvul.Risk.Order.{
  IsFloats, IsDivisor, AllLe, le, le_self, clamp_mono, clamp_bounds, min_one_mono,
}

-- The same scale, and no fewer digits.
abbrev pub SameScale : Decimal → Decimal → Type 0
SameScale d e = (d.scale ≡ e.scale) × (d.digits ≤ℤ e.digits)

-- No lower, where an absent value counts as 0.
abbrev pub Raised : Option Decimal → Option Decimal → Type 0
Raised none none = Unit
Raised none (some e) = pos 0 ≤ℤ e.digits
Raised (some d) none = ⊥
Raised (some d) (some e) = SameScale d e

-- No lower, and present in both or in neither: without a CVSS score the severity counts instead.
abbrev pub RaisedCvss : Option Decimal → Option Decimal → Type 0
RaisedCvss none none = Unit
RaisedCvss (some d) (some e) = SameScale d e
RaisedCvss _ _ = ⊥

-- `j` is the finding `i` with some signals stronger, and the texts as they were.
pub record IsWorse (i j : FindingScoreInputs) : Type 0 where
  pub severity : i.severity ≡ j.severity
  pub source : i.source ≡ j.source
  pub rating : i.native_priority_rating ≡ j.native_priority_rating
  pub criticality : i.business_criticality ≡ j.business_criticality
  pub sensitivity : i.data_sensitivity ≡ j.data_sensitivity
  pub cvss : RaisedCvss i.cvss_v3_score j.cvss_v3_score
  pub epss : Raised i.epss_score j.epss_score
  pub native : Raised i.native_priority_score j.native_priority_score
  pub sources : i.sources_count ≤ j.sources_count
  pub facing : i.internet_facing ≡ true → j.internet_facing ≡ true
  pub kev : i.cisa_kev ≡ true → j.cisa_kev ≡ true

module _ (fl : Floats) (laws : IsFloats fl) where
  of_decimal-le : (d e : Decimal) → SameScale d e → le fl (fl.of_decimal d) (fl.of_decimal e)
  of_decimal-le d e h = laws.of_decimal_mono d e h.0 h.1

  severity_points_mono :
      (s : String) (o p : Option Decimal)
      → RaisedCvss o p
      → le fl (severity_points fl s o) (severity_points fl s p)
  unfolding severity_points
  severity_points_mono s none none h = le_self fl laws _
  severity_points_mono s none (some e) h = absurd h
  severity_points_mono s (some d) none h = absurd h
  severity_points_mono s (some d) (some e) h =
      laws.mul_mono _ _ 35 (laws.div_mono _ _ 10 (inr (inl refl)) (of_decimal-le d e h))

  epss_points_mono :
      (o p : Option Decimal) → Raised o p → le fl (epss_points fl o) (epss_points fl p)
  unfolding epss_points
  epss_points_mono none none h = le_self fl laws _
  epss_points_mono none (some e) h =
      rw (laws.zero_mul 20 (omega arith)) at (
        laws.mul_mono (whole fl 0) (fl.of_decimal e) 20
          (laws.whole-le-of_decimal e 0 (omega arith)))
  epss_points_mono (some d) none h = absurd h
  epss_points_mono (some d) (some e) h = laws.mul_mono _ _ 20 (of_decimal-le d e h)

  scaled_mono :
      (n : ℕ) (o p : Option Decimal)
      → IsDivisor n
      → Raised o p
      → le fl (scaled fl n o) (scaled fl n p)
  scaled_mono n none none v h = le_self fl laws _
  scaled_mono n none (some e) v h = (clamp_bounds fl laws _).0
  scaled_mono n (some d) none v h = absurd h
  scaled_mono n (some d) (some e) v h =
      clamp_mono fl laws _ _ (laws.div_mono _ _ n v (of_decimal-le d e h))

  if_mono :
      (b : Bool) (x y z w : fl.F)
      → le fl x y
      → le fl z w
      → le fl (if b then x else z) (if b then y else w)
  if_mono true x y z w h k = h
  if_mono false x y z w h k = k

  native_mono :
      (upper : String → String) (source : String) (r : Option String) (o p : Option Decimal)
      → Raised o p
      → le fl
          (normalize_native_signal fl upper source o r)
          (normalize_native_signal fl upper source p r)
  unfolding normalize_native_signal
  native_mono upper source r o p h =
      if_mono (str_eq source "NESSUS") _ _ _ _ (scaled_mono 10 o p (inr (inl refl)) h) (
        if_mono (str_eq source "QUALYS") _ _ _ _ (scaled_mono 100 o p (inr (inr (inl refl))) h) (
          if_mono (str_eq source "RAPID7") _ _ _ _ (scaled_mono 1000 o p (inr (inr (inr refl))) h)
            (le_self fl laws _)))

  corroboration_fraction_mono :
      (m n : ℕ) → m ≤ n → le fl (corroboration_fraction fl m) (corroboration_fraction fl n)
  unfolding corroboration_fraction
  corroboration_fraction_mono m n h =
      min_one_mono fl laws _ _
        (laws.div_mono _ _ 3 (inl refl) (laws.of_int_mono (m - 1) (n - 1) (omega arith)))

  facing_mono :
      (b c : Bool)
      → (b ≡ true → c ≡ true)
      → le fl (if b then whole fl 6 else whole fl 0) (if c then whole fl 6 else whole fl 0)
  facing_mono true c h = rw (h refl) (le_self fl laws _)
  facing_mono false true h = laws.of_int_mono 0 6 (omega arith)
  facing_mono false false h = le_self fl laws _

  score_components_mono :
      (upper : String → String) (i j : FindingScoreInputs)
      → IsWorse i j
      → AllLe fl
          (points_of fl (score_components fl upper i))
          (points_of fl (score_components fl upper j))
  unfolding score_components
  score_components_mono upper i j w =
      rw (w.severity, w.source, w.rating, w.criticality, w.sensitivity)
        (
          laws.round2_mono _ _
              (severity_points_mono j.severity i.cvss_v3_score j.cvss_v3_score w.cvss),
          (
            laws.round2_mono _ _ (epss_points_mono i.epss_score j.epss_score w.epss),
            (
              laws.round2_mono _ _ (
                  laws.mul_mono _ _ 15 (
                    native_mono upper j.source j.native_priority_rating i.native_priority_score
                      j.native_priority_score w.native)),
              (
                le_self fl laws _,
                (
                  laws.round2_mono _ _ (facing_mono i.internet_facing j.internet_facing w.facing),
                  (
                    le_self fl laws _,
                    (
                      laws.round2_mono _ _ (
                          laws.mul_mono _ _ 10 (
                            corroboration_fraction_mono i.sources_count j.sources_count w.sources)),
                      tt,
                    ),
                  ),
                ),
              ),
            ),
          ),
        )

  floored_mono :
      (b c : Bool) (m n : ℤ) → (b ≡ true → c ≡ true) → m ≤ℤ n → floored b m ≤ℤ floored c n
  floored_mono b c m n k h = ground arith

  -- For float operations that are monotone (the sum on hundredths) and exact on small whole
  -- numbers, and findings with CVSS scores of at most 10 and EPSS probabilities of at most 1:
  -- raising the CVSS score, the EPSS probability, the native score (each at the same scale) or
  -- the number of sources, exposing the asset to the internet or listing the CVE in the KEV
  -- catalogue never lowers the score, the other inputs being as they were.
  pub score_finding-mono :
      (upper : String → String) (i j : FindingScoreInputs)
      → IsScorable i
      → IsScorable j
      → IsWorse i j
      → (score_finding fl upper i).final_score ≤ℤ (score_finding fl upper j).final_score
  unfolding sum_points
  score_finding-mono upper i j si sj w =
      let m = fl.round (sum_points fl (score_components fl upper i)) in
      let n = fl.round (sum_points fl (score_components fl upper j)) in
      let cents = λ (k : FindingScoreInputs) (h : IsScorable k).
        points-IsCents fl laws (score_components fl upper k) budgets (budgets_small fl laws)
          (components-Rounded fl laws upper k) (components-WithinBudget fl laws upper k h) in
      rw (final-score_finding fl upper i, final-score_finding fl upper j)
        (floored_mono i.cisa_kev j.cisa_kev m n w.kev (
          laws.round_mono _ _
            (laws.sum_mono _ _ (cents i si) (cents j sj) (score_components_mono upper i j w))))
