-- ===== src/Risk.antt =====
-- backend/app/vulnerabilities/risk_exposure_service.py: the risk-exposure score of one finding.
-- Python's floats are the parameter `Floats`. The texts of a component (`label`, `raw_value`),
-- which are only displayed, are left out.
mod Order
pub mod Bounds
pub mod Monotone
pub mod Floor
pub mod Samples
mod Examples
use getvul.Prelude.{
  ℕ, ◌+◌, ◌-◌, String, Bool, true, false, not, Option, none, some, List, [], ◌∷◌, ◌++◌, ℤ, pos,
  sub_ℕ, leb_ℤ, max_ℤ, minus_from, ltb, str_eq, if◌then◌else◌,
}
use getvul.Models.{Decimal}

-- The operations that the code makes on floats: conversion of an `int` and of a `Decimal`,
-- products and quotients, the built-in `sum` of a list, `<`, `round(x, 2)` and `round(x)`.
pub record Floats : Type 1 where
  pub F : Type 0
  pub of_int : ℤ → F
  pub of_decimal : Decimal → F
  pub sum : List F → F
  pub mul : F → F → F
  pub div : F → F → F
  pub lt : F → F → Bool
  pub round2 : F → F
  pub round : F → ℤ

abbrev pub kev_floor_score : ℕ
kev_floor_score = 90

abbrev pub risk_model_version : String
risk_model_version = "v1"

-- A literal with two digits behind the point.
abbrev pub hundredths : ℕ → Decimal
hundredths n = record { digits = pos n; scale = 2 }

-- `SEVERITY_FALLBACK.get(severity, 0)`
unfoldable pub severity_fallback : String → ℕ
severity_fallback s =
    if str_eq s "CRITICAL"
    then 35
    else if str_eq s "HIGH"
    then 20
    else if str_eq s "MEDIUM"
    then 8
    else if str_eq s "LOW"
    then 2
    else 0

-- `_CRITICALITY_FRACTION.get(c, 0.0)`
unfoldable pub criticality_fraction : String → Decimal
criticality_fraction c =
    if str_eq c "CRITICAL"
    then hundredths 100
    else if str_eq c "HIGH"
    then hundredths 67
    else if str_eq c "MEDIUM"
    then hundredths 33
    else hundredths 0

-- `_SENSITIVITY_FRACTION.get(s, 0.0)`
unfoldable pub sensitivity_fraction : String → Decimal
sensitivity_fraction s =
    if str_eq s "RESTRICTED"
    then hundredths 100
    else if str_eq s "CONFIDENTIAL"
    then hundredths 67
    else if str_eq s "INTERNAL"
    then hundredths 33
    else hundredths 0

-- `_CROWDSTRIKE_RATING_FRACTION.get(rating, 0.0)` of an upper-case rating
unfoldable pub rating_fraction : String → Decimal
rating_fraction r =
    if str_eq r "LOW"
    then hundredths 25
    else if str_eq r "MEDIUM"
    then hundredths 50
    else if str_eq r "HIGH"
    then hundredths 75
    else if str_eq r "CRITICAL"
    then hundredths 100
    else hundredths 0

pub record FindingScoreInputs : Type 0 where
  pub severity : String
  pub cvss_v3_score : Option Decimal
  pub epss_score : Option Decimal
  pub cisa_kev : Bool
  pub source : String
  pub native_priority_score : Option Decimal
  pub native_priority_rating : Option String
  pub sources_count : ℕ
  pub business_criticality : String
  pub data_sensitivity : String
  pub internet_facing : Bool

pub record RiskBreakdownComponent (F : Type 0) : Type 0 where
  pub key : String
  pub points : F
  pub max_points : F

pub record RiskBreakdown (F : Type 0) : Type 0 where
  pub final_score : ℤ
  pub subtotal : F
  pub kev_floor_applied : Bool
  pub components : List (RiskBreakdownComponent F)

module _ (fl : Floats) where
  open fl use {F, of_int, of_decimal, sum, mul, div, lt, round2, round}

  abbrev pub whole : ℕ → F
  whole n = of_int (pos n)

  -- `min(max(x, 0.0), 1.0)`
  unfoldable pub clamp : F → F
  clamp x = let y = if lt x (whole 0) then whole 0 else x in if lt (whole 1) y then whole 1 else y

  abbrev pub scaled : ℕ → Option Decimal → F
  scaled ceiling none = whole 0
  scaled ceiling (some d) = clamp (div (of_decimal d) (whole ceiling))

  unfoldable pub severity_points : String → Option Decimal → F
  severity_points severity none = whole (severity_fallback severity)
  severity_points severity (some cvss) = mul (div (of_decimal cvss) (whole 10)) (whole 35)

  unfoldable pub epss_points : Option Decimal → F
  epss_points none = whole 0
  epss_points (some epss) = mul (of_decimal epss) (whole 20)

  -- `min(max(sources_count - 1, 0) / 3.0, 1.0)`
  unfoldable pub corroboration_fraction : ℕ → F
  corroboration_fraction n =
      let x = div (whole (n - 1)) (whole 3) in if lt (whole 1) x then whole 1 else x

  abbrev component : String → F → ℕ → RiskBreakdownComponent F
  component key points max_points = record {
    key = key;
    points = round2 points;
    max_points = whole max_points;
  }

  abbrev pub points_of : List (RiskBreakdownComponent F) → List F
  points_of [] = []
  points_of (c ∷ cs) = c.points ∷ points_of cs

  -- `sum(c.points for c in components)`
  unfoldable pub sum_points : List (RiskBreakdownComponent F) → F
  sum_points cs = sum (points_of cs)

  abbrev pub floor_component : ℤ → RiskBreakdownComponent F
  floor_component rounded = record {
    key = "kev_floor";
    points = of_int (minus_from kev_floor_score rounded);
    max_points = whole 0;
  }

  -- What follows the subtotal: the rounding and the KEV floor.
  unfoldable pub apply_floor : Bool → F → List (RiskBreakdownComponent F) → RiskBreakdown F
  apply_floor kev subtotal components =
      let rounded = round subtotal in
      let applied = not (leb_ℤ (pos kev_floor_score) rounded) in
      if kev
      then record {
        final_score = max_ℤ rounded (pos kev_floor_score);
        subtotal = subtotal;
        kev_floor_applied = applied;
        components = if applied then components ++ floor_component rounded ∷ [] else components;
      }
      else record {
        final_score = rounded;
        subtotal = subtotal;
        kev_floor_applied = false;
        components = components;
      }

-- `upper` is `str.upper`.
module _ (fl : Floats) (upper : String → String) where
  open fl use {F, of_decimal, mul}

  abbrev pub rated : Option String → F
  rated none = whole fl 0
  rated (some r) = of_decimal (rating_fraction (upper r))

  unfoldable pub normalize_native_signal : String → Option Decimal → Option String → F
  normalize_native_signal source score rating =
      if str_eq source "NESSUS"
      then scaled fl 10 score
      else if str_eq source "QUALYS"
      then scaled fl 100 score
      else if str_eq source "RAPID7"
      then scaled fl 1000 score
      else if str_eq source "CROWDSTRIKE"
      then rated rating
      else whole fl 0

  -- The seven components, in the order in which they are appended.
  unfoldable pub score_components : FindingScoreInputs → List (RiskBreakdownComponent F)
  score_components i =
      component fl "severity_cvss" (severity_points fl i.severity i.cvss_v3_score) 35
      ∷ component fl "epss" (epss_points fl i.epss_score) 20
      ∷ component fl "native_exploitability"
          (mul (normalize_native_signal i.source i.native_priority_score i.native_priority_rating)
            (whole fl 15))
          15
      ∷ component fl "exposure_business_criticality"
          (mul (of_decimal (criticality_fraction i.business_criticality)) (whole fl 10)) 10
      ∷ component fl "exposure_internet_facing"
          (if i.internet_facing then whole fl 6 else whole fl 0) 6
      ∷ component fl "exposure_data_sensitivity"
          (mul (of_decimal (sensitivity_fraction i.data_sensitivity)) (whole fl 4)) 4
      ∷ component fl "corroboration" (mul (corroboration_fraction fl i.sources_count) (whole fl 10))
          10
      ∷ []

  unfoldable pub score_finding : FindingScoreInputs → RiskBreakdown F
  score_finding i =
      apply_floor fl i.cisa_kev (sum_points fl (score_components i)) (score_components i)
