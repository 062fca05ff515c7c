-- ===== src/Ticketing/Matching.antt =====
-- backend/app/ticketing/rule_engine.py, `find_matching_assets`: the assets that a rule selects are
-- those that meet its conditions.
use getvul.Prelude.{
  ℕ, ◌-◌, String, Bool, true, false, not, ◌&&◌, ◌||◌, Option, none, some, List, [], ◌∷◌, filter,
  any, ℤ, pos, leb_ℤ, count_where, ltb, ◌==◌, str_eq, if◌then◌else◌,
}
use getvul.Models.{Vulnerability}
use getvul.Correlation.{source_order}
use getvul.Ticketing.{Host, is_open_on}

-- A rule's conditions; an empty list, `false` and 0 are what an absent key means.
pub record Conditions : Type 0 where
  pub device_category : List String
  pub min_risk_score : Option ℤ
  pub scanner : List String
  pub source : List String
  pub severity : List String
  pub exploit_available : Bool
  pub cisa_kev : Bool
  pub min_critical_vulns : ℤ
  pub min_high_vulns : ℤ

abbrev pub contains : List String → String → Bool
contains ss s = any (λ t. str_eq t s) ss

abbrev pub is_empty {ℓ} : {A : Type ℓ} → List A → Bool
is_empty [] = true
is_empty (_ ∷ _) = false

abbrev pub is_zero : ℤ → Bool
is_zero n = leb_ℤ n (pos 0) && leb_ℤ (pos 0) n

-- `Asset.device_category.in_(...)`, which NULL fails
abbrev pub in_category : List String → Option String → Bool
in_category cs none = false
in_category cs (some c) = contains cs c

abbrev pub at_least : ℤ → Option ℤ → Bool
at_least m none = false
at_least m (some s) = leb_ℤ m s

unfoldable pub meets_risk : Option ℤ → Option ℤ → Bool
meets_risk none score = true
meets_risk (some m) score = if leb_ℤ m (pos 0) then true else at_least m score

-- The counts of the aggregate query for one asset.
pub record VulnCounts : Type 0 where
  pub total : ℕ
  pub critical : ℕ
  pub high : ℕ
  pub exploitable : ℕ
  pub kev : ℕ

unfoldable pub count_vulns : ℕ → List Vulnerability → VulnCounts
count_vulns a vulns = record {
  total = count_where (is_open_on a) vulns;
  critical = count_where (λ v. is_open_on a v && str_eq v.severity "CRITICAL") vulns;
  high = count_where (λ v. is_open_on a v && str_eq v.severity "HIGH") vulns;
  exploitable = count_where (λ v. is_open_on a v && v.exploit_available) vulns;
  kev = count_where (λ v. is_open_on a v && v.cisa_kev) vulns;
}

-- One round of the loop over the severity filter.
unfoldable pub has_severity : VulnCounts → String → Bool
has_severity vc sev =
    (str_eq sev "CRITICAL" && ltb 0 vc.critical)
    || (str_eq sev "HIGH" && ltb 0 vc.high)
    || (str_eq sev "MEDIUM" && ltb 0 (vc.total - vc.critical - vc.high))

-- The chain of `continue`s.
unfoldable pub passes_counts : Conditions → VulnCounts → Bool
passes_counts c vc =
    if vc.total == 0
    then false
    else if not (is_empty c.severity) && not (any (has_severity vc) c.severity)
    then false
    else if c.exploit_available && vc.exploitable == 0
    then false
    else if c.cisa_kev && vc.kev == 0
    then false
    else if not (is_zero c.min_critical_vulns) && not (leb_ℤ c.min_critical_vulns (pos vc.critical))
    then false
    else if not (is_zero c.min_high_vulns) && not (leb_ℤ c.min_high_vulns (pos vc.high))
    then false
    else true

unfoldable pub has_no_vuln_conditions : Conditions → Bool
has_no_vuln_conditions c =
    is_empty c.severity
    && not c.exploit_available
    && not c.cisa_kev
    && is_zero c.min_critical_vulns
    && is_zero c.min_high_vulns

-- `normalize` is `x.strip().upper()`.
module _ (normalize : String → String) where
  abbrev normalize_all : List String → List String
  normalize_all [] = []
  normalize_all (s ∷ ss) = normalize s ∷ normalize_all ss

  -- The scanners of the condition, or else its sources; what is no scanner is dropped.
  unfoldable pub scanners_of : Conditions → List String
  scanners_of c =
      filter (contains source_order)
        (normalize_all (if is_empty c.scanner then c.source else c.scanner))

  unfoldable pub meets_scanners : List String → List String → Bool
  meets_scanners scanners seen = is_empty scanners || any (contains seen) scanners

  -- The query's `WHERE` clauses.
  unfoldable pub is_candidate : ℕ → Conditions → Host → Bool
  is_candidate tenant_id c h =
      h.tenant_id == tenant_id
      && not h.is_ignored
      && (is_empty c.device_category || in_category c.device_category h.device_category)
      && meets_risk c.min_risk_score h.risk_score
      && meets_scanners (scanners_of c) h.seen_by_sources

  unfoldable pub find_matching_assets : ℕ → Conditions → List Host → List Vulnerability → List Host
  find_matching_assets tenant_id c hosts vulns =
      let assets = filter (is_candidate tenant_id c) hosts in
      if has_no_vuln_conditions c
      then assets
      else filter (λ h. passes_counts c (count_vulns h.id vulns)) assets
