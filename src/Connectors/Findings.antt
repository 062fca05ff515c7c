-- ===== src/Connectors/Findings.antt =====
-- backend/app/connectors/sync.py, `_lookup_enrichment`, `_upsert_vulnerability` and
-- `_upsert_misconfiguration`: the rows of what a connector reports.
pub mod Kept
pub mod Triage
use getvul.Prelude.{
  ℕ, String, Bool, true, false, not, ◌&&◌, Option, none, some, is_some, List, [], ◌∷◌, any, filter,
  ◌==◌, str_eq, if◌then◌else◌, Upserted, upsert_row,
}
use getvul.Models.{Decimal, Vulnerability}
use getvul.Connectors.{
  NormalizedVulnerability, is_truthy, or_else, same_text, has_width, fits_width, is_integer,
  is_numeric, flushed,
}

-- The two global reference tables, by their primary keys.
pub record EpssScore : Type 0 where
  pub cve_id : String
  pub epss_score : Decimal
  pub percentile : Decimal

pub record Reference : Type 0 where
  pub epss_scores : List EpssScore
  pub cisa_kev : List String

pub record Enrichment : Type 0 where
  pub epss_score : Option Decimal
  pub epss_percentile : Option Decimal
  pub cisa_kev : Bool

unfoldable pub find_epss : String → List EpssScore → Option EpssScore
find_epss cve_id [] = none
find_epss cve_id (e ∷ es) = if str_eq e.cve_id cve_id then some e else find_epss cve_id es

unfoldable pub is_listed : Reference → String → Bool
is_listed ref cve_id = any (λ c. str_eq c cve_id) ref.cisa_kev

unfoldable pub enrichment_of : Option EpssScore → Bool → Enrichment
enrichment_of none kev = record { epss_score = none; epss_percentile = none; cisa_kev = kev }
enrichment_of (some e) kev = record {
  epss_score = some e.epss_score;
  epss_percentile = some e.percentile;
  cisa_kev = kev;
}

unfoldable pub lookup_cve : Reference → String → Enrichment
lookup_cve ref cve_id =
    if str_eq cve_id ""
    then enrichment_of none false
    else enrichment_of (find_epss cve_id ref.epss_scores) (is_listed ref cve_id)

unfoldable pub lookup_enrichment : Reference → Option String → Enrichment
lookup_enrichment ref none = enrichment_of none false
lookup_enrichment ref (some cve_id) = lookup_cve ref cve_id

-- A row of `vulnerabilities`: the columns that the other services read, and the rest.
pub record Finding : Type 0 where
  pub vuln : Vulnerability
  pub vulnerability_name : Option String
  pub epss_percentile : Option Decimal
  pub source_signals : Option String
  pub source_vuln_id : Option String
  pub affected_product : Option String
  pub affected_version : Option String
  pub fixed_version : Option String
  pub remediation_action : Option String
  pub remediation_info : Option String
  pub exploit_status_id : Option ℕ
  pub exploit_status_name : Option String
  pub file_paths : Option (List String)

-- What `uq_vuln_dedup` names: tenant, CVE, asset and source.
pub record FindingKey : Type 0 where
  pub tenant_id : ℕ
  pub cve_id : Option String
  pub asset_id : ℕ
  pub source : String

unfoldable pub on_asset : Option ℕ → ℕ → Bool
on_asset none a = false
on_asset (some i) a = i == a

unfoldable pub at_finding : FindingKey → Finding → Bool
at_finding k f =
    f.vuln.tenant_id == k.tenant_id
    && same_text f.vuln.cve_id k.cve_id
    && on_asset f.vuln.asset_id k.asset_id
    && str_eq f.vuln.source k.source

-- A nonempty list of paths replaces the old one.
unfoldable pub newer_paths : Option (List String) → Option (List String) → Option (List String)
newer_paths old none = old
newer_paths old (some []) = old
newer_paths old (some (p ∷ ps)) = some (p ∷ ps)

unfoldable pub refresh_finding : ℕ → Enrichment → NormalizedVulnerability → Finding → Finding
refresh_finding now e v f = record {
  vuln = record f.vuln {
    last_seen_at = now;
    severity = v.severity;
    exploit_available = v.exploit_available;
    epss_score = e.epss_score;
    cisa_kev = e.cisa_kev;
    native_priority_score = v.native_priority_score;
    native_priority_rating = v.native_priority_rating;
    remediation_id = v.remediation_id;
  };
  vulnerability_name = f.vulnerability_name;
  epss_percentile = e.epss_percentile;
  source_signals = v.source_signals;
  source_vuln_id = f.source_vuln_id;
  affected_product = f.affected_product;
  affected_version = f.affected_version;
  fixed_version = f.fixed_version;
  remediation_action = or_else v.remediation_action v.remediation_info;
  remediation_info = f.remediation_info;
  exploit_status_id = v.exploit_status_id;
  exploit_status_name = v.exploit_status_name;
  file_paths = newer_paths f.file_paths v.file_paths;
}

-- A new row is open; the columns that are not named have their defaults.
unfoldable pub new_finding : ℕ → ℕ → FindingKey → Enrichment → NormalizedVulnerability → Finding
new_finding now id k e v = record {
  vuln = record {
    id = id;
    tenant_id = k.tenant_id;
    cve_id = k.cve_id;
    asset_id = some k.asset_id;
    source = k.source;
    severity = v.severity;
    status = "OPEN";
    cvss_v3_score = v.cvss_v3_score;
    epss_score = e.epss_score;
    native_priority_score = v.native_priority_score;
    native_priority_rating = v.native_priority_rating;
    exploit_available = v.exploit_available;
    cisa_kev = e.cisa_kev;
    remediation_id = v.remediation_id;
    first_detected_at = some now;
    last_seen_at = now;
    remediated_at = none;
    sla_due_at = none;
    sla_breached = false;
  };
  vulnerability_name = v.vulnerability_name;
  epss_percentile = e.epss_percentile;
  source_signals = v.source_signals;
  source_vuln_id = v.source_vuln_id;
  affected_product = v.affected_product;
  affected_version = v.affected_version;
  fixed_version = v.fixed_version;
  remediation_action = or_else v.remediation_action v.remediation_info;
  remediation_info = v.remediation_info;
  exploit_status_id = v.exploit_status_id;
  exploit_status_name = v.exploit_status_name;
  file_paths = v.file_paths;
}

-- The values that an update of a known finding writes fit the columns of `vulnerabilities`.
unfoldable pub fits_known_finding : NormalizedVulnerability → Bool
fits_known_finding v =
    has_width 10 v.severity
    && fits_width 50 v.native_priority_rating
    && fits_width 200 v.remediation_id
    && fits_width 100 v.exploit_status_name
    && is_integer v.exploit_status_id
    && is_numeric 5 2 v.native_priority_score

-- Those of a new row fit.
unfoldable pub fits_new_finding : String → NormalizedVulnerability → Bool
fits_new_finding source v =
    fits_known_finding v
    && has_width 30 source
    && fits_width 20 v.cve_id
    && fits_width 500 v.vulnerability_name
    && is_numeric 2 1 v.cvss_v3_score
    && fits_width 200 v.source_vuln_id
    && fits_width 300 v.affected_product
    && fits_width 100 v.affected_version
    && fits_width 100 v.fixed_version

-- `_upsert_vulnerability`; `id` is the key that a new row gets.
unfoldable pub upsert_vulnerability :
    Reference
    → ℕ
    → ℕ
    → FindingKey
    → NormalizedVulnerability
    → List Finding
    → Option (Upserted Finding)
upsert_vulnerability ref now id k v findings =
    let e = lookup_enrichment ref v.cve_id in
    flushed (fits_new_finding k.source v) (fits_known_finding v)
      (upsert_row (at_finding k) (refresh_finding now e v) (new_finding now id k e v) findings)

-- `NormalizedMisconfiguration`, which becomes a row with its tenant, source and dates.
pub record NormalizedMisconfiguration : Type 0 where
  pub rule_id : String
  pub rule_name : String
  pub rule_description : Option String
  pub category : String
  pub severity : String
  pub frameworks : List String
  pub resource_id : String
  pub resource_name : Option String
  pub resource_type : Option String
  pub resource_region : Option String
  pub cloud_provider : Option String
  pub cloud_account_id : Option String
  pub cloud_account_name : Option String
  pub source_finding_id : Option String
  pub remediation_info : Option String
  pub remediation_url : Option String
  pub details : Option String

pub record Misconfiguration : Type 0 where
  pub id : ℕ
  pub tenant_id : ℕ
  pub source : String
  pub reported : NormalizedMisconfiguration
  pub status : String
  pub first_detected_at : ℕ
  pub last_seen_at : ℕ

-- What `uq_misconfig_dedup` names: tenant, rule, resource and source.
pub record RuleKey : Type 0 where
  pub tenant_id : ℕ
  pub rule_id : String
  pub resource_id : String
  pub source : String

unfoldable pub at_rule : RuleKey → Misconfiguration → Bool
at_rule k m =
    m.tenant_id == k.tenant_id
    && str_eq m.reported.rule_id k.rule_id
    && str_eq m.reported.resource_id k.resource_id
    && str_eq m.source k.source

unfoldable pub refresh_misconfiguration :
    ℕ → NormalizedMisconfiguration → Misconfiguration → Misconfiguration
refresh_misconfiguration now m row = record row {
  last_seen_at = now;
  reported = record row.reported { severity = m.severity };
}

unfoldable pub new_misconfiguration :
    ℕ → ℕ → ℕ → NormalizedMisconfiguration → String → Misconfiguration
new_misconfiguration now id tenant_id m source = record {
  id = id;
  tenant_id = tenant_id;
  source = source;
  reported = m;
  status = "OPEN";
  first_detected_at = now;
  last_seen_at = now;
}

-- The values of a new row fit the columns of `misconfigurations`.
unfoldable pub fits_new_misconfiguration : String → NormalizedMisconfiguration → Bool
fits_new_misconfiguration source m =
    has_width 300 m.rule_id
    && has_width 500 m.rule_name
    && has_width 30 m.category
    && has_width 10 m.severity
    && has_width 500 m.resource_id
    && fits_width 300 m.resource_name
    && fits_width 100 m.resource_type
    && fits_width 50 m.resource_region
    && fits_width 20 m.cloud_provider
    && fits_width 100 m.cloud_account_id
    && fits_width 200 m.cloud_account_name
    && has_width 30 source
    && fits_width 300 m.source_finding_id
    && fits_width 500 m.remediation_url

-- `_upsert_misconfiguration`
unfoldable pub upsert_misconfiguration :
    ℕ
    → ℕ
    → ℕ
    → NormalizedMisconfiguration
    → String
    → List Misconfiguration
    → Option (Upserted Misconfiguration)
upsert_misconfiguration now id tenant_id m source rows =
    flushed (fits_new_misconfiguration source m) (has_width 10 m.severity) (
      upsert_row
        (at_rule (record {
          tenant_id = tenant_id;
          rule_id = m.rule_id;
          resource_id = m.resource_id;
          source = source;
        }))
        (refresh_misconfiguration now m) (new_misconfiguration now id tenant_id m source) rows)
