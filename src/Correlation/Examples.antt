-- ===== src/Correlation/Examples.antt =====
-- Two scanners that see the same CVE on the same asset, and a third row of another scanner's.
use getvul.Prelude.{◌≤◌, Memᴰ, ◌≡◌, refl, ◌↔◌, true, some, is_some, List, [], ◌∷◌, arith}
use getvul.Models.{Vulnerability, is_open}
use getvul.Models.Samples.{finding}
use getvul.Correlation.{
  Row, Table, Correlation, Values, find_source, find_row, select_rows, run_correlations,
  get_correlation_for_vuln,
}
use getvul.Correlation.Groups.{first_match}
use getvul.Correlation.Distinct.{TwoSources}
use getvul.Correlation.Upserts.{IsValid}
use getvul.Correlation.Stored.{stored_iff, stored_values, expected}
use getvul.Correlation.Recency.{IsOpenOf, linked-newest}
use getvul.Correlation.Sync.{run_correlations-other_tenant}

abbrev scans : List Vulnerability
scans =
    finding 5 40 "WIZ" "OPEN" ∷ finding 4 30 "NESSUS" "OPEN" ∷ finding 3 20 "WIZ" "IN_PROGRESS" ∷ []

abbrev as_listed : List Row → List Row
as_listed rows = rows

abbrev no_values : Values
no_values = record { sources = []; sources_count = 0; confidence = "LOW"; source_vuln_ids = [] }

-- A row of another tenant, and a stale one.
abbrev table : Table
table = record {
  rows =
      record { id = 0; tenant_id = 2; key = ("CVE-2024-3094", 7); values = no_values }
      ∷ record { id = 1; tenant_id = 1; key = ("CVE-2021-44228", 7); values = no_values }
      ∷ [];
  next_id = 2;
}

table-IsValid : IsValid table
table-IsValid = record { below = ground arith; distinct = ground arith }

stored_iff_example :
    (is_some (
        get_correlation_for_vuln 1
          ("CVE-2024-3094", 7)
          (run_correlations as_listed 1 scans table).0)
      ≡ true)
    ↔ TwoSources (λ s. first_match ("CVE-2024-3094", 7) s (select_rows 1 scans))
stored_iff_example = stored_iff as_listed 1 scans table ("CVE-2024-3094", 7) table-IsValid

other_tenant_example :
    get_correlation_for_vuln 2 ("CVE-2024-3094", 7) (run_correlations as_listed 1 scans table).0
    ≡ get_correlation_for_vuln 2 ("CVE-2024-3094", 7) table
other_tenant_example =
    run_correlations-other_tenant as_listed 1 scans table 2 ("CVE-2024-3094", 7) table-IsValid
      (λ e. omega (arith, e))

abbrev stored : Correlation
stored = record {
  id = 2;
  tenant_id = 1;
  key = ("CVE-2024-3094", 7);
  values = record {
    sources = "NESSUS" ∷ "WIZ" ∷ [];
    sources_count = 2;
    confidence = "MEDIUM";
    source_vuln_ids = ("NESSUS", 4) ∷ ("WIZ", 5) ∷ [];
  };
}

looked_up :
    get_correlation_for_vuln 1 ("CVE-2024-3094", 7) (run_correlations as_listed 1 scans table).0
    ≡ some stored
unfolding run_correlations get_correlation_for_vuln select_rows is_open
    getvul.Correlation.find_correlated_groups getvul.Correlation.add_row getvul.Correlation.key_eq
    getvul.Correlation.upsert getvul.Correlation.at_key getvul.Correlation.find_group
    getvul.Correlation.correlation_values getvul.Correlation.source_order
looked_up = refl

stored_values_example :
    stored.values ≡ expected (λ s. first_match ("CVE-2024-3094", 7) s (select_rows 1 scans))
stored_values_example =
    stored_values as_listed 1 scans table ("CVE-2024-3094", 7) table-IsValid stored looked_up

linked-newest_example :
    (v : Vulnerability) × Memᴰ v scans
    × (v.id ≡ 5)
    × IsOpenOf 1 ("CVE-2024-3094", 7) "WIZ" v
    × ((w : Vulnerability)
        → Memᴰ w scans
        → IsOpenOf 1 ("CVE-2024-3094", 7) "WIZ" w
        → w.last_seen_at ≤ v.last_seen_at)
unfolding select_rows is_open find_source
linked-newest_example =
    linked-newest as_listed 1 scans table ("CVE-2024-3094", 7) table-IsValid "WIZ" 5 stored
      (ground arith) (λ r. ((λ m. m), (λ m. m))) looked_up refl
