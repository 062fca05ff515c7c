-- ===== src/Models/Samples.antt =====
-- Rows that the components' examples share.
use getvul.Prelude.{ℕ, String, false, none, some}
use getvul.Models.{Vulnerability}

abbrev pub finding : ℕ → ℕ → String → String → Vulnerability
finding i seen source status = record {
  id = i;
  tenant_id = 1;
  cve_id = some "CVE-2024-3094";
  asset_id = some 7;
  source = source;
  severity = "HIGH";
  status = status;
  cvss_v3_score = none;
  epss_score = none;
  native_priority_score = none;
  native_priority_rating = none;
  exploit_available = false;
  cisa_kev = false;
  remediation_id = none;
  first_detected_at = some 100;
  last_seen_at = seen;
  remediated_at = none;
  sla_due_at = none;
  sla_breached = false;
}
