-- ===== src/Connectors/Examples.antt =====
-- A scanner that reports two findings on a known host and one on a new host.
use getvul.Prelude.{
  All, ◌≡◌, refl, String, true, false, none, some, List, [], ◌∷◌, filter, length, str_eq, arith,
  IsUnique, Upserted,
}
use getvul.Connectors.{
  NormalizedVulnerability, Python, fits_width, is_integer, is_numeric, or_else, is_truthy,
  model_name,
}
use getvul.Connectors.Assets.{
  at_host, new_asset, fits_new_host, fits_known_host, hostname_of, model_of,
}
use getvul.Connectors.Findings.{
  Reference, Finding, FindingKey, Enrichment, at_finding, new_finding, upsert_vulnerability,
  fits_new_finding, fits_known_finding,
}
use getvul.Connectors.Findings.Triage.{Reported, SameTriage, upsert_vulnerability-triage}
use getvul.Connectors.Batch.{Inventory, finding_key, sync_vulnerabilities}
use getvul.Connectors.Batch.Totals.{IsValid, Fits, Totals, sync_vulnerabilities-Totals}
use getvul.Connectors.Batch.Again.{sync_vulnerabilities-again}

abbrev same : String → String
same s = s

abbrev python : Python
python = record {
  texts = record { lower = same; strip = same; is_in = str_eq };
  re_search = str_eq;
  replace = λ s old new. s;
  fromisoformat = λ s. none;
}

abbrev report : String → String → NormalizedVulnerability
report cve_id hostname = record {
  cve_id = some cve_id;
  vulnerability_name = none;
  cvss_v3_score = none;
  severity = "HIGH";
  exploit_available = true;
  cisa_kev = false;
  source_vuln_id = none;
  affected_product = some "xz";
  affected_version = some "5.6.0";
  fixed_version = none;
  remediation_id = none;
  remediation_action = none;
  remediation_info = some "Downgrade";
  exploit_status_id = none;
  exploit_status_name = none;
  hostname = some hostname;
  ip_addresses = [];
  os_name = some "Linux";
  os_version = some "6.1";
  asset_type = "ENDPOINT";
  platform_name = none;
  product_type_desc = none;
  serial_number = none;
  mac_address = none;
  external_ip = none;
  internet_facing = some true;
  last_login_user = none;
  last_login_at = none;
  last_seen_at = none;
  host_status = none;
  containment_status = none;
  system_manufacturer = none;
  system_product_name = none;
  crowdstrike_aid = none;
  defender_device_id = none;
  wiz_asset_id = none;
  nessus_host_id = none;
  file_paths = none;
  native_priority_score = none;
  native_priority_rating = none;
  source_signals = none;
}

abbrev xz : String
xz = "CVE-2024-3094"

abbrev reference : Reference
reference = record { epss_scores = []; cisa_kev = xz ∷ [] }

abbrev no_enrichment : Enrichment
no_enrichment = record { epss_score = none; epss_percentile = none; cisa_kev = false }

abbrev web_key : FindingKey
web_key = finding_key 1 "NESSUS" (report xz "web-1") 7

abbrev known : List Finding
known = new_finding 10 8 web_key no_enrichment (report xz "web-1") ∷ []

abbrev inventory : Inventory
inventory = record {
  assets = new_asset python 7 1 (report xz "web-1") "NESSUS" ∷ [];
  findings = known;
  misconfigs = [];
  correlations = record { rows = []; next_id = 1 };
  next_id = 9;
}

abbrev batch : List NormalizedVulnerability
batch = report xz "web-1" ∷ report "CVE-2021-44228" "web-1" ∷ report xz "db-1" ∷ []

hosts-IsUnique : IsUnique at_host inventory.assets
unfolding at_host new_asset
hosts-IsUnique k = ground arith

keys-IsUnique : IsUnique at_finding known
unfolding at_finding new_finding
keys-IsUnique k = ground arith

inventory-IsValid : IsValid inventory
inventory-IsValid = record { hosts = hosts-IsUnique; keys = keys-IsUnique }

batch-Fits : All (Fits python "NESSUS") batch
unfolding fits_new_host fits_known_host fits_new_finding fits_known_finding fits_width is_integer
    is_numeric hostname_of model_of or_else is_truthy model_name
batch-Fits = (
  record { host = refl; finding = refl },
  (record { host = refl; finding = refl }, (record { host = refl; finding = refl }, tt)),
)

sync_vulnerabilities-Totals_example :
    Totals python reference 20 1 "NESSUS" batch inventory
      (sync_vulnerabilities python reference 20 1 "NESSUS" batch inventory)
sync_vulnerabilities-Totals_example =
    sync_vulnerabilities-Totals python reference 20 1 "NESSUS" batch inventory inventory-IsValid
      batch-Fits

sync_vulnerabilities-again_example :
    let once = (sync_vulnerabilities python reference 20 1 "NESSUS" batch inventory).inventory in
    let twice = sync_vulnerabilities python reference 30 1 "NESSUS" batch once in
    (twice.created ≡ 0)
    × ((twice.updated ≡ 3) × (length twice.inventory.findings ≡ length once.findings))
sync_vulnerabilities-again_example =
    sync_vulnerabilities-again python 1 "NESSUS" reference reference 20 30 batch inventory
      inventory-IsValid batch-Fits

upsert_vulnerability-triage_example :
    (u : Upserted Finding) × ((upsert_vulnerability reference 20 9 web_key (report xz "web-1") known
        ≡ some u)
      × ((filter (at_finding web_key) u.rows ≡ u.row ∷ [])
          × (Reported reference 20 (report xz "web-1") u.row
              × ((f : Finding) → filter (at_finding web_key) known ≡ f ∷ [] → SameTriage f u.row))))
upsert_vulnerability-triage_example =
    upsert_vulnerability-triage reference 20 9 web_key (report xz "web-1") known keys-IsUnique
      batch-Fits.0.finding
