-- ===== src/Connectors/Batch.antt =====
-- backend/app/connectors/sync.py, the loops of `run_sync`: a batch of reports, written row by row.
pub mod Totals
pub mod Again
use getvul.Prelude.{
  ℕ, suc, String, Bool, true, false, Option, none, some, List, [], ◌∷◌, if◌then◌else◌, Upserted,
}
use getvul.Correlation.{Table}
use getvul.Connectors.{NormalizedVulnerability, Python}
use getvul.Connectors.Assets.{Asset, upsert_asset}
use getvul.Connectors.Findings.{
  Reference, Finding, FindingKey, NormalizedMisconfiguration, Misconfiguration,
  upsert_vulnerability, upsert_misconfiguration,
}

-- The tables that a sync writes; `next_id` is the key that the next new row gets.
pub record Inventory : Type 0 where
  pub assets : List Asset
  pub findings : List Finding
  pub misconfigs : List Misconfiguration
  pub correlations : Table
  pub next_id : ℕ

-- A loop's end: the session as it was when a row raised, or at the end of the batch.
pub record Progress : Type 0 where
  pub inventory : Inventory
  pub created : ℕ
  pub updated : ℕ
  pub raised : Bool

abbrev pub start : Inventory → Progress
start inv = record { inventory = inv; created = 0; updated = 0; raised = false }

abbrev stop : Inventory → Progress
stop inv = record { inventory = inv; created = 0; updated = 0; raised = true }

-- `if created: vc += 1 else: vu += 1`
abbrev pub add_counts : Bool → Progress → Progress
add_counts created p =
    if created then record p { created = suc p.created } else record p { updated = suc p.updated }

abbrev pub finding_key : ℕ → String → NormalizedVulnerability → ℕ → FindingKey
finding_key tenant_id source v asset_id = record {
  tenant_id = tenant_id;
  cve_id = v.cve_id;
  asset_id = asset_id;
  source = source;
}

module _ (py : Python) (ref : Reference) (now tenant_id : ℕ) (source : String) where
  abbrev with_assets : Inventory → Upserted Asset → Inventory
  with_assets inv u = record inv { assets = u.rows; next_id = suc inv.next_id }

  abbrev with_findings : Inventory → Upserted Finding → Inventory
  with_findings inv u = record inv { findings = u.rows; next_id = suc inv.next_id }

  -- After the finding's upsert: an exception ends the loop, else the next finding.
  unfoldable pub after_finding :
      (Inventory → Progress) → Inventory → Option (Upserted Finding) → Progress
  after_finding next inv none = stop inv
  after_finding next inv (some u) = add_counts u.created (next (with_findings inv u))

  unfoldable pub after_asset :
      (Inventory → Progress)
      → NormalizedVulnerability
      → Inventory
      → Option (Upserted Asset)
      → Progress
  after_asset next v inv none = stop inv
  after_asset next v inv (some u) =
      let inv' = with_assets inv u in
      after_finding next inv' (
        upsert_vulnerability ref now inv'.next_id (finding_key tenant_id source v u.row.context.id)
          v inv'.findings)

  -- The loop over the findings: the asset first, then the finding on it.
  unfoldable pub sync_vulnerabilities : List NormalizedVulnerability → Inventory → Progress
  sync_vulnerabilities [] inv = start inv
  sync_vulnerabilities (v ∷ vs) inv =
      after_asset (sync_vulnerabilities vs) v inv
        (upsert_asset py inv.next_id tenant_id v source inv.assets)

  unfoldable pub after_misconfiguration :
      (Inventory → Progress) → Inventory → Option (Upserted Misconfiguration) → Progress
  after_misconfiguration next inv none = stop inv
  after_misconfiguration next inv (some u) =
      add_counts u.created (next (record inv { misconfigs = u.rows; next_id = suc inv.next_id }))

  unfoldable pub sync_misconfigurations : List NormalizedMisconfiguration → Inventory → Progress
  sync_misconfigurations [] inv = start inv
  sync_misconfigurations (m ∷ ms) inv =
      after_misconfiguration (sync_misconfigurations ms) inv
        (upsert_misconfiguration now inv.next_id tenant_id m source inv.misconfigs)
