-- ===== src/Recompute.antt =====
-- backend/app/vulnerabilities/risk_exposure_service.py, `compute_finding_risk_scores`, and
-- backend/app/vulnerabilities/risk_backfill_service.py: the tenant's scores, at once or in chunks.
pub mod Rollup
pub mod Again
pub mod Backfill
pub mod Ticks
mod Examples
use getvul.Prelude.{
  ℕ, suc, ◌+◌, String, Bool, true, false, not, ◌&&◌, ◌||◌, Option, none, some, List, [], ◌∷◌, ◌++◌,
  length, filter, take, mem_id, update_where, count_where, map, ℤ, max_ℤ, ltb, ◌==◌, str_eq,
  if◌then◌else◌,
}
use getvul.Models.{Vulnerability, is_open}
use getvul.Correlation.{Correlation, Table, find_row}
use getvul.Risk.{
  Floats, FindingScoreInputs, RiskBreakdown, RiskBreakdownComponent, risk_model_version,
  score_finding,
}

-- The columns of an asset that a score reads and writes.
pub record Asset : Type 0 where
  pub id : ℕ
  pub tenant_id : ℕ
  pub business_criticality : String
  pub data_sensitivity : String
  pub internet_facing : Bool
  pub risk_exposure_score : Option ℤ
  pub risk_model_version : Option String

-- A finding with its three risk columns.
pub record Finding (F : Type 0) : Type 0 where
  pub vuln : Vulnerability
  pub risk_exposure_score : Option ℤ
  pub risk_exposure_breakdown : Option (List (RiskBreakdownComponent F))
  pub risk_model_version : Option String

-- The outer join on the asset's primary key.
unfoldable pub find_asset : Option ℕ → List Asset → Option Asset
find_asset none assets = none
find_asset (some i) [] = none
find_asset (some i) (a ∷ rest) = if a.id == i then some a else find_asset (some i) rest

-- `corr_by_key.get((cve_id, asset_id), 1)` over the tenant's correlations
unfoldable pub count_sources : ℕ → Table → Option String → Option ℕ → ℕ
count_sources tenant_id t (some c) (some a) = elim (find_row tenant_id (c, a) t.rows) [
  | none ↦ 1
  | some r ↦ r.values.sources_count
]
count_sources tenant_id t _ _ = 1

abbrev pub inputs_with : Vulnerability → ℕ → Option Asset → FindingScoreInputs
inputs_with v sources none = record {
  severity = v.severity;
  cvss_v3_score = v.cvss_v3_score;
  epss_score = v.epss_score;
  cisa_kev = v.cisa_kev;
  source = v.source;
  native_priority_score = v.native_priority_score;
  native_priority_rating = v.native_priority_rating;
  sources_count = sources;
  business_criticality = "MEDIUM";
  data_sensitivity = "INTERNAL";
  internet_facing = false;
}
inputs_with v sources (some a) = record {
  severity = v.severity;
  cvss_v3_score = v.cvss_v3_score;
  epss_score = v.epss_score;
  cisa_kev = v.cisa_kev;
  source = v.source;
  native_priority_score = v.native_priority_score;
  native_priority_rating = v.native_priority_rating;
  sources_count = sources;
  business_criticality = a.business_criticality;
  data_sensitivity = a.data_sensitivity;
  internet_facing = a.internet_facing;
}

-- The inputs of one finding, from its row, its asset and its correlation.
unfoldable pub inputs_of : ℕ → Table → List Asset → Vulnerability → FindingScoreInputs
inputs_of tenant_id t assets v =
    inputs_with v (count_sources tenant_id t v.cve_id v.asset_id) (find_asset v.asset_id assets)

abbrev pub is_on : Option ℕ → ℕ → Bool
is_on none a = false
is_on (some i) a = i == a

-- `MAX`, which passes over NULL
abbrev pub max_score : Option ℤ → Option ℤ → Option ℤ
max_score none o = o
max_score (some a) none = some a
max_score (some a) (some b) = some (max_ℤ a b)

abbrev pub is_current : Option String → Bool
is_current none = false
is_current (some v) = str_eq v risk_model_version

pub data JobStatus : Type 0 where
  pending in_progress completed failed : JobStatus

abbrev pub is_claimable : JobStatus → Bool
is_claimable pending = true
is_claimable in_progress = true
is_claimable _ = false

-- The tenant's single `RiskExposureBackfillJob` row.
pub record Job : Type 0 where
  pub status : JobStatus
  pub cursor_vuln_id : Option ℕ
  pub chunk_size : ℕ
  pub rows_total_estimate : ℕ
  pub rows_migrated : ℕ
  pub last_heartbeat_at : Option ℕ
  pub started_at : Option ℕ
  pub completed_at : Option ℕ

pub record ChunkResult : Type 0 where
  pub processed : ℕ
  pub done : Bool
  pub claimed : Bool

-- heartbeat NULL, or older than five minutes
unfoldable pub is_abandoned : ℕ → Option ℕ → Bool
is_abandoned now none = true
is_abandoned now (some t) = ltb (t + 300) now

abbrev pub after_cursor : Option ℕ → ℕ → Bool
after_cursor none i = true
after_cursor (some c) i = ltb c i

-- The claim's writes to the job.
unfoldable pub claim_job : ℕ → Job → Job
claim_job now j = record j {
  status = in_progress;
  last_heartbeat_at = some now;
  started_at = some (elim j.started_at [ none ↦ now | some s ↦ s ]);
}

module _ (fl : Floats) (upper : String → String) (tenant_id : ℕ) where
  open fl use {F}

  -- The tenant's OPEN and IN_PROGRESS findings.
  unfoldable pub is_selected : Finding F → Bool
  is_selected f = f.vuln.tenant_id == tenant_id && is_open f.vuln.status

  unfoldable pub score_row : Table → List Asset → Finding F → Finding F
  score_row t assets f =
      let breakdown = score_finding fl upper (inputs_of tenant_id t assets f.vuln) in
      record f {
        risk_exposure_score = some breakdown.final_score;
        risk_exposure_breakdown = some breakdown.components;
        risk_model_version = some risk_model_version;
      }

  -- `GROUP BY asset_id` and `MAX` for one asset.
  unfoldable pub rollup_score : ℕ → List (Finding F) → Option ℤ
  rollup_score a [] = none
  rollup_score a (f ∷ fs) =
      let rest = rollup_score a fs in
      if is_selected f && is_on f.vuln.asset_id a
      then max_score f.risk_exposure_score rest
      else rest

  unfoldable pub rollup_asset : List (Finding F) → Asset → Asset
  rollup_asset findings a = record a {
    risk_exposure_score = rollup_score a.id findings;
    risk_model_version = some risk_model_version;
  }

  -- The findings, the assets, (findings_updated, assets_rolled_up).
  unfoldable pub compute_finding_risk_scores :
      Table → List Asset → List (Finding F) → List (Finding F) × List Asset × ℕ × ℕ
  compute_finding_risk_scores t assets findings =
      let findings' = update_where is_selected (score_row t assets) findings in
      (
        findings',
        update_where (λ a. a.tenant_id == tenant_id) (rollup_asset findings') assets,
        count_where is_selected findings,
        count_where (λ a. a.tenant_id == tenant_id) assets,
      )

  -- Selected, and not yet on this version of the model.
  unfoldable pub is_pending : Finding F → Bool
  is_pending f = is_selected f && not (is_current f.risk_model_version)

  -- The tenant's job: an existing row is returned unchanged.
  unfoldable pub enqueue_backfill_job : ℕ → List (Finding F) → Option Job → Job
  enqueue_backfill_job chunk_size findings (some j) = j
  enqueue_backfill_job chunk_size findings none = record {
    status = pending;
    cursor_vuln_id = none;
    chunk_size = chunk_size;
    rows_total_estimate = count_where is_pending findings;
    rows_migrated = 0;
    last_heartbeat_at = none;
    started_at = none;
    completed_at = none;
  }

  abbrev insert_by_id : Finding F → List (Finding F) → List (Finding F)
  insert_by_id f [] = f ∷ []
  insert_by_id f (g ∷ gs) =
      let rest = insert_by_id f gs in if ltb g.vuln.id f.vuln.id then g ∷ rest else f ∷ g ∷ gs

  -- `ORDER BY id`
  unfoldable pub sort_by_id : List (Finding F) → List (Finding F)
  sort_by_id [] = []
  sort_by_id (f ∷ fs) = insert_by_id f (sort_by_id fs)

  unfoldable pub select_chunk : Option ℕ → ℕ → List (Finding F) → List (Finding F)
  select_chunk cursor n findings =
      take n (sort_by_id (filter (λ f. is_pending f && after_cursor cursor f.vuln.id) findings))

  abbrev pub ids : List (Finding F) → List ℕ
  ids fs = map (λ f. f.vuln.id) fs

  -- `rows[-1][0].id`
  abbrev pub last_id : ℕ → List (Finding F) → ℕ
  last_id i [] = i
  last_id i (f ∷ fs) = last_id f.vuln.id fs

  -- The bulk update: the rows of the chunk, by id, and again by tenant.
  unfoldable pub write_chunk :
      Table → List Asset → List (Finding F) → List (Finding F) → List (Finding F)
  write_chunk t assets chunk findings =
      update_where (λ f. mem_id f.vuln.id (ids chunk) && f.vuln.tenant_id == tenant_id)
        (score_row t assets) findings

  -- What follows the claim, on a job whose claim has been written.
  unfoldable pub advance_job :
      Table
      → List Asset
      → ℕ
      → Job
      → List (Finding F)
      → List (Finding F)
      → List (Finding F) × Job × ChunkResult
  advance_job t assets now j findings [] = (
    findings,
    record j { status = completed; completed_at = some now; last_heartbeat_at = none },
    record { processed = 0; done = true; claimed = true },
  )
  advance_job t assets now j findings (f ∷ fs) = (
    write_chunk t assets (f ∷ fs) findings,
    record j {
      cursor_vuln_id = some (last_id f.vuln.id fs);
      rows_migrated = j.rows_migrated + length (f ∷ fs);
      last_heartbeat_at = none;
    },
    record { processed = length (f ∷ fs); done = false; claimed = true },
  )

  -- One tick for the tenant: claim the job, then one chunk, in one transaction.
  unfoldable pub process_backfill_chunk :
      Table → List Asset → ℕ → Job → List (Finding F) → List (Finding F) × Job × ChunkResult
  process_backfill_chunk t assets now j findings =
      if is_claimable j.status && is_abandoned now j.last_heartbeat_at
      then advance_job t assets now (claim_job now j) findings
          (select_chunk j.cursor_vuln_id j.chunk_size findings)
      else (findings, j, record { processed = 0; done = false; claimed = false })

  -- Ticks at the given times.
  unfoldable pub ticks :
      Table → List Asset → List ℕ → Job → List (Finding F) → List (Finding F) × Job
  ticks t assets [] j findings = (findings, j)
  ticks t assets (now ∷ later) j findings =
      let (findings', j', _) = process_backfill_chunk t assets now j findings in
      ticks t assets later j' findings'
