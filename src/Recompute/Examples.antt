-- ===== src/Recompute/Examples.antt =====
-- Two pending findings of a tenant, scored in two chunks and at once.
use getvul.Prelude.{
  ◌⊎◌, filter, ◌≡◌, ℕ, ◌<◌, refl, String, true, none, List, [], ◌∷◌, count_where, All, arith,
}
use getvul.Models.{is_open}
use getvul.Models.Samples.{finding}
use getvul.Correlation.{Table}
use getvul.Risk.Samples.{fixed}
use getvul.Recompute.{
  Asset, Finding, Job, pending, is_pending, is_selected, ticks, process_backfill_chunk,
  compute_finding_risk_scores,
}
use getvul.Recompute.Backfill.{IsListed, IsAhead}
use getvul.Recompute.Ticks.{IsFree, IsMigrated, ticks-IsMigrated}
use getvul.Recompute.Again.{
  is_foreign, compute_finding_risk_scores-again, process_backfill_chunk-foreign,
}
use getvul.Recompute.Rollup.{IsRolledUp, compute_finding_risk_scores-IsRolledUp}

abbrev as_is : String → String
as_is s = s

abbrev server : Asset
server = record {
  id = 7;
  tenant_id = 1;
  business_criticality = "HIGH";
  data_sensitivity = "INTERNAL";
  internet_facing = true;
  risk_exposure_score = none;
  risk_model_version = none;
}

abbrev unscored : ℕ → Finding ℕ
unscored i = record {
  vuln = finding i 20 "WIZ" "OPEN";
  risk_exposure_score = none;
  risk_exposure_breakdown = none;
  risk_model_version = none;
}

abbrev findings : List (Finding ℕ)
findings = unscored 3 ∷ unscored 8 ∷ []

abbrev no_correlations : Table
no_correlations = record { rows = []; next_id = 0 }

abbrev job : Job
job = record {
  status = pending;
  cursor_vuln_id = none;
  chunk_size = 1;
  rows_total_estimate = 2;
  rows_migrated = 0;
  last_heartbeat_at = none;
  started_at = none;
  completed_at = none;
}

job-IsFree : IsFree job
job-IsFree = record { claimable = refl; free = refl; chunked = omega arith }

findings-IsListed : IsListed fixed as_is 1 no_correlations (server ∷ []) findings
findings-IsListed = ((omega arith, tt), (tt, tt))

findings-IsAhead : IsAhead fixed as_is 1 no_correlations (server ∷ []) none findings
findings-IsAhead = (λ _. refl, (λ _. refl, tt))

two_pending : count_where (is_pending fixed as_is 1) findings < 3
unfolding is_pending is_selected is_open
two_pending = omega arith

ticks-IsMigrated_example :
    IsMigrated fixed as_is 1 no_correlations
      (server ∷ [])
      job
      findings
      (ticks fixed as_is 1 no_correlations (server ∷ []) (10 ∷ 20 ∷ 30 ∷ []) job findings)
ticks-IsMigrated_example =
    ticks-IsMigrated fixed as_is 1 no_correlations (server ∷ []) (10 ∷ 20 ∷ 30 ∷ []) job findings
      job-IsFree findings-IsListed findings-IsAhead two_pending

IsRolledUp_example :
    let (findings', assets', _, _) =
      compute_finding_risk_scores fixed as_is 1 no_correlations (server ∷ []) findings in
    All (IsRolledUp fixed as_is 1 no_correlations (server ∷ []) findings') assets'
IsRolledUp_example =
    compute_finding_risk_scores-IsRolledUp fixed as_is 1 no_correlations (server ∷ []) findings

compute_finding_risk_scores-again_example :
    let (findings', assets', updated, rolled_up) =
      compute_finding_risk_scores fixed as_is 1 no_correlations (server ∷ []) findings in
    compute_finding_risk_scores fixed as_is 1 no_correlations assets' findings'
    ≡ (findings', assets', updated, rolled_up)
compute_finding_risk_scores-again_example =
    compute_finding_risk_scores-again fixed as_is 1 no_correlations (server ∷ []) findings

process_backfill_chunk-foreign_example :
    let (fs', j', result) =
      process_backfill_chunk fixed as_is 1 no_correlations (server ∷ []) 10 job findings in
    (filter (is_foreign fixed as_is 1 no_correlations) fs'
      ≡ filter (is_foreign fixed as_is 1 no_correlations) findings)
    × ((result.claimed ≡ true) ⊎ ((fs' ≡ findings) × (j' ≡ job)))
process_backfill_chunk-foreign_example =
    process_backfill_chunk-foreign fixed as_is 1 no_correlations (server ∷ []) 10 job findings
