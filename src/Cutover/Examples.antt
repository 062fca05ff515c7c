-- ===== src/Cutover/Examples.antt =====
-- A tenant with one asset, two pending findings and one rule, taken to the exposure scores.
use getvul.Prelude.{
  ℕ, ◌≡◌, ◌<◌, refl, String, Bool, true, false, none, some, List, [], ◌∷◌, ℤ, pos, count_where,
  arith,
}
use getvul.Models.{is_open}
use getvul.Models.Samples.{finding}
use getvul.Correlation.{Table}
use getvul.Risk.Samples.{fixed}
use getvul.Recompute.{Finding, is_pending, is_selected}
use getvul.Cutover.{
  Tenant, ScoredAsset, ThresholdItem, CutoverLib, State, ok, is_backfilled, enable_cutover,
  record_threshold_ack, enqueue_backfill, dispatch_backfill_chunks,
}
use getvul.Cutover.Reach.{Reach, Step, is_enabled, is_acked, enabled-needs_gates}
use getvul.Cutover.Gate.{rounds, enqueue-enable_cutover}

abbrev as_is : String → String
as_is s = s

abbrev all_same : List (ThresholdItem ℤ) → List (ThresholdItem ℤ) → Bool
all_same is js = true

abbrev items_lib : CutoverLib
items_lib = record {
  Percent = ℤ;
  percent = λ d n. d;
  hundred = pos 100;
  zero_percent = pos 0;
  Digest = List (ThresholdItem ℤ);
  digest = λ items. items;
  same = all_same;
}

abbrev server : ScoredAsset
server = record {
  asset = record {
    id = 7;
    tenant_id = 1;
    business_criticality = "HIGH";
    data_sensitivity = "INTERNAL";
    internet_facing = true;
    risk_exposure_score = some (pos 80);
    risk_model_version = none;
  };
  risk_score = some (pos 40);
}

abbrev unscored : ℕ → Finding ℕ
unscored i = record {
  vuln = finding i 20 "WIZ" "OPEN";
  risk_exposure_score = none;
  risk_exposure_breakdown = none;
  risk_model_version = none;
}

abbrev row : Tenant (List (ThresholdItem ℤ))
row = record {
  cutover_risk_exposure_scoring = false;
  risk_cutover_threshold_ack_at = none;
  risk_cutover_threshold_ack_diff_hash = none;
}

abbrev start : State ℕ (List (ThresholdItem ℤ))
start = record {
  tenant = some row;
  job = none;
  findings = unscored 3 ∷ unscored 8 ∷ [];
  assets = server ∷ [];
  rules = record { id = 4; tenant_id = 1; min_risk_score = some (pos 50) } ∷ [];
  saved_filters = [];
  audit_log = [];
}

abbrev no_correlations : Table
no_correlations = record { rows = []; next_id = 0 }

two_pending : count_where (is_pending fixed as_is 1) (unscored 3 ∷ unscored 8 ∷ []) < 3
unfolding is_pending is_selected is_open
two_pending = omega arith

enqueue-enable_cutover_example :
    let after =
      enable_cutover items_lib 1
        (record_threshold_ack items_lib 1 40 (
          rounds fixed as_is items_lib 1 1 no_correlations
            (10 ∷ 20 ∷ 30 ∷ [])
            (enqueue_backfill fixed as_is items_lib 1 1 start).0)).0 in
    (after.1 ≡ ok true) × (is_enabled after.0.tenant ≡ true)
enqueue-enable_cutover_example =
    enqueue-enable_cutover fixed as_is items_lib 1 1 no_correlations (10 ∷ 20 ∷ 30 ∷ []) 40 start
      row refl refl (omega arith) ((omega arith, tt), (tt, tt)) two_pending (λ d. refl)

abbrev asked : State ℕ (List (ThresholdItem ℤ))
asked = (enqueue_backfill fixed as_is items_lib 1 1 start).0

abbrev round_of : ℕ → State ℕ (List (ThresholdItem ℤ)) → State ℕ (List (ThresholdItem ℤ))
round_of now s = dispatch_backfill_chunks fixed as_is items_lib 1 1 false no_correlations now s

abbrev scored_twice : State ℕ (List (ThresholdItem ℤ))
scored_twice = round_of 30 (round_of 20 (round_of 10 asked))

abbrev acked : State ℕ (List (ThresholdItem ℤ))
acked = (record_threshold_ack items_lib 1 40 scored_twice).0

abbrev enabled : State ℕ (List (ThresholdItem ℤ))
enabled = (enable_cutover items_lib 1 acked).0

way : Reach fixed as_is items_lib 1 1 start enabled
way =
    Reach.next
      (Reach.next
        (Reach.next
          (Reach.next
            (Reach.next (Reach.next Reach.here (Step.enqueue start))
              (Step.dispatch false no_correlations 10 asked))
            (Step.dispatch false no_correlations 20 (round_of 10 asked)))
          (Step.dispatch false no_correlations 30 (round_of 20 (round_of 10 asked))))
        (Step.ack 40 scored_twice))
      (Step.enable acked)

enabled-is_enabled : is_enabled enabled.tenant ≡ true
unfolding rounds
enabled-is_enabled = enqueue-enable_cutover_example.1

enabled-needs_gates_example : (is_backfilled enabled.job ≡ true) × (is_acked enabled.tenant ≡ true)
enabled-needs_gates_example =
    enabled-needs_gates fixed as_is items_lib 1 1 start enabled refl way enabled-is_enabled
