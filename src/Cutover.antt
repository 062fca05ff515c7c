-- ===== src/Cutover.antt =====
-- backend/app/vulnerabilities/risk_cutover_service.py: a tenant's ranking changes from the legacy
-- score to the exposure score once its backfill is complete and an administrator has acknowledged
-- what the change does to the stored thresholds. The state is what the service reads of one tenant.
pub mod Gate
pub mod Reach
mod Examples
use getvul.Prelude.{
  ℕ, String, Bool, true, false, not, ◌&&◌, ◌||◌, Option, none, some, is_some, List, [], ◌∷◌, ◌++◌,
  map, count_where, ℤ, pos, sub_ℕ, leb_ℤ, ltb, ◌==◌, if◌then◌else◌,
}
use getvul.Risk.{Floats}
use getvul.Correlation.{Table}
use getvul.Recompute.{
  Asset, Finding, Job, JobStatus, pending, in_progress, completed, failed, is_claimable,
  enqueue_backfill_job, process_backfill_chunk,
}

-- The columns of the tenant's row.
pub record Tenant (D : Type 0) : Type 0 where
  pub cutover_risk_exposure_scoring : Bool
  pub risk_cutover_threshold_ack_at : Option ℕ
  pub risk_cutover_threshold_ack_diff_hash : Option D

-- A rule or a saved filter, with its `min_risk_score`.
pub record Threshold : Type 0 where
  pub id : ℕ
  pub tenant_id : ℕ
  pub min_risk_score : Option ℤ

pub record ScoredAsset : Type 0 where
  pub asset : Asset
  pub risk_score : Option ℤ

pub data Source : Type 0 where
  rule saved_filter : Source

pub record ThresholdItem (P : Type 0) : Type 0 where
  pub source_type : Source
  pub source_id : ℕ
  pub threshold : ℤ
  pub old_match_count : ℕ
  pub new_match_count : ℕ
  pub delta : ℤ
  pub delta_pct : P

-- Python's rounded percentage of a change, and SHA-256 over the items in JSON, with its comparison.
pub record CutoverLib : Type 1 where
  pub Percent : Type 0
  pub percent : ℤ → ℕ → Percent
  pub hundred : Percent
  pub zero_percent : Percent
  pub Digest : Type 0
  pub digest : List (ThresholdItem Percent) → Digest
  pub same : Digest → Digest → Bool

pub record State (F D : Type 0) : Type 0 where
  pub tenant : Option (Tenant D)
  pub job : Option Job
  pub findings : List (Finding F)
  pub assets : List ScoredAsset
  pub rules : List Threshold
  pub saved_filters : List Threshold
  pub audit_log : List String

-- An HTTP status with its detail, or the result.
pub data Reply (A : Type 0) : Type 0 where
  conflict : String → Reply A
  not_found : Reply A
  ok : A → Reply A

pub record BackfillReply : Type 0 where
  pub job : Job
  pub already_active : Bool

abbrev pub is_completed : JobStatus → Bool
is_completed completed = true
is_completed _ = false

-- `_backfill_status(...) == "completed"`
unfoldable pub is_backfilled : Option Job → Bool
is_backfilled none = false
is_backfilled (some j) = is_completed j.status

abbrev pub at_least : ℤ → Option ℤ → Bool
at_least t none = false
at_least t (some s) = leb_ℤ t s

-- `rule`: above 0; `saved_filter`: not 0
abbrev pub is_applied : Source → ℤ → Bool
is_applied rule t = not (leb_ℤ t (pos 0))
is_applied saved_filter t = not (leb_ℤ t (pos 0) && leb_ℤ (pos 0) t)

-- `ORDER BY source_id`
abbrev pub insert_item :
    {P : Type 0} → ThresholdItem P → List (ThresholdItem P) → List (ThresholdItem P)
insert_item i [] = i ∷ []
insert_item i (j ∷ js) =
    let rest = insert_item i js in if ltb j.source_id i.source_id then j ∷ rest else i ∷ j ∷ js

module _ (lib : CutoverLib) (tenant_id : ℕ) where
  open lib use {Percent, percent, hundred, zero_percent, Digest, digest, same}

  unfoldable pub percent_of : ℕ → ℕ → Percent
  percent_of old_count new_count =
      if old_count == 0
      then (if new_count == 0 then zero_percent else hundred)
      else percent (sub_ℕ new_count old_count) old_count

  unfoldable pub threshold_item : List ScoredAsset → Source → ℕ → ℤ → ThresholdItem Percent
  threshold_item assets source i t =
      let old_count =
        count_where (λ a. a.asset.tenant_id == tenant_id && at_least t a.risk_score) assets in
      let new_count =
        count_where (λ a. a.asset.tenant_id == tenant_id && at_least t a.asset.risk_exposure_score)
          assets in
      record {
        source_type = source;
        source_id = i;
        threshold = t;
        old_match_count = old_count;
        new_match_count = new_count;
        delta = sub_ℕ new_count old_count;
        delta_pct = percent_of old_count new_count;
      }

  abbrev add_item :
      List ScoredAsset
      → Source
      → ℕ
      → Option ℤ
      → List (ThresholdItem Percent)
      → List (ThresholdItem Percent)
  add_item assets source i none items = items
  add_item assets source i (some t) items =
      if is_applied source t then insert_item (threshold_item assets source i t) items else items

  -- The items of one kind, in the order of their ids.
  unfoldable pub items_of :
      List ScoredAsset → Source → List Threshold → List (ThresholdItem Percent)
  items_of assets source [] = []
  items_of assets source (s ∷ ss) =
      let rest = items_of assets source ss in
      if s.tenant_id == tenant_id then add_item assets source s.id s.min_risk_score rest else rest

  -- "filter" stands before "rule".
  unfoldable pub items : {F : Type 0} → State F Digest → List (ThresholdItem Percent)
  items s = items_of s.assets saved_filter s.saved_filters ++ items_of s.assets rule s.rules

  -- The items and their hash, or none when the backfill is not complete.
  unfoldable pub compute_threshold_diff :
      {F : Type 0} → State F Digest → Option (List (ThresholdItem Percent) × Digest)
  compute_threshold_diff s = if is_backfilled s.job then some (items s, digest (items s)) else none

  abbrev audit : {F : Type 0} → String → State F Digest → State F Digest
  audit action s = record s { audit_log = s.audit_log ++ action ∷ [] }

  -- What follows the diff, and the tenant's row.
  unfoldable pub stamp_ack :
      {F : Type 0}
      → ℕ
      → State F Digest
      → Option (List (ThresholdItem Percent) × Digest)
      → Option (Tenant Digest)
      → State F Digest × Reply (ℕ × Digest)
  stamp_ack now s none _ = (s, conflict "backfill_incomplete")
  stamp_ack now s (some _) none = (s, not_found)
  stamp_ack now s (some (_, h)) (some t) = (
    audit "risk_cutover.threshold_ack" (record s {
      tenant = some (record t {
        risk_cutover_threshold_ack_at = some now;
        risk_cutover_threshold_ack_diff_hash = some h;
      });
    }),
    ok (now, h),
  )

  unfoldable pub record_threshold_ack :
      {F : Type 0} → ℕ → State F Digest → State F Digest × Reply (ℕ × Digest)
  record_threshold_ack now s = stamp_ack now s (compute_threshold_diff s) s.tenant

  abbrev pub is_same : Option Digest → Digest → Bool
  is_same none h = false
  is_same (some g) h = same g h

  -- The second gate, on the tenant's row.
  unfoldable pub pass_gate :
      {F : Type 0}
      → State F Digest
      → Tenant Digest
      → Option (List (ThresholdItem Percent) × Digest)
      → State F Digest × Reply Bool
  pass_gate s t none = (s, conflict "threshold_ack_stale")
  pass_gate s t (some (_, h)) =
      if is_same t.risk_cutover_threshold_ack_diff_hash h
      then (
        audit "risk_cutover.flag_enable"
            (record s { tenant = some (record t { cutover_risk_exposure_scoring = true }) }),
        ok true,
      )
      else (s, conflict "threshold_ack_stale")

  unfoldable pub enable_tenant :
      {F : Type 0} → State F Digest → Option (Tenant Digest) → State F Digest × Reply Bool
  enable_tenant s none = (s, not_found)
  enable_tenant s (some t) =
      if is_some t.risk_cutover_threshold_ack_at
      then pass_gate s t (compute_threshold_diff s)
      else (s, conflict "threshold_ack_missing")

  unfoldable pub enable_cutover : {F : Type 0} → State F Digest → State F Digest × Reply Bool
  enable_cutover s =
      if is_backfilled s.job then enable_tenant s s.tenant else (s, conflict "backfill_incomplete")

module _ (fl : Floats) (upper : String → String) (lib : CutoverLib) (tenant_id chunk_size : ℕ) where
  -- The job is made once; an administrator's later calls return it.
  unfoldable pub enqueue_backfill : State fl.F lib.Digest → State fl.F lib.Digest × BackfillReply
  enqueue_backfill s =
      let job = enqueue_backfill_job fl upper tenant_id chunk_size s.findings s.job in
      (
        record s {
          job = some job;
          audit_log =
              if is_some s.job
              then s.audit_log
              else s.audit_log ++ "risk_cutover.backfill_enqueue" ∷ [];
        },
        record { job = job; already_active = is_some s.job },
      )

  abbrev scored : List ScoredAsset → List Asset
  scored [] = []
  scored (a ∷ rest) = a.asset ∷ scored rest

  -- The tenant's part of `dispatch_backfill_chunks`: one chunk of a claimable job, and `failed`,
  -- with the chunk rolled back, when that raised.
  unfoldable pub dispatch_chunk :
      Bool → Table → ℕ → State fl.F lib.Digest → Option Job → State fl.F lib.Digest
  dispatch_chunk raises t now s none = s
  dispatch_chunk raises t now s (some j) =
      let (findings, next, _) =
        process_backfill_chunk fl upper tenant_id t (scored s.assets) now j s.findings in
      if is_claimable j.status
      then (if raises
          then record s { job = some (record j { status = failed }) }
          else record s { findings = findings; job = some next })
      else s

  unfoldable pub dispatch_backfill_chunks :
      Bool → Table → ℕ → State fl.F lib.Digest → State fl.F lib.Digest
  dispatch_backfill_chunks raises t now s = dispatch_chunk raises t now s s.job
