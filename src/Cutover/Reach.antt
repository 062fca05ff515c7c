-- ===== src/Cutover/Reach.antt =====
-- Whatever the administrators, the scheduler and the other services do, and in whatever order, a
-- tenant is ranked by exposure scores only after a complete backfill and an acknowledgment.
use getvul.Prelude.{
  ℕ, ◌≡◌, refl, inl, inr, String, Bool, true, false, not, ◌&&◌, ◌||◌, Option, none, some, is_some,
  List, arith, if_case, Bool-cases,
}
use getvul.Risk.{Floats}
use getvul.Correlation.{Table}
use getvul.Recompute.{
  Finding, Job, JobStatus, pending, in_progress, completed, failed, is_claimable,
  enqueue_backfill_job,
}
use getvul.Cutover.{
  Tenant, Threshold, ScoredAsset, ThresholdItem, CutoverLib, State, Reply, is_completed,
  is_backfilled, compute_threshold_diff, stamp_ack, record_threshold_ack, is_same, pass_gate,
  enable_tenant, enable_cutover, enqueue_backfill, dispatch_chunk, dispatch_backfill_chunks,
}

abbrev pub is_enabled : {D : Type 0} → Option (Tenant D) → Bool
is_enabled none = false
is_enabled (some t) = t.cutover_risk_exposure_scoring

abbrev pub is_acked : {D : Type 0} → Option (Tenant D) → Bool
is_acked none = false
is_acked (some t) = is_some t.risk_cutover_threshold_ack_at

-- One call of the service, one round of the scheduler, or an edit of what the other services own.
pub data Step (fl : Floats) (upper : String → String) (lib : CutoverLib) (tenant_id chunk_size : ℕ)
    : State fl.F lib.Digest → State fl.F lib.Digest → Type 0 where
  enqueue :
      (s : State fl.F lib.Digest)
      → Step fl upper lib tenant_id chunk_size s
          (enqueue_backfill fl upper lib tenant_id chunk_size s).0
  dispatch :
      (raises : Bool) (t : Table) (now : ℕ) (s : State fl.F lib.Digest)
      → Step fl upper lib tenant_id chunk_size s
          (dispatch_backfill_chunks fl upper lib tenant_id chunk_size raises t now s)
  ack :
      (now : ℕ) (s : State fl.F lib.Digest)
      → Step fl upper lib tenant_id chunk_size s (record_threshold_ack lib tenant_id now s).0
  enable :
      (s : State fl.F lib.Digest)
      → Step fl upper lib tenant_id chunk_size s (enable_cutover lib tenant_id s).0
  edit :
      (findings : List (Finding fl.F)) (assets : List ScoredAsset)
      (rules saved_filters : List Threshold) (s : State fl.F lib.Digest)
      → Step fl upper lib tenant_id chunk_size s (record s {
        findings = findings;
        assets = assets;
        rules = rules;
        saved_filters = saved_filters;
      })

pub data Reach (fl : Floats) (upper : String → String) (lib : CutoverLib) (tenant_id chunk_size : ℕ)
    (s : State fl.F lib.Digest) : State fl.F lib.Digest → Type 0 where
  here : Reach fl upper lib tenant_id chunk_size s s
  next :
      {t u : State fl.F lib.Digest}
      → Reach fl upper lib tenant_id chunk_size s t
      → Step fl upper lib tenant_id chunk_size t u
      → Reach fl upper lib tenant_id chunk_size s u

-- A tenant that is ranked by exposure scores has a complete backfill and an acknowledgment.
is_safe : {F D : Type 0} → State F D → Bool
is_safe s = not (is_enabled s.tenant) || (is_backfilled s.job && is_acked s.tenant)

off : (on filled acked : Bool) → (not on || (filled && acked)) ≡ true → filled ≡ false → on ≡ false
off on filled acked h e = ground (arith, h, e)

module _ (fl : Floats) (upper : String → String) (lib : CutoverLib) (tn chunk_size : ℕ) where
  abbrev S : Type 0
  S = State fl.F lib.Digest

  abbrev IsSafe : S × Reply Bool → Type 0
  IsSafe r = is_safe r.0 ≡ true

  stamp_ack-is_safe :
      (now : ℕ) (s : S) (d : Option (List (ThresholdItem lib.Percent) × lib.Digest))
      (t : Option (Tenant lib.Digest))
      → is_some d ≡ is_backfilled s.job
      → is_safe s ≡ true
      → is_safe (stamp_ack lib tn now s d t).0 ≡ true
  unfolding stamp_ack is_safe
  stamp_ack-is_safe now s none t e h = h
  stamp_ack-is_safe now s (some d) none e h = h
  stamp_ack-is_safe now s (some d) (some t) e h = ground (arith, e)

  pass_gate-is_safe :
      (s : S) (t : Tenant lib.Digest) (d : Option (List (ThresholdItem lib.Percent) × lib.Digest))
      → is_backfilled s.job ≡ true
      → is_some t.risk_cutover_threshold_ack_at ≡ true
      → is_safe s ≡ true
      → is_safe (pass_gate lib tn s t d).0 ≡ true
  unfolding pass_gate is_safe
  pass_gate-is_safe s t none b a h = h
  pass_gate-is_safe s t (some (items, d)) b a h =
      elim (Bool-cases (is_same lib tn t.risk_cutover_threshold_ack_diff_hash d)) [
        | inl e ↦ rw (e, a, b) (ground arith)
        | inr e ↦ rw e h
      ]

  enable_tenant-is_safe :
      (s : S) (t : Option (Tenant lib.Digest))
      → is_backfilled s.job ≡ true
      → is_safe s ≡ true
      → is_safe (enable_tenant lib tn s t).0 ≡ true
  unfolding enable_tenant
  enable_tenant-is_safe s none b h = h
  enable_tenant-is_safe s (some t) b h =
      if_case IsSafe (is_some t.risk_cutover_threshold_ack_at) _ _
        (λ a. pass_gate-is_safe s t _ b a h) (λ _. h)

  enable_cutover-is_safe : (s : S) → is_safe s ≡ true → is_safe (enable_cutover lib tn s).0 ≡ true
  unfolding enable_cutover
  enable_cutover-is_safe s h =
      if_case IsSafe (is_backfilled s.job) _ _ (λ b. enable_tenant-is_safe s s.tenant b h) (λ _. h)

  enqueue-is_backfilled :
      (fs : List (Finding fl.F)) (o : Option Job)
      → is_backfilled o ≡ true
      → is_backfilled (some (enqueue_backfill_job fl upper tn chunk_size fs o)) ≡ true
  unfolding enqueue_backfill_job is_backfilled
  enqueue-is_backfilled fs none h = absurd (ground arith)
  enqueue-is_backfilled fs (some j) h = h

  enqueue_backfill-is_safe :
      (s : S) → is_safe s ≡ true → is_safe (enqueue_backfill fl upper lib tn chunk_size s).0 ≡ true
  unfolding enqueue_backfill is_safe
  enqueue_backfill-is_safe s h = ground (arith, h, enqueue-is_backfilled s.findings s.job)

  claimable-not_completed : (s : JobStatus) → is_claimable s ≡ true → is_completed s ≡ false
  claimable-not_completed pending h = refl
  claimable-not_completed in_progress h = refl
  claimable-not_completed completed h = absurd (ground arith)
  claimable-not_completed failed h = refl

  -- A claimable job is not complete, so the flag is off.
  claimable-off :
      (s : S) (j : Job)
      → s.job ≡ some j
      → is_claimable j.status ≡ true
      → is_safe s ≡ true
      → is_enabled s.tenant ≡ false
  unfolding is_safe is_backfilled
  claimable-off s j e c h =
      off (is_enabled s.tenant) (is_backfilled s.job) (is_acked s.tenant) h
        (rw (e, claimable-not_completed j.status c) refl)

  dispatch_chunk-is_safe :
      (raises : Bool) (t : Table) (now : ℕ) (s : S) (o : Option Job)
      → s.job ≡ o
      → is_safe s ≡ true
      → is_safe (dispatch_chunk fl upper lib tn chunk_size raises t now s o) ≡ true
  unfolding dispatch_chunk is_safe
  dispatch_chunk-is_safe raises t now s none e h = h
  dispatch_chunk-is_safe raises t now s (some j) e h = elim (Bool-cases (is_claimable j.status)) [
    | inl c ↦ elim (Bool-cases raises) [
      | inl r ↦ rw (c, r, claimable-off s j e c h) refl
      | inr r ↦ rw (c, r, claimable-off s j e c h) refl
    ]
    | inr c ↦ rw c h
  ]

  diff-is_backfilled : (s : S) → is_some (compute_threshold_diff lib tn s) ≡ is_backfilled s.job
  unfolding compute_threshold_diff
  diff-is_backfilled s = ground arith

  edit-is_safe :
      (findings : List (Finding fl.F)) (assets : List ScoredAsset)
      (rules saved_filters : List Threshold) (s : S)
      → is_safe s ≡ true
      → is_safe (record s {
        findings = findings;
        assets = assets;
        rules = rules;
        saved_filters = saved_filters;
      })
        ≡ true
  unfolding is_safe
  edit-is_safe findings assets rules saved_filters s h = h

  Step-is_safe :
      {s u : S} → Step fl upper lib tn chunk_size s u → is_safe s ≡ true → is_safe u ≡ true
  unfolding record_threshold_ack dispatch_backfill_chunks
  Step-is_safe (enqueue s) h = enqueue_backfill-is_safe s h
  Step-is_safe (dispatch raises t now s) h = dispatch_chunk-is_safe raises t now s s.job refl h
  Step-is_safe (ack now s) h =
      stamp_ack-is_safe now s (compute_threshold_diff lib tn s) s.tenant (diff-is_backfilled s) h
  Step-is_safe (enable s) h = enable_cutover-is_safe s h
  Step-is_safe (edit findings assets rules saved_filters s) h =
      edit-is_safe findings assets rules saved_filters s h

  Reach-is_safe :
      {s u : S} → Reach fl upper lib tn chunk_size s u → is_safe s ≡ true → is_safe u ≡ true
  Reach-is_safe here h = h
  Reach-is_safe (next r d) h = Step-is_safe d (Reach-is_safe r h)

  -- From a state in which a tenant is not ranked by exposure scores, whatever sequence of calls of
  -- the service, of rounds of the scheduler (one that fails included) and of edits of the findings,
  -- assets, rules and filters leads to a state in which it is: there the backfill is complete, and
  -- the tenant has an acknowledgment.
  pub enabled-needs_gates :
      (s u : S)
      → is_enabled s.tenant ≡ false
      → Reach fl upper lib tn chunk_size s u
      → is_enabled u.tenant ≡ true
      → (is_backfilled u.job ≡ true) × (is_acked u.tenant ≡ true)
  unfolding is_safe
  enabled-needs_gates s u off_at_start r on =
      ground (arith, Reach-is_safe r (rw off_at_start refl), on)
