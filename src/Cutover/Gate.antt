-- ===== src/Cutover/Gate.antt =====
-- The way to the exposure scores: enqueue the backfill, let the scheduler run, acknowledge, enable.
use getvul.Prelude.{
  ℕ, ◌<◌, ◌≡◌, refl, sym, ap, ◌∙◌, subst, inl, inr, String, Bool, true, false, Option, none, some,
  is_some, List, [], ◌∷◌, length, count_where, Bool-cases,
}
use getvul.Risk.{Floats}
use getvul.Correlation.{Table}
use getvul.Recompute.{
  Asset, Finding, Job, is_claimable, is_pending, enqueue_backfill_job, process_backfill_chunk,
  ticks,
}
use getvul.Recompute.Backfill.{IsListed, IsAhead}
use getvul.Recompute.Ticks.{ticks-finished, ticks-IsMigrated}
use getvul.Cutover.Reach.{is_enabled}
use getvul.Cutover.{
  Tenant, CutoverLib, State, Reply, ok, is_backfilled, items, compute_threshold_diff, stamp_ack,
  record_threshold_ack, pass_gate, enable_tenant, enable_cutover, enqueue_backfill, scored,
  dispatch_chunk, dispatch_backfill_chunks,
}

module _ (lib : CutoverLib) (tn : ℕ) (F : Type 0) where
  abbrev S : Type 0
  S = State F lib.Digest

  abbrev IsOn : S × Reply Bool → Type 0
  IsOn r = (r.1 ≡ ok true) × (is_enabled r.0.tenant ≡ true)

  pass_gate-IsOn :
      (s : S) (t : Tenant lib.Digest)
      → is_backfilled s.job ≡ true
      → t.risk_cutover_threshold_ack_diff_hash ≡ some (lib.digest (items lib tn s))
      → ((d : lib.Digest) → lib.same d d ≡ true)
      → IsOn (pass_gate lib tn s t (compute_threshold_diff lib tn s))
  unfolding pass_gate compute_threshold_diff
  pass_gate-IsOn s t b e r = rw (b, e, r (lib.digest (items lib tn s))) (refl, refl)

  enable_cutover-IsOn :
      (s : S) (t : Tenant lib.Digest)
      → is_backfilled s.job ≡ true
      → s.tenant ≡ some t
      → is_some t.risk_cutover_threshold_ack_at ≡ true
      → t.risk_cutover_threshold_ack_diff_hash ≡ some (lib.digest (items lib tn s))
      → ((d : lib.Digest) → lib.same d d ≡ true)
      → IsOn (enable_cutover lib tn s)
  unfolding enable_cutover enable_tenant
  enable_cutover-IsOn s t b e a h r =
      rw b (subst (λ o. IsOn (enable_tenant lib tn s o)) (sym e) (rw a (pass_gate-IsOn s t b h r)))

  acked : ℕ → S → Tenant lib.Digest → S
  acked now s t =
      (stamp_ack lib tn now s (some (items lib tn s, lib.digest (items lib tn s))) (some t)).0

  record_threshold_ack-acked :
      (now : ℕ) (s : S) (t : Tenant lib.Digest)
      → is_backfilled s.job ≡ true
      → s.tenant ≡ some t
      → (record_threshold_ack lib tn now s).0 ≡ acked now s t
  unfolding record_threshold_ack compute_threshold_diff acked
  record_threshold_ack-acked now s t b e = rw (b, e) refl

  ack-enable-IsOn :
      (now : ℕ) (s : S) (t : Tenant lib.Digest)
      → is_backfilled s.job ≡ true
      → s.tenant ≡ some t
      → ((d : lib.Digest) → lib.same d d ≡ true)
      → IsOn (enable_cutover lib tn (record_threshold_ack lib tn now s).0)
  unfolding acked stamp_ack items
  ack-enable-IsOn now s t b e r =
      subst (λ u. IsOn (enable_cutover lib tn u)) (sym (record_threshold_ack-acked now s t b e))
        (enable_cutover-IsOn (acked now s t) _ b refl refl refl r)

module _ (fl : Floats) (upper : String → String) (lib : CutoverLib) (tn chunk_size : ℕ) where
  -- The scheduler's rounds, of which none raises.
  unfoldable pub rounds : Table → List ℕ → State fl.F lib.Digest → State fl.F lib.Digest
  rounds t [] s = s
  rounds t (now ∷ later) s =
      rounds t later (dispatch_backfill_chunks fl upper lib tn chunk_size false t now s)

  process-unclaimable :
      (t : Table) (assets : List Asset) (now : ℕ) (j : Job) (fs : List (Finding fl.F))
      → is_claimable j.status ≡ false
      → ((process_backfill_chunk fl upper tn t assets now j fs).0 ≡ fs)
        × ((process_backfill_chunk fl upper tn t assets now j fs).1 ≡ j)
  unfolding process_backfill_chunk
  process-unclaimable t assets now j fs e = rw e (refl, refl)

  -- The rounds are the ticks of the job, and change nothing else.
  rounds-ticks :
      (t : Table) (nows : List ℕ) (s : State fl.F lib.Digest) (j : Job)
      → rounds t nows (record s { job = some j }) ≡ record s {
        findings =
            (ticks fl upper tn t (scored fl upper lib tn chunk_size s.assets) nows j s.findings).0;
        job =
            some
              (ticks fl upper tn t
                (scored fl upper lib tn chunk_size s.assets)
                nows
                j
                s.findings).1;
      }
  unfolding rounds ticks dispatch_backfill_chunks dispatch_chunk
  rounds-ticks t [] s j = refl
  rounds-ticks t (now ∷ later) s j = elim (Bool-cases (is_claimable j.status)) [
    | inl e ↦ rw e (
        rounds-ticks t later
          (record s {
            findings =
                (process_backfill_chunk fl upper tn t (scored fl upper lib tn chunk_size s.assets)
                  now j s.findings).0;
          })
          _)
    | inr e ↦ rw e (
        rounds-ticks t later s j
        ∙ ap (λ (r : List (Finding fl.F) × Job). record s { findings = r.0; job = some r.1 })
            (ticks-finished fl upper tn t (scored fl upper lib tn chunk_size s.assets) later j
                s.findings e
              ∙ sym (
                  ticks-finished fl upper tn t (scored fl upper lib tn chunk_size s.assets)
                    (now ∷ later) j s.findings e)))
  ]

  IsAhead-start :
      (t : Table) (assets : List Asset) (fs : List (Finding fl.F))
      → IsAhead fl upper tn t assets none fs
  IsAhead-start t assets [] = tt
  IsAhead-start t assets (f ∷ fs) = (λ _. refl, IsAhead-start t assets fs)

  ticks-is_backfilled :
      (t : Table) (assets : List Asset) (nows : List ℕ) (fs : List (Finding fl.F))
      → 0 < chunk_size
      → IsListed fl upper tn t assets fs
      → count_where (is_pending fl upper tn) fs < length nows
      → is_backfilled (
          some
            (ticks fl upper tn t assets nows
              (enqueue_backfill_job fl upper tn chunk_size fs none)
              fs).1)
        ≡ true
  unfolding enqueue_backfill_job is_backfilled
  ticks-is_backfilled t assets nows fs c listed enough =
      let done =
        ticks-IsMigrated fl upper tn t assets nows
          (enqueue_backfill_job fl upper tn chunk_size fs none) fs
          (record { claimable = refl; free = refl; chunked = c }) listed (IsAhead-start t assets fs)
          enough in
      rw (done.1) refl

  -- The state when the backfill is complete.
  backfilled : Table → List ℕ → State fl.F lib.Digest → State fl.F lib.Digest
  backfilled t nows s = rounds t nows (enqueue_backfill fl upper lib tn chunk_size s).0

  enqueue-backfilled :
      (t : Table) (nows : List ℕ) (s : State fl.F lib.Digest)
      → s.job ≡ none
      → 0 < chunk_size
      → IsListed fl upper tn t (scored fl upper lib tn chunk_size s.assets) s.findings
      → count_where (is_pending fl upper tn) s.findings < length nows
      → (is_backfilled (backfilled t nows s).job ≡ true) × ((backfilled t nows s).tenant ≡ s.tenant)
  unfolding backfilled enqueue_backfill
  enqueue-backfilled t nows s e c listed enough =
      let ticked = λ (o : Option Job).
        ticks fl upper tn t (scored fl upper lib tn chunk_size s.assets) nows
          (enqueue_backfill_job fl upper tn chunk_size s.findings o) s.findings in
      rw
        (rounds-ticks t nows (enqueue_backfill fl upper lib tn chunk_size s).0
          (enqueue_backfill_job fl upper tn chunk_size s.findings s.job))
        (
          subst (λ o. is_backfilled (some (ticked o).1) ≡ true) (sym e)
              (ticks-is_backfilled t _ nows s.findings c listed enough),
          refl,
        )

  -- For a tenant without a job, with findings in the order of distinct primary keys, a positive
  -- chunk size and a hash that is equal to itself: enqueue the backfill, let the scheduler run more
  -- rounds than there are pending findings, none of which raises, acknowledge the thresholds and
  -- enable the cutover; then the call succeeds, and the tenant is ranked by exposure scores.
  pub enqueue-enable_cutover :
      (t : Table) (nows : List ℕ) (now : ℕ) (s : State fl.F lib.Digest) (row : Tenant lib.Digest)
      → s.tenant ≡ some row
      → s.job ≡ none
      → 0 < chunk_size
      → IsListed fl upper tn t (scored fl upper lib tn chunk_size s.assets) s.findings
      → count_where (is_pending fl upper tn) s.findings < length nows
      → ((d : lib.Digest) → lib.same d d ≡ true)
      → let after =
          enable_cutover lib tn
            (record_threshold_ack lib tn now
              (rounds t nows (enqueue_backfill fl upper lib tn chunk_size s).0)).0 in
        (after.1 ≡ ok true) × (is_enabled after.0.tenant ≡ true)
  unfolding backfilled
  enqueue-enable_cutover t nows now s row present new c listed enough same =
      let (done, kept) = enqueue-backfilled t nows s new c listed enough in
      ack-enable-IsOn lib tn fl.F now (backfilled t nows s) row done (kept ∙ present) same
