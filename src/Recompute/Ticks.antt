-- ===== src/Recompute/Ticks.antt =====
-- Repeated ticks of the backfill: it ends, with every pending finding scored once.
use getvul.Prelude.{
  ℕ, ◌+◌, ◌<◌, ◌≡◌, refl, sym, ap, ◌∙◌, inl, inr, ◌⊎◌, String, true, false, none, some, List, [],
  ◌∷◌, length, count_where, arith,
}
use mathlib.Core.Path.{subst}
use getvul.Correlation.{Table}
use getvul.Risk.{Floats}
use getvul.Recompute.{
  Asset, Finding, Job, completed, is_claimable, is_abandoned, is_pending, last_id, advance_job,
  process_backfill_chunk, ticks, ChunkResult, claim_job, write_chunk,
}
use getvul.Recompute.Backfill.{
  IsListed, IsAhead, chunk, migrate, settle, select_chunk_lem, write_chunk-chunk, settle-migrate,
  settle-none_pending, count_where-migrate, chunk-nil, migrate-IsListed, migrate-IsAhead,
  last_cursor, last_cursor-last_id,
}

-- A job that the next tick takes: not finished, and no worker holds it.
pub record IsFree (j : Job) : Type 0 where
  pub claimable : is_claimable j.status ≡ true
  pub free : j.last_heartbeat_at ≡ none
  pub chunked : 0 < j.chunk_size

module _ (fl : Floats) (upper : String → String) (tn : ℕ) (t : Table) (assets : List Asset) where
  abbrev Row : Type 0
  Row = Finding fl.F

  abbrev tick : ℕ → Job → List Row → List Row × Job × ChunkResult
  tick now j fs = process_backfill_chunk fl upper tn t assets now j fs

  abbrev rows_of : Job → List Row → List Row
  rows_of j fs = chunk fl upper tn t assets j.chunk_size fs

  List-cases : (fs : List Row) → (fs ≡ []) ⊎ ((f : Row) × (gs : List Row) × (fs ≡ f ∷ gs))
  List-cases [] = inl refl
  List-cases (f ∷ gs) = inr (f, gs, refl)

  -- A claimed tick works on the first pending rows.
  tick-free :
      (now : ℕ) (j : Job) (fs : List Row)
      → IsFree j
      → IsListed fl upper tn t assets fs
      → IsAhead fl upper tn t assets j.cursor_vuln_id fs
      → tick now j fs ≡ advance_job fl upper tn t assets now (claim_job now j) fs (rows_of j fs)
  unfolding process_backfill_chunk is_abandoned
  tick-free now j fs h listed ahead =
      rw
        (
          h.claimable,
          h.free,
          select_chunk_lem fl upper tn t assets j.cursor_vuln_id j.chunk_size fs listed ahead,
        )
        refl

  -- No tick touches a finished job.
  pub ticks-finished :
      (nows : List ℕ) (j : Job) (fs : List Row)
      → is_claimable j.status ≡ false
      → ticks fl upper tn t assets nows j fs ≡ (fs, j)
  unfolding ticks process_backfill_chunk
  ticks-finished [] j fs h = refl
  ticks-finished (now ∷ nows) j fs h = rw h (ticks-finished nows j fs h)

  -- What the ticks leave: every pending row scored, the job completed and its count advanced.
  abbrev pub IsMigrated : Job → List Row → List Row × Job → Type 0
  IsMigrated j fs (fs', j') =
      (fs' ≡ settle fl upper tn t assets fs)
      × (j'.status ≡ completed)
      × (j'.rows_migrated ≡ j.rows_migrated + count_where (is_pending fl upper tn) fs)

  abbrev then_ticks : List ℕ → List Row × Job × ChunkResult → List Row × Job
  then_ticks nows (fs, j, _) = ticks fl upper tn t assets nows j fs

  ticks-next :
      (now : ℕ) (nows : List ℕ) (j : Job) (fs : List Row) (r : List Row × Job × ChunkResult)
      → tick now j fs ≡ r
      → ticks fl upper tn t assets (now ∷ nows) j fs ≡ then_ticks nows r
  unfolding ticks
  ticks-next now nows j fs r e = ap (then_ticks nows) e

  -- What one tick returns when no pending row is left, and when some are.
  advance_job-nil :
      (now : ℕ) (nows : List ℕ) (j : Job) (fs : List Row)
      → count_where (is_pending fl upper tn) fs ≡ 0
      → IsMigrated j fs
          (then_ticks nows (advance_job fl upper tn t assets now (claim_job now j) fs []))
  unfolding advance_job claim_job
  advance_job-nil now nows j fs none_left =
      subst (IsMigrated j fs)
        (sym (
          ticks-finished nows
            (record (claim_job now j) {
              status = completed;
              completed_at = some now;
              last_heartbeat_at = none;
            })
            fs refl))
        (
          sym (settle-none_pending fl upper tn t assets fs none_left),
          refl,
          omega (arith, none_left),
        )

  abbrev after_chunk : ℕ → Job → Row → List Row → Job
  after_chunk now j f gs = record (claim_job now j) {
    cursor_vuln_id = some (last_id fl upper tn f.vuln.id gs);
    rows_migrated = j.rows_migrated + length (f ∷ gs);
    last_heartbeat_at = none;
  }

  advance_job-cons :
      (now : ℕ) (nows : List ℕ) (j : Job) (fs : List Row) (f : Row) (gs : List Row)
      → IsListed fl upper tn t assets fs
      → rows_of j fs ≡ f ∷ gs
      → then_ticks nows (advance_job fl upper tn t assets now (claim_job now j) fs (f ∷ gs))
        ≡ ticks fl upper tn t assets nows
            (after_chunk now j f gs)
            (migrate fl upper tn t assets j.chunk_size fs)
  unfolding advance_job claim_job
  advance_job-cons now nows j fs f gs listed e =
      ap (λ fs'. ticks fl upper tn t assets nows (after_chunk now j f gs) fs')
        (subst
          (λ c.
            write_chunk fl upper tn t assets c fs ≡ migrate fl upper tn t assets j.chunk_size fs)
          e (write_chunk-chunk fl upper tn t assets j.chunk_size fs listed))

  after_chunk-IsFree :
      (now : ℕ) (j : Job) (f : Row) (gs : List Row) → IsFree j → IsFree (after_chunk now j f gs)
  unfolding claim_job
  after_chunk-IsFree now j f gs h = record { claimable = refl; free = refl; chunked = h.chunked }

  after_chunk-IsAhead :
      (now : ℕ) (j : Job) (fs : List Row) (f : Row) (gs : List Row)
      → IsListed fl upper tn t assets fs
      → IsAhead fl upper tn t assets j.cursor_vuln_id fs
      → rows_of j fs ≡ f ∷ gs
      → IsAhead fl upper tn t assets
          (after_chunk now j f gs).cursor_vuln_id
          (migrate fl upper tn t assets j.chunk_size fs)
  unfolding claim_job
  after_chunk-IsAhead now j fs f gs listed ahead e =
      subst (λ c. IsAhead fl upper tn t assets c (migrate fl upper tn t assets j.chunk_size fs))
        (ap (last_cursor fl upper tn t assets j.cursor_vuln_id) e
          ∙ last_cursor-last_id fl upper tn t assets f.vuln.id gs)
        (migrate-IsAhead fl upper tn t assets j.cursor_vuln_id j.chunk_size fs listed ahead)

  after_chunk-count :
      (j : Job) (fs : List Row) (f : Row) (gs : List Row)
      → rows_of j fs ≡ f ∷ gs
      → length (f ∷ gs)
          + count_where (is_pending fl upper tn) (migrate fl upper tn t assets j.chunk_size fs)
        ≡ count_where (is_pending fl upper tn) fs
  after_chunk-count j fs f gs e =
      subst
        (λ c.
          length c
            + count_where (is_pending fl upper tn) (migrate fl upper tn t assets j.chunk_size fs)
          ≡ count_where (is_pending fl upper tn) fs)
        e (count_where-migrate fl upper tn t assets j.chunk_size fs)

  IsMigrated-after_chunk :
      (now : ℕ) (j : Job) (fs : List Row) (f : Row) (gs : List Row) (r : List Row × Job)
      → rows_of j fs ≡ f ∷ gs
      → IsMigrated (after_chunk now j f gs) (migrate fl upper tn t assets j.chunk_size fs) r
      → IsMigrated j fs r
  unfolding claim_job
  IsMigrated-after_chunk now j fs f gs r e h = (
    h.0 ∙ settle-migrate fl upper tn t assets j.chunk_size fs,
    h.1,
    omega (arith, h.2, after_chunk-count j fs f gs e),
  )

  -- From a claimable job that no worker holds, with a positive chunk size, on a table in the
  -- order of distinct primary keys and with no pending finding behind the cursor: more ticks
  -- than there are pending findings complete the job; then the findings are those of one pass
  -- that scores each pending one, and `rows_migrated` has grown by their number.
  pub ticks-IsMigrated :
      (nows : List ℕ) (j : Job) (fs : List Row)
      → IsFree j
      → IsListed fl upper tn t assets fs
      → IsAhead fl upper tn t assets j.cursor_vuln_id fs
      → count_where (is_pending fl upper tn) fs < length nows
      → IsMigrated j fs (ticks fl upper tn t assets nows j fs)
  ticks-IsMigrated [] j fs h listed ahead enough = absurd (omega (arith, enough))
  ticks-IsMigrated (now ∷ nows) j fs h listed ahead enough = elim (List-cases (rows_of j fs)) [
    | inl e ↦
        subst (IsMigrated j fs)
          (sym (
            ticks-next now nows j fs _ (
              tick-free now j fs h listed ahead
              ∙ ap (advance_job fl upper tn t assets now (claim_job now j) fs) e)))
          (advance_job-nil now nows j fs
            (chunk-nil fl upper tn t assets j.chunk_size fs h.chunked e))
    | inr (f, gs, e) ↦
        subst (IsMigrated j fs)
          (sym (
            ticks-next now nows j fs _ (
              tick-free now j fs h listed ahead
              ∙ ap (advance_job fl upper tn t assets now (claim_job now j) fs) e)
            ∙ advance_job-cons now nows j fs f gs listed e))
          (IsMigrated-after_chunk now j fs f gs
            (ticks fl upper tn t assets nows (after_chunk now j f gs)
              (migrate fl upper tn t assets j.chunk_size fs))
            e
            (ticks-IsMigrated nows (after_chunk now j f gs)
              (migrate fl upper tn t assets j.chunk_size fs) (after_chunk-IsFree now j f gs h)
              (migrate-IsListed fl upper tn t assets j.chunk_size fs listed)
              (after_chunk-IsAhead now j fs f gs listed ahead e)
              (omega (arith, enough, after_chunk-count j fs f gs e))))
  ]
