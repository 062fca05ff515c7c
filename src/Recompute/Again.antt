-- ===== src/Recompute/Again.antt =====
-- The recompute run again, and what either way of scoring leaves alone.
use getvul.Prelude.{
  ℕ, suc, ◌≡◌, ◌⊎◌, refl, ap, ◌∙◌, inl, inr, String, Bool, true, false, not, ◌&&◌, Option, none,
  some, List, [], ◌∷◌, filter, update_where, count_where, mem_id, arith, ◌==◌, Bool-cases,
  if◌then◌else◌,
}
use getvul.Models.{Vulnerability}
use getvul.Correlation.{Table}
use getvul.Risk.{Floats, risk_model_version, score_finding}
use getvul.Recompute.{
  Asset, Finding, Job, find_asset, count_sources, inputs_with, inputs_of, is_selected, score_row,
  rollup_asset, compute_finding_risk_scores, ids, write_chunk, advance_job, select_chunk,
  process_backfill_chunk, ChunkResult, claim_job, is_claimable, is_abandoned,
}

module _ {ℓ} {A : Type ℓ} where
  again_head :
      (p : A → Bool) (f g : A → A) (x : A)
      → g (f x) ≡ f x
      → (if p (f x) then g (f x) else f x) ≡ f x
  again_head p f g x h = elim (Bool-cases (p (f x))) [ inl e ↦ rw e h | inr e ↦ rw e refl ]

  update_where-again :
      (p : A → Bool) (f g : A → A) (xs : List A)
      → ((x : A) → g (f x) ≡ f x)
      → update_where p g (update_where p f xs) ≡ update_where p f xs
  update_where-again p f g [] h = refl
  update_where-again p f g (x ∷ xs) h = elim (Bool-cases (p x)) [
    | inl e ↦ rw e (λ i. again_head p f g x (h x) i ∷ update_where-again p f g xs h i)
    | inr e ↦ rw (e, e) (ap (λ ys. x ∷ ys) (update_where-again p f g xs h))
  ]

  count_where-update_where :
      (p : A → Bool) (f : A → A) (xs : List A)
      → ((x : A) → p (f x) ≡ p x)
      → count_where p (update_where p f xs) ≡ count_where p xs
  count_where-update_where p f [] h = refl
  count_where-update_where p f (x ∷ xs) h = elim (Bool-cases (p x)) [
    | inl e ↦ rw (e, h x, e) (ap suc (count_where-update_where p f xs h))
    | inr e ↦ rw (e, e) (count_where-update_where p f xs h)
  ]

  -- Rows outside `q`, which the update does not reach.
  filter-update_where :
      (q p : A → Bool) (f : A → A) (xs : List A)
      → ((x : A) → q x ≡ true → p x ≡ false)
      → ((x : A) → q (f x) ≡ q x)
      → filter q (update_where p f xs) ≡ filter q xs
  filter-update_where q p f [] h k = refl
  filter-update_where q p f (x ∷ xs) h k = elim (Bool-cases (q x)) [
    | inl e ↦ rw (h x e, e) (ap (λ ys. x ∷ ys) (filter-update_where q p f xs h k))
    | inr e ↦ elim (Bool-cases (p x)) [
      | inl d ↦ rw (d, k x, e) (filter-update_where q p f xs h k)
      | inr d ↦ rw (d, e) (filter-update_where q p f xs h k)
    ]
  ]

module _ (fl : Floats) (upper : String → String) (tn : ℕ) (t : Table) where
  abbrev Row : Type 0
  Row = Finding fl.F

  abbrev own : Asset → Bool
  own a = a.tenant_id == tn

  abbrev rolled : List Row → List Asset → List Asset
  rolled fs assets = update_where own (rollup_asset fl upper tn fs) assets

  inputs_with-rolled :
      (fs : List Row) (v : Vulnerability) (n : ℕ) (o : Option ℕ) (assets : List Asset)
      → inputs_with v n (find_asset o (rolled fs assets)) ≡ inputs_with v n (find_asset o assets)
  unfolding find_asset rollup_asset
  inputs_with-rolled fs v n none assets = refl
  inputs_with-rolled fs v n (some i) [] = refl
  inputs_with-rolled fs v n (some i) (a ∷ assets) = elim (Bool-cases (own a)) [
    | inl e ↦ elim (Bool-cases (a.id == i)) [
      | inl d ↦ rw (e, d) refl
      | inr d ↦ rw (e, d) (inputs_with-rolled fs v n (some i) assets)
    ]
    | inr e ↦ elim (Bool-cases (a.id == i)) [
      | inl d ↦ rw (e, d) refl
      | inr d ↦ rw (e, d) (inputs_with-rolled fs v n (some i) assets)
    ]
  ]

  score_row-rolled :
      (fs : List Row) (assets : List Asset) (f : Row)
      → score_row fl upper tn t (rolled fs assets) (score_row fl upper tn t assets f)
        ≡ score_row fl upper tn t assets f
  unfolding score_row inputs_of
  score_row-rolled fs assets f =
      ap
        (λ i.
          let b = score_finding fl upper i in
          record f {
            risk_exposure_score = some b.final_score;
            risk_exposure_breakdown = some b.components;
            risk_model_version = some risk_model_version;
          })
        (inputs_with-rolled fs f.vuln (count_sources tn t f.vuln.cve_id f.vuln.asset_id)
          f.vuln.asset_id assets)

  abbrev scored : List Asset → List Row → List Row
  scored assets = update_where (is_selected fl upper tn) (score_row fl upper tn t assets)

  scored-again :
      (assets : List Asset) (fs : List Row)
      → scored (rolled (scored assets fs) assets) (scored assets fs) ≡ scored assets fs
  scored-again assets fs =
      update_where-again (is_selected fl upper tn) (score_row fl upper tn t assets)
        (score_row fl upper tn t (rolled (scored assets fs) assets)) fs
        (λ f. score_row-rolled (scored assets fs) assets f)

  rolled-again :
      (fs : List Row) (assets : List Asset) → rolled fs (rolled fs assets) ≡ rolled fs assets
  unfolding rollup_asset
  rolled-again fs assets =
      update_where-again own (rollup_asset fl upper tn fs) (rollup_asset fl upper tn fs) assets
        (λ a. refl)

  selected-score_row :
      (assets : List Asset) (f : Row)
      → is_selected fl upper tn (score_row fl upper tn t assets f) ≡ is_selected fl upper tn f
  unfolding is_selected score_row
  selected-score_row assets f = refl

  own-rollup_asset : (fs : List Row) (a : Asset) → own (rollup_asset fl upper tn fs a) ≡ own a
  unfolding rollup_asset
  own-rollup_asset fs a = refl

  -- A second recompute, on the findings and assets that the first left, changes nothing and
  -- counts the same rows.
  pub compute_finding_risk_scores-again :
      (assets : List Asset) (findings : List Row)
      → let (findings', assets', updated, rolled_up) =
          compute_finding_risk_scores fl upper tn t assets findings in
        compute_finding_risk_scores fl upper tn t assets' findings'
        ≡ (findings', assets', updated, rolled_up)
  unfolding compute_finding_risk_scores
  compute_finding_risk_scores-again assets fs =
      let same = scored-again assets fs in
      λ i. (
        same i,
        (ap (λ fs'. rolled fs' (rolled (scored assets fs) assets)) same
              ∙ rolled-again (scored assets fs) assets)
            i,
        count_where-update_where (is_selected fl upper tn) (score_row fl upper tn t assets) fs
            (selected-score_row assets) i,
        count_where-update_where own (rollup_asset fl upper tn (scored assets fs)) assets
            (own-rollup_asset (scored assets fs)) i,
      )

  abbrev pub is_foreign : Row → Bool
  is_foreign f = not (f.vuln.tenant_id == tn)

  write_chunk-foreign :
      (assets : List Asset) (chunk fs : List Row)
      → filter is_foreign (write_chunk fl upper tn t assets chunk fs) ≡ filter is_foreign fs
  unfolding write_chunk score_row
  write_chunk-foreign assets chunk fs =
      filter-update_where is_foreign
        (λ f. mem_id f.vuln.id (ids fl upper tn chunk) && f.vuln.tenant_id == tn)
        (score_row fl upper tn t assets) fs (λ f e. ground (arith, e)) (λ f. refl)

  advance_job-foreign :
      (assets : List Asset) (now : ℕ) (j : Job) (fs chunk : List Row)
      → filter is_foreign (advance_job fl upper tn t assets now j fs chunk).0 ≡ filter is_foreign fs
  unfolding advance_job
  advance_job-foreign assets now j fs [] = refl
  advance_job-foreign assets now j fs (f ∷ chunk) = write_chunk-foreign assets (f ∷ chunk) fs

  advance_job-claimed :
      (assets : List Asset) (now : ℕ) (j : Job) (fs chunk : List Row)
      → (advance_job fl upper tn t assets now j fs chunk).2.claimed ≡ true
  unfolding advance_job
  advance_job-claimed assets now j fs [] = refl
  advance_job-claimed assets now j fs (f ∷ chunk) = refl

  abbrev IsKept : Job → List Row → List Row × Job × ChunkResult → Type 0
  IsKept j fs (fs', j', result) =
      (filter is_foreign fs' ≡ filter is_foreign fs)
      × ((result.claimed ≡ true) ⊎ ((fs' ≡ fs) × (j' ≡ j)))

  -- Whatever the job's state, a tick leaves the findings of every other tenant as they were, and a
  -- tick that does not claim the job leaves the job and all findings as they were.
  pub process_backfill_chunk-foreign :
      (assets : List Asset) (now : ℕ) (j : Job) (fs : List Row)
      → let (fs', j', result) = process_backfill_chunk fl upper tn t assets now j fs in
        (filter is_foreign fs' ≡ filter is_foreign fs)
        × ((result.claimed ≡ true) ⊎ ((fs' ≡ fs) × (j' ≡ j)))
  unfolding process_backfill_chunk
  process_backfill_chunk-foreign assets now j fs =
      let chunk = select_chunk fl upper tn j.cursor_vuln_id j.chunk_size fs in
      let advanced = advance_job fl upper tn t assets now (claim_job now j) fs chunk in
      elim (is_claimable j.status && is_abandoned now j.last_heartbeat_at)
        as (λ b. IsKept j fs (
          if b
          then advanced
          else (fs, j, record { processed = 0; done = false; claimed = false }))) [
            | true ↦ (
              advance_job-foreign assets now (claim_job now j) fs chunk,
              inl (advance_job-claimed assets now (claim_job now j) fs chunk),
            )
            | false ↦ (refl, inr (refl, refl))
          ]
