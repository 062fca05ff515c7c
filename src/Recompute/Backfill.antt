-- ===== src/Recompute/Backfill.antt =====
-- The backfill in chunks: what one chunk writes, on a table listed in the order of its primary key.
use getvul.Prelude.{
  ℕ, zero, suc, ◌+◌, ◌<◌, ◌≡◌, refl, ap, ◌∙◌, inl, inr, String, Bool, true, false, ◌&&◌, Option,
  some, List, [], ◌∷◌, length, filter, filter_ext, take, mem_id, update_where, count_where, All,
  All-map, All-filter, arith, ltb, ◌==◌, ==_refl, Bool-cases, if◌then◌else◌,
}
use mathlib.Core.Path.{subst}
use getvul.Correlation.{Table}
use getvul.Risk.{Floats}
use getvul.Recompute.{
  Asset, Finding, after_cursor, is_selected, score_row, is_pending, insert_by_id, sort_by_id,
  select_chunk, ids, last_id, write_chunk,
}

and_absorb : (a b : Bool) → (a ≡ true → b ≡ true) → (a && b) ≡ a
and_absorb true b h = h refl
and_absorb false b h = refl

ltb-above : (i k : ℕ) → i < k → ltb k i ≡ false
ltb-above i k h = ground arith

==-above : (i k : ℕ) → i < k → (i == k) ≡ false
==-above i k h = ground arith

module _ (fl : Floats) (upper : String → String) (tn : ℕ) (t : Table) (assets : List Asset) where
  abbrev Row : Type 0
  Row = Finding fl.F

  abbrev pub pend : Row → Bool
  pend = is_pending fl upper tn

  abbrev score : Row → Row
  score = score_row fl upper tn t assets

  abbrev AboveId : ℕ → Row → Type 0
  AboveId i f = i < f.vuln.id

  -- Primary keys strictly increase along the table.
  abbrev pub IsListed : List Row → Type 0
  IsListed [] = Unit
  IsListed (f ∷ fs) = All (AboveId f.vuln.id) fs × IsListed fs

  -- No pending row lies behind the cursor.
  abbrev pub IsAhead : Option ℕ → List Row → Type 0
  IsAhead c fs = All (λ f. pend f ≡ true → after_cursor c f.vuln.id ≡ true) fs

  score-not_pending : (f : Row) → pend (score f) ≡ false
  unfolding is_pending score_row
  score-not_pending f = ground arith

  pending-tenant : (f : Row) → pend f ≡ true → (f.vuln.tenant_id == tn) ≡ true
  unfolding is_pending is_selected
  pending-tenant f e = ground (arith, e)

  -- The first `n` pending rows scored.
  abbrev pub migrate : ℕ → List Row → List Row
  migrate n [] = []
  migrate zero (f ∷ fs) = f ∷ fs
  migrate (suc n) (f ∷ fs) =
      let rest = migrate n fs in
      let rest' = migrate (suc n) fs in if pend f then score f ∷ rest else f ∷ rest'

  abbrev pub chunk : ℕ → List Row → List Row
  chunk n fs = take n (filter pend fs)

  filter-IsListed : (p : Row → Bool) (fs : List Row) → IsListed fs → IsListed (filter p fs)
  filter-IsListed p [] h = tt
  filter-IsListed p (f ∷ fs) h = elim (Bool-cases (p f)) [
    | inl e ↦ rw e (All-filter (AboveId f.vuln.id) p fs h.0, filter-IsListed p fs h.1)
    | inr e ↦ rw e (filter-IsListed p fs h.1)
  ]

  insert_by_id-least :
      (f : Row) (fs : List Row)
      → All (AboveId f.vuln.id) fs
      → insert_by_id fl upper tn f fs ≡ f ∷ fs
  insert_by_id-least f [] h = refl
  insert_by_id-least f (g ∷ gs) h = rw (ltb-above f.vuln.id g.vuln.id h.0) refl

  sort_by_id-IsListed : (fs : List Row) → IsListed fs → sort_by_id fl upper tn fs ≡ fs
  unfolding sort_by_id
  sort_by_id-IsListed [] h = refl
  sort_by_id-IsListed (f ∷ fs) h = rw (sort_by_id-IsListed fs h.1) (insert_by_id-least f fs h.0)

  ahead-filter :
      (c : Option ℕ) (fs : List Row)
      → IsAhead c fs
      → filter (λ f. pend f && after_cursor c f.vuln.id) fs ≡ filter pend fs
  ahead-filter c fs h =
      filter_ext (λ f. pend f && after_cursor c f.vuln.id) pend fs
        (All-map (λ f. pend f ≡ true → after_cursor c f.vuln.id ≡ true)
          (λ f. (pend f && after_cursor c f.vuln.id) ≡ pend f) fs
          (λ f at. and_absorb (pend f) (after_cursor c f.vuln.id) at) h)

  pub select_chunk_lem :
      (c : Option ℕ) (n : ℕ) (fs : List Row)
      → IsListed fs
      → IsAhead c fs
      → select_chunk fl upper tn c n fs ≡ chunk n fs
  unfolding select_chunk
  select_chunk_lem c n fs h k = ap (take n) (
      ap (sort_by_id fl upper tn) (ahead-filter c fs k)
      ∙ sort_by_id-IsListed (filter pend fs) (filter-IsListed pend fs h))

  -- `i` is above the id of every row.
  below-mem_id :
      (i : ℕ) (fs : List Row) → All (AboveId i) fs → mem_id i (ids fl upper tn fs) ≡ false
  below-mem_id i [] h = refl
  below-mem_id i (f ∷ fs) h = ground (arith, h.0, below-mem_id i fs h.1)

  All-take : (i n : ℕ) (fs : List Row) → All (AboveId i) fs → All (AboveId i) (take n fs)
  All-take i zero fs h = tt
  All-take i (suc n) [] h = tt
  All-take i (suc n) (f ∷ fs) h = (h.0, All-take i n fs h.1)

  chunk-above : (i n : ℕ) (fs : List Row) → All (AboveId i) fs → All (AboveId i) (chunk n fs)
  chunk-above i n fs h = All-take i n (filter pend fs) (All-filter (AboveId i) pend fs h)

  write_chunk-nil : (fs : List Row) → write_chunk fl upper tn t assets [] fs ≡ fs
  unfolding write_chunk
  write_chunk-nil [] = refl
  write_chunk-nil (f ∷ fs) = ap (λ r. f ∷ r) (write_chunk-nil fs)

  -- A chunk's first row lies before the rows of `fs`: it adds nothing there.
  write_chunk-later :
      (f : Row) (gs fs : List Row)
      → All (AboveId f.vuln.id) fs
      → write_chunk fl upper tn t assets (f ∷ gs) fs ≡ write_chunk fl upper tn t assets gs fs
  unfolding write_chunk
  write_chunk-later f gs [] h = refl
  write_chunk-later f gs (g ∷ fs) h = rw (==-above f.vuln.id g.vuln.id h.0) (
      ap
        (λ r.
          (if mem_id g.vuln.id (ids fl upper tn gs) && g.vuln.tenant_id == tn then score g else g)
          ∷ r)
        (write_chunk-later f gs fs h.1))

  write_chunk-hit :
      (f : Row) (gs fs : List Row)
      → pend f ≡ true
      → write_chunk fl upper tn t assets (f ∷ gs) (f ∷ fs)
        ≡ score f ∷ write_chunk fl upper tn t assets (f ∷ gs) fs
  unfolding write_chunk
  write_chunk-hit f gs fs e = rw (==_refl f.vuln.id, pending-tenant f e) refl

  write_chunk-miss :
      (f : Row) (gs fs : List Row)
      → All (AboveId f.vuln.id) gs
      → write_chunk fl upper tn t assets gs (f ∷ fs) ≡ f ∷ write_chunk fl upper tn t assets gs fs
  unfolding write_chunk
  write_chunk-miss f gs fs h = rw (below-mem_id f.vuln.id gs h) refl

  -- Writing a chunk scores the first pending rows, as many as the chunk is long.
  pub write_chunk-chunk :
      (n : ℕ) (fs : List Row)
      → IsListed fs
      → write_chunk fl upper tn t assets (chunk n fs) fs ≡ migrate n fs
  write_chunk-chunk zero [] h = write_chunk-nil []
  write_chunk-chunk (suc n) [] h = write_chunk-nil []
  write_chunk-chunk zero (f ∷ fs) h = write_chunk-nil (f ∷ fs)
  write_chunk-chunk (suc n) (f ∷ fs) h = elim (Bool-cases (pend f)) [
    | inl e ↦ rw e (
        write_chunk-hit f (chunk n fs) fs e
        ∙ ap (λ r. score f ∷ r)
            (write_chunk-later f (chunk n fs) fs h.0 ∙ write_chunk-chunk n fs h.1))
    | inr e ↦ rw e (
        write_chunk-miss f (chunk (suc n) fs) fs (chunk-above f.vuln.id (suc n) fs h.0)
        ∙ ap (λ r. f ∷ r) (write_chunk-chunk (suc n) fs h.1))
  ]

  -- Every pending row scored, in one pass.
  abbrev pub settle : List Row → List Row
  settle fs = update_where pend score fs

  pub settle-migrate : (n : ℕ) (fs : List Row) → settle (migrate n fs) ≡ settle fs
  settle-migrate n [] = refl
  settle-migrate zero (f ∷ fs) = refl
  settle-migrate (suc n) (f ∷ fs) = elim (Bool-cases (pend f)) [
    | inl e ↦ rw (e, score-not_pending f) (ap (λ r. score f ∷ r) (settle-migrate n fs))
    | inr e ↦ rw (e, e) (ap (λ r. f ∷ r) (settle-migrate (suc n) fs))
  ]

  pub settle-none_pending : (fs : List Row) → count_where pend fs ≡ 0 → settle fs ≡ fs
  settle-none_pending [] h = refl
  settle-none_pending (f ∷ fs) h = elim (Bool-cases (pend f)) [
    | inl e ↦ ground (arith, e, h)
    | inr e ↦ rw e (ap (λ r. f ∷ r) (settle-none_pending fs (ground (arith, e, h))))
  ]

  pub count_where-migrate :
      (n : ℕ) (fs : List Row)
      → length (chunk n fs) + count_where pend (migrate n fs) ≡ count_where pend fs
  count_where-migrate zero [] = refl
  count_where-migrate (suc n) [] = refl
  count_where-migrate zero (f ∷ fs) = omega arith
  count_where-migrate (suc n) (f ∷ fs) = elim (Bool-cases (pend f)) [
    | inl e ↦ rw (e, score-not_pending f) (omega (arith, count_where-migrate n fs))
    | inr e ↦ rw (e, e) (count_where-migrate (suc n) fs)
  ]

  pub chunk-nil : (n : ℕ) (fs : List Row) → 0 < n → chunk n fs ≡ [] → count_where pend fs ≡ 0
  chunk-nil zero fs k h = omega (arith, k)
  chunk-nil (suc n) [] k h = refl
  chunk-nil (suc n) (f ∷ fs) k h = elim (Bool-cases (pend f)) [
    | inl e ↦ ground (arith, e, h)
    | inr e ↦ rw e (chunk-nil (suc n) fs k (subst (λ l. take (suc n) l ≡ []) (rw e refl) h))
  ]

  migrate-above : (i n : ℕ) (fs : List Row) → All (AboveId i) fs → All (AboveId i) (migrate n fs)
  unfolding score_row
  migrate-above i n [] h = tt
  migrate-above i zero (f ∷ fs) h = h
  migrate-above i (suc n) (f ∷ fs) h = elim (Bool-cases (pend f)) [
    | inl e ↦ rw e (h.0, migrate-above i n fs h.1)
    | inr e ↦ rw e (h.0, migrate-above i (suc n) fs h.1)
  ]

  pub migrate-IsListed : (n : ℕ) (fs : List Row) → IsListed fs → IsListed (migrate n fs)
  unfolding score_row
  migrate-IsListed n [] h = tt
  migrate-IsListed zero (f ∷ fs) h = h
  migrate-IsListed (suc n) (f ∷ fs) h = elim (Bool-cases (pend f)) [
    | inl e ↦ rw e (migrate-above f.vuln.id n fs h.0, migrate-IsListed n fs h.1)
    | inr e ↦ rw e (migrate-above f.vuln.id (suc n) fs h.0, migrate-IsListed (suc n) fs h.1)
  ]

  -- The cursor after a chunk, which an empty chunk leaves as it is.
  abbrev pub last_cursor : Option ℕ → List Row → Option ℕ
  last_cursor c [] = c
  last_cursor c (f ∷ fs) = last_cursor (some f.vuln.id) fs

  pub last_cursor-last_id :
      (i : ℕ) (fs : List Row) → last_cursor (some i) fs ≡ some (last_id fl upper tn i fs)
  last_cursor-last_id i [] = refl
  last_cursor-last_id i (f ∷ fs) = last_cursor-last_id f.vuln.id fs

  pub migrate-IsAhead :
      (c : Option ℕ) (n : ℕ) (fs : List Row)
      → IsListed fs
      → IsAhead c fs
      → IsAhead (last_cursor c (chunk n fs)) (migrate n fs)
  migrate-IsAhead c n [] h k = tt
  migrate-IsAhead c zero (f ∷ fs) h k = k
  migrate-IsAhead c (suc n) (f ∷ fs) h k = elim (Bool-cases (pend f)) [
    | inl e ↦ rw e (
      λ e'. ground (arith, score-not_pending f, e'),
      migrate-IsAhead (some f.vuln.id) n fs h.1 (
          All-map (AboveId f.vuln.id) (λ g. pend g ≡ true → ltb f.vuln.id g.vuln.id ≡ true) fs
            (λ g p _. ground (arith, p)) h.0),
    )
    | inr e ↦ rw e (λ e'. ground (arith, e, e'), migrate-IsAhead c (suc n) fs h.1 k.1)
  ]
