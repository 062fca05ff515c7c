-- ===== src/Recompute/Rollup.antt =====
-- The one-shot recompute: each asset of the tenant gets the greatest score of its open findings,
-- and a second run changes nothing.
use getvul.Prelude.{
  ℕ, ◌≡◌, refl, sym, ap, inl, inr, ◌⊎◌, String, Bool, true, false, ◌&&◌, Option, none, some, List,
  [], ◌∷◌, update_where, All, All-map, arith, ℤ, ◌≤ℤ◌, leb_ℤ, ◌==◌, Bool-cases, if◌then◌else◌,
}
use mathlib.Core.Path.{subst}
use getvul.Correlation.{Table}
use getvul.Risk.{Floats}
use getvul.Recompute.{
  Asset, Finding, is_on, max_score, is_selected, score_row, rollup_score, rollup_asset,
  compute_finding_risk_scores,
}

abbrev AtMost : ℤ → Option ℤ → Type 0
AtMost m none = Unit
AtMost m (some s) = s ≤ℤ m

AtMost-trans : (m n : ℤ) (o : Option ℤ) → AtMost m o → m ≤ℤ n → AtMost n o
AtMost-trans m n none h k = tt
AtMost-trans m n (some s) h k = omega (arith, h, k)

module _ (fl : Floats) (upper : String → String) (tn : ℕ) where
  abbrev Row : Type 0
  Row = Finding fl.F

  -- An open finding of the tenant on the asset.
  abbrev counts : ℕ → Row → Bool
  counts a f = is_selected fl upper tn f && is_on f.vuln.asset_id a

  abbrev IsScored : Row → Type 0
  IsScored f = (s : ℤ) × (f.risk_exposure_score ≡ some s)

  -- No finding counts, or `m` is a score of one that does and is at least the score of each.
  abbrev pub Attained : ℕ → ℤ → List Row → Type 0
  Attained a m [] = ⊥
  Attained a m (f ∷ fs) = ((counts a f ≡ true) × (f.risk_exposure_score ≡ some m)) ⊎ Attained a m fs

  abbrev pub IsGreatest : ℕ → List Row → Option ℤ → Type 0
  IsGreatest a fs none = All (λ f. counts a f ≡ false) fs
  IsGreatest a fs (some m) =
      All (λ f. counts a f ≡ true → AtMost m f.risk_exposure_score) fs × Attained a m fs

  raise :
      (a : ℕ) (m n : ℤ) (fs : List Row)
      → All (λ f. counts a f ≡ true → AtMost m f.risk_exposure_score) fs
      → m ≤ℤ n
      → All (λ f. counts a f ≡ true → AtMost n f.risk_exposure_score) fs
  raise a m n fs h k =
      All-map (λ f. counts a f ≡ true → AtMost m f.risk_exposure_score)
        (λ f. counts a f ≡ true → AtMost n f.risk_exposure_score) fs
        (λ f at e. AtMost-trans m n f.risk_exposure_score (at e) k) h

  none_counts :
      (a : ℕ) (m : ℤ) (fs : List Row)
      → All (λ f. counts a f ≡ false) fs
      → All (λ f. counts a f ≡ true → AtMost m f.risk_exposure_score) fs
  none_counts a m fs h =
      All-map (λ f. counts a f ≡ false) (λ f. counts a f ≡ true → AtMost m f.risk_exposure_score) fs
        (λ f e e'. ground (arith, e, e')) h

  IsGreatest-skip :
      (a : ℕ) (f : Row) (fs : List Row) (r : Option ℤ)
      → counts a f ≡ false
      → IsGreatest a fs r
      → IsGreatest a (f ∷ fs) r
  IsGreatest-skip a f fs none e h = (e, h)
  IsGreatest-skip a f fs (some m) e h = ((λ e'. ground (arith, e, e'), h.0), inr h.1)

  max_score-right : (s m : ℤ) → leb_ℤ s m ≡ true → max_score (some s) (some m) ≡ some m
  max_score-right s m k = rw k refl

  max_score-left : (s m : ℤ) → leb_ℤ s m ≡ false → max_score (some s) (some m) ≡ some s
  max_score-left s m k = rw k refl

  selected-of-counts : (a : ℕ) (f : Row) → counts a f ≡ true → is_selected fl upper tn f ≡ true
  selected-of-counts a f e = ground (arith, e)

  rollup_score-take :
      (a : ℕ) (f : Row) (fs : List Row) (s : ℤ)
      → counts a f ≡ true
      → f.risk_exposure_score ≡ some s
      → rollup_score fl upper tn a (f ∷ fs) ≡ max_score (some s) (rollup_score fl upper tn a fs)
  unfolding rollup_score
  rollup_score-take a f fs s e q = rw e (ap (λ o. max_score o (rollup_score fl upper tn a fs)) q)

  rollup_score-skip :
      (a : ℕ) (f : Row) (fs : List Row)
      → counts a f ≡ false
      → rollup_score fl upper tn a (f ∷ fs) ≡ rollup_score fl upper tn a fs
  unfolding rollup_score
  rollup_score-skip a f fs e = rw e refl

  IsGreatest-take :
      (a : ℕ) (f : Row) (fs : List Row) (s : ℤ) (r : Option ℤ)
      → counts a f ≡ true
      → f.risk_exposure_score ≡ some s
      → IsGreatest a fs r
      → IsGreatest a (f ∷ fs) (max_score (some s) r)
  IsGreatest-take a f fs s none e q h =
      ((λ e'. rw q (omega arith), none_counts a s fs h), inl (e, q))
  IsGreatest-take a f fs s (some m) e q h = elim (Bool-cases (leb_ℤ s m)) [
    | inl k ↦
        subst (IsGreatest a (f ∷ fs)) (sym (max_score-right s m k))
          ((λ e'. rw q (ground (arith, k)), h.0), inr h.1)
    | inr k ↦
        subst (IsGreatest a (f ∷ fs)) (sym (max_score-left s m k))
          ((λ e'. rw q (omega arith), raise a m s fs h.0 (ground (arith, k))), inl (e, q))
  ]

  rollup_score-IsGreatest :
      (a : ℕ) (fs : List Row)
      → All (λ f. is_selected fl upper tn f ≡ true → IsScored f) fs
      → IsGreatest a fs (rollup_score fl upper tn a fs)
  unfolding rollup_score
  rollup_score-IsGreatest a [] h = tt
  rollup_score-IsGreatest a (f ∷ fs) h = elim (Bool-cases (counts a f)) [
    | inl e ↦
        let (s, q) = h.0 (selected-of-counts a f e) in
        subst (IsGreatest a (f ∷ fs)) (sym (rollup_score-take a f fs s e q)) (
          IsGreatest-take a f fs s (rollup_score fl upper tn a fs) e q
            (rollup_score-IsGreatest a fs h.1))
    | inr e ↦ subst (IsGreatest a (f ∷ fs)) (sym (rollup_score-skip a f fs e)) (
        IsGreatest-skip a f fs (rollup_score fl upper tn a fs) e (rollup_score-IsGreatest a fs h.1))
  ]

  module _ (t : Table) (assets : List Asset) where
    abbrev scored : List Row → List Row
    scored = update_where (is_selected fl upper tn) (score_row fl upper tn t assets)

    scored-IsScored :
        (fs : List Row) → All (λ f. is_selected fl upper tn f ≡ true → IsScored f) (scored fs)
    unfolding score_row
    scored-IsScored [] = tt
    scored-IsScored (f ∷ fs) = elim (Bool-cases (is_selected fl upper tn f)) [
      | inl e ↦ rw e (λ _. (_, refl), scored-IsScored fs)
      | inr e ↦ rw e (λ e'. ground (arith, e, e'), scored-IsScored fs)
    ]

    abbrev pub IsRolledUp : List Row → Asset → Type 0
    IsRolledUp fs a = a.tenant_id ≡ tn → IsGreatest a.id fs a.risk_exposure_score

    roll_up : List Row → Asset → Asset
    roll_up fs a = if a.tenant_id == tn then rollup_asset fl upper tn fs a else a

    roll_up-IsRolledUp :
        (fs : List Row) (a : Asset)
        → All (λ f. is_selected fl upper tn f ≡ true → IsScored f) fs
        → IsRolledUp fs (roll_up fs a)
    unfolding rollup_asset roll_up
    roll_up-IsRolledUp fs a h = elim (Bool-cases (a.tenant_id == tn)) [
      | inl e ↦ simp e (λ _. rollup_score-IsGreatest a.id fs h)
      | inr e ↦ simp e (λ k. ground (arith, e, k))
    ]

    rolled_up :
        (fs : List Row) (assets' : List Asset)
        → All (λ f. is_selected fl upper tn f ≡ true → IsScored f) fs
        → All
            (IsRolledUp fs)
            (update_where (λ a. a.tenant_id == tn) (rollup_asset fl upper tn fs) assets')
    unfolding roll_up
    rolled_up fs [] h = tt
    rolled_up fs (a ∷ rest) h = (roll_up-IsRolledUp fs a h, rolled_up fs rest h)

    -- After a recompute each asset of the tenant has the greatest of the scores of the tenant's
    -- OPEN and IN_PROGRESS findings on it, and NULL if it has no such finding.
    pub compute_finding_risk_scores-IsRolledUp :
        (findings : List Row)
        → let (findings', assets', _, _) =
            compute_finding_risk_scores fl upper tn t assets findings in
          All (IsRolledUp findings') assets'
    unfolding compute_finding_risk_scores
    compute_finding_risk_scores-IsRolledUp findings =
        rolled_up (scored findings) assets (scored-IsScored findings)
