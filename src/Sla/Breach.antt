-- ===== src/Sla/Breach.antt =====
-- The breach flags after `check_sla_breaches`.
use getvul.Prelude.{
  ◌⊎◌, ◌≢◌, ◌≤◌, ◌<◌, Option, none, some, Bool, ℕ, String, ◌≡◌, refl, inl, inr, true, false, List,
  [], ◌∷◌, All, arith, Bool-cases, str_eq, eq_iff, if◌then◌else◌,
}
use getvul.Models.{Vulnerability, is_open}
use getvul.Sla.{
  is_before, is_settled, is_newly_breached, is_stale_breach, set_breached, check_sla_breaches,
}

pub open-not_settled : (status : String) → is_open status ≡ true → is_settled status ≡ false
unfolding is_open is_settled
open-not_settled s h = elim (Bool-cases (str_eq s "OPEN")) [
  | inl e ↦ rw ((eq_iff s "OPEN").0 e) refl
  | inr e ↦ rw ((eq_iff s "IN_PROGRESS").0 (ground arith)) refl
]

-- One row's way through both statements.
abbrev checked : ℕ → ℕ → Vulnerability → Vulnerability
checked tn now v =
    let marked = if is_newly_breached tn now v then set_breached true v else v in
    if is_stale_breach tn marked then set_breached false marked else marked

-- What a check leaves of a row `v`, as `w`: the flag of an open row past its due date is set, that
-- of any other open row is kept, that of a settled row is cleared, and nothing else changes.
pub record IsChecked (tn now : ℕ) (v w : Vulnerability) : Type 0 where
  pub overdue :
      (due : ℕ)
      → v.tenant_id ≡ tn
      → (v.status ≡ "OPEN") ⊎ (v.status ≡ "IN_PROGRESS")
      → v.sla_due_at ≡ some due
      → due < now
      → w.sla_breached ≡ true
  pub in_time :
      (v.status ≡ "OPEN") ⊎ (v.status ≡ "IN_PROGRESS")
      → ((due : ℕ) → v.sla_due_at ≡ some due → now ≤ due)
      → w.sla_breached ≡ v.sla_breached
  pub settled :
      v.tenant_id ≡ tn
      → (v.status ≡ "REMEDIATED") ⊎ (v.status ≡ "SUPPRESSED") ⊎ (v.status ≡ "FALSE_POSITIVE")
      → w.sla_breached ≡ false
  pub foreign : v.tenant_id ≢ tn → w ≡ v
  pub kept : w ≡ record v { sla_breached = w.sla_breached }

-- Row by row.
abbrev pub AllChecked : ℕ → ℕ → List Vulnerability → List Vulnerability → Type 0
AllChecked tn now [] [] = Unit
AllChecked tn now (v ∷ vs) (w ∷ ws) = IsChecked tn now v w × AllChecked tn now vs ws
AllChecked tn now _ _ = ⊥

is_open_of :
    (s : String) → (s ≡ "OPEN") ⊎ (s ≡ "IN_PROGRESS") → (is_open s ≡ true) × (is_settled s ≡ false)
unfolding is_open is_settled
is_open_of s (inl e) = (rw e refl, rw e refl)
is_open_of s (inr e) = (rw e refl, rw e refl)

is_settled_of :
    (s : String)
    → (s ≡ "REMEDIATED") ⊎ (s ≡ "SUPPRESSED") ⊎ (s ≡ "FALSE_POSITIVE")
    → is_settled s ≡ true
unfolding is_settled
is_settled_of s (inl e) = rw e refl
is_settled_of s (inr (inl e)) = rw e refl
is_settled_of s (inr (inr e)) = rw e refl

not_before :
    (o : Option ℕ) (now : ℕ) → ((due : ℕ) → o ≡ some due → now ≤ due) → is_before o now ≡ false
unfolding is_before
not_before none now h = refl
not_before (some due) now h = ground (arith, h due refl)

flag_kept :
    (b c : Bool) (v : Vulnerability)
    → let w =
        (let m = if b then set_breached true v else v in if c then set_breached false m else m) in
      w ≡ record v { sla_breached = w.sla_breached }
unfolding set_breached
flag_kept true true v = refl
flag_kept true false v = refl
flag_kept false true v = refl
flag_kept false false v = refl

checked-IsChecked : (tn now : ℕ) (v : Vulnerability) → IsChecked tn now v (checked tn now v)
unfolding is_newly_breached is_stale_breach set_breached is_before
checked-IsChecked tn now v = record {
  overdue = λ due t o d lt.
      let p = is_open_of v.status o in
      let q : is_before v.sla_due_at now ≡ true = rw d (ground (arith, lt)) in
      ground (arith, t, p.0, p.1, q);
  in_time = λ o h.
      let p = is_open_of v.status o in
      let q = not_before v.sla_due_at now h in ground (arith, p.0, p.1, q);
  settled =
      λ t o. let p = is_settled_of v.status o in ground (arith, t, p, open-not_settled v.status);
  foreign = λ n. ground (arith, n);
  kept = flag_kept (is_newly_breached tn now v) _ v;
}

pub check_sla_breaches-AllChecked :
    (tn now : ℕ) (rows : List Vulnerability)
    → AllChecked tn now rows (check_sla_breaches tn now rows).0
unfolding check_sla_breaches
check_sla_breaches-AllChecked tn now [] = tt
check_sla_breaches-AllChecked tn now (v ∷ rows) =
    (checked-IsChecked tn now v, check_sla_breaches-AllChecked tn now rows)

-- A row that needs neither statement.
abbrev IsDone : ℕ → ℕ → Vulnerability → Type 0
IsDone tn now v = (is_newly_breached tn now v ≡ false) × (is_stale_breach tn v ≡ false)

checked-IsDone : (tn now : ℕ) (v : Vulnerability) → IsDone tn now (checked tn now v)
unfolding is_newly_breached is_stale_breach set_breached
checked-IsDone tn now v = ground (arith, open-not_settled v.status)

check_sla_breaches-IsDone :
    (tn now : ℕ) (rows : List Vulnerability)
    → All (IsDone tn now) (check_sla_breaches tn now rows).0
unfolding check_sla_breaches
check_sla_breaches-IsDone tn now [] = tt
check_sla_breaches-IsDone tn now (v ∷ rows) =
    (checked-IsDone tn now v, check_sla_breaches-IsDone tn now rows)

check-fixed :
    (tn now : ℕ) (rows : List Vulnerability)
    → All (IsDone tn now) rows
    → check_sla_breaches tn now rows ≡ (rows, 0, 0)
unfolding check_sla_breaches
check-fixed tn now [] h = refl
check-fixed tn now (v ∷ rows) h = ground (arith, h.0.0, h.0.1, check-fixed tn now rows h.1)

-- A check flags each of the tenant's open rows whose due date is before the clock, keeps the flag
-- of every other open row, clears that of the remediated, suppressed and false-positive ones, and
-- changes no other column and no other tenant's row; a second check at the same time changes and
-- counts nothing.
pub check_sla_breaches-settles :
    (tn now : ℕ) (rows : List Vulnerability)
    → let after = (check_sla_breaches tn now rows).0 in
      AllChecked tn now rows after × (check_sla_breaches tn now after ≡ (after, 0, 0))
check_sla_breaches-settles tn now rows = (
  check_sla_breaches-AllChecked tn now rows,
  check-fixed tn now (check_sla_breaches tn now rows).0 (check_sla_breaches-IsDone tn now rows),
)
