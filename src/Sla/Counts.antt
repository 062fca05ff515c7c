-- ===== src/Sla/Counts.antt =====
-- The counts of the SLA report, for rows on which only a dated row is flagged.
use getvul.Prelude.{
  ℕ, ◌+◌, ◌≤◌, ◌≡◌, inl, inr, Bool, true, false, not, ◌&&◌, Option, List, [], ◌∷◌, All, arith,
  update_where, count_where, pos, is_some, Bool-cases,
}
use getvul.Models.{Vulnerability}
use getvul.Sla.{
  Tenant, Days, is_before, is_dated, set_due, is_newly_breached, is_stale_breach, set_breached,
  check_sla_breaches, needs_backfill, backfill_days, backfill_sla_due_dates, needs_recalculation,
  recalculate_days, recalculate_sla_due_dates, is_tracked, is_open_breach, is_at_risk, is_within,
  is_remediated, is_remediated_in_time, get_sla_metrics, get_sla_days,
}

-- A flagged row has a due date.
abbrev pub IsDue : Vulnerability → Type 0
IsDue v = v.sla_breached ≡ true → is_some v.sla_due_at ≡ true

-- Tracked, and neither breached nor at risk.
abbrev pub is_within_sla : ℕ → ℕ → Vulnerability → Bool
is_within_sla tn now v = is_tracked tn v && not v.sla_breached && not (is_at_risk tn now v)

tracked-split :
    (tn now : ℕ) (rows : List Vulnerability)
    → All IsDue rows
    → count_where (is_tracked tn) rows
      ≡ count_where (is_open_breach tn) rows
        + count_where (is_at_risk tn now) rows
        + count_where (is_within_sla tn now) rows
unfolding is_tracked is_open_breach is_at_risk is_within
tracked-split tn now [] h = omega arith
tracked-split tn now (v ∷ rows) h = ground (arith, tracked-split tn now rows h.1, h.0)

remediated-le :
    (tn now : ℕ) (rows : List Vulnerability)
    → count_where (is_remediated_in_time tn now) rows ≤ count_where (is_remediated tn now) rows
unfolding is_remediated_in_time
remediated-le tn now [] = omega arith
remediated-le tn now (v ∷ rows) = ground (arith, remediated-le tn now rows)

-- When only dated rows are flagged, `within_sla` is the number of tracked rows that are neither
-- breached nor at risk, so it is not negative, and no more rows were remediated in time than were
-- remediated.
pub get_sla_metrics-split :
    (tn now : ℕ) (rows : List Vulnerability)
    → All IsDue rows
    → let m = get_sla_metrics tn now rows in
      (m.within_sla ≡ pos (count_where (is_within_sla tn now) rows))
      × (m.remediated_within_sla ≤ m.remediated_total)
unfolding get_sla_metrics
get_sla_metrics-split tn now rows h =
    (ground (arith, tracked-split tn now rows h), remediated-le tn now rows)

update_where-IsDue :
    (p : Vulnerability → Bool) (f : Vulnerability → Vulnerability) (rows : List Vulnerability)
    → ((v : Vulnerability) → p v ≡ true → IsDue v → IsDue (f v))
    → All IsDue rows
    → All IsDue (update_where p f rows)
update_where-IsDue p f [] k h = tt
update_where-IsDue p f (v ∷ rows) k h = elim (Bool-cases (p v)) [
  | inl e ↦ (rw e (k v e h.0), update_where-IsDue p f rows k h.1)
  | inr e ↦ (rw e h.0, update_where-IsDue p f rows k h.1)
]

check-IsDue :
    (tn now : ℕ) (rows : List Vulnerability)
    → All IsDue rows
    → All IsDue (check_sla_breaches tn now rows).0
unfolding check_sla_breaches is_before
check-IsDue tn now rows h =
    update_where-IsDue (is_stale_breach tn) (set_breached false) _ (λ v p d. ground arith)
      (update_where-IsDue (is_newly_breached tn now) (set_breached true) rows
        (λ v p d. ground arith) h)

backfill-IsDue :
    (tn : ℕ) (cfg : Days) (rows : List Vulnerability)
    → All IsDue rows
    → All IsDue (backfill_days tn cfg rows).0
unfolding backfill_days
backfill-IsDue tn [] rows h = h
backfill-IsDue tn ((s, days) ∷ cfg) rows h =
    backfill-IsDue tn cfg (update_where (needs_backfill tn s) (set_due days) rows)
      (update_where-IsDue (needs_backfill tn s) (set_due days) rows (λ v p d. ground arith) h)

recalculate-IsDue :
    (tn : ℕ) (cfg : Days) (rows : List Vulnerability)
    → All IsDue rows
    → All IsDue (recalculate_days tn cfg rows).0
unfolding recalculate_days is_dated
recalculate-IsDue tn [] rows h = h
recalculate-IsDue tn ((s, days) ∷ cfg) rows h =
    recalculate-IsDue tn cfg (update_where (needs_recalculation tn s) (set_due days) rows)
      (update_where-IsDue (needs_recalculation tn s) (set_due days) rows (λ v p d. ground arith) h)

-- The breach check, the backfill and the recalculation keep it that only dated rows are flagged.
pub update-IsDue :
    (tn now : ℕ) (tenant : Option Tenant) (rows : List Vulnerability)
    → All IsDue rows
    → All IsDue (check_sla_breaches tn now rows).0
      × All IsDue (backfill_sla_due_dates tn tenant rows).0
      × All IsDue (recalculate_sla_due_dates tn tenant rows).0
unfolding backfill_sla_due_dates recalculate_sla_due_dates
update-IsDue tn now tenant rows h = (
  check-IsDue tn now rows h,
  backfill-IsDue tn (get_sla_days tenant) rows h,
  recalculate-IsDue tn (get_sla_days tenant) rows h,
)
