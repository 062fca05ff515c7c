-- ===== src/Sla.antt =====
-- backend/app/vulnerabilities/sla_service.py: due dates, breaches and the compliance counts.
-- Time is in seconds; a configured number of days is a natural number.
pub mod Due
pub mod Breach
pub mod Counts
mod Examples
use getvul.Prelude.{
  ℕ, ◌+◌, ◌*◌, ◌-◌, String, Bool, true, false, not, ◌&&◌, ◌||◌, Option, none, some, List, [], ◌∷◌,
  ℤ, sub_ℕ, update_where, count_where, is_some, ltb, leb, ◌==◌, str_eq, if◌then◌else◌,
}
use getvul.Models.{Vulnerability, is_open}

abbrev pub Days : Type 0
Days = List (String × ℕ)

pub record Tenant : Type 0 where
  pub sla_config : Option (Option Days)  -- the config, and its "days" entry

-- `d.get(k)`
unfoldable pub days_of : String → Days → Option ℕ
days_of k [] = none
days_of k ((j, n) ∷ d) = if str_eq j k then some n else days_of k d

abbrev pub get_or_default : Option ℕ → ℕ → ℕ
get_or_default none d = d
get_or_default (some n) d = n

unfoldable pub default_sla_days : Days
default_sla_days =
    ("CRITICAL", 7) ∷ ("HIGH", 30) ∷ ("MEDIUM", 90) ∷ ("LOW", 180) ∷ ("INFO", 365) ∷ []

unfoldable pub custom_sla_days : Days → Days
unfolding days_of
custom_sla_days custom =
    ("CRITICAL", get_or_default (days_of "CRITICAL" custom) 7)
    ∷ ("HIGH", get_or_default (days_of "HIGH" custom) 30)
    ∷ ("MEDIUM", get_or_default (days_of "MEDIUM" custom) 90)
    ∷ ("LOW", get_or_default (days_of "LOW" custom) 180)
    ∷ ("INFO", get_or_default (days_of "INFO" custom) 365)
    ∷ []

-- An absent tenant, config or entry, and an empty entry, give the defaults.
unfoldable pub days_or_default : Option (Option Days) → Days
unfolding default_sla_days custom_sla_days
days_or_default (some (some (d ∷ ds))) = custom_sla_days (d ∷ ds)
days_or_default _ = default_sla_days

unfoldable pub get_sla_days : Option Tenant → Days
unfolding days_or_default
get_sla_days none = days_or_default none
get_sla_days (some t) = days_or_default t.sla_config

-- The rows that a due date is computed for.
unfoldable pub is_dated : ℕ → Vulnerability → Bool
is_dated tenant_id v = v.tenant_id == tenant_id && is_open v.status && is_some v.first_detected_at

-- `first_detected_at + timedelta(days=days)`
unfoldable pub due_after : ℕ → Option ℕ → Option ℕ
due_after days none = none
due_after days (some t) = some (t + days * 86400)

unfoldable pub set_due : ℕ → Vulnerability → Vulnerability
unfolding due_after
set_due days v = record v { sla_due_at = due_after days v.first_detected_at }

unfoldable pub needs_backfill : ℕ → String → Vulnerability → Bool
unfolding is_dated
needs_backfill tenant_id severity v =
    is_dated tenant_id v && str_eq v.severity severity && not (is_some v.sla_due_at)

unfoldable pub needs_recalculation : ℕ → String → Vulnerability → Bool
unfolding is_dated
needs_recalculation tenant_id severity v = is_dated tenant_id v && str_eq v.severity severity

-- The loops over `sla_days.items()`: one statement for each severity, and the sum of the counts.
pub backfill_days : ℕ → Days → List Vulnerability → List Vulnerability × ℕ
unfolding needs_backfill set_due
backfill_days tenant_id [] rows = (rows, 0)
backfill_days tenant_id ((severity, days) ∷ rest) rows =
    let hit = needs_backfill tenant_id severity in
    let (rows', updated) = backfill_days tenant_id rest (update_where hit (set_due days) rows) in
    (rows', count_where hit rows + updated)

pub recalculate_days : ℕ → Days → List Vulnerability → List Vulnerability × ℕ
unfolding needs_recalculation set_due
recalculate_days tenant_id [] rows = (rows, 0)
recalculate_days tenant_id ((severity, days) ∷ rest) rows =
    let hit = needs_recalculation tenant_id severity in
    let (rows', updated) = recalculate_days tenant_id rest (update_where hit (set_due days) rows) in
    (rows', count_where hit rows + updated)

pub backfill_sla_due_dates : ℕ → Option Tenant → List Vulnerability → List Vulnerability × ℕ
unfolding backfill_days get_sla_days
backfill_sla_due_dates tenant_id tenant rows = backfill_days tenant_id (get_sla_days tenant) rows

pub recalculate_sla_due_dates : ℕ → Option Tenant → List Vulnerability → List Vulnerability × ℕ
unfolding recalculate_days get_sla_days
recalculate_sla_due_dates tenant_id tenant rows =
    recalculate_days tenant_id (get_sla_days tenant) rows

unfoldable pub is_before : Option ℕ → ℕ → Bool
is_before none now = false
is_before (some due) now = ltb due now

unfoldable pub is_newly_breached : ℕ → ℕ → Vulnerability → Bool
is_newly_breached tenant_id now v =
    v.tenant_id == tenant_id && is_open v.status && is_before v.sla_due_at now && not v.sla_breached

-- `status.in_(["REMEDIATED", "SUPPRESSED", "FALSE_POSITIVE"])`
unfoldable pub is_settled : String → Bool
is_settled status =
    str_eq status "REMEDIATED" || str_eq status "SUPPRESSED" || str_eq status "FALSE_POSITIVE"

unfoldable pub is_stale_breach : ℕ → Vulnerability → Bool
is_stale_breach tenant_id v = v.tenant_id == tenant_id && v.sla_breached && is_settled v.status

unfoldable pub set_breached : Bool → Vulnerability → Vulnerability
set_breached b v = record v { sla_breached = b }

-- Both statements, with (newly_breached, cleaned_up).
pub check_sla_breaches : ℕ → ℕ → List Vulnerability → List Vulnerability × ℕ × ℕ
unfolding is_newly_breached is_stale_breach set_breached
check_sla_breaches tenant_id now rows =
    let marked = update_where (is_newly_breached tenant_id now) (set_breached true) rows in
    (
      update_where (is_stale_breach tenant_id) (set_breached false) marked,
      count_where (is_newly_breached tenant_id now) rows,
      count_where (is_stale_breach tenant_id) marked,
    )

unfoldable pub is_tracked : ℕ → Vulnerability → Bool
is_tracked tenant_id v = v.tenant_id == tenant_id && is_open v.status && is_some v.sla_due_at

unfoldable pub is_open_breach : ℕ → Vulnerability → Bool
is_open_breach tenant_id v = v.tenant_id == tenant_id && is_open v.status && v.sla_breached

-- now < due <= now + 72 hours
unfoldable pub is_within : ℕ → Option ℕ → Bool
is_within now none = false
is_within now (some due) = leb due (now + 259200) && ltb now due

unfoldable pub is_at_risk : ℕ → ℕ → Vulnerability → Bool
unfolding is_within
is_at_risk tenant_id now v =
    v.tenant_id == tenant_id && is_open v.status && is_within now v.sla_due_at && not v.sla_breached

-- remediated_at >= now - 90 days
unfoldable pub is_recent : ℕ → Option ℕ → Bool
is_recent now none = false
is_recent now (some at) = leb now (at + 7776000)

unfoldable pub is_remediated : ℕ → ℕ → Vulnerability → Bool
unfolding is_recent
is_remediated tenant_id now v =
    v.tenant_id == tenant_id
    && str_eq v.status "REMEDIATED"
    && is_recent now v.remediated_at
    && is_some v.sla_due_at

unfoldable pub is_in_time : Option ℕ → Option ℕ → Bool
is_in_time (some at) (some due) = leb at due
is_in_time _ _ = false

unfoldable pub is_remediated_in_time : ℕ → ℕ → Vulnerability → Bool
unfolding is_remediated is_in_time
is_remediated_in_time tenant_id now v =
    is_remediated tenant_id now v && is_in_time v.remediated_at v.sla_due_at

pub record Metrics : Type 0 where
  pub open_with_sla : ℕ
  pub breached : ℕ
  pub at_risk : ℕ
  pub within_sla : ℤ
  pub remediated_total : ℕ
  pub remediated_within_sla : ℕ

-- The counts of the report; `within_sla` is their signed difference.
pub get_sla_metrics : ℕ → ℕ → List Vulnerability → Metrics
unfolding is_tracked is_open_breach is_at_risk is_remediated is_remediated_in_time
get_sla_metrics tenant_id now rows =
    let open_with_sla = count_where (is_tracked tenant_id) rows in
    let breached = count_where (is_open_breach tenant_id) rows in
    let at_risk = count_where (is_at_risk tenant_id now) rows in
    record {
      open_with_sla = open_with_sla;
      breached = breached;
      at_risk = at_risk;
      within_sla = sub_ℕ open_with_sla (breached + at_risk);
      remediated_total = count_where (is_remediated tenant_id now) rows;
      remediated_within_sla = count_where (is_remediated_in_time tenant_id now) rows;
    }
