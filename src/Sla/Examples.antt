-- ===== src/Sla/Examples.antt =====
-- Three findings of one tenant: overdue, dated and settled.
use getvul.Prelude.{◌≡◌, ◌≤◌, refl, true, some, List, [], ◌∷◌, All, pos, count_where}
use getvul.Models.{Vulnerability}
use getvul.Models.Samples.{finding}
use getvul.Sla.{get_sla_metrics, check_sla_breaches}
use getvul.Sla.Breach.{AllChecked, check_sla_breaches-settles}
use getvul.Sla.Counts.{IsDue, is_within_sla, get_sla_metrics-split}

abbrev rows : List Vulnerability
rows =
    record (finding 1 10 "WIZ" "OPEN") { sla_due_at = some 500 }
    ∷ record (finding 2 10 "WIZ" "IN_PROGRESS") { sla_due_at = some 5000000 }
    ∷ record (finding 3 10 "WIZ" "REMEDIATED") { sla_due_at = some 500; sla_breached = true }
    ∷ []

check_sla_breaches-settles_example :
    let after = (check_sla_breaches 1 1000 rows).0 in
    AllChecked 1 1000 rows after × (check_sla_breaches 1 1000 after ≡ (after, 0, 0))
check_sla_breaches-settles_example = check_sla_breaches-settles 1 1000 rows

rows-IsDue : All IsDue rows
rows-IsDue = (λ e. cc, (λ e. cc, (λ e. refl, tt)))

get_sla_metrics-split_example :
    let m = get_sla_metrics 1 1000 rows in
    (m.within_sla ≡ pos (count_where (is_within_sla 1 1000) rows))
    × (m.remediated_within_sla ≤ m.remediated_total)
get_sla_metrics-split_example = get_sla_metrics-split 1 1000 rows rows-IsDue
