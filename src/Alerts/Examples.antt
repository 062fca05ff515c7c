-- ===== src/Alerts/Examples.antt =====
-- A connector whose sync failed an hour ago, and again three hours after the alert.
use getvul.Prelude.{ℕ, ◌≡◌, String, true, false, none, some, List, [], ◌∷◌}
use getvul.Models.Samples.{finding}
use getvul.Alerts.{Notification, Tables, run_alert_checks}
use getvul.Alerts.Spaced.{IsSpaced, run_alert_checks-IsSpaced}
use getvul.Alerts.Again.{run_alert_checks-again}

abbrev as_text : ℕ → String
as_text n = "id"

abbrev tables : Tables
tables = record {
  tenants =
      record { id = 1; is_active = true; cutover_risk_exposure_scoring = false }
      ∷ record { id = 2; is_active = false; cutover_risk_exposure_scoring = false }
      ∷ [];
  vulns = finding 7 100 "NESSUS" "OPEN" ∷ [];
  connectors =
      record { id = 3; tenant_id = 1; is_enabled = true; last_sync_status = some "FAILED" } ∷ [];
  assets = record { id = 7; tenant_id = 1; risk_score = some 80; risk_exposure_score = none } ∷ [];
  snapshots =
      record { tenant_id = 1; asset_risk_scores = (7, 40) ∷ []; asset_risk_exposure_scores = [] }
      ∷ [];
}

abbrev old_alert : List Notification
old_alert =
    record {
      tenant_id = 1;
      severity = "medium";
      category = "sync_failure";
      resource_type = "connector";
      resource_id = "id";
      created_at = 100000;
    }
    ∷ []

run_alert_checks-IsSpaced_example : IsSpaced (run_alert_checks as_text 110800 tables old_alert).0
run_alert_checks-IsSpaced_example =
    run_alert_checks-IsSpaced 110800 as_text tables old_alert (tt, tt)

run_alert_checks-again_example :
    let once = run_alert_checks as_text 110800 tables old_alert in
    run_alert_checks as_text 110800 tables once.0 ≡ (once.0, 0)
run_alert_checks-again_example = run_alert_checks-again 110800 as_text tables old_alert
