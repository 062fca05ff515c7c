-- ===== src/Alerts.antt =====
-- backend/app/notifications/alerts.py: the periodic checks of every tenant, and the notifications that
-- they write. The texts of a notification and the mails are left out; `text_of` writes an id.
pub mod Spaced
pub mod Again
mod Examples
use getvul.Prelude.{
  ℕ, suc, ◌+◌, ◌-◌, ◌*◌, String, Bool, true, false, not, ◌&&◌, ◌||◌, Option, none, some, List, [],
  ◌∷◌, any, filter, map, ltb, leb, ◌==◌, str_eq, if◌then◌else◌,
}
use getvul.Models.{Vulnerability, is_open}

pub record Notification : Type 0 where
  pub tenant_id : ℕ
  pub severity : String
  pub category : String
  pub resource_type : String
  pub resource_id : String
  pub created_at : ℕ

-- The columns that the checks read.
pub record TenantRow : Type 0 where
  pub id : ℕ
  pub is_active : Bool
  pub cutover_risk_exposure_scoring : Bool

pub record ConnectorRow : Type 0 where
  pub id : ℕ
  pub tenant_id : ℕ
  pub is_enabled : Bool
  pub last_sync_status : Option String

pub record AssetScores : Type 0 where
  pub id : ℕ
  pub tenant_id : ℕ
  pub risk_score : Option ℕ
  pub risk_exposure_score : Option ℕ

-- Yesterday's `DailySnapshot` of a tenant: the scores of its assets by id.
pub record Snapshot : Type 0 where
  pub tenant_id : ℕ
  pub asset_risk_scores : List (ℕ × ℕ)
  pub asset_risk_exposure_scores : List (ℕ × ℕ)

pub record Tables : Type 0 where
  pub tenants : List TenantRow
  pub vulns : List Vulnerability
  pub connectors : List ConnectorRow
  pub assets : List AssetScores
  pub snapshots : List Snapshot

-- What one kind of check writes, and for how many hours it is not repeated.
pub record Kind : Type 0 where
  pub severity : String
  pub category : String
  pub resource_type : String
  pub hours : ℕ

abbrev new_critical_vuln : Kind
new_critical_vuln = record {
  severity = "critical";
  category = "new_critical_vuln";
  resource_type = "vulnerability";
  hours = 2;
}

abbrev sla_breach : Kind
sla_breach = record {
  severity = "high";
  category = "sla_breach";
  resource_type = "vulnerability";
  hours = 24;
}

abbrev sync_failure : Kind
sync_failure = record {
  severity = "medium";
  category = "sync_failure";
  resource_type = "connector";
  hours = 4;
}

abbrev risk_change : Kind
risk_change = record {
  severity = "high";
  category = "risk_change";
  resource_type = "asset";
  hours = 24;
}

unfoldable pub same_alert : Kind → ℕ → String → Notification → Bool
same_alert k tenant_id resource_id n =
    n.tenant_id == tenant_id
    && str_eq n.category k.category
    && str_eq n.resource_type k.resource_type
    && str_eq n.resource_id resource_id

unfoldable pub notification_exists : ℕ → Kind → ℕ → String → List Notification → Bool
notification_exists now k tenant_id resource_id notes =
    any (λ n. same_alert k tenant_id resource_id n && leb (now - k.hours * 3600) n.created_at) notes

abbrev pub notification : ℕ → Kind → ℕ → String → Notification
notification now k tenant_id resource_id = record {
  tenant_id = tenant_id;
  severity = k.severity;
  category = k.category;
  resource_type = k.resource_type;
  resource_id = resource_id;
  created_at = now;
}

-- `create_notification` and `alerts_created += 1`, unless there is one already.
unfoldable pub alert_one : ℕ → Kind → ℕ → String → List Notification × ℕ → List Notification × ℕ
alert_one now k tenant_id resource_id (notes, created) =
    if notification_exists now k tenant_id resource_id notes
    then (notes, created)
    else (notification now k tenant_id resource_id ∷ notes, suc created)

-- The loop of a check over the resources that it has found.
unfoldable pub alert_each :
    ℕ → Kind → ℕ → List String → List Notification × ℕ → List Notification × ℕ
alert_each now k tenant_id [] s = s
alert_each now k tenant_id (r ∷ rs) s =
    alert_each now k tenant_id rs (alert_one now k tenant_id r s)

module _ (text_of : ℕ → String) where
  -- `vuln.cve_id or str(vuln.id)`
  unfoldable pub resource_of : Option String → ℕ → String
  resource_of none i = text_of i
  resource_of (some c) i = if str_eq c "" then text_of i else c

  abbrev vuln_resource : Vulnerability → String
  vuln_resource v = resource_of v.cve_id v.id

  abbrev at_or_after : ℕ → Option ℕ → Bool
  at_or_after t none = false
  at_or_after t (some d) = leb t d

  unfoldable pub new_criticals : ℕ → ℕ → List Vulnerability → List String
  new_criticals now tenant_id vulns = map vuln_resource (
      filter
        (λ v.
          v.tenant_id == tenant_id
          && str_eq v.severity "CRITICAL"
          && at_or_after (now - 7200) v.first_detected_at)
        vulns)

  -- Due within 24 hours, and not yet overdue.
  unfoldable pub is_due_soon : ℕ → Option ℕ → Bool
  is_due_soon now none = false
  is_due_soon now (some due) = leb due (now + 86400) && ltb now due

  unfoldable pub due_soon : ℕ → ℕ → List Vulnerability → List String
  due_soon now tenant_id vulns = map vuln_resource (
      filter (λ v. v.tenant_id == tenant_id && is_due_soon now v.sla_due_at && is_open v.status)
        vulns)

  unfoldable pub is_failure : Option String → Bool
  is_failure none = false
  is_failure (some s) = str_eq s "error" || str_eq s "FAILED" || str_eq s "failed"

  unfoldable pub failed_syncs : ℕ → List ConnectorRow → List String
  failed_syncs tenant_id connectors =
      map (λ (c : ConnectorRow). text_of c.id)
        (filter (λ c. c.tenant_id == tenant_id && c.is_enabled && is_failure c.last_sync_status)
          connectors)

  unfoldable pub old_score : ℕ → List (ℕ × ℕ) → Option ℕ
  old_score i [] = none
  old_score i ((j, n) ∷ rest) = if j == i then some n else old_score i rest

  -- A rise of 20 points or more; an asset without a score on either day is passed over.
  unfoldable pub is_spike : Option ℕ → Option ℕ → Bool
  is_spike (some old) (some new) = leb (old + 20) new
  is_spike _ _ = false

  unfoldable pub active_score : Bool → AssetScores → Option ℕ
  active_score true a = a.risk_exposure_score
  active_score false a = a.risk_score

  unfoldable pub active_snapshot : Bool → Snapshot → List (ℕ × ℕ)
  active_snapshot true s = s.asset_risk_exposure_scores
  active_snapshot false s = s.asset_risk_scores

  unfoldable pub yesterday : Bool → ℕ → List Snapshot → List (ℕ × ℕ)
  yesterday cutover tenant_id [] = []
  yesterday cutover tenant_id (s ∷ ss) =
      if s.tenant_id == tenant_id then active_snapshot cutover s else yesterday cutover tenant_id ss

  -- Old against old or new against new score, as the tenant's cutover says.
  unfoldable pub spikes : Bool → ℕ → List Snapshot → List AssetScores → List String
  spikes cutover tenant_id snapshots assets =
      map (λ (a : AssetScores). text_of a.id)
        (filter
          (λ a.
            a.tenant_id == tenant_id
            && is_spike (old_score a.id (yesterday cutover tenant_id snapshots))
                (active_score cutover a))
          assets)

  unfoldable pub check_tenant :
      ℕ → Tables → TenantRow → List Notification × ℕ → List Notification × ℕ
  check_tenant now db t s =
      alert_each now risk_change t.id
        (spikes t.cutover_risk_exposure_scoring t.id db.snapshots db.assets)
        (alert_each now sync_failure t.id (failed_syncs t.id db.connectors) (
          alert_each now sla_breach t.id (due_soon now t.id db.vulns)
            (alert_each now new_critical_vuln t.id (new_criticals now t.id db.vulns) s)))

  -- `Tenant.is_active.is_(True)`
  unfoldable pub check_active :
      ℕ → Tables → TenantRow → Bool → List Notification × ℕ → List Notification × ℕ
  check_active now db t true s = check_tenant now db t s
  check_active now db t false s = s

  unfoldable pub check_tenants :
      ℕ → Tables → List TenantRow → List Notification × ℕ → List Notification × ℕ
  check_tenants now db [] s = s
  check_tenants now db (t ∷ ts) s = check_tenants now db ts (check_active now db t t.is_active s)

  unfoldable pub run_alert_checks : ℕ → Tables → List Notification → List Notification × ℕ
  run_alert_checks now db notes = check_tenants now db db.tenants (notes, 0)
