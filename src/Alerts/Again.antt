-- ===== src/Alerts/Again.antt =====
-- A round of checks that is repeated at once.
use getvul.Prelude.{
  ℕ, ◌≡◌, refl, ap, ◌∙◌, String, Bool, true, false, List, [], ◌∷◌, All, All-map, arith, ==_refl,
  eq_refl, Bool-cases, inl, inr,
}
use getvul.Alerts.{
  Notification, TenantRow, Tables, Kind, same_alert, notification_exists, notification, alert_one,
  alert_each, check_tenant, check_active, check_tenants, run_alert_checks, new_critical_vuln,
  sla_breach, sync_failure, risk_change, new_criticals, due_soon, failed_syncs, spikes,
}

module _ (now : ℕ) where
  abbrev Raised : Kind → ℕ → List String → List Notification → Type 0
  Raised k tn rs notes = All (λ r. notification_exists now k tn r notes ≡ true) rs

  more-kept :
      (j : Kind) (un : ℕ) (q : String) (n : Notification) (notes : List Notification)
      → notification_exists now j un q notes ≡ true
      → notification_exists now j un q (n ∷ notes) ≡ true
  unfolding notification_exists
  more-kept j un q n notes h = ground arith

  new-exists :
      (k : Kind) (tn : ℕ) (r : String) (notes : List Notification)
      → notification_exists now k tn r (notification now k tn r ∷ notes) ≡ true
  unfolding notification_exists same_alert
  new-exists k tn r notes =
      ground (arith, ==_refl tn, eq_refl k.category, eq_refl k.resource_type, eq_refl r)

  -- An alert that is there stays there.
  one-kept :
      (k j : Kind) (tn un : ℕ) (r q : String) (s : List Notification × ℕ)
      → notification_exists now j un q s.0 ≡ true
      → notification_exists now j un q (alert_one now k tn r s).0 ≡ true
  unfolding alert_one
  one-kept k j tn un r q (notes, c) h = elim (Bool-cases (notification_exists now k tn r notes)) [
    | inl e ↦ rw e h
    | inr e ↦ rw e (more-kept j un q _ notes h)
  ]

  each-kept :
      (k j : Kind) (tn un : ℕ) (rs : List String) (q : String) (s : List Notification × ℕ)
      → notification_exists now j un q s.0 ≡ true
      → notification_exists now j un q (alert_each now k tn rs s).0 ≡ true
  unfolding alert_each
  each-kept k j tn un [] q s h = h
  each-kept k j tn un (r ∷ rs) q s h = each-kept k j tn un rs q _ (one-kept k j tn un r q s h)

  one-raises :
      (k : Kind) (tn : ℕ) (r : String) (s : List Notification × ℕ)
      → notification_exists now k tn r (alert_one now k tn r s).0 ≡ true
  unfolding alert_one
  one-raises k tn r (notes, c) = elim (Bool-cases (notification_exists now k tn r notes)) [
    | inl e ↦ rw (e, e) refl
    | inr e ↦ rw e (new-exists k tn r notes)
  ]

  each-Raised :
      (k : Kind) (tn : ℕ) (rs : List String) (s : List Notification × ℕ)
      → Raised k tn rs (alert_each now k tn rs s).0
  unfolding alert_each
  each-Raised k tn [] s = tt
  each-Raised k tn (r ∷ rs) s = (
    each-kept k k tn tn rs r _ (one-raises k tn r s),
    each-Raised k tn rs (alert_one now k tn r s),
  )

  -- Nothing is left to raise.
  alert_each_settled :
      (k : Kind) (tn : ℕ) (rs : List String) (notes : List Notification) (c : ℕ)
      → Raised k tn rs notes
      → alert_each now k tn rs (notes, c) ≡ (notes, c)
  unfolding alert_each alert_one
  alert_each_settled k tn [] notes c h = refl
  alert_each_settled k tn (r ∷ rs) notes c h = rw h.0 (alert_each_settled k tn rs notes c h.1)

  Raised-each :
      (k j : Kind) (tn un : ℕ) (rs qs : List String) (s : List Notification × ℕ)
      → Raised j un qs s.0
      → Raised j un qs (alert_each now k tn rs s).0
  Raised-each k j tn un rs qs s h = All-map _ _ qs (λ q. each-kept k j tn un rs q s) h

  module _ (text_of : ℕ → String) (db : Tables) where
    -- The four checks of a tenant have nothing left to raise.
    record Idle (t : TenantRow) (notes : List Notification) : Type 0 where
      criticals : Raised new_critical_vuln t.id (new_criticals text_of now t.id db.vulns) notes
      deadlines : Raised sla_breach t.id (due_soon text_of now t.id db.vulns) notes
      syncs : Raised sync_failure t.id (failed_syncs text_of t.id db.connectors) notes
      risks :
          Raised risk_change t.id
            (spikes text_of t.cutover_risk_exposure_scoring t.id db.snapshots db.assets)
            notes

    tenant-Idle :
        (t : TenantRow) (s : List Notification × ℕ) → Idle t (check_tenant text_of now db t s).0
    unfolding check_tenant
    tenant-Idle t s = record {
      criticals = Raised-each risk_change new_critical_vuln t.id t.id _ _ _ (
          Raised-each sync_failure new_critical_vuln t.id t.id _ _ _ (
            Raised-each sla_breach new_critical_vuln t.id t.id _ _ _
              (each-Raised new_critical_vuln t.id _ s)));
      deadlines =
          Raised-each risk_change sla_breach t.id t.id _ _ _
            (Raised-each sync_failure sla_breach t.id t.id _ _ _ (each-Raised sla_breach t.id _ _));
      syncs =
          Raised-each risk_change sync_failure t.id t.id _ _ _ (each-Raised sync_failure t.id _ _);
      risks = each-Raised risk_change t.id _ _;
    }

    Raised-tenant :
        (t : TenantRow) (j : Kind) (un : ℕ) (qs : List String) (s : List Notification × ℕ)
        → Raised j un qs s.0
        → Raised j un qs (check_tenant text_of now db t s).0
    unfolding check_tenant
    Raised-tenant t j un qs s h = Raised-each risk_change j t.id un _ qs _ (
        Raised-each sync_failure j t.id un _ qs _ (
          Raised-each sla_breach j t.id un _ qs _
            (Raised-each new_critical_vuln j t.id un _ qs s h)))

    Raised-active :
        (t : TenantRow) (j : Kind) (un : ℕ) (qs : List String) (b : Bool)
        (s : List Notification × ℕ)
        → Raised j un qs s.0
        → Raised j un qs (check_active text_of now db t b s).0
    unfolding check_active
    Raised-active t j un qs true s h = Raised-tenant t j un qs s h
    Raised-active t j un qs false s h = h

    Raised-tenants :
        (ts : List TenantRow) (j : Kind) (un : ℕ) (qs : List String) (s : List Notification × ℕ)
        → Raised j un qs s.0
        → Raised j un qs (check_tenants text_of now db ts s).0
    unfolding check_tenants
    Raised-tenants [] j un qs s h = h
    Raised-tenants (t ∷ ts) j un qs s h =
        Raised-tenants ts j un qs _ (Raised-active t j un qs t.is_active s h)

    Idle-tenants :
        (ts : List TenantRow) (t : TenantRow) (s : List Notification × ℕ)
        → Idle t s.0
        → Idle t (check_tenants text_of now db ts s).0
    Idle-tenants ts t s h = record {
      criticals = Raised-tenants ts new_critical_vuln t.id _ s h.criticals;
      deadlines = Raised-tenants ts sla_breach t.id _ s h.deadlines;
      syncs = Raised-tenants ts sync_failure t.id _ s h.syncs;
      risks = Raised-tenants ts risk_change t.id _ s h.risks;
    }

    -- The same for an active tenant; an inactive one is passed over.
    abbrev IdleIf : Bool → TenantRow → List Notification → Type 0
    IdleIf true t notes = Idle t notes
    IdleIf false t notes = Unit

    active-IdleIf :
        (t : TenantRow) (b : Bool) (ts : List TenantRow) (s : List Notification × ℕ)
        → IdleIf b t (check_tenants text_of now db ts (check_active text_of now db t b s)).0
    unfolding check_active
    active-IdleIf t true ts s =
        Idle-tenants ts t (check_tenant text_of now db t s) (tenant-Idle t s)
    active-IdleIf t false ts s = tt

    all-Idle :
        (ts : List TenantRow) (s : List Notification × ℕ)
        → All (λ t. IdleIf t.is_active t (check_tenants text_of now db ts s).0) ts
    unfolding check_tenants
    all-Idle [] s = tt
    all-Idle (t ∷ ts) s = (
      active-IdleIf t t.is_active ts s,
      all-Idle ts (check_active text_of now db t t.is_active s),
    )

    check_tenant_settled :
        (t : TenantRow) (notes : List Notification) (c : ℕ)
        → Idle t notes
        → check_tenant text_of now db t (notes, c) ≡ (notes, c)
    unfolding check_tenant
    check_tenant_settled t notes c h =
        rw
          (
            alert_each_settled new_critical_vuln t.id _ notes c h.criticals,
            alert_each_settled sla_breach t.id _ notes c h.deadlines,
            alert_each_settled sync_failure t.id _ notes c h.syncs,
            alert_each_settled risk_change t.id _ notes c h.risks,
          )
          refl

    check_active_settled :
        (t : TenantRow) (b : Bool) (notes : List Notification) (c : ℕ)
        → IdleIf b t notes
        → check_active text_of now db t b (notes, c) ≡ (notes, c)
    unfolding check_active
    check_active_settled t true notes c h = check_tenant_settled t notes c h
    check_active_settled t false notes c h = refl

    check_tenants_settled :
        (ts : List TenantRow) (notes : List Notification) (c : ℕ)
        → All (λ t. IdleIf t.is_active t notes) ts
        → check_tenants text_of now db ts (notes, c) ≡ (notes, c)
    unfolding check_tenants
    check_tenants_settled [] notes c h = refl
    check_tenants_settled (t ∷ ts) notes c h =
        ap (check_tenants text_of now db ts) (check_active_settled t t.is_active notes c h.0)
        ∙ check_tenants_settled ts notes c h.1

    -- A round of checks that is repeated at once, over the same tables, creates no alert and
    -- leaves the notifications as they are.
    pub run_alert_checks-again :
        (notes : List Notification)
        → let once = run_alert_checks text_of now db notes in
          run_alert_checks text_of now db once.0 ≡ (once.0, 0)
    unfolding run_alert_checks
    run_alert_checks-again notes =
        check_tenants_settled db.tenants _ 0 (all-Idle db.tenants (notes, 0))
