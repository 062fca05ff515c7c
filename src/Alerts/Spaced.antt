-- ===== src/Alerts/Spaced.antt =====
-- Alerts are not repeated.
use getvul.Prelude.{
  ℕ, ◌+◌, ◌-◌, ◌*◌, ◌≡◌, refl, String, Bool, true, false, ◌&&◌, List, [], ◌∷◌, All, any, arith, leb,
  ltb, str_eq, Bool-cases, inl, inr, if◌then◌else◌,
}
use getvul.Alerts.{
  Notification, TenantRow, Tables, Kind, same_alert, notification_exists, notification, alert_one,
  alert_each, check_tenant, check_active, check_tenants, run_alert_checks, new_critical_vuln,
  sla_breach, sync_failure, risk_change,
}

-- The window of a category, in hours.
abbrev pub hours_of : String → ℕ
hours_of c =
    if str_eq c "new_critical_vuln"
    then 2
    else if str_eq c "sla_breach"
    then 24
    else if str_eq c "sync_failure"
    then 4
    else if str_eq c "risk_change"
    then 24
    else 0

abbrev kind_of : Notification → Kind
kind_of n = record {
  severity = n.severity;
  category = n.category;
  resource_type = n.resource_type;
  hours = hours_of n.category;
}

-- A second alert of one resource within the window.
abbrev pub repeats : Notification → Notification → Bool
repeats n o =
    ltb 0 (hours_of n.category)
    && same_alert (kind_of n) n.tenant_id n.resource_id o
    && leb n.created_at (o.created_at + hours_of n.category * 3600)

abbrev pub IsSpaced : List Notification → Type 0
IsSpaced [] = Unit
IsSpaced (n ∷ ns) = All (λ o. repeats n o ≡ false) ns × IsSpaced ns

All-not_any :
    {A : Type 0} (p q : A → Bool) (xs : List A)
    → ((x : A) → p x ≡ false → q x ≡ false)
    → any p xs ≡ false
    → All (λ x. q x ≡ false) xs
All-not_any p q [] h e = tt
All-not_any p q (x ∷ xs) h e = elim (Bool-cases (p x)) [
  | inl y ↦ absurd (ground arith)
  | inr y ↦ (h x y, All-not_any p q xs h (ground arith))
]

module _ (now : ℕ) where
  not_repeated :
      (b same : Bool) (h g c : ℕ)
      → g ≡ h
      → (same && leb (now - h * 3600) c) ≡ false
      → (b && same && leb now (c + g * 3600)) ≡ false
  not_repeated b same h g c e y = ground arith

  alert_one-IsSpaced :
      (k : Kind) (tn : ℕ) (r : String) (s : List Notification × ℕ)
      → hours_of k.category ≡ k.hours
      → IsSpaced s.0
      → IsSpaced (alert_one now k tn r s).0
  unfolding alert_one notification_exists same_alert
  alert_one-IsSpaced k tn r (notes, c) w h =
      elim (Bool-cases (notification_exists now k tn r notes)) [
        | inl e ↦ rw e h
        | inr e ↦ rw e (
          All-not_any (λ n. same_alert k tn r n && leb (now - k.hours * 3600) n.created_at)
              (repeats (notification now k tn r)) notes
              (λ n y.
                not_repeated (ltb 0 (hours_of k.category)) (same_alert k tn r n) k.hours
                  (hours_of k.category) n.created_at w y)
              e,
          h,
        )
      ]

  alert_each-IsSpaced :
      (k : Kind) (tn : ℕ) (rs : List String) (s : List Notification × ℕ)
      → hours_of k.category ≡ k.hours
      → IsSpaced s.0
      → IsSpaced (alert_each now k tn rs s).0
  unfolding alert_each
  alert_each-IsSpaced k tn [] s w h = h
  alert_each-IsSpaced k tn (r ∷ rs) s w h =
      alert_each-IsSpaced k tn rs _ w (alert_one-IsSpaced k tn r s w h)

  module _ (text_of : ℕ → String) (db : Tables) where
    tenant-IsSpaced :
        (t : TenantRow) (s : List Notification × ℕ)
        → IsSpaced s.0
        → IsSpaced (check_tenant text_of now db t s).0
    unfolding check_tenant
    tenant-IsSpaced t s h = alert_each-IsSpaced risk_change t.id _ _ refl (
        alert_each-IsSpaced sync_failure t.id _ _ refl (
          alert_each-IsSpaced sla_breach t.id _ _ refl
            (alert_each-IsSpaced new_critical_vuln t.id _ _ refl h)))

    active-IsSpaced :
        (t : TenantRow) (b : Bool) (s : List Notification × ℕ)
        → IsSpaced s.0
        → IsSpaced (check_active text_of now db t b s).0
    unfolding check_active
    active-IsSpaced t true s h = tenant-IsSpaced t s h
    active-IsSpaced t false s h = h

    tenants-IsSpaced :
        (ts : List TenantRow) (s : List Notification × ℕ)
        → IsSpaced s.0
        → IsSpaced (check_tenants text_of now db ts s).0
    unfolding check_tenants
    tenants-IsSpaced [] s h = h
    tenants-IsSpaced (t ∷ ts) s h = tenants-IsSpaced ts _ (active-IsSpaced t t.is_active s h)

    -- If no alert so far repeats another of its tenant, category and resource within the
    -- category's window (2 hours for new critical findings, 24 for deadlines and risk, 4 for
    -- failed syncs), a round of checks over whatever tables keeps it so.
    pub run_alert_checks-IsSpaced :
        (notes : List Notification)
        → IsSpaced notes
        → IsSpaced (run_alert_checks text_of now db notes).0
    unfolding run_alert_checks
    run_alert_checks-IsSpaced notes h = tenants-IsSpaced db.tenants (notes, 0) h
