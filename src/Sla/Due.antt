-- ===== src/Sla/Due.antt =====
-- Due dates: the statements for each severity amount to one pass over the rows.
use getvul.Prelude.{
  ℕ, String, ◌≡◌, refl, ap, ◌∙◌, inl, inr, Bool, not, ◌&&◌, Option, none, some, List, [], ◌∷◌, map,
  arith, update_where, is_some, Bool-cases, str_eq, eq_iff, if◌then◌else◌,
}
use getvul.Models.{Vulnerability}
use getvul.Sla.{
  Days, Tenant, days_of, get_sla_days, days_or_default, is_dated, set_due, needs_backfill,
  needs_recalculation, backfill_days, recalculate_days, backfill_sla_due_dates,
  recalculate_sla_due_dates,
}

abbrev dated_by : Option ℕ → Vulnerability → Vulnerability
dated_by none v = v
dated_by (some days) v = set_due days v

-- An open row with no due date gets the one of its severity, if that is configured.
abbrev pub backfilled : ℕ → Days → Vulnerability → Vulnerability
backfilled tn cfg v =
    if is_dated tn v && not (is_some v.sla_due_at) then dated_by (days_of v.severity cfg) v else v

-- An open row gets the due date of its severity, if that is configured.
abbrev pub recalculated : ℕ → Days → Vulnerability → Vulnerability
recalculated tn cfg v = if is_dated tn v then dated_by (days_of v.severity cfg) v else v

map-update_where {ℓ} :
    {A : Type ℓ} (f g : A → A) (p : A → Bool) (h : A → A) (xs : List A)
    → ((x : A) → f (if p x then h x else x) ≡ g x)
    → map f (update_where p h xs) ≡ map g xs
map-update_where f g p h [] e = refl
map-update_where f g p h (x ∷ xs) e = cc (e x, map-update_where f g p h xs e)

map_self {ℓ} : {A : Type ℓ} (f : A → A) (xs : List A) → ((x : A) → f x ≡ x) → xs ≡ map f xs
map_self f [] h = refl
map_self f (x ∷ xs) h = cc (h x, map_self f xs h)

backfilled-step :
    (tn : ℕ) (s : String) (days : ℕ) (cfg : Days) (v : Vulnerability)
    → backfilled tn cfg (if needs_backfill tn s v then set_due days v else v)
      ≡ backfilled tn ((s, days) ∷ cfg) v
unfolding needs_backfill set_due days_of
backfilled-step tn s days cfg v = ground (arith, eq_iff v.severity s, eq_iff s v.severity)

backfill_days-map :
    (tn : ℕ) (cfg : Days) (rows : List Vulnerability)
    → (backfill_days tn cfg rows).0 ≡ map (backfilled tn cfg) rows
unfolding backfill_days days_of
backfill_days-map tn [] rows = map_self (backfilled tn []) rows (λ v. ground arith)
backfill_days-map tn ((s, days) ∷ cfg) rows =
    backfill_days-map tn cfg (update_where (needs_backfill tn s) (set_due days) rows)
    ∙ map-update_where (backfilled tn cfg) (backfilled tn ((s, days) ∷ cfg)) (needs_backfill tn s)
        (set_due days) rows (backfilled-step tn s days cfg)

-- A configuration names each severity once.
abbrev NamesOnce : Days → Type 0
NamesOnce [] = Unit
NamesOnce ((s, days) ∷ cfg) = (days_of s cfg ≡ none) × NamesOnce cfg

recalculated-step :
    (tn : ℕ) (s : String) (days : ℕ) (cfg : Days) (v : Vulnerability)
    → days_of s cfg ≡ none
    → recalculated tn cfg (if needs_recalculation tn s v then set_due days v else v)
      ≡ recalculated tn ((s, days) ∷ cfg) v
unfolding needs_recalculation is_dated set_due days_of
recalculated-step tn s days cfg v h = elim (Bool-cases (str_eq v.severity s)) [
  | inl e ↦
      let same : v.severity ≡ s = (eq_iff v.severity s).0 e in
      ground (arith, eq_iff s v.severity, ap (λ (u : String). days_of u cfg) same)
  | inr e ↦ ground (arith, eq_iff v.severity s, eq_iff s v.severity)
]

recalculate_days-map :
    (tn : ℕ) (cfg : Days) (rows : List Vulnerability)
    → NamesOnce cfg
    → (recalculate_days tn cfg rows).0 ≡ map (recalculated tn cfg) rows
unfolding recalculate_days days_of
recalculate_days-map tn [] rows h = map_self (recalculated tn []) rows (λ v. ground arith)
recalculate_days-map tn ((s, days) ∷ cfg) rows h =
    recalculate_days-map tn cfg (update_where (needs_recalculation tn s) (set_due days) rows) h.1
    ∙ map-update_where (recalculated tn cfg) (recalculated tn ((s, days) ∷ cfg))
        (needs_recalculation tn s) (set_due days) rows (λ v. recalculated-step tn s days cfg v h.0)

days_or_default-NamesOnce : (o : Option (Option Days)) → NamesOnce (days_or_default o)
unfolding days_or_default days_of
days_or_default-NamesOnce (some (some (d ∷ ds))) = (refl, (refl, (refl, (refl, (refl, tt)))))
days_or_default-NamesOnce _ = (refl, (refl, (refl, (refl, (refl, tt)))))

get_sla_days-NamesOnce : (tenant : Option Tenant) → NamesOnce (get_sla_days tenant)
unfolding get_sla_days
get_sla_days-NamesOnce none = days_or_default-NamesOnce none
get_sla_days-NamesOnce (some t) = days_or_default-NamesOnce t.sla_config

-- The backfill gives each of the tenant's open, dated rows without a due date the one that its
-- severity has in the tenant's configuration, and changes no other row.
pub backfill_sla_due_dates-map :
    (tn : ℕ) (tenant : Option Tenant) (rows : List Vulnerability)
    → (backfill_sla_due_dates tn tenant rows).0 ≡ map (backfilled tn (get_sla_days tenant)) rows
unfolding backfill_sla_due_dates
backfill_sla_due_dates-map tn tenant rows = backfill_days-map tn (get_sla_days tenant) rows

-- The recalculation gives each of the tenant's open, dated rows the due date that its severity has
-- in the tenant's configuration, whatever it had before, and changes no other row.
pub recalculate_sla_due_dates-map :
    (tn : ℕ) (tenant : Option Tenant) (rows : List Vulnerability)
    → (recalculate_sla_due_dates tn tenant rows).0
      ≡ map (recalculated tn (get_sla_days tenant)) rows
unfolding recalculate_sla_due_dates
recalculate_sla_due_dates-map tn tenant rows =
    recalculate_days-map tn (get_sla_days tenant) rows (get_sla_days-NamesOnce tenant)
