-- ===== src/Correlation/Sync.antt =====
-- What the correlation table holds after `run_correlations`.
use getvul.Prelude.{
  ℕ, ◌≢◌, ◌≡◌, refl, ap, ◌∙◌, inl, inr, Bool, false, not, ◌&&◌, Option, none, some, List, [], ◌∷◌,
  filter, length, leb, arith, ◌==◌, Bool-cases, is_some, if◌then◌else◌,
}
use getvul.Models.{Vulnerability}
use getvul.Correlation.{
  Key, key_eq, Groups, SourceVulns, Row, Table, find_group, add_row, group_rows,
  find_correlated_groups, select_rows, upsert_groups, stale_ids, run_correlations, find_row,
  get_correlation_for_vuln,
}
use getvul.Correlation.Groups.{key_eq_iff}
use getvul.Correlation.Upserts.{
  values_of, or_stored, IsDistinct, IsValid, find_row-upsert_groups_self,
  find_row-upsert_groups_other, upsert_groups-IsValid, delete-stale_ids, find_row-fresh,
  filter-IsValid,
}
use getvul.Prelude.{mem_id}

find_group-add_row_ne :
    (j : Key) (g : Groups) (r : Row)
    → key_eq r.key j ≡ false
    → find_group j g ≡ none
    → find_group j (add_row g r) ≡ none
unfolding find_group add_row
find_group-add_row_ne j [] r n h = ground arith
find_group-add_row_ne j ((k, sv) ∷ g) r n h =
    ground
      (arith, find_group-add_row_ne j g r, key_eq_iff k r.key, key_eq_iff k j, key_eq_iff r.key j)

add_row-IsDistinct : (g : Groups) (r : Row) → IsDistinct g → IsDistinct (add_row g r)
unfolding add_row find_group
add_row-IsDistinct [] r h = (refl, tt)
add_row-IsDistinct ((k, sv) ∷ g) r h = elim (Bool-cases (key_eq k r.key)) [
  | inl e ↦ rw e h
  | inr e ↦ rw e (
    find_group-add_row_ne k g r (ground (arith, key_eq_iff k r.key, key_eq_iff r.key k)) h.0,
    add_row-IsDistinct g r h.1,
  )
]

group_rows-IsDistinct : (g : Groups) (rs : List Row) → IsDistinct g → IsDistinct (group_rows g rs)
unfolding group_rows
group_rows-IsDistinct g [] h = h
group_rows-IsDistinct g (r ∷ rs) h =
    group_rows-IsDistinct (add_row g r) rs (add_row-IsDistinct g r h)

abbrev pub is_shared : SourceVulns → Bool
is_shared sv = leb 2 (length sv)

abbrev pub shared_only : Option SourceVulns → Option SourceVulns
shared_only none = none
shared_only (some sv) = if is_shared sv then some sv else none

find_group-filter :
    (k : Key) (g : Groups)
    → IsDistinct g
    → find_group k (filter (λ e. is_shared e.1) g) ≡ shared_only (find_group k g)
unfolding find_group
find_group-filter k [] h = refl
find_group-filter k ((j, sv) ∷ g) h = elim (Bool-cases (key_eq j k)) [
  | inl e ↦
      let same : j ≡ k = (key_eq_iff j k).0 e in
      ground (arith, find_group-filter k g h.1, ap (λ (i : Key). find_group i g) same)
  | inr e ↦ ground (arith, find_group-filter k g h.1)
]

filter-IsDistinct : (g : Groups) → IsDistinct g → IsDistinct (filter (λ e. is_shared e.1) g)
filter-IsDistinct [] h = tt
filter-IsDistinct ((j, sv) ∷ g) h = elim (Bool-cases (is_shared sv)) [
  | inl e ↦ rw e (rw (find_group-filter j g h.1) (rw h.0 refl), filter-IsDistinct g h.1)
  | inr e ↦ rw e (filter-IsDistinct g h.1)
]

find_correlated_groups-IsDistinct : (rs : List Row) → IsDistinct (find_correlated_groups rs)
unfolding find_correlated_groups
find_correlated_groups-IsDistinct rs =
    filter-IsDistinct (group_rows [] rs) (group_rows-IsDistinct [] rs tt)

module _ (order : List Row → List Row) (tn : ℕ) (vulns : List Vulnerability) (t : Table) where
  -- The groups of this run.
  abbrev pub groups : Groups
  groups = find_correlated_groups (order (select_rows tn vulns))

  abbrev pub after : Table
  after = (run_correlations order tn vulns t).0

  pub find_row-after :
      (m : ℕ) (k : Key)
      → IsValid t
      → find_row m k after.rows ≡ (
          if m == tn && not (is_some (find_group k groups))
          then none
          else find_row m k (upsert_groups tn t groups).rows)
  unfolding run_correlations
  find_row-after m k v =
      let g = find_correlated_groups (order (select_rows tn vulns)) in
      let rows = (upsert_groups tn t g).rows in
      ap (find_row m k) (delete-stale_ids tn g rows (upsert_groups-IsValid tn g t v).distinct)
      ∙ find_row-fresh tn m k g rows

  pub after-view :
      (k : Key)
      → IsValid t
      → values_of (get_correlation_for_vuln tn k after) ≡ or_stored (find_group k groups) none
  unfolding get_correlation_for_vuln
  after-view k v = ground (
    arith,
    find_row-after tn k v,
    find_row-upsert_groups_self tn k groups t
        (find_correlated_groups-IsDistinct (order (select_rows tn vulns))),
  )

  -- On a table with distinct primary keys below the next one: a run for one tenant leaves what
  -- the lookup finds for any other tenant as it was.
  pub run_correlations-other_tenant :
      (m : ℕ) (k : Key)
      → IsValid t
      → m ≢ tn
      → get_correlation_for_vuln m k (run_correlations order tn vulns t).0
        ≡ get_correlation_for_vuln m k t
  unfolding get_correlation_for_vuln
  run_correlations-other_tenant m k v n =
      ground (arith, find_row-after m k v, find_row-upsert_groups_other tn m k groups t n)

  -- If primary keys are distinct and below the next one, they are so after a tenant's run.
  pub run_correlations-IsValid : IsValid t → IsValid (run_correlations order tn vulns t).0
  unfolding run_correlations
  run_correlations-IsValid v =
      let g = find_correlated_groups (order (select_rows tn vulns)) in
      let u = upsert_groups tn t g in
      let w = upsert_groups-IsValid tn g t v in
      let parts =
        filter-IsValid (λ r. not (mem_id r.id (stale_ids tn g u.rows))) u.next_id u.rows w.below
          w.distinct in
      record { below = parts.0; distinct = parts.1 }

pub find_group-correlated :
    (k : Key) (rows : List Row)
    → find_group k (find_correlated_groups rows) ≡ shared_only (find_group k (group_rows [] rows))
unfolding find_correlated_groups
find_group-correlated k rows =
    find_group-filter k (group_rows [] rows) (group_rows-IsDistinct [] rows tt)
