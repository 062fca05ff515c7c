-- ===== src/Correlation/Upserts.antt =====
-- The writes of `run_correlations`: upserts by key, then the removal of stale rows by id.
use getvul.Prelude.{
  ℕ, ◌+◌, ◌<◌, ◌≢◌, String, ◌≡◌, refl, ap, inl, inr, ◌∙◌, Bool, true, false, not, ◌&&◌, Option,
  none, some, List, [], ◌∷◌, All, All-map, All-filter, filter, filter_ext, mem_id, arith, ◌==◌,
  Bool-cases, is_some, if◌then◌else◌,
}
use getvul.Correlation.{
  Key, key_eq, Groups, Values, Correlation, Table, at_key, find_group, correlation_values,
  upsert_rows, upsert, upsert_groups, is_stale, stale_ids, find_row,
}
use getvul.Correlation.Groups.{key_eq_iff}

abbrev pub values_of : Option Correlation → Option Values
values_of none = none
values_of (some r) = some r.values

abbrev pub or_stored : Option (List (String × ℕ)) → Option Values → Option Values
or_stored none o = o
or_stored (some sv) o = some (correlation_values sv)

find_row-upsert_rows_self :
    (new tn : ℕ) (k j : Key) (vals : Values) (rs : List Correlation)
    → values_of (find_row tn j (upsert_rows new tn k vals rs))
      ≡ (if key_eq k j then some vals else values_of (find_row tn j rs))
unfolding find_row upsert_rows at_key
find_row-upsert_rows_self new tn k j vals [] = ground arith
find_row-upsert_rows_self new tn k j vals (r ∷ rs) = ground (
  arith,
  find_row-upsert_rows_self new tn k j vals rs,
  key_eq_iff k j,
  key_eq_iff r.key j,
  key_eq_iff r.key k,
)

find_row-upsert_rows_other :
    (new tn m : ℕ) (k j : Key) (vals : Values) (rs : List Correlation)
    → m ≢ tn
    → find_row m j (upsert_rows new tn k vals rs) ≡ find_row m j rs
unfolding find_row upsert_rows at_key
find_row-upsert_rows_other new tn m k j vals [] h = ground arith
find_row-upsert_rows_other new tn m k j vals (r ∷ rs) h =
    ground (arith, find_row-upsert_rows_other new tn m k j vals rs)

-- A dict has each key once.
abbrev pub IsDistinct : Groups → Type 0
IsDistinct [] = Unit
IsDistinct ((k, sv) ∷ g) = (find_group k g ≡ none) × IsDistinct g

pub find_row-upsert_groups_self :
    (tn : ℕ) (j : Key) (g : Groups) (t : Table)
    → IsDistinct g
    → values_of (find_row tn j (upsert_groups tn t g).rows)
      ≡ or_stored (find_group j g) (values_of (find_row tn j t.rows))
unfolding upsert_groups upsert find_group
find_row-upsert_groups_self tn j [] t h = ground arith
find_row-upsert_groups_self tn j ((k, sv) ∷ g) t h = ground (
  arith,
  find_row-upsert_groups_self tn j g (upsert tn t k (correlation_values sv)) h.1,
  find_row-upsert_rows_self t.next_id tn k j (correlation_values sv) t.rows,
  key_eq_iff k j,
)

pub find_row-upsert_groups_other :
    (tn m : ℕ) (j : Key) (g : Groups) (t : Table)
    → m ≢ tn
    → find_row m j (upsert_groups tn t g).rows ≡ find_row m j t.rows
unfolding upsert_groups upsert
find_row-upsert_groups_other tn m j [] t h = refl
find_row-upsert_groups_other tn m j ((k, sv) ∷ g) t h =
    find_row-upsert_groups_other tn m j g (upsert tn t k (correlation_values sv)) h
    ∙ find_row-upsert_rows_other t.next_id tn m k j (correlation_values sv) t.rows h

-- Primary keys: each below the next one to be given, and no two rows with one.
abbrev pub HasId : ℕ → Correlation → Type 0
HasId i r = (r.id == i) ≡ false

abbrev pub DistinctIds : List Correlation → Type 0
DistinctIds [] = Unit
DistinctIds (r ∷ rs) = All (HasId r.id) rs × DistinctIds rs

abbrev pub IsBelow : ℕ → Correlation → Type 0
IsBelow n r = r.id < n

pub record IsValid (t : Table) : Type 0 where
  pub below : All (λ (r : Correlation). r.id < t.next_id) t.rows
  pub distinct : DistinctIds t.rows

upsert_rows-IsBelow :
    (new tn : ℕ) (k : Key) (vals : Values) (rs : List Correlation)
    → All (IsBelow new) rs
    → All (IsBelow (new + 1)) (upsert_rows new tn k vals rs)
unfolding upsert_rows
upsert_rows-IsBelow new tn k vals [] h = (omega arith, tt)
upsert_rows-IsBelow new tn k vals (r ∷ rs) h = elim (Bool-cases (at_key tn k r)) [
  | inl e ↦
      rw e (omega arith, All-map (IsBelow new) (IsBelow (new + 1)) rs (λ q b. omega arith) h.1)
  | inr e ↦ rw e (omega arith, upsert_rows-IsBelow new tn k vals rs h.1)
]

upsert_rows-HasId :
    (new tn i : ℕ) (k : Key) (vals : Values) (rs : List Correlation)
    → (new == i) ≡ false
    → All (HasId i) rs
    → All (HasId i) (upsert_rows new tn k vals rs)
unfolding upsert_rows
upsert_rows-HasId new tn i k vals [] n h = (n, tt)
upsert_rows-HasId new tn i k vals (r ∷ rs) n h = elim (Bool-cases (at_key tn k r)) [
  | inl e ↦ rw e (h.0, h.1)
  | inr e ↦ rw e (h.0, upsert_rows-HasId new tn i k vals rs n h.1)
]

upsert_rows-distinct :
    (new tn : ℕ) (k : Key) (vals : Values) (rs : List Correlation)
    → All (IsBelow new) rs
    → DistinctIds rs
    → DistinctIds (upsert_rows new tn k vals rs)
unfolding upsert_rows
upsert_rows-distinct new tn k vals [] b h = (tt, tt)
upsert_rows-distinct new tn k vals (r ∷ rs) b h = elim (Bool-cases (at_key tn k r)) [
  | inl e ↦ rw e (h.0, h.1)
  | inr e ↦ rw e (
    upsert_rows-HasId new tn r.id k vals rs (ground arith) h.0,
    upsert_rows-distinct new tn k vals rs b.1 h.1,
  )
]

pub upsert_groups-IsValid :
    (tn : ℕ) (g : Groups) (t : Table) → IsValid t → IsValid (upsert_groups tn t g)
unfolding upsert_groups upsert
upsert_groups-IsValid tn [] t v = v
upsert_groups-IsValid tn ((k, sv) ∷ g) t v =
    let vals = correlation_values sv in
    upsert_groups-IsValid tn g (upsert tn t k vals) (record {
      below = upsert_rows-IsBelow t.next_id tn k vals t.rows v.below;
      distinct = upsert_rows-distinct t.next_id tn k vals t.rows v.below v.distinct;
    })

-- Deleting by the collected ids removes the stale rows and no others.
stale_ids-HasId :
    (tn i : ℕ) (g : Groups) (rs : List Correlation)
    → All (HasId i) rs
    → mem_id i (stale_ids tn g rs) ≡ false
unfolding stale_ids
stale_ids-HasId tn i g [] h = refl
stale_ids-HasId tn i g (r ∷ rs) h = ground (arith, stale_ids-HasId tn i g rs h.1, h.0)

abbrev Agrees : ℕ → Groups → List ℕ → Correlation → Type 0
Agrees tn g ids r = mem_id r.id ids ≡ is_stale tn g r

Agrees-skip :
    (tn i : ℕ) (g : Groups) (b : Bool) (ids : List ℕ) (rs : List Correlation)
    → All (HasId i) rs
    → All (Agrees tn g ids) rs
    → All (Agrees tn g (if b then i ∷ ids else ids)) rs
Agrees-skip tn i g b ids [] n h = tt
Agrees-skip tn i g false ids (r ∷ rs) n h = h
Agrees-skip tn i g true ids (r ∷ rs) n h =
    (ground (arith, n.0, h.0), Agrees-skip tn i g true ids rs n.1 h.1)

stale_ids-Agrees :
    (tn : ℕ) (g : Groups) (rs : List Correlation)
    → DistinctIds rs
    → All (Agrees tn g (stale_ids tn g rs)) rs
unfolding stale_ids
stale_ids-Agrees tn g [] h = tt
stale_ids-Agrees tn g (r ∷ rs) h = (
  ground (arith, stale_ids-HasId tn r.id g rs h.0),
  Agrees-skip tn r.id g (is_stale tn g r) (stale_ids tn g rs) rs h.0 (stale_ids-Agrees tn g rs h.1),
)

pub delete-stale_ids :
    (tn : ℕ) (g : Groups) (rs : List Correlation)
    → DistinctIds rs
    → filter (λ r. not (mem_id r.id (stale_ids tn g rs))) rs
      ≡ filter (λ r. not (is_stale tn g r)) rs
delete-stale_ids tn g rs h = filter_ext _ _ rs (
    All-map (Agrees tn g (stale_ids tn g rs))
      (λ r. not (mem_id r.id (stale_ids tn g rs)) ≡ not (is_stale tn g r)) rs (λ r e. ap not e)
      (stale_ids-Agrees tn g rs h))

pub find_row-fresh :
    (tn m : ℕ) (k : Key) (g : Groups) (rs : List Correlation)
    → find_row m k (filter (λ r. not (is_stale tn g r)) rs)
      ≡ (if m == tn && not (is_some (find_group k g)) then none else find_row m k rs)
unfolding find_row at_key
find_row-fresh tn m k g [] = ground arith
find_row-fresh tn m k g (r ∷ rs) = elim (Bool-cases (key_eq r.key k)) [
  | inl e ↦
      let same : r.key ≡ k = (key_eq_iff r.key k).0 e in
      ground (arith, find_row-fresh tn m k g rs, ap (λ (j : Key). find_group j g) same)
  | inr e ↦ ground (arith, find_row-fresh tn m k g rs)
]

pub filter-IsValid :
    (p : Correlation → Bool) (n : ℕ) (rs : List Correlation)
    → All (IsBelow n) rs
    → DistinctIds rs
    → All (IsBelow n) (filter p rs) × DistinctIds (filter p rs)
filter-IsValid p n [] b h = (tt, tt)
filter-IsValid p n (r ∷ rs) b h =
    let (b', h') = filter-IsValid p n rs b.1 h.1 in
    elim (Bool-cases (p r)) [
      | inl e ↦ rw e ((b.0, b'), (All-filter (HasId r.id) p rs h.0, h'))
      | inr e ↦ rw e (b', h')
    ]
