-- ===== src/Correlation/Recency.antt =====
-- The vulnerability that stands for a source is the one seen last.
use getvul.Prelude.{
  none, Memᴰ, All-Memᴰ, refl, sym, ◌∙◌, ◌⊎◌, ◌↔◌, ◌++◌, ◌==◌, ◌&&◌, ℕ, ◌≤◌, String, ◌≡◌, inl, inr,
  true, some, List, [], ◌∷◌, All, All-map, arith, Bool-cases, Option-cases, Option, is_some, filter,
  str_eq, eq_iff, ap,
}
use mathlib.Core.Path.{subst}
use getvul.Models.{Vulnerability, is_open}
use getvul.Correlation.{
  Key, Row, Table, Correlation, Values, find_source, row_at, select_rows, run_correlations,
  get_correlation_for_vuln,
}
use getvul.Correlation.Groups.{matches, first_match, key_eq_iff}
use getvul.Correlation.Upserts.{IsValid}
use getvul.Correlation.Stored.{known_sources, linked, stored_values}

-- What `ORDER BY last_seen_at DESC` gives: no later row was seen after an earlier one.
abbrev pub IsNewestFirst : List Row → Type 0
IsNewestFirst [] = Unit
IsNewestFirst (r ∷ rs) = All (λ (q : Row). q.last_seen_at ≤ r.last_seen_at) rs × IsNewestFirst rs

abbrev pub SeenBy : Key → String → ℕ → Row → Type 0
SeenBy k s time q = matches k s q ≡ true → q.last_seen_at ≤ time

first_match-newest :
    (k : Key) (s : String) (rows : List Row) (i : ℕ)
    → IsNewestFirst rows
    → first_match k s rows ≡ some i
    → (r : Row) × Memᴰ r rows
      × (r.vuln_id ≡ i)
      × (matches k s r ≡ true)
      × All (SeenBy k s r.last_seen_at) rows
unfolding first_match
first_match-newest k s [] i h e = cc
first_match-newest k s (r ∷ rs) i h e = elim (Bool-cases (matches k s r)) [
  | inl m ↦ (
    r,
    Memᴰ.head refl,
    ground arith,
    m,
    (
      λ _. omega arith,
      All-map (λ q. q.last_seen_at ≤ r.last_seen_at) (SeenBy k s r.last_seen_at) rs (λ q b _. b)
          h.0,
    ),
  )
  | inr n ↦
      let (q, here, same, m, newest) = first_match-newest k s rs i h.1 (ground arith) in
      (q, Memᴰ.tail here, same, m, (λ p. cc, newest))
]

-- An open finding of a tenant, of this pair and source.
pub record IsOpenOf (tn : ℕ) (k : Key) (s : String) (v : Vulnerability) : Type 0 where
  pub tenant : v.tenant_id ≡ tn
  pub open_status : (v.status ≡ "OPEN") ⊎ (v.status ≡ "IN_PROGRESS")
  pub cve : v.cve_id ≡ some k.0
  pub asset : v.asset_id ≡ some k.1
  pub source : v.source ≡ s

row_of : Key → Vulnerability → Row
row_of k v = record { key = k; source = v.source; vuln_id = v.id; last_seen_at = v.last_seen_at }

open_of : (s : String) → is_open s ≡ true → (s ≡ "OPEN") ⊎ (s ≡ "IN_PROGRESS")
unfolding is_open
open_of s h = elim (Bool-cases (str_eq s "OPEN")) [
  | inl e ↦ inl ((eq_iff s "OPEN").0 e)
  | inr e ↦ inr ((eq_iff s "IN_PROGRESS").0 (ground arith))
]

is_open_of : (s : String) → (s ≡ "OPEN") ⊎ (s ≡ "IN_PROGRESS") → is_open s ≡ true
unfolding is_open
is_open_of s (inl e) = rw e refl
is_open_of s (inr e) = rw e refl

row_at-from :
    (cve : Option String) (asset : Option ℕ) (v : Vulnerability) (rest : List Row) (r : Row)
    → Memᴰ r (row_at cve asset v ++ rest)
    → Memᴰ r rest ⊎ ((cve ≡ some r.key.0) × (asset ≡ some r.key.1) × (r ≡ row_of r.key v))
unfolding row_at row_of
row_at-from none asset v rest r m = inl m
row_at-from (some c) none v rest r m = inl m
row_at-from (some c) (some a) v rest r (Memᴰ.tail n) = inl n
row_at-from (some c) (some a) v rest r (Memᴰ.head same) =
    let key : r.key ≡ (c, a) = ap (λ (q : Row). q.key) same in
    inr (
      ap (λ (j : Key). some j.0) (sym key),
      ap (λ (j : Key). some j.1) (sym key),
      same ∙ ap (λ (j : Key). row_of j v) (sym key),
    )

row_of-IsOpenOf :
    (tn : ℕ) (v : Vulnerability) (r : Row)
    → (v.tenant_id == tn && is_open v.status) ≡ true
    → (v.cve_id ≡ some r.key.0) × (v.asset_id ≡ some r.key.1) × (r ≡ row_of r.key v)
    → IsOpenOf tn r.key r.source v
unfolding row_of
row_of-IsOpenOf tn v r e (c, a, same) = record {
  tenant = ground (arith, e);
  open_status = open_of v.status (ground (arith, e));
  cve = c;
  asset = a;
  source = sym (ap (λ (q : Row). q.source) same);
}

-- The rows of the query are open findings of the tenant that have a CVE and an asset.
select_rows-from :
    (tn : ℕ) (vs : List Vulnerability) (r : Row)
    → Memᴰ r (select_rows tn vs)
    → (v : Vulnerability) × Memᴰ v vs × IsOpenOf tn r.key r.source v × (r ≡ row_of r.key v)
unfolding select_rows
select_rows-from tn [] r m = elim m [ ]
select_rows-from tn (v ∷ vs) r m =
    let later : Memᴰ r (select_rows tn vs)
        → (w : Vulnerability) × Memᴰ w (v ∷ vs)
          × IsOpenOf tn r.key r.source w
          × (r ≡ row_of r.key w) =
      λ n. let (w, here, o, same) = select_rows-from tn vs r n in (w, Memᴰ.tail here, o, same) in
    elim (Bool-cases (v.tenant_id == tn && is_open v.status)) [
      | inr e ↦ later (rw e at m)
      | inl e ↦ elim (row_at-from v.cve_id v.asset_id v (select_rows tn vs) r (rw e at m)) [
        | inl n ↦ later n
        | inr p ↦ (v, Memᴰ.head refl, row_of-IsOpenOf tn v r e p, p.2)
      ]
    ]

in_append {ℓ} : {A : Type ℓ} (x : A) (xs ys : List A) → Memᴰ x ys → Memᴰ x (xs ++ ys)
in_append x [] ys m = m
in_append x (y ∷ xs) ys m = Memᴰ.tail (in_append x xs ys m)

select_rows-has :
    (tn : ℕ) (k : Key) (s : String) (vs : List Vulnerability) (v : Vulnerability)
    → IsOpenOf tn k s v
    → Memᴰ v vs
    → Memᴰ (row_of k v) (select_rows tn vs)
unfolding select_rows row_of
select_rows-has tn k s [] v o m = elim m [ ]
select_rows-has tn k s (w ∷ vs) v o (Memᴰ.head e) =
    let open_row = is_open_of v.status o.open_status in
    let cve : w.cve_id ≡ some k.0 = ap (λ (x : Vulnerability). x.cve_id) (sym e) ∙ o.cve in
    let asset : w.asset_id ≡ some k.1 = ap (λ (x : Vulnerability). x.asset_id) (sym e) ∙ o.asset in
    let guard : (w.tenant_id == tn && is_open w.status) ≡ true =
      subst (λ (x : Vulnerability). (x.tenant_id == tn && is_open x.status) ≡ true) e
        (ground (arith, o.tenant, open_row)) in
    rw (guard, cve, asset) (Memᴰ.head (ap (row_of k) e))
select_rows-has tn k s (w ∷ vs) v o (Memᴰ.tail m) =
    let rest = select_rows-has tn k s vs v o m in
    elim (Bool-cases (w.tenant_id == tn && is_open w.status)) [
      | inl e ↦ rw e (in_append _ _ _ rest)
      | inr e ↦ rw e rest
    ]

find_source-linked :
    (s : String) (ss : List String) (f : String → Option ℕ) (i : ℕ)
    → find_source s (linked ss f) ≡ some i
    → f s ≡ some i
unfolding find_source
find_source-linked s [] f i e = cc
find_source-linked s (u ∷ ss) f i e = elim (Option-cases (f u)) [
  | inl n ↦ find_source-linked s ss f i (ground arith)
  | inr (j, n) ↦ elim (Bool-cases (str_eq u s)) [
    | inl m ↦ let same : u ≡ s = (eq_iff u s).0 m in ground (arith, ap f same)
    | inr m ↦ find_source-linked s ss f i (ground arith)
  ]
]

-- On a table with distinct primary keys below the next one, when the query returns its rows and
-- no others, the newest first: the finding that a correlation links for a source after the
-- tenant's run is one of the tenant's open findings of that pair and source, and none of them was
-- seen later.
pub linked-newest :
    (order : List Row → List Row) (tn : ℕ) (vulns : List Vulnerability) (t : Table) (k : Key)
    → IsValid t
    → (s : String) (i : ℕ) (c : Correlation) → IsNewestFirst (order (select_rows tn vulns))
    → ((r : Row) → Memᴰ r (order (select_rows tn vulns)) ↔ Memᴰ r (select_rows tn vulns))
    → get_correlation_for_vuln tn k (run_correlations order tn vulns t).0 ≡ some c
    → find_source s c.values.source_vuln_ids ≡ some i
    → (v : Vulnerability) × Memᴰ v vulns
      × (v.id ≡ i)
      × IsOpenOf tn k s v
      × ((w : Vulnerability) → Memᴰ w vulns → IsOpenOf tn k s w → w.last_seen_at ≤ v.last_seen_at)
unfolding row_of
linked-newest order tn vulns t k v s i c newest rows e l =
    let f = λ (u : String). first_match k u (order (select_rows tn vulns)) in
    let stored = stored_values order tn vulns t k v c e in
    let (r, here, id, m, latest) = first_match-newest k s (order (select_rows tn vulns)) i newest (
      find_source-linked s (filter (λ u. is_some (f u)) known_sources) f i
        (subst (λ (w : Values). find_source s w.source_vuln_ids ≡ some i) stored l)) in
    let (x, member, is_of, same) = select_rows-from tn vulns r ((rows r).0 here) in
    let key : r.key ≡ k = (key_eq_iff r.key k).0 (ground (arith, m)) in
    let source : r.source ≡ s = (eq_iff r.source s).0 (ground (arith, m)) in
    let seen : r.last_seen_at ≡ x.last_seen_at = ap (λ (q : Row). q.last_seen_at) same in
    (
      x,
      member,
      sym (ap (λ (q : Row). q.vuln_id) same) ∙ id,
      subst (λ j. IsOpenOf tn j s x) key (subst (λ u. IsOpenOf tn r.key u x) source is_of),
      λ w there o.
          let row = (rows (row_of k w)).1 (select_rows-has tn k s vulns w o there) in
          let below =
            All-Memᴰ (SeenBy k s r.last_seen_at) (row_of k w) (order (select_rows tn vulns)) latest
              row in
          let hit : matches k s (row_of k w) ≡ true =
            ground (arith, (key_eq_iff k k).1 refl, (eq_iff w.source s).1 o.source) in
          omega (arith, below hit, seen),
    )
