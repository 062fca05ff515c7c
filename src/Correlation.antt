-- ===== src/Correlation.antt =====
-- backend/app/vulnerabilities/correlation_service.py: which (CVE, asset) pairs several scanners saw.
use getvul.Prelude.{
  ℕ, ◌+◌, String, Bool, true, ◌&&◌, not, Option, none, some, List, [], ◌∷◌, ◌++◌, length, filter,
  map, mem_id, is_some, ltb, leb, ◌==◌, str_eq, if◌then◌else◌,
}
pub mod Groups
pub mod Upserts
pub mod Distinct
pub mod Sync
pub mod Stored
pub mod Recency
mod Examples
use getvul.Models.{Vulnerability, is_open}

-- (cve_id, asset_id)
abbrev pub Key : Type 0
Key = String × ℕ

unfoldable pub key_eq : Key → Key → Bool
key_eq (c, a) (d, b) = str_eq c d && a == b

-- {source: vuln_id}
abbrev pub SourceVulns : Type 0
SourceVulns = List (String × ℕ)

abbrev pub Groups : Type 0
Groups = List (Key × SourceVulns)

-- `_SOURCE_ORDER`, the values of `VulnSource` in declaration order
unfoldable pub source_order : List String
source_order = "CROWDSTRIKE" ∷ "NESSUS" ∷ "DEFENDER" ∷ "WIZ" ∷ "QUALYS" ∷ "RAPID7" ∷ []

unfoldable pub find_source : String → SourceVulns → Option ℕ
find_source s [] = none
find_source s ((t, i) ∷ rest) = if str_eq t s then some i else find_source s rest

unfoldable pub find_group : Key → Groups → Option SourceVulns
find_group k [] = none
find_group k ((j, sv) ∷ rest) = if key_eq j k then some sv else find_group k rest

-- One row of the query of `_find_correlated_groups`.
pub record Row : Type 0 where
  pub key : Key
  pub source : String
  pub vuln_id : ℕ
  pub last_seen_at : ℕ

unfoldable pub row_at : Option String → Option ℕ → Vulnerability → List Row
row_at (some c) (some a) v =
    record { key = (c, a); source = v.source; vuln_id = v.id; last_seen_at = v.last_seen_at } ∷ []
row_at _ _ v = []

-- The `WHERE` clause, and the columns that the query selects.
pub select_rows : ℕ → List Vulnerability → List Row
unfolding row_at
select_rows tenant_id [] = []
select_rows tenant_id (v ∷ vs) =
    let rest = select_rows tenant_id vs in
    if v.tenant_id == tenant_id && is_open v.status
    then row_at v.cve_id v.asset_id v ++ rest
    else rest

-- `if source not in groups[key]: groups[key][source] = vuln_id`
unfoldable pub add_source : Row → SourceVulns → SourceVulns
unfolding find_source
add_source r sv = if is_some (find_source r.source sv) then sv else sv ++ (r.source, r.vuln_id) ∷ []

-- The body of the grouping loop: an absent key gets an empty map first.
unfoldable pub add_row : Groups → Row → Groups
unfolding add_source
add_row [] r = (r.key, add_source r []) ∷ []
add_row ((k, sv) ∷ g) r =
    let rest = add_row g r in if key_eq k r.key then (k, add_source r sv) ∷ g else (k, sv) ∷ rest

unfoldable pub group_rows : Groups → List Row → Groups
group_rows g [] = g
group_rows g (r ∷ rs) = group_rows (add_row g r) rs

-- `{k: v for k, v in groups.items() if len(v) >= 2}`
unfoldable pub find_correlated_groups : List Row → Groups
unfolding group_rows
find_correlated_groups rows = filter (λ e. leb 2 (length e.1)) (group_rows [] rows)

-- The columns of a correlation that the upsert writes.
pub record Values : Type 0 where
  pub sources : List String
  pub sources_count : ℕ
  pub confidence : String
  pub source_vuln_ids : SourceVulns

unfoldable pub confidence_band : ℕ → String
confidence_band n = if leb 4 n then "HIGH" else if leb 2 n then "MEDIUM" else "LOW"

-- `{s: str(source_vulns[s]) for s in sources}`
unfoldable pub vuln_ids : List String → SourceVulns → SourceVulns
vuln_ids [] sv = []
vuln_ids (s ∷ ss) sv =
    let rest = vuln_ids ss sv in elim (find_source s sv) [ none ↦ rest | some i ↦ (s, i) ∷ rest ]

unfoldable pub ordered_sources : SourceVulns → List String
ordered_sources sv = filter (λ s. is_some (find_source s sv)) source_order

unfoldable pub correlation_values : SourceVulns → Values
unfolding ordered_sources vuln_ids confidence_band
correlation_values sv =
    let sources = ordered_sources sv in
    record {
      sources = sources;
      sources_count = length sources;
      confidence = confidence_band (length sources);
      source_vuln_ids = vuln_ids sources sv;
    }

-- A row of `vulnerability_correlations`; the table hands out primary keys in order.
pub record Correlation : Type 0 where
  pub id : ℕ
  pub tenant_id : ℕ
  pub key : Key
  pub values : Values

pub record Table : Type 0 where
  pub rows : List Correlation
  pub next_id : ℕ

unfoldable pub at_key : ℕ → Key → Correlation → Bool
at_key tenant_id k r = r.tenant_id == tenant_id && key_eq r.key k

-- `ON CONFLICT ON CONSTRAINT uq_correlation DO UPDATE`
upsert_rows : ℕ → ℕ → Key → Values → List Correlation → List Correlation
upsert_rows new tenant_id k vals [] =
    record { id = new; tenant_id = tenant_id; key = k; values = vals } ∷ []
upsert_rows new tenant_id k vals (r ∷ rs) =
    let rest = upsert_rows new tenant_id k vals rs in
    if at_key tenant_id k r then record r { values = vals } ∷ rs else r ∷ rest

pub upsert : ℕ → Table → Key → Values → Table
unfolding upsert_rows
upsert tenant_id t k vals = record {
  rows = upsert_rows t.next_id tenant_id k vals t.rows;
  next_id = t.next_id + 1;
}

pub upsert_groups : ℕ → Table → Groups → Table
upsert_groups tenant_id t [] = t
upsert_groups tenant_id t ((k, sv) ∷ g) =
    upsert_groups tenant_id (upsert tenant_id t k (correlation_values sv)) g

abbrev pub is_stale : ℕ → Groups → Correlation → Bool
is_stale tenant_id g r = r.tenant_id == tenant_id && not (is_some (find_group r.key g))

pub stale_ids : ℕ → Groups → List Correlation → List ℕ
stale_ids tenant_id g [] = []
stale_ids tenant_id g (r ∷ rs) =
    let rest = stale_ids tenant_id g rs in if is_stale tenant_id g r then r.id ∷ rest else rest

-- `DELETE ... WHERE id IN (stale_ids)`; the count returned is the number of ids.
pub prune_stale_correlations : ℕ → Table → Groups → Table × ℕ
unfolding stale_ids
prune_stale_correlations tenant_id t g =
    let ids = stale_ids tenant_id g t.rows in
    (record t { rows = filter (λ r. not (mem_id r.id ids)) t.rows }, length ids)

pub record Stats : Type 0 where
  pub correlated : ℕ
  pub stale_removed : ℕ

-- `order` is the database's `ORDER BY last_seen_at DESC`.
pub run_correlations : (List Row → List Row) → ℕ → List Vulnerability → Table → Table × Stats
unfolding upsert_groups prune_stale_correlations
run_correlations order tenant_id vulns t =
    let groups = find_correlated_groups (order (select_rows tenant_id vulns)) in
    let (t', stale) =
      prune_stale_correlations tenant_id (upsert_groups tenant_id t groups) groups in
    (t', record { correlated = length groups; stale_removed = stale })

pub find_row : ℕ → Key → List Correlation → Option Correlation
find_row tenant_id k [] = none
find_row tenant_id k (r ∷ rs) = if at_key tenant_id k r then some r else find_row tenant_id k rs

-- The lookup that the API serves; a missing row is `None`.
pub get_correlation_for_vuln : ℕ → Key → Table → Option Correlation
unfolding find_row
get_correlation_for_vuln tenant_id k t = find_row tenant_id k t.rows
