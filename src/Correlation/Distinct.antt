-- ===== src/Correlation/Distinct.antt =====
-- A group of two or more entries is one with two different sources.
use getvul.Prelude.{
  ℕ, ◌≢◌, String, ◌≡◌, refl, inl, inr, true, false, Option, none, some, List, [], ◌∷◌, ◌++◌, length,
  leb, arith, Bool-cases, is_some, str_eq, eq_iff,
}
use getvul.Correlation.{
  Key, key_eq, Groups, SourceVulns, Row, find_group, find_source, add_source, add_row, group_rows,
}

-- A dict has each source once.
abbrev pub HasSourcesOnce : SourceVulns → Type 0
HasSourcesOnce [] = Unit
HasSourcesOnce ((s, i) ∷ sv) = (find_source s sv ≡ none) × HasSourcesOnce sv

find_source-append_ne :
    (s u : String) (i : ℕ) (sv : SourceVulns)
    → str_eq u s ≡ false
    → find_source s sv ≡ none
    → find_source s (sv ++ (u, i) ∷ []) ≡ none
unfolding find_source
find_source-append_ne s u i [] n h = ground arith
find_source-append_ne s u i ((v, j) ∷ sv) n h = ground (arith, find_source-append_ne s u i sv)

append-HasSourcesOnce :
    (u : String) (i : ℕ) (sv : SourceVulns)
    → find_source u sv ≡ none
    → HasSourcesOnce sv
    → HasSourcesOnce (sv ++ (u, i) ∷ [])
unfolding find_source
append-HasSourcesOnce u i [] n h = (refl, tt)
append-HasSourcesOnce u i ((v, j) ∷ sv) n h = (
  find_source-append_ne v u i sv (ground (arith, eq_iff u v, eq_iff v u)) h.0,
  append-HasSourcesOnce u i sv (ground arith) h.1,
)

add_source-HasSourcesOnce :
    (r : Row) (sv : SourceVulns) → HasSourcesOnce sv → HasSourcesOnce (add_source r sv)
unfolding add_source
add_source-HasSourcesOnce r sv h = elim (Bool-cases (is_some (find_source r.source sv))) [
  | inl e ↦ rw e h
  | inr e ↦ rw e (append-HasSourcesOnce r.source r.vuln_id sv (ground arith) h)
]

abbrev pub GroupsOnce : Groups → Type 0
GroupsOnce [] = Unit
GroupsOnce ((k, sv) ∷ g) = HasSourcesOnce sv × GroupsOnce g

add_row-GroupsOnce : (g : Groups) (r : Row) → GroupsOnce g → GroupsOnce (add_row g r)
unfolding add_row
add_row-GroupsOnce [] r h = (add_source-HasSourcesOnce r [] tt, tt)
add_row-GroupsOnce ((k, sv) ∷ g) r h = elim (Bool-cases (key_eq k r.key)) [
  | inl e ↦ rw e (add_source-HasSourcesOnce r sv h.0, h.1)
  | inr e ↦ rw e (h.0, add_row-GroupsOnce g r h.1)
]

pub group_rows-GroupsOnce :
    (g : Groups) (rs : List Row) → GroupsOnce g → GroupsOnce (group_rows g rs)
unfolding group_rows
group_rows-GroupsOnce g [] h = h
group_rows-GroupsOnce g (r ∷ rs) h =
    group_rows-GroupsOnce (add_row g r) rs (add_row-GroupsOnce g r h)

pub find_group-GroupsOnce :
    (k : Key) (g : Groups) (sv : SourceVulns)
    → GroupsOnce g
    → find_group k g ≡ some sv
    → HasSourcesOnce sv
unfolding find_group
find_group-GroupsOnce k [] sv h e = cc
find_group-GroupsOnce k ((j, w) ∷ g) sv h e = elim (Bool-cases (key_eq j k)) [
  | inl m ↦ let same : w ≡ sv = ground arith in rw (← same) h.0
  | inr m ↦ find_group-GroupsOnce k g sv h.1 (ground arith)
]

-- Two different sources with an entry each.
abbrev pub TwoSources : (String → Option ℕ) → Type 0
TwoSources f =
    (s : String) × (u : String) × (s ≢ u) × (is_some (f s) ≡ true) × (is_some (f u) ≡ true)

pub TwoSources-of_length :
    (sv : SourceVulns)
    → HasSourcesOnce sv
    → leb 2 (length sv) ≡ true
    → TwoSources (λ s. find_source s sv)
unfolding find_source
TwoSources-of_length [] h e = cc
TwoSources-of_length ((s, i) ∷ []) h e = absurd (ground arith)
TwoSources-of_length ((s, i) ∷ (u, j) ∷ sv) h e = (
  s,
  u,
  (λ p. ground (arith, eq_iff s u, eq_iff u s, h.0)),
  ground (arith, eq_iff s s),
  ground (arith, eq_iff u u, eq_iff s u),
)

pub length_of_TwoSources :
    (sv : SourceVulns) → TwoSources (λ s. find_source s sv) → leb 2 (length sv) ≡ true
unfolding find_source
length_of_TwoSources [] (s, u, n, a, b) = cc a
length_of_TwoSources ((v, i) ∷ []) (s, u, n, a, b) = ground (arith, eq_iff v s, eq_iff v u)
length_of_TwoSources ((v, i) ∷ (w, j) ∷ sv) h = ground arith
