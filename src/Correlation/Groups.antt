-- ===== src/Correlation/Groups.antt =====
-- The grouping loop of `_find_correlated_groups`: what a group holds.
use getvul.Prelude.{
  ℕ, String, ◌≡◌, refl, ◌↔◌, Bool, true, ◌&&◌, Option, none, some, List, [], ◌∷◌, ◌++◌, arith,
  str_eq, eq_iff, if◌then◌else◌,
}
use getvul.Correlation.{
  Key, key_eq, SourceVulns, Groups, Row, find_source, find_group, add_source, add_row, group_rows,
}

abbrev pub matches : Key → String → Row → Bool
matches k s r = key_eq r.key k && str_eq r.source s

abbrev pub or_else {ℓ} : {A : Type ℓ} → Option A → Option A → Option A
or_else (some a) o = some a
or_else none o = o

unfoldable pub first_match : Key → String → List Row → Option ℕ
first_match k s [] = none
first_match k s (r ∷ rs) = if matches k s r then some r.vuln_id else first_match k s rs

pub key_eq_iff : (a b : Key) → (key_eq a b ≡ true) ↔ (a ≡ b)
unfolding key_eq
key_eq_iff (c, i) (d, j) = ground (arith, eq_iff c d)

find_source-append :
    (s : String) (sv ws : SourceVulns)
    → find_source s (sv ++ ws) ≡ or_else (find_source s sv) (find_source s ws)
unfolding find_source
find_source-append s [] ws = refl
find_source-append s ((t, i) ∷ sv) ws = ground (arith, find_source-append s sv ws)

pub find_source-add_source :
    (s : String) (r : Row) (sv : SourceVulns)
    → find_source s (add_source r sv)
      ≡ or_else (find_source s sv) (if str_eq r.source s then some r.vuln_id else none)
unfolding add_source
find_source-add_source s r sv =
    ground (arith, find_source-append s sv ((r.source, r.vuln_id) ∷ []), eq_iff r.source s)

-- What a group holds for a source.
abbrev pub source_in : String → Option SourceVulns → Option ℕ
source_in s none = none
source_in s (some sv) = find_source s sv

unfoldable pub group_source : Key → String → Groups → Option ℕ
group_source k s g = source_in s (find_group k g)

group_source-add_row :
    (k : Key) (s : String) (g : Groups) (r : Row)
    → group_source k s (add_row g r)
      ≡ or_else (group_source k s g) (if matches k s r then some r.vuln_id else none)
unfolding group_source add_row find_group
group_source-add_row k s [] r = ground (arith, find_source-add_source s r [])
group_source-add_row k s ((j, sv) ∷ g) r = ground (
  arith,
  group_source-add_row k s g r,
  find_source-add_source s r sv,
  key_eq_iff j r.key,
  key_eq_iff j k,
  key_eq_iff r.key k,
)

group_source-group_rows :
    (k : Key) (s : String) (g : Groups) (rs : List Row)
    → group_source k s (group_rows g rs) ≡ or_else (group_source k s g) (first_match k s rs)
unfolding group_rows first_match
group_source-group_rows k s g [] = ground arith
group_source-group_rows k s g (r ∷ rs) =
    ground (arith, group_source-group_rows k s (add_row g r) rs, group_source-add_row k s g r)

-- The loop keeps, for each pair and each source, the first row that the query returned.
pub group_source-first_match :
    (k : Key) (s : String) (rs : List Row)
    → group_source k s (group_rows [] rs) ≡ first_match k s rs
unfolding group_source find_group
group_source-first_match k s rs = group_source-group_rows k s [] rs
