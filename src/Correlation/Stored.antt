-- ===== src/Correlation/Stored.antt =====
-- The stored correlations, described by the rows that the query returned.
use getvul.Prelude.{
  ℕ, zero, suc, String, ◌≡◌, refl, sym, ap, ◌∙◌, ◌↔◌, inl, inr, true, Option, none, some, List, [],
  ◌∷◌, filter, length, leb, arith, Option-cases, is_some,
}
use getvul.Models.{Vulnerability}
use getvul.Correlation.{
  Key, SourceVulns, Row, Values, Correlation, Table, source_order, find_group, find_source,
  group_rows, find_correlated_groups, select_rows, correlation_values, vuln_ids, ordered_sources,
  confidence_band, run_correlations, get_correlation_for_vuln,
}
use getvul.Correlation.Groups.{group_source, group_source-first_match, first_match}
use getvul.Correlation.Upserts.{IsValid}
use getvul.Correlation.Distinct.{
  TwoSources, TwoSources-of_length, length_of_TwoSources, find_group-GroupsOnce,
  group_rows-GroupsOnce,
}
use getvul.Correlation.Sync.{after-view, find_group-correlated, shared_only}
use mathlib.Core.Path.{fun_ext, subst}

-- The vulnerability that stands for each source, by the query's own order.
abbrev pub linked : List String → (String → Option ℕ) → SourceVulns
linked [] f = []
linked (s ∷ ss) f = let rest = linked ss f in elim (f s) [ none ↦ rest | some i ↦ (s, i) ∷ rest ]

vuln_ids-linked :
    (ss : List String) (sv : SourceVulns) → vuln_ids ss sv ≡ linked ss (λ s. find_source s sv)
unfolding vuln_ids
vuln_ids-linked [] sv = refl
vuln_ids-linked (s ∷ ss) sv = ground (arith, vuln_ids-linked ss sv)

-- The scanners, in the canonical order.
abbrev pub known_sources : List String
known_sources = "CROWDSTRIKE" ∷ "NESSUS" ∷ "DEFENDER" ∷ "WIZ" ∷ "QUALYS" ∷ "RAPID7" ∷ []

-- HIGH from four sources on, MEDIUM for two or three.
pub band : ℕ → String
band zero = "LOW"
band (suc zero) = "LOW"
band (suc (suc zero)) = "MEDIUM"
band (suc (suc (suc zero))) = "MEDIUM"
band (suc (suc (suc (suc n)))) = "HIGH"

confidence_band-band : (n : ℕ) → confidence_band n ≡ band n
unfolding confidence_band band
confidence_band-band zero = refl
confidence_band-band (suc zero) = refl
confidence_band-band (suc (suc zero)) = refl
confidence_band-band (suc (suc (suc zero))) = refl
confidence_band-band (suc (suc (suc (suc n)))) = ground arith

-- The columns of a correlation, from the vulnerability that stands for each source.
abbrev pub expected : (String → Option ℕ) → Values
expected f =
    let sources = filter (λ s. is_some (f s)) known_sources in
    record {
      sources = sources;
      sources_count = length sources;
      confidence = band (length sources);
      source_vuln_ids = linked sources f;
    }

values-expected_self : (sv : SourceVulns) → correlation_values sv ≡ expected (λ s. find_source s sv)
unfolding correlation_values source_order
values-expected_self sv =
    rw (vuln_ids-linked (ordered_sources sv) sv, confidence_band-band (length (ordered_sources sv)))
      refl

values-expected :
    (sv : SourceVulns) (f : String → Option ℕ)
    → ((s : String) → find_source s sv ≡ f s)
    → correlation_values sv ≡ expected f
values-expected sv f h = values-expected_self sv ∙ ap expected (fun_ext h)

-- The group of a pair is its rows' first matches.
group-first_match :
    (k : Key) (rows : List Row) (sv : SourceVulns)
    → find_group k (group_rows [] rows) ≡ some sv
    → (s : String) → find_source s sv ≡ first_match k s rows
unfolding group_source
group-first_match k rows sv e s = ground (arith, group_source-first_match k s rows)

no_group-first_match :
    (k : Key) (rows : List Row)
    → find_group k (group_rows [] rows) ≡ none
    → (s : String) → first_match k s rows ≡ none
unfolding group_source
no_group-first_match k rows e s = ground (arith, group_source-first_match k s rows)

correlated_iff :
    (k : Key) (rows : List Row)
    → (is_some (find_group k (find_correlated_groups rows)) ≡ true)
      ↔ TwoSources (λ s. first_match k s rows)
correlated_iff k rows = elim (Option-cases (find_group k (group_rows [] rows))) [
  | inl e ↦ (
    (λ h. cc (h, find_group-correlated k rows, ap shared_only e)),
    (λ h. let (s, u, n, a, b) = h in cc (a, no_group-first_match k rows e s)),
  )
  | inr (sv, e) ↦
      let same : ◌≡◌ {A = String → Option ℕ} (λ s. find_source s sv) (λ s. first_match k s rows) =
        fun_ext (group-first_match k rows sv e) in
      (
        (λ h. subst TwoSources same (
            TwoSources-of_length sv
              (find_group-GroupsOnce k (group_rows [] rows) sv (group_rows-GroupsOnce [] rows tt) e)
              (ground (arith, find_group-correlated k rows)))),
        (λ h.
            let two : leb 2 (length sv) ≡ true =
              length_of_TwoSources sv (subst TwoSources (sym same) h) in
            ground (arith, find_group-correlated k rows)),
      )
]

module _ (order : List Row → List Row) (tn : ℕ) (vulns : List Vulnerability) (t : Table)
    (k : Key) where
  -- On a table with distinct primary keys below the next one: after a tenant's run, the lookup
  -- of a pair finds a correlation exactly when the tenant's open findings of that pair come
  -- from two different sources.
  pub stored_iff :
      IsValid t
      → (is_some (get_correlation_for_vuln tn k (run_correlations order tn vulns t).0) ≡ true)
        ↔ TwoSources (λ s. first_match k s (order (select_rows tn vulns)))
  stored_iff v =
      let rows = order (select_rows tn vulns) in
      let view = after-view order tn vulns t k v in
      (
        (λ h. (correlated_iff k rows).0 (ground (arith, view))),
        (λ h. let c = (correlated_iff k rows).1 h in ground (arith, view)),
      )

  -- On a table with distinct primary keys below the next one: a correlation that the lookup
  -- finds after a tenant's run has the sources of the pair's open findings that are one of the
  -- six scanners, in the canonical order, their number, the confidence HIGH from four of them on,
  -- MEDIUM for two or three, and for each source the first finding
  -- that the query returned.
  pub stored_values :
      IsValid t
      → (r : Correlation)
      → get_correlation_for_vuln tn k (run_correlations order tn vulns t).0 ≡ some r
      → r.values ≡ expected (λ s. first_match k s (order (select_rows tn vulns)))
  stored_values v r e =
      let rows = order (select_rows tn vulns) in
      let view = after-view order tn vulns t k v in
      elim (Option-cases (find_group k (group_rows [] rows))) [
        | inl n ↦ cc (e, view, find_group-correlated k rows, ap shared_only n)
        | inr (sv, n) ↦ ground (
          arith,
          view,
          find_group-correlated k rows,
          values-expected sv _ (group-first_match k rows sv n),
        )
      ]
