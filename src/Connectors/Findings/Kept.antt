-- ===== src/Connectors/Findings/Kept.antt =====
-- What the upserts of a finding keep: its key, its identity, and its triage.
use getvul.Prelude.{
  ◌≡◌, refl, sym, ◌∙◌, ◌↔◌, ℕ, true, Option, none, some, List, arith, eq_iff, eq_refl, Keyed,
  Upserted, Outcome, upsert_row-Outcome, IsUnique,
}
use mathlib.Core.Option.{some-injective}
use getvul.Connectors.{NormalizedVulnerability}
use getvul.Connectors.Assets.Kept.{same_text_iff, flushed-Outcome}
use getvul.Connectors.Findings.{
  Reference, Enrichment, lookup_enrichment, Finding, FindingKey, on_asset, at_finding,
  refresh_finding, new_finding, upsert_vulnerability, fits_new_finding,
}

abbrev pub finding_id : Finding → ℕ
finding_id f = f.vuln.id

on_asset_iff : (o : Option ℕ) (a : ℕ) → (on_asset o a ≡ true) ↔ (o ≡ some a)
unfolding on_asset
on_asset_iff none a = ground arith
on_asset_iff (some i) a = ground arith

at_finding-parts :
    (k : FindingKey) (f : Finding)
    → at_finding k f ≡ true
    → (f.vuln.tenant_id ≡ k.tenant_id)
      × ((f.vuln.cve_id ≡ k.cve_id)
          × ((f.vuln.asset_id ≡ some k.asset_id) × (f.vuln.source ≡ k.source)))
unfolding at_finding
at_finding-parts k f h = ground (
  arith,
  same_text_iff f.vuln.cve_id k.cve_id,
  on_asset_iff f.vuln.asset_id k.asset_id,
  eq_iff f.vuln.source k.source,
)

FindingKey-ext :
    (j k : FindingKey)
    → j.tenant_id ≡ k.tenant_id
    → j.cve_id ≡ k.cve_id
    → j.asset_id ≡ k.asset_id
    → j.source ≡ k.source
    → j ≡ k
FindingKey-ext j k t c a s =
    λ i. record { tenant_id = t i; cve_id = c i; asset_id = a i; source = s i }

at_finding-only :
    (j k : FindingKey) (f : Finding) → at_finding j f ≡ true → at_finding k f ≡ true → j ≡ k
at_finding-only j k f p q =
    let (t, (c, (a, s))) = at_finding-parts j f p in
    let (t', (c', (a', s'))) = at_finding-parts k f q in
    FindingKey-ext j k (sym t ∙ t') (sym c ∙ c') (some-injective _ _ (sym a ∙ a')) (sym s ∙ s')

module _ (now : ℕ) (k : FindingKey) (e : Enrichment) (v : NormalizedVulnerability) where
  refresh_finding-Keyed : Keyed at_finding finding_id (refresh_finding now e v)
  unfolding at_finding refresh_finding
  refresh_finding-Keyed = record { only = at_finding-only; keep = λ k a. refl; same = λ a. refl }

  new-at_finding : (id : ℕ) → at_finding k (new_finding now id k e v) ≡ true
  unfolding at_finding new_finding on_asset
  new-at_finding id = ground (arith, eq_refl k.source, same_text_iff k.cve_id k.cve_id)

module _ (ref : Reference) (now id : ℕ) (k : FindingKey) (v : NormalizedVulnerability) where
  pub upsert_vulnerability-Outcome :
      (findings : List Finding)
      → IsUnique at_finding findings
      → fits_new_finding k.source v ≡ true
      → (u : Upserted Finding) × ((upsert_vulnerability ref now id k v findings ≡ some u)
          × Outcome at_finding finding_id k findings u)
  unfolding upsert_vulnerability fits_new_finding
  upsert_vulnerability-Outcome findings h fits =
      let e = lookup_enrichment ref v.cve_id in
      flushed-Outcome at_finding finding_id k findings _ _ _ fits (ground (arith, fits)) (
        upsert_row-Outcome at_finding finding_id (refresh_finding now e v)
          (refresh_finding-Keyed now k e v) k (new_finding now id k e v) findings
          (new-at_finding now k e v id) h)
