-- ===== src/Connectors/Findings/Triage.antt =====
-- What `_upsert_vulnerability` writes, and what it leaves to the triage.
use getvul.Prelude.{
  true, Bool-cases, inl, inr, if◌then◌else◌, ℕ, ◌≡◌, refl, sym, ap, ◌∙◌, String, Bool, false, not,
  ◌&&◌, Option, none, some, List, [], ◌∷◌, filter, str_eq, arith, IsUnique, Upserted,
  upsert_row-Upserts, Upserts-row, head_same,
}
use getvul.Connectors.{NormalizedVulnerability, flushed}
use getvul.Connectors.Findings.{
  Reference, EpssScore, is_listed, find_epss, enrichment_of, lookup_cve, lookup_enrichment, Finding,
  FindingKey, at_finding, refresh_finding, new_finding, upsert_vulnerability, fits_new_finding,
  fits_known_finding,
}
use getvul.Connectors.Findings.Kept.{upsert_vulnerability-Outcome}

-- The catalogue's word on a CVE.
abbrev pub in_catalogue : Reference → Option String → Bool
in_catalogue ref none = false
in_catalogue ref (some cve_id) = not (str_eq cve_id "") && is_listed ref cve_id

enrichment_of-kev : (o : Option EpssScore) (kev : Bool) → (enrichment_of o kev).cisa_kev ≡ kev
unfolding enrichment_of
enrichment_of-kev none kev = refl
enrichment_of-kev (some e) kev = refl

pub lookup_enrichment-kev :
    (ref : Reference) (cve_id : Option String)
    → (lookup_enrichment ref cve_id).cisa_kev ≡ in_catalogue ref cve_id
unfolding lookup_enrichment lookup_cve
lookup_enrichment-kev ref none = enrichment_of-kev none false
lookup_enrichment-kev ref (some c) = ground (
  arith,
  enrichment_of-kev none false,
  enrichment_of-kev (find_epss c ref.epss_scores) (is_listed ref c),
)

-- What a flush lets through.
flushed-some :
    {A : Type 0} (a b : Bool) (o : Option (Upserted A)) (u : Upserted A)
    → flushed a b o ≡ some u
    → o ≡ some u
unfolding flushed
flushed-some a b none u e = e
flushed-some a b (some w) u e = elim (Bool-cases (if w.created then a else b)) [
  | inl h ↦ rw h at e
  | inr h ↦ cc
]

-- The columns that triage owns are the same.
pub record SameTriage (f g : Finding) : Type 0 where
  pub id : g.vuln.id ≡ f.vuln.id
  pub status : g.vuln.status ≡ f.vuln.status
  pub detected : g.vuln.first_detected_at ≡ f.vuln.first_detected_at
  pub remediated : g.vuln.remediated_at ≡ f.vuln.remediated_at
  pub due : g.vuln.sla_due_at ≡ f.vuln.sla_due_at
  pub breached : g.vuln.sla_breached ≡ f.vuln.sla_breached

-- The report is in the row.
pub record Reported (ref : Reference) (now : ℕ) (v : NormalizedVulnerability) (g : Finding)
    : Type 0 where
  pub kev : g.vuln.cisa_kev ≡ in_catalogue ref v.cve_id
  pub severity : g.vuln.severity ≡ v.severity
  pub exploit : g.vuln.exploit_available ≡ v.exploit_available
  pub seen : g.vuln.last_seen_at ≡ now

module _ (ref : Reference) (now id : ℕ) (k : FindingKey) (v : NormalizedVulnerability) where
  refresh_finding-Reported :
      (f : Finding) → Reported ref now v (refresh_finding now (lookup_enrichment ref v.cve_id) v f)
  unfolding refresh_finding
  refresh_finding-Reported f = record {
    kev = lookup_enrichment-kev ref v.cve_id;
    severity = refl;
    exploit = refl;
    seen = refl;
  }

  new_finding-Reported :
      Reported ref now v (new_finding now id k (lookup_enrichment ref v.cve_id) v)
  unfolding new_finding
  new_finding-Reported = record {
    kev = lookup_enrichment-kev ref v.cve_id;
    severity = refl;
    exploit = refl;
    seen = refl;
  }

  refresh_finding-SameTriage :
      (x f : Finding)
      → x ≡ f
      → SameTriage f (refresh_finding now (lookup_enrichment ref v.cve_id) v x)
  unfolding refresh_finding
  refresh_finding-SameTriage x f e = record {
    id = ap (λ (g : Finding). g.vuln.id) e;
    status = ap (λ (g : Finding). g.vuln.status) e;
    detected = ap (λ (g : Finding). g.vuln.first_detected_at) e;
    remediated = ap (λ (g : Finding). g.vuln.remediated_at) e;
    due = ap (λ (g : Finding). g.vuln.sla_due_at) e;
    breached = ap (λ (g : Finding). g.vuln.sla_breached) e;
  }

  -- On findings with distinct keys, an upsert of a report whose values fit their columns ends with one row at the key. It says KEV exactly
  -- when the CISA catalogue lists the CVE, whatever the connector guesses, and has the reported
  -- severity, exploit and time. If there was a row, its status (REMEDIATED or suppressed ones
  -- included), its first detection, its remediation and its deadline are kept.
  pub upsert_vulnerability-triage :
      (findings : List Finding)
      → IsUnique at_finding findings
      → fits_new_finding k.source v ≡ true
      → (u : Upserted Finding) × ((upsert_vulnerability ref now id k v findings ≡ some u)
          × ((filter (at_finding k) u.rows ≡ u.row ∷ [])
              × (Reported ref now v u.row
                  × ((f : Finding)
                      → filter (at_finding k) findings ≡ f ∷ []
                      → SameTriage f u.row))))
  unfolding upsert_vulnerability
  upsert_vulnerability-triage findings h fits =
      let (u, (e, o)) = upsert_vulnerability-Outcome ref now id k v findings h fits in
      let e' = flushed-some (fits_new_finding k.source v) (fits_known_finding v) _ u e in
      let s =
        upsert_row-Upserts (at_finding k) (refresh_finding now (lookup_enrichment ref v.cve_id) v)
          (new_finding now id k (lookup_enrichment ref v.cve_id) v) findings (h k) in
      (
        u,
        (
          e,
          (
            o.self,
            (
              Upserts-row (Reported ref now v) _ _ _ findings _ u s e' (λ _. new_finding-Reported)
                  (λ x _. refresh_finding-Reported x),
              λ f m.
                  Upserts-row (SameTriage f) _ _ _ findings _ u s e' (λ n. absurd cc)
                    (λ x n. refresh_finding-SameTriage x f (head_same (sym n ∙ m))),
            ),
          ),
        ),
      )
