-- ===== src/Connectors/Batch/Totals.antt =====
-- One round of the loop of `run_sync` over the findings, and what the whole loop counts.
use getvul.Prelude.{
  All, ℕ, suc, ◌+◌, ◌≡◌, refl, sym, ap, ◌∙◌, subst, String, Bool, true, false, List, [], ◌∷◌,
  filter, length, arith, ◌==◌, if◌then◌else◌, IsUnique, Outcome, Upserted, length-filter, head_same,
}
use getvul.Connectors.{NormalizedVulnerability, Python}
use getvul.Connectors.Assets.{Asset, at_host, hostname_of, fits_new_host}
use getvul.Connectors.Assets.Kept.{asset_id, upsert_asset-Outcome}
use getvul.Connectors.Findings.{Reference, Finding, at_finding, fits_new_finding}
use getvul.Connectors.Findings.Kept.{finding_id, upsert_vulnerability-Outcome}
use getvul.Connectors.Batch.{
  Inventory, Progress, add_counts, finding_key, after_finding, after_asset, sync_vulnerabilities,
}

-- No two assets of a tenant have one hostname, and no two findings one key.
pub record IsValid (inv : Inventory) : Type 0 where
  pub hosts : IsUnique at_host inv.assets
  pub keys : IsUnique at_finding inv.findings

-- Everything that a report leads to fits its column.
pub record Fits (py : Python) (source : String) (v : NormalizedVulnerability) : Type 0 where
  pub host : fits_new_host py v ≡ true
  pub finding : fits_new_finding source v ≡ true

module _ (py : Python) (tenant_id : ℕ) (source : String) where
  -- The report's asset is there, and the report's finding on it.
  pub record Present (v : NormalizedVulnerability) (inv : Inventory) : Type 0 where
    pub asset : Asset
    pub hosted : filter (at_host (tenant_id, hostname_of py v)) inv.assets ≡ asset ∷ []
    pub finding : Finding
    pub reported :
        filter (at_finding (finding_key tenant_id source v (asset_id asset))) inv.findings
        ≡ finding ∷ []

  -- It reads two tables only.
  pub Present-same :
      (v : NormalizedVulnerability) (inv inv' : Inventory)
      → inv'.assets ≡ inv.assets
      → inv'.findings ≡ inv.findings
      → Present v inv
      → Present v inv'
  Present-same v inv inv' a f p = record {
    asset = p.asset;
    hosted = ap (filter (at_host (tenant_id, hostname_of py v))) a ∙ p.hosted;
    finding = p.finding;
    reported =
        ap (filter (at_finding (finding_key tenant_id source v (asset_id p.asset)))) f ∙ p.reported;
  }

module _ (py : Python) (ref : Reference) (now tenant_id : ℕ) (source : String) where
  -- One round: where it leads, and what it did.
  pub record Round (v : NormalizedVulnerability) (inv : Inventory) : Type 0 where
    pub next : Inventory
    pub created : Bool
    pub runs :
        (vs : List NormalizedVulnerability)
        → sync_vulnerabilities py ref now tenant_id source (v ∷ vs) inv
          ≡ add_counts created (sync_vulnerabilities py ref now tenant_id source vs next)
    pub valid : IsValid next
    pub grown : length next.findings ≡ length inv.findings + (if created then 1 else 0)
    pub self : Present py tenant_id source v next
    pub kept :
        (w : NormalizedVulnerability)
        → Present py tenant_id source w inv
        → Present py tenant_id source w next
    pub known : Present py tenant_id source v inv → created ≡ false
    pub others : (next.misconfigs ≡ inv.misconfigs) × (next.correlations ≡ inv.correlations)

  module _ (v : NormalizedVulnerability) (inv : Inventory) (h : IsValid inv)
      (fits : Fits py source v) where
    round_from :
        (u : Upserted Asset)
        → Outcome at_host asset_id (tenant_id, hostname_of py v) inv.assets u
        → (w : Upserted Finding)
        → Outcome at_finding finding_id
            (finding_key tenant_id source v (asset_id u.row))
            inv.findings
            w
        → ((vs : List NormalizedVulnerability)
            → sync_vulnerabilities py ref now tenant_id source (v ∷ vs) inv
              ≡ add_counts w.created (
                  sync_vulnerabilities py ref now tenant_id source vs (record inv {
                    assets = u.rows;
                    findings = w.rows;
                    next_id = suc (suc inv.next_id);
                  })))
        → Round v inv
    round_from u a w b runs = record {
      next = record inv { assets = u.rows; findings = w.rows; next_id = suc (suc inv.next_id) };
      created = w.created;
      runs = runs;
      others = (refl, refl);
      valid = record { hosts = a.unique; keys = b.unique };
      grown = b.grown;
      self = record { asset = u.row; hosted = a.self; finding = w.row; reported = b.self };
      kept = λ r p.
          let (x, (hosted, same)) = a.kept (tenant_id, hostname_of py r) p.asset p.hosted in
          let (f, (reported, _)) =
            b.kept (finding_key tenant_id source r (asset_id p.asset)) p.finding p.reported in
          record {
            asset = x;
            hosted = hosted;
            finding = f;
            reported =
                subst (λ i. filter (at_finding (finding_key tenant_id source r i)) w.rows ≡ f ∷ [])
                  (sym same) reported;
          };
      known = λ p.
          let (x, (hosted, same)) = a.kept (tenant_id, hostname_of py v) p.asset p.hosted in
          let id_same = sym same ∙ ap asset_id (head_same (sym hosted ∙ a.self)) in
          let one =
            sym (length-filter _ inv.findings)
            ∙ ap length (
                subst
                  (λ i.
                    filter (at_finding (finding_key tenant_id source v i)) inv.findings
                    ≡ p.finding ∷ [])
                  id_same p.reported) in
          b.fresh ∙ ap (λ n. n == 0) one;
    }

    -- A round with values that fit runs to its end.
    pub round : Round v inv
    unfolding sync_vulnerabilities after_asset after_finding
    round =
        let (u, (e, a)) =
          upsert_asset-Outcome py v source inv.next_id tenant_id inv.assets h.hosts fits.host in
        let (w, (e', b)) =
          upsert_vulnerability-Outcome ref now (suc inv.next_id)
            (finding_key tenant_id source v (asset_id u.row)) v inv.findings h.keys fits.finding in
        round_from u a w b (λ vs. rw (e, e') refl)

  added-created :
      (b : Bool) (p : Progress)
      → (add_counts b p).created + (add_counts b p).updated ≡ suc (p.created + p.updated)
  added-created b p = ground arith

  pub record Totals (vs : List NormalizedVulnerability) (inv : Inventory) (p : Progress)
      : Type 0 where
    pub finished : p.raised ≡ false
    pub counted : p.created + p.updated ≡ length vs
    pub grown : length p.inventory.findings ≡ length inv.findings + p.created
    pub valid : IsValid p.inventory
    pub others :
        (p.inventory.misconfigs ≡ inv.misconfigs) × (p.inventory.correlations ≡ inv.correlations)

  add_counts-Totals :
      (b : Bool) (p : Progress) (v : NormalizedVulnerability) (vs : List NormalizedVulnerability)
      (inv next : Inventory)
      → length next.findings ≡ length inv.findings + (if b then 1 else 0)
      → (next.misconfigs ≡ inv.misconfigs) × (next.correlations ≡ inv.correlations)
      → Totals vs next p
      → Totals (v ∷ vs) inv (add_counts b p)
  add_counts-Totals true p v vs inv next g o t = record {
    finished = t.finished;
    counted = omega (arith, t.counted);
    grown = t.grown ∙ omega (arith, g);
    valid = t.valid;
    others = (t.others.0 ∙ o.0, t.others.1 ∙ o.1);
  }
  add_counts-Totals false p v vs inv next g o t = record {
    finished = t.finished;
    counted = omega (arith, t.counted);
    grown = t.grown ∙ omega (arith, g);
    valid = t.valid;
    others = (t.others.0 ∙ o.0, t.others.1 ∙ o.1);
  }

  -- On an inventory where no two assets of a tenant share a hostname and no two findings a key,
  -- the loop over a batch whose
  -- values fit their columns does not raise: it counts every report as created or as updated, adds a
  -- row to the findings for each created one, and leaves such an inventory.
  pub sync_vulnerabilities-Totals :
      (vs : List NormalizedVulnerability) (inv : Inventory)
      → IsValid inv
      → All (Fits py source) vs
      → Totals vs inv (sync_vulnerabilities py ref now tenant_id source vs inv)
  unfolding sync_vulnerabilities
  sync_vulnerabilities-Totals [] inv h fits = record {
    finished = refl;
    counted = refl;
    grown = omega arith;
    valid = h;
    others = (refl, refl);
  }
  sync_vulnerabilities-Totals (v ∷ vs) inv h fits =
      let r = round v inv h fits.0 in
      subst (Totals (v ∷ vs) inv) (sym (r.runs vs)) (
        add_counts-Totals r.created _ v vs inv r.next r.grown r.others
          (sync_vulnerabilities-Totals vs r.next r.valid fits.1))
