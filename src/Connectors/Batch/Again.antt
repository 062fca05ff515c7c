-- ===== src/Connectors/Batch/Again.antt =====
-- A batch that is synced again.
use getvul.Prelude.{
  ℕ, ◌≡◌, refl, sym, ap, ◌∙◌, subst, String, Bool, true, false, List, [], ◌∷◌, All, All-map, length,
  arith,
}
use getvul.Connectors.{NormalizedVulnerability, Python}
use getvul.Connectors.Findings.{Reference}
use getvul.Connectors.Batch.{Inventory, Progress, add_counts, sync_vulnerabilities}
use getvul.Connectors.Batch.Totals.{Fits, IsValid, Present, round, sync_vulnerabilities-Totals}

module _ (py : Python) (ref : Reference) (now tenant_id : ℕ) (source : String) where
  abbrev loop : List NormalizedVulnerability → Inventory → Progress
  loop = sync_vulnerabilities py ref now tenant_id source

  kept_inventory : (b : Bool) (p : Progress) → (add_counts b p).inventory ≡ p.inventory
  kept_inventory true p = refl
  kept_inventory false p = refl

  -- What is there stays there.
  pub loop-Present :
      (w : NormalizedVulnerability) (vs : List NormalizedVulnerability) (inv : Inventory)
      → IsValid inv
      → All (Fits py source) vs
      → Present py tenant_id source w inv
      → Present py tenant_id source w (loop vs inv).inventory
  unfolding sync_vulnerabilities
  loop-Present w [] inv h fits p = p
  loop-Present w (v ∷ vs) inv h fits p =
      let r = round py ref now tenant_id source v inv h fits.0 in
      subst (Present py tenant_id source w)
        (sym (ap (λ (q : Progress). q.inventory) (r.runs vs) ∙ kept_inventory r.created _))
        (loop-Present w vs r.next r.valid fits.1 (r.kept w p))

  -- After the loop the whole batch is there.
  pub loop-All :
      (vs : List NormalizedVulnerability) (inv : Inventory)
      → IsValid inv
      → All (Fits py source) vs
      → All (λ v. Present py tenant_id source v (loop vs inv).inventory) vs
  loop-All [] inv h fits = tt
  loop-All (v ∷ vs) inv h fits =
      let r = round py ref now tenant_id source v inv h fits.0 in
      subst (λ (i : Inventory). All (λ w. Present py tenant_id source w i) (v ∷ vs))
        (sym (ap (λ (q : Progress). q.inventory) (r.runs vs) ∙ kept_inventory r.created _))
        (loop-Present v vs r.next r.valid fits.1 r.self, loop-All vs r.next r.valid fits.1)

  -- A batch that is there creates nothing.
  known-created :
      (vs : List NormalizedVulnerability) (inv : Inventory)
      → IsValid inv
      → All (Fits py source) vs
      → All (λ v. Present py tenant_id source v inv) vs
      → (loop vs inv).created ≡ 0
  unfolding sync_vulnerabilities
  known-created [] inv h fits p = refl
  known-created (v ∷ vs) inv h fits p =
      let r = round py ref now tenant_id source v inv h fits.0 in
      ap (λ (q : Progress). q.created)
        (r.runs vs ∙ ap (λ (b : Bool). add_counts b (loop vs r.next)) (r.known p.0))
      ∙ known-created vs r.next r.valid fits.1 (
          All-map (λ v. Present py tenant_id source v inv)
            (λ v. Present py tenant_id source v r.next) vs r.kept p.1)

-- On an inventory where no two assets of a tenant share a hostname and no two findings a key, a
-- batch whose values fit their columns and that is synced a second time, at whatever time and with whatever reference tables,
-- creates no finding: every report is counted as an update.
pub sync_vulnerabilities-again :
    (py : Python) (tenant_id : ℕ) (source : String) (ref ref' : Reference) (now now' : ℕ)
    (vs : List NormalizedVulnerability) (inv : Inventory)
    → IsValid inv
    → All (Fits py source) vs
    → let once = (sync_vulnerabilities py ref now tenant_id source vs inv).inventory in
      let twice = sync_vulnerabilities py ref' now' tenant_id source vs once in
      (twice.created ≡ 0)
      × ((twice.updated ≡ length vs) × (length twice.inventory.findings ≡ length once.findings))
sync_vulnerabilities-again py tenant_id source ref ref' now now' vs inv h fits =
    let once = sync_vulnerabilities-Totals py ref now tenant_id source vs inv h fits in
    let none_new =
      known-created py ref' now' tenant_id source vs _ once.valid fits
        (loop-All py ref now tenant_id source vs inv h fits) in
    let twice = sync_vulnerabilities-Totals py ref' now' tenant_id source vs _ once.valid fits in
    (none_new, (omega (arith, none_new, twice.counted), omega (arith, none_new, twice.grown)))
