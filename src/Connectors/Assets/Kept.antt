-- ===== src/Connectors/Assets/Kept.antt =====
-- What `_upsert_asset` keeps: the key, the identity, and what an admin has set.
use getvul.Prelude.{
  Bool, false, if◌then◌else◌, ◌≡◌, refl, ℕ, String, true, Option, none, some, List, arith, eq_iff,
  eq_refl, Keyed, Upserted, Outcome, upsert_row-Outcome, ◌↔◌, IsUnique,
}
use getvul.Exposure.{apply_inference_to_asset}
use getvul.Connectors.{NormalizedVulnerability, Python, same_text, flushed}
use getvul.Connectors.Assets.{
  Asset, HostKey, at_host, hostname_of, new_asset, refresh_asset, infer_context, upsert_asset,
  fits_new_host,
}

abbrev pub asset_id : Asset → ℕ
asset_id a = a.context.id

pub same_text_iff : (a b : Option String) → (same_text a b ≡ true) ↔ (a ≡ b)
unfolding same_text
same_text_iff none none = ground arith
same_text_iff none (some b) = ground arith
same_text_iff (some a) none = ground arith
same_text_iff (some a) (some b) = ground (arith, eq_iff a b)

both :
    {A : Type 0} (b : Bool) (a : A) → (if (if b then true else true) then some a else none) ≡ some a
both true a = refl
both false a = refl

-- A flush of values that fit changes nothing.
pub flushed-Outcome :
    {K A : Type 0} (at : K → A → Bool) (key : A → ℕ) (k : K) (xs : List A) (a b : Bool)
    (o : Option (Upserted A))
    → a ≡ true
    → b ≡ true
    → (u : Upserted A) × ((o ≡ some u) × Outcome at key k xs u)
    → (u : Upserted A) × ((flushed a b o ≡ some u) × Outcome at key k xs u)
unfolding flushed
flushed-Outcome at key k xs a b o p q (u, (e, out)) = (u, (rw (e, p, q) (both u.created u), out))

at_host-only : (j k : HostKey) (a : Asset) → at_host j a ≡ true → at_host k a ≡ true → j ≡ k
unfolding at_host
at_host-only (t, h) (u, g) a p q =
    ground (arith, same_text_iff a.hostname (some h), same_text_iff a.hostname (some g))

module _ (py : Python) (v : NormalizedVulnerability) (source : String) where
  abbrev pub change_asset : Asset → Asset
  change_asset a = infer_context py (refresh_asset py v source a)

  change_asset-Keyed : Keyed at_host asset_id change_asset
  unfolding at_host infer_context refresh_asset apply_inference_to_asset
  change_asset-Keyed = record { only = at_host-only; keep = λ k a. refl; same = λ a. refl }

  module _ (id tenant_id : ℕ) where
    new-at_host :
        at_host
          (tenant_id, hostname_of py v)
          (infer_context py (new_asset py id tenant_id v source))
        ≡ true
    unfolding at_host infer_context new_asset apply_inference_to_asset same_text
    new-at_host = ground (arith, eq_refl (hostname_of py v))

    pub upsert_asset-Outcome :
        (assets : List Asset)
        → IsUnique at_host assets
        → fits_new_host py v ≡ true
        → (u : Upserted Asset) × ((upsert_asset py id tenant_id v source assets ≡ some u)
            × Outcome at_host asset_id (tenant_id, hostname_of py v) assets u)
    unfolding upsert_asset fits_new_host
    upsert_asset-Outcome assets h fits =
        flushed-Outcome at_host asset_id (tenant_id, hostname_of py v) assets _ _ _ fits
          (ground (arith, fits))
          (upsert_row-Outcome at_host asset_id change_asset change_asset-Keyed
            (tenant_id, hostname_of py v) (infer_context py (new_asset py id tenant_id v source))
            assets new-at_host h)
