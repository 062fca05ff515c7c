-- ===== src/Encryption/Rotation.antt =====
-- The rotation as a whole: all rows or none, and nothing lost.
use getvul.Prelude.{ℕ, String, ◌≡◌, refl, Bool, true, false, not, some, List, [], ◌∷◌, arith}
use getvul.Encryption.{
  Crypto, Plains, Connector, Store, Outcome, done, decode_secret, reencrypt_rows,
  preflight_failures, post_failures, count_rotated, count_tenants, finish_rotation,
  rotate_credentials, rotate_valid, open_session, close_session, rollback, commit,
  reencrypt_session, add_audit,
}
use getvul.Encryption.Scan.{IsCrypto, decode-reencrypt, post-reencrypt}

-- Each row with the plaintexts that its fields have under a key.
pub plaintexts : (lib : Crypto) → String → List (Connector lib.Secret) → List (ℕ × ℕ × Plains)
plaintexts lib key [] = []
plaintexts lib key (c ∷ cs) =
    (c.id, c.tenant_id, (decode_secret lib key c.credentials_secret_arn).1) ∷ plaintexts lib key cs

abbrev pub committed : Outcome → Bool
committed (done r) = not r.dry_run
committed _ = false

module _ (lib : Crypto) where
  -- Whatever the parameters do: a rotation that ends in an error, in a crash or as a dry run
  -- leaves every connector row and the audit log as they were, also when the rows were rewritten
  -- in the session before.
  pub rotate_credentials-atomic :
      (old new : String) (dry_run audit : Bool) (entropy : ℕ → String → ℕ) (s : Store lib.Secret)
      → committed (rotate_credentials lib old new dry_run audit entropy s).1 ≡ false
      → (rotate_credentials lib old new dry_run audit entropy s).0 ≡ s
  unfolding rotate_credentials rotate_valid close_session open_session rollback reencrypt_session
      finish_rotation
  rotate_credentials-atomic old new true audit entropy s h = ground arith
  rotate_credentials-atomic old new false audit entropy s h = ground arith

module _ (lib : Crypto) (laws : IsCrypto lib) (new : String)
    (valid : lib.valid_key new ≡ true) where
  post_failures-reencrypt_rows :
      (old : String) (entropy : ℕ → String → ℕ) (cs : List (Connector lib.Secret))
      → post_failures lib new (reencrypt_rows lib old new entropy cs) ≡ some []
  unfolding post_failures reencrypt_rows
  post_failures-reencrypt_rows old entropy [] = refl
  post_failures-reencrypt_rows old entropy (c ∷ cs) = ground (
    arith,
    post-reencrypt lib laws new valid old (entropy c.id) c.credentials_secret_arn,
    post_failures-reencrypt_rows old entropy cs,
  )

  plaintexts-reencrypt_rows :
      (old : String) (entropy : ℕ → String → ℕ) (cs : List (Connector lib.Secret))
      → plaintexts lib new (reencrypt_rows lib old new entropy cs) ≡ plaintexts lib old cs
  unfolding plaintexts reencrypt_rows
  plaintexts-reencrypt_rows old entropy [] = refl
  plaintexts-reencrypt_rows old entropy (c ∷ cs) = rw (
    decode-reencrypt lib laws new valid old (entropy c.id) c.credentials_secret_arn,
    plaintexts-reencrypt_rows old entropy cs,
  )

  pub rotated_rows :
      (old : String) (audit : Bool) (entropy : ℕ → String → ℕ) (s : Store lib.Secret)
      → lib.valid_key old ≡ true
      → preflight_failures lib old s.connectors ≡ []
      → (rotate_credentials lib old new false audit entropy s).0.connectors
        ≡ reencrypt_rows lib old new entropy s.connectors
  unfolding rotate_credentials reencrypt_session finish_rotation add_audit commit
  rotated_rows old audit entropy s known clean =
      ground (arith, post_failures-reencrypt_rows old entropy s.connectors)

  -- For a lawful cipher, codec and JSON module: when both keys are valid and every stored
  -- field decrypts and decodes under the old one, a rotation commits, reports the rows that it
  -- rewrote, and every row reads under the new key the plaintexts that it had under the old
  -- one.
  pub rotate_credentials-preserves :
      (old : String) (audit : Bool) (entropy : ℕ → String → ℕ) (s : Store lib.Secret)
      → lib.valid_key old ≡ true
      → preflight_failures lib old s.connectors ≡ []
      → let (s', outcome) = rotate_credentials lib old new false audit entropy s in
        (outcome
          ≡ done (record {
            rotated = count_rotated lib old s.connectors;
            tenants = count_tenants [] s.connectors;
            dry_run = false;
          }))
        × (plaintexts lib new s'.connectors ≡ plaintexts lib old s.connectors)
  unfolding rotate_credentials reencrypt_session finish_rotation add_audit commit
  rotate_credentials-preserves old audit entropy s known clean =
      let posted = post_failures-reencrypt_rows old entropy s.connectors in
      let kept = plaintexts-reencrypt_rows old entropy s.connectors in (ground arith, ground arith)
