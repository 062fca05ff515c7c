-- ===== src/Encryption/Verify.antt =====
-- The read-only check beside the rotation.
use mathlib.Core.Path.{ap₂}
use getvul.Prelude.{
  ℕ, suc, String, ◌≡◌, refl, ap, ◌∙◌, inl, inr, Bool, true, false, Option, none, some, List, [],
  ◌∷◌, ◌++◌, map, arith, is_some, Option-cases,
}
use getvul.Encryption.{
  Field, text, other, Json, malformed, not_object, object, Crypto, Connector, Store, Verified,
  decode_fields, decode_json, decode_secret, reencrypt_secret, reencrypt_rows, preflight_failures,
  undecryptable, verify_json, count_row, verify_secret, verify_rows, verify_credentials,
  rotate_credentials,
}
use getvul.Encryption.Scan.{IsCrypto, verify-reencrypt}
use getvul.Encryption.Rotation.{rotated_rows}

abbrev listed : Option (List String) → List String
listed none = []
listed (some fs) = fs

failures-count_row :
    (id tenant : ℕ) (o : Option (List String)) (v : Verified)
    → (count_row id tenant o v).failures ≡ map (λ f. (id, tenant, f)) (listed o) ++ v.failures
unfolding count_row
failures-count_row id tenant none v = refl
failures-count_row id tenant (some []) v = refl
failures-count_row id tenant (some (f ∷ fs)) v = refl

module _ (lib : Crypto) (utf8 : (b : lib.Bytes) → is_some (lib.decode_utf8 b) ≡ true) where
  undecryptable-decode_fields :
      (key : String) (fs : List (String × Field lib.Cipher))
      → undecryptable lib key fs ≡ (decode_fields lib key fs).0
  unfolding undecryptable decode_fields
  undecryptable-decode_fields key [] = refl
  undecryptable-decode_fields key ((f, other) ∷ fs) =
      ap (λ r. f ∷ r) (undecryptable-decode_fields key fs)
  undecryptable-decode_fields key ((f, text c) ∷ fs) = elim (Option-cases (lib.decrypt key c)) [
    | inl e ↦ ground (arith, undecryptable-decode_fields key fs)
    | inr (b, e) ↦ ground (arith, undecryptable-decode_fields key fs, utf8 b)
  ]

  verify_json-decode_json :
      (key : String) (j : Json lib.Cipher) → verify_json lib key j ≡ (decode_json lib key j).0
  unfolding verify_json decode_json
  verify_json-decode_json key malformed = refl
  verify_json-decode_json key not_object = refl
  verify_json-decode_json key (object fs) = undecryptable-decode_fields key fs

  -- When every plaintext is UTF-8, `verify` reports under a key exactly the failures on which a
  -- rotation from that key stops, in the same order.
  pub verify_rows-preflight :
      (key : String) (cs : List (Connector lib.Secret))
      → (verify_rows lib key cs).failures ≡ preflight_failures lib key cs
  unfolding verify_rows preflight_failures verify_secret decode_secret
  verify_rows-preflight key [] = refl
  verify_rows-preflight key (c ∷ cs) = elim (Option-cases c.credentials_secret_arn) [
    | inl e ↦ ground (arith, verify_rows-preflight key cs)
    | inr (secret, e) ↦
        failures-count_row c.id c.tenant_id (verify_secret lib key c.credentials_secret_arn)
          (verify_rows lib key cs)
        ∙ ap₂ (λ fs more. map (λ f. (c.id, c.tenant_id, f)) fs ++ more)
            (ground (arith, verify_json-decode_json key (lib.loads secret)))
            (verify_rows-preflight key cs)
  ]

abbrev pub count_secrets : {S : Type 0} → List (Connector S) → ℕ
count_secrets [] = 0
count_secrets (c ∷ cs) =
    let rest = count_secrets cs in elim c.credentials_secret_arn [ none ↦ rest | some _ ↦ suc rest ]

module _ (lib : Crypto) (laws : IsCrypto lib) (new : String)
    (valid : lib.valid_key new ≡ true) where
  verify_secret-reencrypt :
      (old : String) (entropy : String → ℕ) (o : Option lib.Secret)
      → verify_secret lib new (reencrypt_secret lib old new entropy o)
        ≡ elim o [ none ↦ none | some _ ↦ some [] ]
  unfolding verify_secret reencrypt_secret
  verify_secret-reencrypt old entropy none = refl
  verify_secret-reencrypt old entropy (some secret) =
      ap some (verify-reencrypt lib laws new valid old entropy secret)

  verify_rows-reencrypt_rows :
      (old : String) (entropy : ℕ → String → ℕ) (cs : List (Connector lib.Secret))
      → verify_rows lib new (reencrypt_rows lib old new entropy cs)
        ≡ record { ok = count_secrets cs; failing = 0; failures = [] }
  unfolding verify_rows reencrypt_rows
  verify_rows-reencrypt_rows old entropy [] = refl
  verify_rows-reencrypt_rows old entropy (c ∷ cs) = ground (
    arith,
    verify_secret-reencrypt old (entropy c.id) c.credentials_secret_arn,
    verify_rows-reencrypt_rows old entropy cs,
  )

  -- For a lawful cipher, codec and JSON module: after a rotation between valid keys that
  -- started from a clean pre-flight, the verification under the new key counts every row with
  -- a secret as good and none as failing.
  pub verify_credentials-rotate_credentials :
      (old : String) (audit : Bool) (entropy : ℕ → String → ℕ) (s : Store lib.Secret)
      → lib.valid_key old ≡ true
      → preflight_failures lib old s.connectors ≡ []
      → verify_credentials lib new (rotate_credentials lib old new false audit entropy s).0
        ≡ some (record { ok = count_secrets s.connectors; failing = 0; failures = [] })
  unfolding verify_credentials
  verify_credentials-rotate_credentials old audit entropy s known clean = ground (
    arith,
    valid,
    rotated_rows lib laws new valid old audit entropy s known clean,
    verify_rows-reencrypt_rows old entropy s.connectors,
  )
