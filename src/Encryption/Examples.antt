-- ===== src/Encryption/Examples.antt =====
-- A toy cipher that keeps the key beside the plaintext, and a store of two connectors.
use getvul.Prelude.{
  ℕ, ◌≡◌, refl, String, true, false, not, Option, none, some, List, [], ◌∷◌, arith, ap, str_eq,
  if◌then◌else◌,
}
use mathlib.Core.Path.{subst}
use text.Mathlib.TextPositions.{eq_refl}
use getvul.Encryption.{
  Field, Json, object, Crypto, Connector, Store, Outcome, done, Verified, count_rotated,
  count_tenants, preflight_failures, rotate_credentials, verify_rows, verify_credentials,
}
use getvul.Encryption.Scan.{IsCrypto, IsDict, as_fields, has_key}
use getvul.Encryption.Rotation.{
  committed, plaintexts, rotate_credentials-atomic, rotate_credentials-preserves,
}
use getvul.Encryption.Verify.{verify_credentials-rotate_credentials, count_secrets}

abbrev open_box : String → String × String → Option String
open_box key (k, b) = if str_eq k key then some b else none

abbrev Secrets : Type 0
Secrets = List (String × (String × String))

-- Of two entries with the same key the later one counts.
abbrev dedup : Secrets → Secrets
dedup [] = []
dedup ((k, c) ∷ m) = let rest = dedup m in if has_key k rest then rest else (k, c) ∷ rest

abbrev box : Crypto
box = record {
  Bytes = String;
  Cipher = String × String;
  Secret = Secrets;
  valid_key = λ k. not (str_eq k "");
  decrypt = open_box;
  encrypt = λ k _ b. (k, b);
  encode_utf8 = λ s. s;
  decode_utf8 = λ b. some b;
  loads = λ m. object (as_fields (dedup m));
  dumps = λ m. m;
}

dedup-IsDict : (m : Secrets) → IsDict (dedup m)
dedup-IsDict [] = tt
dedup-IsDict ((k, c) ∷ m) = ground (arith, dedup-IsDict m)

dedup_same : (m : Secrets) → IsDict m → dedup m ≡ m
dedup_same [] h = refl
dedup_same ((k, c) ∷ m) h = rw (dedup_same m h.1, h.0) refl

has_key-as_fields : (k : String) (m : Secrets) → has_key k (as_fields m) ≡ has_key k m
has_key-as_fields k [] = refl
has_key-as_fields k ((j, c) ∷ m) = rw (has_key-as_fields k m) refl

as_fields-IsDict : (m : Secrets) → IsDict m → IsDict (as_fields m)
as_fields-IsDict [] h = tt
as_fields-IsDict ((k, c) ∷ m) h = (rw (has_key-as_fields k m) h.0, as_fields-IsDict m h.1)

abbrev payload : Json (String × String) → List (String × Field (String × String))
payload (object m) = m
payload _ = []

box-IsCrypto : IsCrypto box
box-IsCrypto = record {
  decrypt-encrypt = λ key entropy b v. rw (eq_refl key) refl;
  decode-encode = λ p. refl;
  loads-dumps = λ m h. rw (dedup_same m h) refl;
  loads-IsDict = λ secret m e.
      subst IsDict (ap payload e) (as_fields-IsDict (dedup secret) (dedup-IsDict secret));
}

abbrev store : Store Secrets
store = record {
  connectors =
      record {
        id = 1;
        tenant_id = 1;
        credentials_secret_arn =
            some (("client_id", ("old", "abc")) ∷ ("client_secret", ("old", "s3cret")) ∷ []);
      }
      ∷ record { id = 2; tenant_id = 2; credentials_secret_arn = none }
      ∷ [];
  audit_logs = [];
}

abbrev draw : ℕ → String → ℕ
draw i field = i

clean : preflight_failures box "old" store.connectors ≡ []
unfolding preflight_failures getvul.Encryption.decode_secret getvul.Encryption.decode_json
    getvul.Encryption.decode_fields getvul.Encryption.decrypt_text getvul.Encryption.add_field
clean = refl

refused_rotation : committed (rotate_credentials box "wrong" "new" false true draw store).1 ≡ false
unfolding rotate_credentials getvul.Encryption.rotate_valid preflight_failures
    getvul.Encryption.decode_secret getvul.Encryption.decode_json getvul.Encryption.decode_fields
    getvul.Encryption.decrypt_text getvul.Encryption.add_field
refused_rotation = refl

rotate_credentials-atomic_example :
    (rotate_credentials box "wrong" "new" false true draw store).0 ≡ store
rotate_credentials-atomic_example =
    rotate_credentials-atomic box "wrong" "new" false true draw store refused_rotation

rotate_credentials-preserves_example :
    let (s', outcome) = rotate_credentials box "old" "new" false true draw store in
    (outcome
      ≡ done (record {
        rotated = count_rotated box "old" store.connectors;
        tenants = count_tenants [] store.connectors;
        dry_run = false;
      }))
    × (plaintexts box "new" s'.connectors ≡ plaintexts box "old" store.connectors)
rotate_credentials-preserves_example =
    rotate_credentials-preserves box box-IsCrypto "new" refl "old" true draw store refl clean

verify_after_example :
    verify_credentials box "new" (rotate_credentials box "old" "new" false true draw store).0
    ≡ some (record { ok = count_secrets store.connectors; failing = 0; failures = [] })
verify_after_example =
    verify_credentials-rotate_credentials box box-IsCrypto "new" refl "old" true draw store refl
      clean
