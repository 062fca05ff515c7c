-- ===== src/Encryption.antt =====
-- backend/app/encryption.py: checking and rotating the key of the connector credentials.
-- Fernet, the UTF-8 codec and the JSON module are parameters (`Crypto`).
mod Scan
pub mod Rotation
pub mod Verify
mod Examples
use getvul.Prelude.{
  ℕ, suc, String, ◌≡◌, Bool, true, false, not, ◌&&◌, Option, none, some, List, [], ◌∷◌, ◌++◌, map,
  length, any, ltb, ◌==◌, if◌then◌else◌,
}

-- A value of a JSON object: a string, or anything else.
pub data Field (C : Type 0) : Type 0 where
  text : C → Field C
  other : Field C

-- What `json.loads` makes of a text: an error, an object, or another value.
pub data Json (C : Type 0) : Type 0 where
  malformed not_object : Json C
  object : List (String × Field C) → Json C

-- `encrypt` takes the random bytes that Fernet draws.
-- `Cipher` is the type of a ciphertext's text, `Secret` that of a stored column's.
pub record Crypto : Type 1 where
  pub Bytes : Type 0
  pub Cipher : Type 0
  pub Secret : Type 0
  pub valid_key : String → Bool
  pub decrypt : String → Cipher → Option Bytes
  pub encrypt : String → ℕ → Bytes → Cipher
  pub encode_utf8 : String → Bytes
  pub decode_utf8 : Bytes → Option String
  pub loads : Secret → Json Cipher
  pub dumps : List (String × Cipher) → Secret

-- The columns of a connector configuration that the rotation reads and writes.
pub record Connector (S : Type 0) : Type 0 where
  pub id : ℕ
  pub tenant_id : ℕ
  pub credentials_secret_arn : Option S

-- (connector, tenant, field)
abbrev pub Failure : Type 0
Failure = ℕ × ℕ × String

pub record AuditLog : Type 0 where
  pub tenant_id : ℕ
  pub row_count : ℕ
  pub tenant_count : ℕ

pub record Store (S : Type 0) : Type 0 where
  pub connectors : List (Connector S)
  pub audit_logs : List AuditLog

pub data Phase : Type 0 where
  preflight post_verify : Phase

pub record Report : Type 0 where
  pub rotated : ℕ
  pub tenants : ℕ
  pub dry_run : Bool

-- `crashed` is any other exception: rolled back and raised again.
pub data Outcome : Type 0 where
  invalid_key crashed : Outcome
  failed : Phase → List Failure → Outcome
  done : Report → Outcome

-- A database session: the store as committed, and as the session sees it.
pub record Session (S : Type 0) : Type 0 where
  pub committed : Store S
  pub current : Store S

unfoldable pub open_session : {S : Type 0} → Store S → Session S
open_session s = record { committed = s; current = s }

unfoldable pub rollback : {S : Type 0} → Session S → Session S
rollback db = record db { current = db.committed }

unfoldable pub commit : {S : Type 0} → Session S → Session S
commit db = record db { committed = db.current }

-- The end of `async with async_session_factory()`: what is not committed is gone.
unfoldable pub close_session : {S : Type 0} → Session S × Outcome → Store S × Outcome
close_session (db, outcome) = (db.committed, outcome)

abbrev pub Plains : Type 0
Plains = List (String × String)

pub record Verified : Type 0 where
  pub ok : ℕ
  pub failing : ℕ
  pub failures : List Failure

-- The rows that the query loads: those with a secret.
pub has_secret : {S : Type 0} → Connector S → Bool
has_secret c = elim c.credentials_secret_arn [ none ↦ false | some _ ↦ true ]

-- `COUNT(DISTINCT tenant_id)` over the loaded rows
pub count_tenants : {S : Type 0} → List ℕ → List (Connector S) → ℕ
unfolding has_secret
count_tenants seen [] = 0
count_tenants seen (c ∷ cs) =
    if has_secret c && not (any (λ t. t == c.tenant_id) seen)
    then suc (count_tenants (c.tenant_id ∷ seen) cs)
    else count_tenants seen cs

-- One field of the pre-flight's inner loop: it fails, or its plaintext is kept.
unfoldable pub add_field : String → Option String → List String × Plains → List String × Plains
add_field f none (bad, plains) = (f ∷ bad, plains)
add_field f (some p) (bad, plains) = (bad, (f, p) ∷ plains)

-- A row's failing fields join the counts: a row with none is `ok`.
unfoldable pub count_row : ℕ → ℕ → Option (List String) → Verified → Verified
count_row id tenant none v = v
count_row id tenant (some []) v = record v { ok = suc v.ok }
count_row id tenant (some (f ∷ fs)) v = record v {
  failing = suc v.failing;
  failures = map (λ g. (id, tenant, g)) (f ∷ fs) ++ v.failures;
}

module _ (lib : Crypto) where
  open lib use {Cipher, Secret, valid_key, decrypt, encrypt, encode_utf8, decode_utf8, loads, dumps}

  -- `old_fernet.decrypt(ciphertext.encode()).decode()`, `none` for an exception that is caught
  unfoldable pub decrypt_text : String → Cipher → Option String
  decrypt_text key cipher = elim (decrypt key cipher) [ none ↦ none | some b ↦ decode_utf8 b ]

  -- The pre-flight's inner loop over one row's fields: the fields that fail, the plaintexts.
  unfoldable pub decode_fields : String → List (String × Field Cipher) → List String × Plains
  unfolding decrypt_text add_field
  decode_fields key [] = ([], [])
  decode_fields key ((f, other) ∷ fs) = add_field f none (decode_fields key fs)
  decode_fields key ((f, text cipher) ∷ fs) =
      add_field f (decrypt_text key cipher) (decode_fields key fs)

  unfoldable pub decode_json : String → Json Cipher → List String × Plains
  unfolding decode_fields
  decode_json key malformed = ("<json_parse>" ∷ [], [])
  decode_json key not_object = ("<not_object>" ∷ [], [])
  decode_json key (object fs) = decode_fields key fs

  unfoldable pub decode_secret : String → Option Secret → List String × Plains
  unfolding decode_json
  decode_secret key none = ([], [])
  decode_secret key (some secret) = decode_json key (loads secret)

  -- The pre-flight over all rows.
  unfoldable pub preflight_failures : String → List (Connector Secret) → List Failure
  preflight_failures key [] = []
  preflight_failures key (c ∷ cs) =
      map (λ f. (c.id, c.tenant_id, f)) (decode_secret key c.credentials_secret_arn).0
      ++ preflight_failures key cs

  abbrev pub is_nonempty : Plains → Bool
  is_nonempty [] = false
  is_nonempty (_ ∷ _) = true

  -- `sum(1 for c in connectors if decoded_maps.get(str(c.id)))`
  unfoldable pub count_rotated : String → List (Connector Secret) → ℕ
  count_rotated key [] = 0
  count_rotated key (c ∷ cs) =
      let rest = count_rotated key cs in
      if is_nonempty (decode_secret key c.credentials_secret_arn).1 then suc rest else rest

  -- One row's new map; `entropy` are the random bytes for each field.
  unfoldable pub encrypt_fields : String → (String → ℕ) → Plains → List (String × Cipher)
  encrypt_fields key entropy [] = []
  encrypt_fields key entropy ((f, p) ∷ ps) =
      (f, encrypt key (entropy f) (encode_utf8 p)) ∷ encrypt_fields key entropy ps

  unfoldable pub reencrypt_secret : String → String → (String → ℕ) → Option Secret → Option Secret
  unfolding decode_secret encrypt_fields
  reencrypt_secret old new entropy none = none
  reencrypt_secret old new entropy (some secret) =
      some (dumps (encrypt_fields new entropy (decode_secret old (some secret)).1))

  unfoldable pub reencrypt_rows :
      String → String → (ℕ → String → ℕ) → List (Connector Secret) → List (Connector Secret)
  unfolding reencrypt_secret
  reencrypt_rows old new entropy [] = []
  reencrypt_rows old new entropy (c ∷ cs) =
      record c {
        credentials_secret_arn = reencrypt_secret old new (entropy c.id) c.credentials_secret_arn;
      }
      ∷ reencrypt_rows old new entropy cs

  -- The post-verification of one row's fields; `none` where the code would raise another error.
  unfoldable pub post_fields : String → List (String × Field Cipher) → Option (List String)
  post_fields key [] = some []
  post_fields key ((f, other) ∷ fs) = none
  post_fields key ((f, text cipher) ∷ fs) =
      let rest = post_fields key fs in
      elim rest [
        | none ↦ none
        | some bad ↦ some (elim (decrypt key cipher) [ none ↦ f ∷ bad | some _ ↦ bad ])
      ]

  unfoldable pub post_json : String → Json Cipher → Option (List String)
  unfolding post_fields
  post_json key (object fs) = post_fields key fs
  post_json key _ = none

  unfoldable pub post_secret : String → Option Secret → Option (List String)
  unfolding post_json
  post_secret key none = some []
  post_secret key (some secret) = post_json key (loads secret)

  unfoldable pub post_failures : String → List (Connector Secret) → Option (List Failure)
  post_failures key [] = some []
  post_failures key (c ∷ cs) =
      let rest = post_failures key cs in
      elim (post_secret key c.credentials_secret_arn) [
        | none ↦ none
        | some bad ↦ elim rest [
          | none ↦ none
          | some more ↦ some (map (λ f. (c.id, c.tenant_id, f)) bad ++ more)
        ]
      ]

  -- `connectors[0].tenant_id`
  unfoldable pub first_tenant : List (Connector Secret) → ℕ
  unfolding has_secret
  first_tenant [] = 0
  first_tenant (c ∷ cs) = if has_secret c then c.tenant_id else first_tenant cs

  -- The mutation of the loaded rows in the session.
  unfoldable pub reencrypt_session :
      String → String → (ℕ → String → ℕ) → Session Secret → Session Secret
  unfolding reencrypt_rows
  reencrypt_session old new entropy db = record db {
    current = record db.current {
      connectors = reencrypt_rows old new entropy db.current.connectors;
    };
  }

  -- The audit row, for a run that rewrote something.
  unfoldable pub add_audit : Bool → Report → Session Secret → Session Secret
  unfolding first_tenant
  add_audit audit report db =
      let log : AuditLog = record {
        tenant_id = first_tenant db.current.connectors;
        row_count = report.rotated;
        tenant_count = report.tenants;
      } in
      if audit && ltb 0 report.rotated
      then record db {
        current = record db.current { audit_logs = db.current.audit_logs ++ log ∷ [] };
      }
      else db

  -- The post-verification of the rows in the session, the audit row, and the one commit.
  unfoldable pub finish_rotation :
      String → Bool → Report → Session Secret → Session Secret × Outcome
  unfolding post_failures add_audit rollback commit
  finish_rotation new audit report db = elim (post_failures new db.current.connectors) [
    | none ↦ (rollback db, crashed)
    | some (f ∷ fs) ↦ (rollback db, failed post_verify (f ∷ fs))
    | some [] ↦ (commit (add_audit audit report db), done report)
  ]

  -- The transaction after both keys are found valid.
  unfoldable pub rotate_valid :
      String → String → Bool → Bool → (ℕ → String → ℕ) → Session Secret → Session Secret × Outcome
  unfolding preflight_failures count_rotated reencrypt_session finish_rotation count_tenants
      rollback
  rotate_valid old new dry_run audit entropy db =
      let report : Report = record {
        rotated = count_rotated old db.current.connectors;
        tenants = count_tenants [] db.current.connectors;
        dry_run = dry_run;
      } in
      elim (preflight_failures old db.current.connectors) [
        | f ∷ fs ↦ (rollback db, failed preflight (f ∷ fs))
        | [] ↦
            if dry_run
            then (rollback db, done report)
            else finish_rotation new audit report (reencrypt_session old new entropy db)
      ]

  -- The session is opened on the store, and its end leaves what was committed.
  unfoldable pub rotate_credentials :
      String → String → Bool → Bool → (ℕ → String → ℕ) → Store Secret → Store Secret × Outcome
  unfolding rotate_valid open_session close_session
  rotate_credentials old new dry_run audit entropy s =
      if valid_key old && valid_key new
      then close_session (rotate_valid old new dry_run audit entropy (open_session s))
      else (s, invalid_key)

  -- `verify_credentials`: the fields of a row that do not decrypt (the plaintext is not decoded).
  unfoldable pub undecryptable : String → List (String × Field Cipher) → List String
  undecryptable key [] = []
  undecryptable key ((f, other) ∷ fs) = f ∷ undecryptable key fs
  undecryptable key ((f, text cipher) ∷ fs) =
      let rest = undecryptable key fs in
      elim (decrypt key cipher) [ none ↦ f ∷ rest | some _ ↦ rest ]

  unfoldable pub verify_json : String → Json Cipher → List String
  unfolding undecryptable
  verify_json key malformed = "<json_parse>" ∷ []
  verify_json key not_object = "<not_object>" ∷ []
  verify_json key (object fs) = undecryptable key fs

  -- `none` for a row without a secret, which the query leaves out.
  unfoldable pub verify_secret : String → Option Secret → Option (List String)
  unfolding verify_json
  verify_secret key none = none
  verify_secret key (some secret) = some (verify_json key (loads secret))

  unfoldable pub verify_rows : String → List (Connector Secret) → Verified
  unfolding count_row
  verify_rows key [] = record { ok = 0; failing = 0; failures = [] }
  verify_rows key (c ∷ cs) =
      count_row c.id c.tenant_id (verify_secret key c.credentials_secret_arn) (verify_rows key cs)

  -- `none` is the `ValueError` of an invalid key.
  unfoldable pub verify_credentials : String → Store Secret → Option Verified
  unfolding verify_rows
  verify_credentials key s = if valid_key key then some (verify_rows key s.connectors) else none
