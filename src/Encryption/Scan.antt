-- ===== src/Encryption/Scan.antt =====
-- One stored secret: what re-encryption does to it.
use getvul.Prelude.{
  ℕ, String, ◌≡◌, refl, ◌∙◌, Bool, true, false, ◌||◌, Option, none, some, List, [], ◌∷◌, arith,
  str_eq,
}
use getvul.Encryption.{
  Field, text, other, Json, malformed, not_object, object, Crypto, Plains, decrypt_text, add_field,
  decode_fields, decode_json, decode_secret, encrypt_fields, reencrypt_secret, post_fields,
  post_secret, undecryptable, verify_json,
}

-- The keys of a JSON object are distinct.
abbrev pub has_key : {V : Type 0} → String → List (String × V) → Bool
has_key k [] = false
has_key k ((j, v) ∷ m) = str_eq j k || has_key k m

abbrev pub IsDict : {V : Type 0} → List (String × V) → Type 0
IsDict [] = Unit
IsDict ((k, v) ∷ m) = (has_key k m ≡ false) × IsDict m

abbrev pub as_fields : {C : Type 0} → List (String × C) → List (String × Field C)
as_fields [] = []
as_fields ((k, c) ∷ m) = (k, text c) ∷ as_fields m

-- The documented behaviour of Fernet, UTF-8 and JSON that the rotation relies on.
pub record IsCrypto (lib : Crypto) : Type 0 where
  pub decrypt-encrypt :
      (key : String) (entropy : ℕ) (b : lib.Bytes)
      → lib.valid_key key ≡ true
      → lib.decrypt key (lib.encrypt key entropy b) ≡ some b
  pub decode-encode : (p : String) → lib.decode_utf8 (lib.encode_utf8 p) ≡ some p
  pub loads-dumps :
      (m : List (String × lib.Cipher)) → IsDict m → lib.loads (lib.dumps m) ≡ object (as_fields m)
  pub loads-IsDict :
      (secret : lib.Secret) (m : List (String × Field lib.Cipher))
      → lib.loads secret ≡ object m
      → IsDict m

add_field-IsDict :
    (f : String) (o : Option String) (r : List String × Plains)
    → has_key f r.1 ≡ false
    → IsDict r.1
    → IsDict (add_field f o r).1
unfolding add_field
add_field-IsDict f none r n h = h
add_field-IsDict f (some p) r n h = (n, h)

module _ (lib : Crypto) where
  has_key-encrypt_fields :
      (new : String) (entropy : String → ℕ) (k : String) (ps : Plains)
      → has_key k (encrypt_fields lib new entropy ps) ≡ has_key k ps
  unfolding encrypt_fields
  has_key-encrypt_fields new entropy k [] = refl
  has_key-encrypt_fields new entropy k ((j, p) ∷ ps) =
      ground (arith, has_key-encrypt_fields new entropy k ps)

  encrypt_fields-IsDict :
      (new : String) (entropy : String → ℕ) (ps : Plains)
      → IsDict ps
      → IsDict (encrypt_fields lib new entropy ps)
  unfolding encrypt_fields
  encrypt_fields-IsDict new entropy [] h = tt
  encrypt_fields-IsDict new entropy ((j, p) ∷ ps) h =
      (has_key-encrypt_fields new entropy j ps ∙ h.0, encrypt_fields-IsDict new entropy ps h.1)

  has_key-decode_fields :
      (old k : String) (fs : List (String × Field lib.Cipher))
      → has_key k fs ≡ false
      → has_key k (decode_fields lib old fs).1 ≡ false
  unfolding decode_fields
  has_key-decode_fields old k [] h = refl
  has_key-decode_fields old k ((j, other) ∷ fs) h = has_key-decode_fields old k fs (ground arith)
  has_key-decode_fields old k ((j, text c) ∷ fs) h = ground (arith, has_key-decode_fields old k fs)

  decode_fields-IsDict :
      (old : String) (fs : List (String × Field lib.Cipher))
      → IsDict fs
      → IsDict (decode_fields lib old fs).1
  unfolding decode_fields
  decode_fields-IsDict old [] h = tt
  decode_fields-IsDict old ((j, other) ∷ fs) h = decode_fields-IsDict old fs h.1
  decode_fields-IsDict old ((j, text c) ∷ fs) h =
      add_field-IsDict j (decrypt_text lib old c) (decode_fields lib old fs)
        (has_key-decode_fields old j fs h.0) (decode_fields-IsDict old fs h.1)

module _ (lib : Crypto) (laws : IsCrypto lib) (new : String)
    (valid : lib.valid_key new ≡ true) where
  decode_fields-encrypt_fields :
      (entropy : String → ℕ) (ps : Plains)
      → decode_fields lib new (as_fields (encrypt_fields lib new entropy ps)) ≡ ([], ps)
  unfolding decode_fields encrypt_fields
  decode_fields-encrypt_fields entropy [] = refl
  decode_fields-encrypt_fields entropy ((f, p) ∷ ps) = ground (
    arith,
    decode_fields-encrypt_fields entropy ps,
    laws.decrypt-encrypt new (entropy f) (lib.encode_utf8 p) valid,
    laws.decode-encode p,
  )

  post_fields-encrypt_fields :
      (entropy : String → ℕ) (ps : Plains)
      → post_fields lib new (as_fields (encrypt_fields lib new entropy ps)) ≡ some []
  unfolding post_fields encrypt_fields
  post_fields-encrypt_fields entropy [] = refl
  post_fields-encrypt_fields entropy ((f, p) ∷ ps) = ground (
    arith,
    post_fields-encrypt_fields entropy ps,
    laws.decrypt-encrypt new (entropy f) (lib.encode_utf8 p) valid,
  )

  undecryptable-encrypt_fields :
      (entropy : String → ℕ) (ps : Plains)
      → undecryptable lib new (as_fields (encrypt_fields lib new entropy ps)) ≡ []
  unfolding undecryptable encrypt_fields
  undecryptable-encrypt_fields entropy [] = refl
  undecryptable-encrypt_fields entropy ((f, p) ∷ ps) = ground (
    arith,
    undecryptable-encrypt_fields entropy ps,
    laws.decrypt-encrypt new (entropy f) (lib.encode_utf8 p) valid,
  )

  plains-IsDict :
      (old : String) (secret : lib.Secret) (j : Json lib.Cipher)
      → lib.loads secret ≡ j
      → IsDict (decode_json lib old j).1
  unfolding decode_json
  plains-IsDict old secret malformed e = tt
  plains-IsDict old secret not_object e = tt
  plains-IsDict old secret (object fs) e =
      decode_fields-IsDict lib old fs (laws.loads-IsDict secret fs e)

  pub loads-reencrypted :
      (old : String) (entropy : String → ℕ) (secret : lib.Secret)
      → let ps = (decode_secret lib old (some secret)).1 in
        lib.loads (lib.dumps (encrypt_fields lib new entropy ps))
        ≡ object (as_fields (encrypt_fields lib new entropy ps))
  unfolding decode_secret
  loads-reencrypted old entropy secret =
      laws.loads-dumps _
        (encrypt_fields-IsDict lib new entropy _ (plains-IsDict old secret (lib.loads secret) refl))

  -- A re-encrypted secret decodes under the new key to what it was under the old one.
  pub decode-reencrypt :
      (old : String) (entropy : String → ℕ) (o : Option lib.Secret)
      → decode_secret lib new (reencrypt_secret lib old new entropy o)
        ≡ ([], (decode_secret lib old o).1)
  unfolding decode_secret reencrypt_secret
  decode-reencrypt old entropy none = refl
  decode-reencrypt old entropy (some secret) =
      rw (loads-reencrypted old entropy secret) (decode_fields-encrypt_fields entropy _)

  pub post-reencrypt :
      (old : String) (entropy : String → ℕ) (o : Option lib.Secret)
      → post_secret lib new (reencrypt_secret lib old new entropy o) ≡ some []
  unfolding post_secret reencrypt_secret
  post-reencrypt old entropy none = refl
  post-reencrypt old entropy (some secret) =
      rw (loads-reencrypted old entropy secret)
        (post_fields-encrypt_fields entropy (decode_secret lib old (some secret)).1)

  pub verify-reencrypt :
      (old : String) (entropy : String → ℕ) (secret : lib.Secret)
      → verify_json lib new (
          lib.loads
            (lib.dumps (encrypt_fields lib new entropy (decode_secret lib old (some secret)).1)))
        ≡ []
  unfolding verify_json
  verify-reencrypt old entropy secret =
      rw (loads-reencrypted old entropy secret)
        (undecryptable-encrypt_fields entropy (decode_secret lib old (some secret)).1)
