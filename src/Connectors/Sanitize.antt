-- ===== src/Connectors/Sanitize.antt =====
-- backend/app/connectors/sync.py, `_sanitize_error`, and `_redact_value` of backend/app/logging.py:
-- the error text that a sync stores. `re_sub` is `re.sub` with its pattern.
use Prim.Native.String.{String as Text}
use getvul.Prelude.{
  ℕ, zero, suc, ◌≤◌, ◌≡◌, refl, arith, String, Bool, List, [], ◌∷◌, codes, length, any, str_eq,
  if◌then◌else◌,
}

-- A logged value: a text, a mapping, or a sequence.
mutual
  pub data Value : Type 0 where
    text : String → Value
    mapping : Entries → Value
    sequence : Values → Value

  pub data Entries : Type 0 where
    no_entries : Entries
    entry : String → Value → Entries → Entries

  pub data Values : Type 0 where
    no_values : Values
    value : Value → Values → Values

unfoldable pub sensitive_keys : List String
sensitive_keys =
    "authorization" ∷ "cookie" ∷ "password" ∷ "token" ∷ "secret" ∷ "credentials" ∷ "api_key" ∷ []

unfoldable pub is_sensitive : (String → String) → String → Bool
is_sensitive lower key = any (λ k. str_eq k (lower key)) sensitive_keys

module _ (lower : String → String) where
  unfoldable mutual
    pub redact_value : Value → Value
    redact_value (text s) = text s
    redact_value (mapping es) = mapping (redact_entries es)
    redact_value (sequence vs) = sequence (redact_values vs)

    pub redact_entries : Entries → Entries
    redact_entries no_entries = no_entries
    redact_entries (entry k v es) =
        entry k (if is_sensitive lower k then text "[REDACTED]" else redact_value v)
          (redact_entries es)

    pub redact_values : Values → Values
    redact_values no_values = no_values
    redact_values (value v vs) = value (redact_value v) (redact_values vs)

-- `wrapped["message"]`, which is a text here
unfoldable pub find_message : Entries → String → String
find_message no_entries s = s
find_message (entry k (text m) es) s = if str_eq k "message" then m else find_message es s
find_message (entry k _ es) s = find_message es s

unfoldable pub message_of : Value → String → String
message_of (mapping es) s = find_message es s
message_of _ s = s

-- `scrubbed[:cap]`
unfoldable pub take_text : ℕ → String → String
take_text zero s = Text.[]
take_text (suc n) Text.[] = Text.[]
take_text (suc n) (Text.◌∷◌ c s) = Text.◌∷◌ c (take_text n s)

unfoldable pub sanitize_error : (String → String) → (String → String) → String → String → String
sanitize_error lower re_sub exception_type message =
    let wrapped = redact_value lower (
      mapping (
        entry "exception_type" (text exception_type)
          (entry "message" (text message) no_entries))) in
    take_text 500 (re_sub (message_of wrapped message))

length-take_text : (n : ℕ) (s : String) → length (codes (take_text n s)) ≤ n
unfolding take_text
length-take_text zero s = omega arith
length-take_text (suc n) Text.[] = omega arith
length-take_text (suc n) (Text.◌∷◌ c s) = omega (arith, length-take_text n s)

-- The stored error is at most 500 characters long; and for a `lower` that leaves the two
-- lower-case keys as they are, it is the exception's own text, scrubbed by the pattern alone: the
-- redaction by key changes nothing.
pub sanitize_error-take_text :
    (lower re_sub : String → String) (exception_type message : String)
    → lower "exception_type" ≡ "exception_type"
    → lower "message" ≡ "message"
    → (sanitize_error lower re_sub exception_type message ≡ take_text 500 (re_sub message))
      × (length (codes (sanitize_error lower re_sub exception_type message)) ≤ 500)
unfolding sanitize_error redact_value message_of find_message is_sensitive sensitive_keys
sanitize_error-take_text lower re_sub exception_type message h k =
    (rw (h, k) refl, length-take_text 500 _)
