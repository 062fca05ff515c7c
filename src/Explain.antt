-- ===== src/Explain.antt =====
-- backend/app/ai: one explanation of a finding, `_run_explain_stream` of explain.py, under the budget
-- of budget.py, the guard and the cache of cache.py, and the checks of schemas.py.
-- Money is counted in millionths of a dollar. `Assistant` holds what is not the backend's: the parser of
-- an answer, texts, and the rounding of a price. What the tenant's ANTHROPIC row holds,
-- decrypted, is `AiSettings`. The replay of the summary in pieces is left out.
pub mod Stream
mod Examples
use Prim.Native.String.{◌++◌ as append}
use getvul.Prelude.{
  ℕ, suc, ◌+◌, ◌*◌, String, Bool, true, false, not, ◌&&◌, ◌||◌, Option, none, some, is_some, List,
  [], ◌∷◌, ◌++◌, any, codes, length, filter, ltb, leb, ◌==◌, str_eq, if◌then◌else◌,
}
use getvul.Exposure.{or_empty}

pub record Usage : Type 0 where
  pub input_tokens : ℕ
  pub output_tokens : ℕ

pub record Citation : Type 0 where
  pub text : String
  pub source_field : Option String

-- A parsed answer.
pub record Candidate : Type 0 where
  pub summary : String
  pub business_risk : String
  pub citations : List Citation
  pub grounded : Bool

-- A row of `audit_logs` that an AI call writes.
pub record AuditRow : Type 0 where
  pub tenant_id : ℕ
  pub action : String
  pub status : String
  pub usage : Usage
  pub cost_estimate_usd : Option ℕ
  pub created_at : ℕ

pub record CacheKey : Type 0 where
  pub tenant_id : ℕ
  pub resource_type : String
  pub resource_id : String
  pub record_hash : String
  pub model : String
  pub prompt_version : String

unfoldable pub same_key : CacheKey → CacheKey → Bool
same_key a b =
    a.tenant_id == b.tenant_id
    && str_eq a.resource_type b.resource_type
    && str_eq a.resource_id b.resource_id
    && str_eq a.record_hash b.record_hash
    && str_eq a.model b.model
    && str_eq a.prompt_version b.prompt_version

pub record Entry : Type 0 where
  pub key : CacheKey
  pub payload : Candidate
  pub expires_at : ℕ

-- The audit log, the two kinds of Redis keys, and the tenants whose administrators were notified.
pub record AiState : Type 0 where
  pub rows : List AuditRow
  pub cache : List Entry
  pub inflight : List (ℕ × ℕ)
  pub notified : List ℕ

pub record AiSettings : Type 0 where
  pub api_key : Option String
  pub model : Option String
  pub monthly_budget_usd : Option ℕ

-- What one call of the vendor gives: an answer, a refusal, or any other exception.
pub data VendorReply : Type 0 where
  message : String → Usage → VendorReply
  rate_limited : VendorReply
  unexpected : VendorReply

pub data Event : Type 0 where
  no_key budget_exceeded busy grounded_false unsafe unknown : Event
  done : Candidate → Usage → Event

pub record Assistant : Type 0 where
  pub parse : String → Option Candidate
  pub lower : String → String
  pub is_in : String → String → Bool
  pub marker : String → String
  pub dangerous : Candidate → Option String
  pub month_start : ℕ → ℕ
  pub round : ℕ → ℕ

-- budget.py

-- `action LIKE 'ai.%'`
unfoldable pub is_prefix : List ℕ → List ℕ → Bool
is_prefix [] s = true
is_prefix (c ∷ cs) [] = false
is_prefix (c ∷ cs) (d ∷ ds) = c == d && is_prefix cs ds

unfoldable pub is_ai_action : String → Bool
is_ai_action action = is_prefix (codes "ai.") (codes action)

unfoldable pub amount : Option ℕ → ℕ
amount none = 0
amount (some n) = n

-- `SUM(...)`, which passes over NULL.
unfoldable pub spend_since : ℕ → ℕ → List AuditRow → ℕ
spend_since since tenant_id [] = 0
spend_since since tenant_id (r ∷ rs) =
    let rest = spend_since since tenant_id rs in
    if r.tenant_id == tenant_id && is_ai_action r.action && leb since r.created_at
    then amount r.cost_estimate_usd + rest
    else rest

unfoldable pub check_budget : ℕ → Option ℕ → Bool
check_budget spent none = true
check_budget spent (some cap) = ltb spent cap

-- cache.py

-- `SET key 1 EX ttl NX`, unless a key is there that has not expired.
unfoldable pub is_held : ℕ → ℕ → List (ℕ × ℕ) → Bool
is_held now tenant_id held = any (λ l. l.0 == tenant_id && ltb now l.1) held

unfoldable pub without : ℕ → List (ℕ × ℕ) → List (ℕ × ℕ)
without tenant_id held = filter (λ l. not (l.0 == tenant_id)) held

-- Written as: the new key, and the others.
unfoldable pub take_guard : ℕ → ℕ → List (ℕ × ℕ) → List (ℕ × ℕ)
take_guard now tenant_id held = (tenant_id, now + 120) ∷ without tenant_id held

unfoldable pub find_entry : ℕ → CacheKey → List Entry → Option Candidate
find_entry now k [] = none
find_entry now k (e ∷ es) =
    let rest = find_entry now k es in
    if same_key e.key k && ltb now e.expires_at then some e.payload else rest

unfoldable pub get_cached : ℕ → CacheKey → AiState → Option Candidate
get_cached now k s = find_entry now k s.cache

unfoldable pub set_cached : ℕ → CacheKey → Candidate → AiState → AiState
set_cached now k c s = record s {
  cache =
      record { key = k; payload = c; expires_at = now + 2592000 }
      ∷ filter (λ e. not (same_key e.key k)) s.cache;
}

-- schemas.py

unfoldable pub is_allowed_field : Option (List String) → Option String → Bool
is_allowed_field none field = true
is_allowed_field (some allowed) none = true
is_allowed_field (some allowed) (some field) = any (λ a. str_eq a field) allowed

unfoldable pub recheck_business_rules : Option (List String) → Candidate → Bool
recheck_business_rules allowed c =
    leb (length (codes c.summary)) 4000
    && leb (length (codes c.business_risk)) 4000
    && not (any (λ t. not (is_allowed_field allowed t.source_field)) c.citations)

-- explain.py

abbrev join_texts : List Citation → String
join_texts [] = ""
join_texts (c ∷ cs) = append " " (append c.text (join_texts cs))

-- Prices per million tokens, in tenths of a dollar: input, output.
unfoldable pub pricing : String → ℕ × ℕ
pricing model =
    if str_eq model "claude-sonnet-5"
    then (30, 150)
    else if str_eq model "claude-opus-5"
    then (50, 250)
    else if str_eq model "claude-haiku-4-5"
    then (8, 40)
    else (30, 150)

module _ (ai : Assistant) where
  -- `round` takes tenths of a millionth to millionths.
  unfoldable pub estimate_cost_usd : String → Usage → ℕ
  estimate_cost_usd model u =
      ai.round (u.input_tokens * (pricing model).0 + u.output_tokens * (pricing model).1)

  unfoldable pub contains_leak_marker : Candidate → String → Bool
  contains_leak_marker c system_prompt =
      let marker = ai.lower (ai.marker system_prompt) in
      let haystack =
        ai.lower
          (append c.summary (append " " (append c.business_risk (join_texts c.citations)))) in
      if str_eq marker "" then false else ai.is_in marker haystack

  unfoldable pub rechecked : Option (List String) → Option Candidate → Option Candidate
  rechecked allowed none = none
  rechecked allowed (some c) = if recheck_business_rules allowed c then some c else none

  -- `model_validate_json`, then the business rules.
  unfoldable pub validate : Option (List String) → String → Option Candidate
  validate allowed raw = rechecked allowed (ai.parse raw)
