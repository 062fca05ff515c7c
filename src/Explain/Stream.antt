-- ===== src/Explain/Stream.antt =====
-- backend/app/ai/explain.py, `_run_explain_stream`: the gates before a call, two attempts at most, and
-- what each of them writes.
pub mod Spend
pub mod Gates
use Prim.Native.String.{◌++◌ as append}
use getvul.Prelude.{
  ℕ, String, Bool, true, false, not, Option, none, some, List, [], ◌∷◌, ◌++◌, str_eq, if◌then◌else◌,
}
use getvul.Explain.{
  Usage, Candidate, AuditRow, CacheKey, AiState, AiSettings, VendorReply, message, rate_limited,
  unexpected, Event, no_key, budget_exceeded, busy, grounded_false, unsafe, unknown, done,
  Assistant, spend_since, check_budget, is_held, without, take_guard, set_cached,
  contains_leak_marker, validate, estimate_cost_usd,
}
use getvul.Connectors.{or_else}
use getvul.Exposure.{or_empty}

-- What a request asks for: the record's prompt, its hash, and the rules of its view.
pub record Request : Type 0 where
  pub tenant_id : ℕ
  pub resource_type : String
  pub resource_id : String
  pub system_prompt : String
  pub record_hash : String
  pub prompt_version : String
  pub allowed_source_fields : Option (List String)

abbrev zero_usage : Usage
zero_usage = record { input_tokens = 0; output_tokens = 0 }

-- `config.get("model") or DEFAULT_MODEL`
unfoldable pub configured_model : AiSettings → String
configured_model st = or_empty (or_else st.model (some "claude-sonnet-5"))

-- `audit_raises` tells whether the audit of an accepted answer raises, after the answer was cached.
module _ (ai : Assistant) (st : AiSettings) (rq : Request) (now : ℕ) (audit_raises : Bool) where
  abbrev pub cache_key : CacheKey
  cache_key = record {
    tenant_id = rq.tenant_id;
    resource_type = rq.resource_type;
    resource_id = rq.resource_id;
    record_hash = rq.record_hash;
    model = configured_model st;
    prompt_version = rq.prompt_version;
  }

  abbrev pub audit_row : String → Usage → Option ℕ → AuditRow
  audit_row status usage cost = record {
    tenant_id = rq.tenant_id;
    action = append "ai.explain." rq.resource_type;
    status = status;
    usage = usage;
    cost_estimate_usd = cost;
    created_at = now;
  }

  abbrev pub audit_call : String → Usage → Option ℕ → AiState → AiState
  audit_call status usage cost s = record s { rows = audit_row status usage cost ∷ s.rows }

  -- An answer that passed every gate: cached, then audited with its price. An exception of that
  -- audit is caught around the loop, and the answer stays cached.
  unfoldable pub accept : Candidate → Usage → AiState → AiState × Event
  accept c u s =
      let cached = set_cached now cache_key c s in
      if audit_raises then (audit_call "unknown" zero_usage (some 0) cached, unknown) else (
        audit_call "ok" u (some (estimate_cost_usd ai (configured_model st) u)) cached,
        done c u,
      )

  unfoldable pub check_dangerous : Candidate → Usage → Option String → AiState → AiState × Event
  check_dangerous c u none s = accept c u s
  check_dangerous c u (some label) s = (audit_call "unsafe_denylisted" u none s, unsafe)

  unfoldable pub check_leak : Candidate → Usage → AiState → AiState × Event
  check_leak c u s =
      if contains_leak_marker ai c rq.system_prompt
      then (audit_call "injection_flagged" u none s, grounded_false)
      else check_dangerous c u (ai.dangerous c) s

  -- A rejected answer: the last one ends the stream, the first one is retried.
  unfoldable pub reject :
      Bool → String → Usage → (AiState → AiState × Event) → AiState → AiState × Event
  reject is_final status u retry s =
      let s' = audit_call status u none s in if is_final then (s', grounded_false) else retry s'

  unfoldable pub check_candidate :
      Bool → Option Candidate → Usage → (AiState → AiState × Event) → AiState → AiState × Event
  check_candidate is_final none u retry s = reject is_final "validation_failed" u retry s
  check_candidate is_final (some c) u retry s =
      if c.grounded
      then check_leak c u s
      else reject is_final (if is_final then "validation_failed" else "grounded_retry") u retry s

  -- One pass of the loop.
  unfoldable pub attempt :
      Bool → VendorReply → (AiState → AiState × Event) → AiState → AiState × Event
  attempt is_final (message raw u) retry s =
      check_candidate is_final (validate ai rq.allowed_source_fields raw) u retry s
  attempt is_final rate_limited retry s = (audit_call "rate_limited" zero_usage (some 0) s, busy)
  attempt is_final unexpected retry s = (audit_call "unknown" zero_usage (some 0) s, unknown)

  abbrev pub give_up : AiState → AiState × Event
  give_up s = (s, grounded_false)

  -- `for attempt_index in range(2)`
  unfoldable pub attempts : VendorReply → VendorReply → AiState → AiState × Event
  attempts first second s = attempt false first (attempt true second give_up) s

  -- `finally`
  unfoldable pub release_inflight : AiState × Event → AiState × Event
  release_inflight (s, e) = (record s { inflight = without rq.tenant_id s.inflight }, e)

  unfoldable pub guarded : VendorReply → VendorReply → AiState → AiState × Event
  guarded first second s =
      if is_held now rq.tenant_id s.inflight
      then (s, busy)
      else release_inflight
          (attempts first second (record s { inflight = take_guard now rq.tenant_id s.inflight }))

  unfoldable pub refuse_budget : AiState → AiState × Event
  refuse_budget s = (
    audit_call "budget_exceeded" zero_usage (some 0)
        (record s { notified = rq.tenant_id ∷ s.notified }),
    budget_exceeded,
  )

  unfoldable pub with_key : Option String → VendorReply → VendorReply → AiState → AiState × Event
  with_key none first second s = (s, no_key)
  with_key (some key) first second s =
      if check_budget (spend_since (ai.month_start now) rq.tenant_id s.rows) st.monthly_budget_usd
      then guarded first second s
      else refuse_budget s

  unfoldable pub run_explain_stream : VendorReply → VendorReply → AiState → AiState × Event
  run_explain_stream first second s = with_key st.api_key first second s
