-- ===== src/Explain/Stream/Gates.antt =====
-- What a run of `_run_explain_stream` can do: show and cache an answer that passed every check, or
-- refuse and write nothing but audit rows.
use getvul.Prelude.{ℕ, ◌+◌, ◌≡◌, String, Bool, true, false, none, some}
use getvul.Explain.{
  Usage, Candidate, AiState, AiSettings, Event, unknown, done, Assistant, get_cached, spend_since,
  check_budget, is_held, set_cached, contains_leak_marker, validate, estimate_cost_usd,
}
use getvul.Explain.Stream.{Request, configured_model, cache_key}

abbrev pub shows_answer : Event → Bool
shows_answer (done _ _) = true
shows_answer _ = false

module _ (ai : Assistant) (st : AiSettings) (rq : Request) (now : ℕ) (raises : Bool) where
  abbrev pub spent : AiState → ℕ
  spent s = spend_since (ai.month_start now) rq.tenant_id s.rows

  -- An answer that is parsed, within the business rules, grounded, free of the prompt's marker
  -- and not dangerous.
  pub record Passed (c : Candidate) (u : Usage) (raw : String) : Type 0 where
    pub valid : validate ai rq.allowed_source_fields raw ≡ some c
    pub grounded : c.grounded ≡ true
    pub no_leak : contains_leak_marker ai c rq.system_prompt ≡ false
    pub safe : ai.dangerous c ≡ none

  pub data Checked (s : AiState) : AiState × Event → Type 0 where
    accepted :
        (t : AiState) (c : Candidate) (u : Usage) (raw : String)
        → Passed c u raw
        → t.cache ≡ (set_cached now (cache_key ai st rq now raises) c s).cache
        → t.inflight ≡ s.inflight
        → spent t ≡ estimate_cost_usd ai (configured_model st) u + spent s
        → Checked s (t, done c u)
    refused :
        (t : AiState) (e : Event)
        → shows_answer e ≡ false
        → t.cache ≡ s.cache
        → t.inflight ≡ s.inflight
        → Checked s (t, e)
    unaudited :
        (t : AiState) (c : Candidate) (u : Usage) (raw : String)
        → Passed c u raw
        → t.cache ≡ (set_cached now (cache_key ai st rq now raises) c s).cache
        → t.inflight ≡ s.inflight
        → raises ≡ true
        → Checked s (t, unknown)

  -- The guard is as free for the tenant as before.
  abbrev pub SameGuard : AiState → AiState → Type 0
  SameGuard s t = is_held now rq.tenant_id t.inflight ≡ is_held now rq.tenant_id s.inflight

  pub data RunOutcome (s : AiState) : AiState × Event → Type 0 where
    explained :
        (t : AiState) (c : Candidate) (u : Usage) (raw : String)
        → Passed c u raw
        → check_budget (spent s) st.monthly_budget_usd ≡ true
        → get_cached now (cache_key ai st rq now raises) t ≡ some c
        → spent t ≡ estimate_cost_usd ai (configured_model st) u + spent s
        → SameGuard s t
        → RunOutcome s (t, done c u)
    declined :
        (t : AiState) (e : Event)
        → shows_answer e ≡ false
        → t.cache ≡ s.cache
        → SameGuard s t
        → RunOutcome s (t, e)
    not_audited :
        (t : AiState) (c : Candidate) (u : Usage) (raw : String)
        → raises ≡ true
        → Passed c u raw
        → check_budget (spent s) st.monthly_budget_usd ≡ true
        → get_cached now (cache_key ai st rq now raises) t ≡ some c
        → SameGuard s t
        → RunOutcome s (t, unknown)
