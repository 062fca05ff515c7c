-- ===== src/Ticketing/Rules/Schedule.antt =====
-- backend/app/ticketing/rule_engine.py, `run_all_due_rules`: one round of the scheduler.
use getvul.Prelude.{
  ℕ, suc, ◌+◌, ◌*◌, String, Bool, true, false, not, ◌&&◌, Option, none, some, List, [], ◌∷◌, ◌++◌,
  filter, mem_id, update_where, leb, ◌==◌, str_eq, if◌then◌else◌,
}
use getvul.Ticketing.{Host, World, Providers}
use getvul.Ticketing.Rules.{TicketRule, success, failed, RuleCounts, Texts, run_rule}

-- A rule is due when it never ran or its last run is long enough ago (times in seconds).
unfoldable pub is_due : ℕ → TicketRule → Bool
is_due now rule = elim rule.last_run_at [
  | none ↦ true
  | some t ↦ leb (t + rule.schedule_minutes * 60) now
]

-- The state of `run_all_due_rules`, with its counters.
pub record Run : Type 0 where
  pub world : World
  pub rules : List TicketRule
  pub rules_run : ℕ
  pub tickets_created : ℕ

-- A row of `connector_configs`, its credentials decrypted.
pub record Connector : Type 0 where
  pub tenant_id : ℕ
  pub connector_type : String
  pub is_enabled : Bool
  pub credentials : List (String × String)
  pub config : List (String × String)

unfoldable pub lookup : String → List (String × String) → String
lookup k [] = ""
lookup k ((j, v) ∷ m) = if str_eq j k then v else lookup k m

-- `bool(m.get(k))`
abbrev pub has : String → List (String × String) → Bool
has k m = not (str_eq (lookup k m) "")

unfoldable pub has_min_credentials : String → List (String × String) → List (String × String) → Bool
has_min_credentials provider creds config =
    if str_eq provider "ASANA"
    then has "access_token" creds && has "workspace_gid" config
    else if str_eq provider "JIRA"
    then has "email" creds && has "api_token" creds && has "url" creds
    else if str_eq provider "GITHUB"
    then has "token" creds && has "owner" config && has "repo" config
    else false

-- The default project of a provider that routes by project.
unfoldable pub configured_project : String → List (String × String) → String
configured_project provider config =
    if str_eq provider "ASANA"
    then lookup "project_gid" config
    else if str_eq provider "JIRA"
    then lookup "project_key" config
    else ""

-- The tenant's enabled connector for a provider (there is at most one), if it is usable.
unfoldable pub resolve_connector : List Connector → ℕ → String → Option String
resolve_connector [] tenant_id provider = none
resolve_connector (c ∷ cs) tenant_id provider =
    let rest = resolve_connector cs tenant_id provider in
    if c.tenant_id == tenant_id && str_eq c.connector_type provider && c.is_enabled
    then (if has_min_credentials provider c.credentials c.config
        then some (configured_project provider c.config)
        else none)
    else rest

module _ (lib : Providers) (texts : Texts) (now today_start : ℕ) where
  -- The columns that a run writes: after a result, or after an exception.
  unfoldable pub stamp : Option RuleCounts → TicketRule → TicketRule
  stamp none rule = record rule { last_run_at = some now; last_run_status = some failed }
  stamp (some c) rule = record rule {
    last_run_at = some now;
    last_run_status = some success;
    last_run_tickets_created = some c.created;
  }

  unfoldable pub record_run : TicketRule → Run → World × Option RuleCounts → Run
  record_run rule r (w, c) = record {
    world = w;
    rules = update_where (λ q. q.id == rule.id) (stamp c) r.rules;
    rules_run = elim c [ none ↦ r.rules_run | some _ ↦ suc r.rules_run ];
    tickets_created = elim c [ none ↦ r.tickets_created | some k ↦ r.tickets_created + k.created ];
  }

  unfoldable pub run_list : List Connector → List Host → List TicketRule → Run → Run
  run_list connectors hosts [] r = r
  run_list connectors hosts (rule ∷ rules) r =
      let skip = run_list connectors hosts rules r in
      let go = λ (project : String).
        run_list connectors hosts rules
          (record_run rule r (run_rule lib texts now today_start rule project hosts r.world)) in
      elim (resolve_connector connectors rule.tenant_id rule.action.provider) [
        | none ↦ skip
        | some project ↦ go project
      ]

  -- The tenants of the due rules, in the order of their first rule.
  unfoldable pub tenants_of : List ℕ → List TicketRule → List ℕ
  tenants_of seen [] = []
  tenants_of seen (rule ∷ rules) =
      let old = tenants_of seen rules in
      let new = tenants_of (rule.tenant_id ∷ seen) rules in
      if mem_id rule.tenant_id seen then old else rule.tenant_id ∷ new

  -- The rules tenant by tenant.
  unfoldable pub by_tenant : List ℕ → List TicketRule → List TicketRule
  by_tenant [] rules = []
  by_tenant (i ∷ is) rules = filter (λ rule. rule.tenant_id == i) rules ++ by_tenant is rules

  unfoldable pub due_rules : List TicketRule → List TicketRule
  due_rules rules = filter (λ rule. rule.is_enabled && is_due now rule) rules

  unfoldable pub run_all_due_rules : List Connector → List Host → World → List TicketRule → Run
  run_all_due_rules connectors hosts w rules =
      let due = due_rules rules in
      run_list connectors hosts (by_tenant (tenants_of [] due) due)
        (record { world = w; rules = rules; rules_run = 0; tickets_created = 0 })
