-- ===== src/Ticketing/Rules.antt =====
-- backend/app/ticketing/rule_engine.py, `run_rule`.
pub mod Budget
pub mod Schedule
use getvul.Prelude.{
  ℕ, suc, ◌+◌, ◌-◌, ◌*◌, String, Bool, true, false, not, ◌&&◌, ◌||◌, Option, none, some, is_some,
  List, [], ◌∷◌, ◌++◌, length, filter, any, mem_id, update_where, ltb, leb, ◌==◌, str_eq,
  if◌then◌else◌,
}
use getvul.Models.{Vulnerability, is_open}
use getvul.Recompute.{is_on}
use getvul.Ticketing.{Host, Ticket, World, Providers}
use getvul.Ticketing.Matching.{Conditions, contains, is_empty, find_matching_assets}
use getvul.Ticketing.Create.{
  Result, refused, created, raised, HostRequest, truthy, open_ticket_of, create_host_ticket,
}
use getvul.Ticketing.Create.Remediation.{
  Filters, is_remediation, passes_filters, create_remediation_ticket,
}

pub record Action : Type 0 where
  pub provider : String
  pub project_key : Option String
  pub auto_assign : Bool
  pub due_days : Option ℕ
  pub per_remediation : Bool
  pub max_tickets : ℕ
  pub assignee_email : Option String

pub data RunStatus : Type 0 where
  success failed : RunStatus

pub record TicketRule : Type 0 where
  pub id : ℕ
  pub tenant_id : ℕ
  pub is_enabled : Bool
  pub conditions : Conditions
  pub action : Action
  pub schedule_minutes : ℕ
  pub last_run_at : Option ℕ
  pub last_run_status : Option RunStatus
  pub last_run_tickets_created : Option ℕ

-- What a rule reports; `none` for the counts is an exception.
pub record RuleCounts : Type 0 where
  pub matched : ℕ
  pub created : ℕ
  pub skipped : ℕ

-- `TicketProvider(provider)` accepts it.
unfoldable pub is_provider : String → Bool
is_provider p = str_eq p "ASANA" || str_eq p "JIRA" || str_eq p "GITHUB"

abbrev pub same_external_id : String × ℕ → String × ℕ → Bool
same_external_id (r, i) (s, j) = str_eq r s && i == j

-- `COUNT(DISTINCT ...)`
unfoldable pub count_distinct : List (String × ℕ) → ℕ
count_distinct [] = 0
count_distinct (x ∷ xs) =
    let rest = count_distinct xs in if any (same_external_id x) xs then rest else suc rest

abbrev pub external_ids : List Ticket → List (String × ℕ)
external_ids [] = []
external_ids (t ∷ ts) = t.external_ticket_id ∷ external_ids ts

unfoldable pub is_from_today : ℕ → String → ℕ → Ticket → Bool
is_from_today tenant_id provider today_start t =
    t.tenant_id == tenant_id && str_eq t.provider provider && leb today_start t.ticket_created_at

unfoldable pub today_created : ℕ → String → ℕ → List Ticket → ℕ
today_created tenant_id provider today_start tickets =
    count_distinct (external_ids (filter (is_from_today tenant_id provider today_start) tickets))

-- `max(0, max_tickets_per_day - today_created)`
unfoldable pub remaining_budget : TicketRule → ℕ → World → ℕ
remaining_budget rule today_start w =
    rule.action.max_tickets
    - today_created rule.tenant_id rule.action.provider today_start w.tickets

-- A state with the two counters of the loop; `failed` once an exception left it.
pub record Loop : Type 0 where
  pub world : World
  pub created : ℕ
  pub skipped : ℕ
  pub failed : Bool

-- The counters after one creation.
unfoldable pub count_result : Loop → World × Result → Loop
count_result l (w, refused _) = record l { world = w; skipped = suc l.skipped }
count_result l (w, created _ _) = record l { world = w; created = suc l.created }
count_result l (w, raised) = record l { world = w; failed = true }

-- The parameters of the texts and of the query's order, which the tickets' number does not depend on.
pub record Texts : Type 0 where
  pub describe : List Vulnerability → String
  pub by_hostname : List Vulnerability → List Vulnerability
  -- `GROUP BY remediation_id`, by the number of assets, over the findings selected
  pub remediations : List Vulnerability → List String
  pub normalize : String → String

unfoldable pub project_of : Action → String → String
project_of a configured = elim (truthy a.project_key) [ none ↦ configured | some k ↦ k ]

unfoldable pub filters_of : Conditions → Filters
filters_of c = record {
  severity = c.severity;
  source = c.source;
  exploit = c.exploit_available;
  kev = c.cisa_kev;
}

abbrev pub is_on_any : List Host → Option ℕ → Bool
is_on_any [] a = false
is_on_any (h ∷ hs) a = is_on a h.id || is_on_any hs a

abbrev pub has_remediation : Option String → Bool
has_remediation o = is_some (truthy o)

unfoldable pub is_remediable : TicketRule → List Host → Vulnerability → Bool
is_remediable rule assets v =
    v.tenant_id == rule.tenant_id
    && is_on_any assets v.asset_id
    && is_open v.status
    && has_remediation v.remediation_id
    && passes_filters (filters_of rule.conditions) v

module _ (lib : Providers) (texts : Texts) (now today_start : ℕ) where
  open texts use {describe, by_hostname, remediations, normalize}

  unfoldable pub run_hosts : TicketRule → String → ℕ → List Host → List Host → Loop → Loop
  run_hosts rule project budget hosts [] l = l
  run_hosts rule project budget hosts (h ∷ hs) l =
      let request : HostRequest = record {
        asset_id = h.id;
        provider = rule.action.provider;
        project_key = project;
        assignee = if rule.action.auto_assign then h.humaans_email else none;
        due_days = rule.action.due_days;
      } in
      let skip = run_hosts rule project budget hosts hs (record l { skipped = suc l.skipped }) in
      let next =
        run_hosts rule project budget hosts hs
          (count_result l (create_host_ticket lib rule.tenant_id now request hosts l.world)) in
      if l.failed || leb budget l.created
      then l
      else if is_empty (open_ticket_of lib rule.tenant_id now rule.action.provider h.id l.world)
      then next
      else skip

  unfoldable pub run_remediations : TicketRule → String → ℕ → List String → Loop → Loop
  run_remediations rule project budget [] l = l
  run_remediations rule project budget (rid ∷ rids) l =
      let next = run_remediations rule project budget rids (
        count_result l (
          create_remediation_ticket lib rule.tenant_id now describe by_hostname rid
            rule.action.provider project rule.action.due_days rule.action.assignee_email
            (filters_of rule.conditions) l.world)) in
      if l.failed || leb budget l.created then l else next

  unfoldable pub run_matched : TicketRule → String → ℕ → List Host → List Host → World → Loop
  run_matched rule project budget hosts assets w =
      let start : Loop = record { world = w; created = 0; skipped = 0; failed = false } in
      if rule.action.per_remediation
      then run_remediations rule project budget
          (remediations (filter (is_remediable rule assets) w.vulns)) start
      else run_hosts rule project budget hosts assets start

  abbrev pub outcome : ℕ → Loop → World × Option RuleCounts
  outcome matched l = (
    l.world,
    if l.failed
        then none
        else some (record { matched = matched; created = l.created; skipped = l.skipped }),
  )

  -- What a rule does for the assets that it matches; `project` is the connector's default.
  unfoldable pub run_assets :
      TicketRule → String → List Host → List Host → World → World × Option RuleCounts
  run_assets rule project hosts assets w =
      if is_empty assets
      then (w, some (record { matched = 0; created = 0; skipped = 0 }))
      else if not (is_provider rule.action.provider)
      then (w, none)
      else if remaining_budget rule today_start w == 0
      then (w, some (record { matched = length assets; created = 0; skipped = 0 }))
      else outcome (length assets) (
          run_matched rule (project_of rule.action project) (remaining_budget rule today_start w)
            hosts assets w)

  unfoldable pub run_rule : TicketRule → String → List Host → World → World × Option RuleCounts
  run_rule rule project hosts w =
      run_assets rule project hosts
        (find_matching_assets normalize rule.tenant_id rule.conditions hosts w.vulns) w
