-- ===== src/Ticketing/Examples.antt =====
-- A laptop with one HIGH finding, a rule that asks for such findings, and its ticket.
use getvul.Prelude.{
  ℕ, ◌+◌, ◌≤◌, ◌≡◌, refl, String, true, false, Option, none, some, [], ◌∷◌, pos, Memᴰ,
}
use getvul.Models.{Vulnerability}
use getvul.Models.Samples.{finding}
use getvul.Ticketing.{Host, Ticket, World, Task, Providers, is_in_group}
use getvul.Ticketing.Matching.{
  Conditions, is_candidate, has_no_vuln_conditions, find_matching_assets,
}
use getvul.Models.{is_open}
use getvul.Correlation.{source_order}
use getvul.Access.{one_or_none}
use getvul.Ticketing.{is_open_on, is_open_ticket, recompute_ticket_sla}
use getvul.Ticketing.Matching.{
  meets_risk, meets_scanners, scanners_of, passes_counts, count_vulns, has_severity,
}
use getvul.Ticketing.Create.{
  create_host_ticket, find_host, ticket_for_found, ticket_for, submit_host, save_host, by_severity,
  link_host, link_one, is_row_of, add_row, finish_ticket, open_ticket_of,
}
use getvul.Ticketing.Rules.{
  run_assets, run_matched, run_hosts, is_provider, today_created, is_from_today, count_distinct,
  count_result, project_of,
}
use getvul.Ticketing.Rules.{TicketRule, Texts, RuleCounts, remaining_budget, run_rule}
use getvul.Ticketing.Rules.Budget.{run_rule-within}
use getvul.Ticketing.Close.{
  Clients, is_settled, is_unkept, complete, set_remediated, remediate_rows, close_rows, closed,
  close_ticket,
}
use getvul.Ticketing.Close.{Sync, is_done, task_vulns, sync_provider}
use getvul.Ticketing.Close.Settled.{sync_provider-settles}
use getvul.Ticketing.Close.Done.{close_ticket-closes}

abbrev as_is : String → String
as_is s = s

abbrev laptop : Host
laptop = record {
  id = 7;
  tenant_id = 1;
  hostname = some "laptop";
  is_ignored = false;
  device_category = some "laptop";
  risk_score = some (pos 60);
  seen_by_sources = "WIZ" ∷ [];
  humaans_email = none;
}

abbrev conditions : Conditions
conditions = record {
  device_category = "laptop" ∷ [];
  min_risk_score = some (pos 50);
  scanner = "WIZ" ∷ [];
  source = [];
  severity = "HIGH" ∷ [];
  exploit_available = false;
  cisa_kev = false;
  min_critical_vulns = pos 0;
  min_high_vulns = pos 1;
}

abbrev high : Vulnerability
high = finding 3 20 "WIZ" "OPEN"

abbrev jira_url : ℕ → String → ℕ → Task → Option String
jira_url tenant provider n task = some "https://jira/browse/SEC-1"

abbrev last_segment : String → String
last_segment url = "SEC-1"

abbrev providers : Providers
providers = record { create = jira_url; extract_ref = last_segment }

abbrev texts : Texts
texts = record {
  describe = λ vs. "";
  by_hostname = λ vs. vs;
  remediations = λ vs. [];
  normalize = as_is;
}

abbrev rule : TicketRule
rule = record {
  id = 4;
  tenant_id = 1;
  is_enabled = true;
  conditions = conditions;
  action = record {
    provider = "JIRA";
    project_key = some "SEC";
    auto_assign = false;
    due_days = none;
    per_remediation = false;
    max_tickets = 5;
    assignee_email = none;
  };
  schedule_minutes = 60;
  last_run_at = none;
  last_run_status = none;
  last_run_tickets_created = none;
}

abbrev world : World
world = record { vulns = high ∷ []; tickets = []; calls = 0; closed = [] }

abbrev counts : RuleCounts
counts = record { matched = 1; created = 1; skipped = 0 }

ran : (run_rule providers texts 100 90 rule "" (laptop ∷ []) world).1 ≡ some counts
unfolding run_rule run_assets run_matched run_hosts find_matching_assets is_candidate meets_risk
    meets_scanners scanners_of source_order has_no_vuln_conditions passes_counts count_vulns
    has_severity is_open_on is_open is_provider remaining_budget today_created is_from_today
    count_distinct is_open_ticket open_ticket_of create_host_ticket find_host ticket_for_found
    ticket_for submit_host save_host by_severity link_host link_one one_or_none is_row_of add_row
    finish_ticket recompute_ticket_sla count_result project_of
ran = refl

run_rule-within_example :
    (0 + 1 ≤ (run_rule providers texts 100 90 rule "" (laptop ∷ []) world).0.calls)
    × ((run_rule providers texts 100 90 rule "" (laptop ∷ []) world).0.calls ≤ 1)
    × (1 ≤ remaining_budget rule 90 world)
run_rule-within_example =
    run_rule-within providers texts 100 90 rule "" (laptop ∷ []) world counts ran

abbrev ticket : Ticket
ticket = record {
  tenant_id = 1;
  vulnerability_id = 3;
  provider = "JIRA";
  external_ticket_id = ("SEC-1", 3);
  external_ticket_url = "https://jira/browse/SEC-1";
  external_status = "open";
  project_key = "SEC";
  assignee = none;
  created_by_rule = none;
  ticket_created_at = 100;
  resolved_at = none;
  sla_due_at = none;
}

abbrev clients : Clients
clients = record { is_configured = λ p. true; get = λ p r. none; lower = as_is }

abbrev closed_ticket : Ticket
closed_ticket = record ticket { external_status = "completed"; resolved_at = some 200 }

abbrev fixed_high : Vulnerability
fixed_high = record high { status = "REMEDIATED"; remediated_at = some 200 }

abbrev ticketed : World
ticketed = record world { tickets = ticket ∷ [] }

abbrev url : String
url = "https://jira/browse/SEC-1"

closed_result : (close_ticket clients 1 200 url ticketed).1 ≡ closed 1 1
unfolding close_ticket close_rows remediate_rows is_in_group is_unkept is_settled complete
    set_remediated
closed_result = refl

closed_row : Memᴰ closed_ticket (close_ticket clients 1 200 url ticketed).0.tickets
unfolding close_ticket close_rows remediate_rows is_in_group is_unkept is_settled complete
    set_remediated
closed_row = Memᴰ.head refl

closed_vuln : Memᴰ fixed_high (close_ticket clients 1 200 url ticketed).0.vulns
unfolding close_ticket close_rows remediate_rows is_in_group is_unkept is_settled complete
    set_remediated
closed_vuln = Memᴰ.head refl

in_group : is_in_group 1 url closed_ticket ≡ true
unfolding is_in_group
in_group = refl

close_ticket-closes_example :
    (closed_ticket.resolved_at ≡ some 200) × (is_settled "REMEDIATED" ≡ true)
close_ticket-closes_example =
    close_ticket-closes clients 1 200 url ticketed 1 1 closed_ticket fixed_high closed_result
      closed_row in_group closed_vuln refl

abbrev sync_start : Sync
sync_start = record {
  world = record ticketed { vulns = fixed_high ∷ [] };
  synced = 0;
  resolved = 0;
  comments_added = 0;
}

sync_provider-settles_example :
    is_done (task_vulns 1 "JIRA" "SEC-1" (sync_provider clients 1 200 "JIRA" sync_start).world)
    ≡ false
sync_provider-settles_example = sync_provider-settles clients 1 200 "JIRA" "SEC-1" sync_start refl
