-- ===== src/Ticketing/Create.antt =====
-- backend/app/ticketing/service.py, `create_host_ticket`. The text
-- of the ticket's description is left out.
pub mod Remediation
use getvul.Prelude.{
  ℕ, suc, String, Bool, true, false, not, ◌&&◌, ◌||◌, Option, none, some, is_some, List, [], ◌∷◌,
  ◌++◌, length, filter, mem_id, update_where, ltb, ◌==◌, str_eq, if◌then◌else◌,
}
use getvul.Models.{Vulnerability, is_open}
use getvul.Access.{one_or_none}
use getvul.Ticketing.{
  Host, Ticket, World, Task, Providers, is_open_on, is_open_ticket, recompute_ticket_sla,
  set_status,
}
use getvul.Ticketing.Matching.{contains, is_empty}

pub data Refusal : Type 0 where
  asset_not_found already_open no_open_vulns provider_failed : Refusal

-- `raised` is an exception: what was written before it stays in the session.
pub data Result : Type 0 where
  refused : Refusal → Result
  created : String → ℕ → Result
  raised : Result

pub record HostRequest : Type 0 where
  pub asset_id : ℕ
  pub provider : String
  pub project_key : String
  pub assignee : Option String
  pub due_days : Option ℕ

unfoldable pub sev_rank : String → ℕ
sev_rank s =
    if str_eq s "CRITICAL"
    then 4
    else if str_eq s "HIGH"
    then 3
    else if str_eq s "MEDIUM"
    then 2
    else if str_eq s "LOW"
    then 1
    else 0

-- The loop that starts at "LOW" and keeps the first of the highest.
unfoldable pub max_severity : String → List Vulnerability → String
max_severity best [] = best
max_severity best (v ∷ vs) =
    max_severity (if ltb (sev_rank best) (sev_rank v.severity) then v.severity else best) vs

unfoldable pub severity_sla_days : String → ℕ
severity_sla_days s =
    if str_eq s "CRITICAL"
    then 3
    else if str_eq s "HIGH"
    then 14
    else if str_eq s "MEDIUM"
    then 30
    else if str_eq s "LOW"
    then 90
    else if str_eq s "INFO"
    then 180
    else 30

-- `due_days` when it is given and not 0, else the default of the severity
unfoldable pub due_in : Option ℕ → String → ℕ
due_in none severity = severity_sla_days severity
due_in (some d) severity = if d == 0 then severity_sla_days severity else d

unfoldable pub provider_create_kwargs : String → Option String → ℕ → Option (Option String × ℕ)
provider_create_kwargs provider assignee due =
    if str_eq provider "ASANA" then some (assignee, due) else none

-- A text that is given and not empty.
abbrev pub truthy : Option String → Option String
truthy none = none
truthy (some s) = if str_eq s "" then none else some s

abbrev pub or_else_text : Option String → Option String → Option String
or_else_text none o = o
or_else_text (some s) o = some s

abbrev pub or_unknown : Option String → String
or_unknown o = elim (truthy o) [ none ↦ "unknown" | some s ↦ s ]

-- `ORDER BY CASE severity ...`
unfoldable pub by_severity : List Vulnerability → List Vulnerability
by_severity vs =
    let is = λ (s : String) (v : Vulnerability). str_eq v.severity s in
    filter (is "CRITICAL") vs
    ++ filter (is "HIGH") vs
    ++ filter (is "MEDIUM") vs
    ++ filter (λ v. not (is "CRITICAL" v) && not (is "HIGH" v) && not (is "MEDIUM" v)) vs

unfoldable pub find_host : ℕ → ℕ → List Host → Option Host
find_host tenant_id i [] = none
find_host tenant_id i (h ∷ hs) =
    if h.id == i && h.tenant_id == tenant_id then some h else find_host tenant_id i hs

unfoldable pub is_row_of : ℕ → String → ℕ → Ticket → Bool
is_row_of tenant_id provider i t =
    t.tenant_id == tenant_id && t.vulnerability_id == i && str_eq t.provider provider

-- The row of one finding joins the table, and the finding is in progress.
unfoldable pub add_row : Ticket → World → World
add_row t w = record w {
  tickets = w.tickets ++ t ∷ [];
  vulns = update_where (λ v. v.id == t.vulnerability_id) (set_status "IN_PROGRESS") w.vulns;
}

-- The state after the loop over the findings, how many were linked, and whether a query raised.
pub record Linked : Type 0 where
  pub world : World
  pub linked : ℕ
  pub failed : Bool

-- What the query for a finding's row leads to: an exception, the rest alone, or a new row.
unfoldable pub link_one : World → ℕ → Linked → Linked → Option (Option Ticket) → Linked
link_one w n skipped added none = record { world = w; linked = n; failed = true }
link_one w n skipped added (some (some _)) = skipped
link_one w n skipped added (some none) = added

-- `row` makes the ticket row of a finding.
unfoldable pub link_host : ℕ → String → (ℕ → Ticket) → List Vulnerability → World → ℕ → Linked
link_host tenant_id provider row [] w n = record { world = w; linked = n; failed = false }
link_host tenant_id provider row (v ∷ vs) w n =
    let skipped = link_host tenant_id provider row vs w n in
    let added = link_host tenant_id provider row vs (add_row (row v.id) w) (suc n) in
    link_one w n skipped added (one_or_none (filter (is_row_of tenant_id provider v.id) w.tickets))

-- What follows the loop: the group's due date.
unfoldable pub finish_ticket : ℕ → String → Linked → World × Result
finish_ticket tenant_id url l = if l.failed then (l.world, raised) else (
  if ltb 0 l.linked then recompute_ticket_sla tenant_id url l.world else l.world,
  created url l.linked,
)

module _ (lib : Providers) (tenant_id now : ℕ) where
  open lib use {create, extract_ref}

  -- The row of a finding in the ticket at `url`.
  unfoldable pub new_row : String → String → Option String → Option String → String → ℕ → Ticket
  new_row provider project_key assignee rule url i = record {
    tenant_id = tenant_id;
    vulnerability_id = i;
    provider = provider;
    external_ticket_id = (extract_ref url, i);
    external_ticket_url = url;
    external_status = "open";
    project_key = project_key;
    assignee = assignee;
    created_by_rule = rule;
    ticket_created_at = now;
    resolved_at = none;
    sla_due_at = none;
  }

  unfoldable pub host_task : HostRequest → Host → List Vulnerability → Task
  host_task request h vulns =
      let severity = max_severity "LOW" vulns in
      record {
        max_severity = severity;
        subject = or_unknown h.hostname;
        total = length vulns;
        kwargs =
            provider_create_kwargs request.provider
              (or_else_text (truthy request.assignee) (truthy h.humaans_email))
              (due_in request.due_days severity);
      }

  -- The rows that record the ticket at the URL that the provider returned.
  unfoldable pub save_host :
      HostRequest → Host → List Vulnerability → World → Option String → World × Result
  save_host request h vulns w none = (w, refused provider_failed)
  save_host request h vulns w (some url) = finish_ticket tenant_id url (
      link_host tenant_id request.provider
        (new_row request.provider request.project_key
          (or_else_text (truthy request.assignee) (truthy h.humaans_email)) none url)
        vulns w 0)

  -- The call of the provider for the asset's open findings.
  unfoldable pub submit_host : HostRequest → Host → World → List Vulnerability → World × Result
  submit_host request h w [] = (w, refused no_open_vulns)
  submit_host request h w (v ∷ vs) =
      save_host request h (v ∷ vs) (record w { calls = suc w.calls })
        (create tenant_id request.provider w.calls (host_task request h (v ∷ vs)))

  unfoldable pub open_ticket_of : String → ℕ → World → List Ticket
  open_ticket_of provider asset_id w =
      filter (is_open_ticket tenant_id provider w.vulns asset_id) w.tickets

  unfoldable pub ticket_for : HostRequest → Host → World → World × Result
  ticket_for request h w =
      if is_empty (open_ticket_of request.provider h.id w)
      then submit_host request h w (by_severity (filter (is_open_on h.id) w.vulns))
      else (w, refused already_open)

  unfoldable pub ticket_for_found : HostRequest → World → Option Host → World × Result
  ticket_for_found request w none = (w, refused asset_not_found)
  ticket_for_found request w (some h) = ticket_for request h w

  unfoldable pub create_host_ticket : HostRequest → List Host → World → World × Result
  create_host_ticket request hosts w =
      ticket_for_found request w (find_host tenant_id request.asset_id hosts)
