-- ===== src/Ticketing/Create/Remediation.antt =====
-- backend/app/ticketing/service.py, `create_remediation_ticket`.
use getvul.Prelude.{
  ℕ, suc, String, Bool, false, not, ◌&&◌, ◌||◌, Option, none, some, is_some, List, [], ◌∷◌, length,
  filter, mem_id, ◌==◌, str_eq, if◌then◌else◌,
}
use getvul.Models.{Vulnerability, is_open}
use getvul.Ticketing.{Ticket, World, Task, Providers}
use getvul.Ticketing.Matching.{contains, is_empty}
use getvul.Ticketing.Create.{
  Result, refused, already_open, no_open_vulns, provider_failed, max_severity, due_in,
  provider_create_kwargs, Linked, add_row, finish_ticket, new_row,
}

-- The filters of a remediation ticket.
pub record Filters : Type 0 where
  pub severity : List String
  pub source : List String
  pub exploit : Bool
  pub kev : Bool

abbrev pub is_remediation : Option String → String → Bool
is_remediation none rid = false
is_remediation (some r) rid = str_eq r rid

unfoldable pub passes_filters : Filters → Vulnerability → Bool
passes_filters fs v =
    (is_empty fs.severity || contains fs.severity v.severity)
    && (is_empty fs.source || contains fs.source v.source)
    && (not fs.exploit || v.exploit_available)
    && (not fs.kev || v.cisa_kev)

unfoldable pub is_in_remediation : ℕ → String → Filters → Vulnerability → Bool
is_in_remediation tenant_id rid fs v =
    v.tenant_id == tenant_id
    && is_remediation v.remediation_id rid
    && is_open v.status
    && passes_filters fs v

unfoldable pub is_rule_ticket : ℕ → String → String → Ticket → Bool
is_rule_ticket tenant_id provider rid t =
    t.tenant_id == tenant_id
    && str_eq t.provider provider
    && not (is_some t.resolved_at)
    && is_remediation t.created_by_rule rid

unfoldable pub link_remediation : (ℕ → Ticket) → List Vulnerability → List ℕ → World → ℕ → Linked
link_remediation row [] seen w n = record { world = w; linked = n; failed = false }
link_remediation row (v ∷ vs) seen w n =
    let skipped = link_remediation row vs seen w n in
    let added = link_remediation row vs (v.id ∷ seen) (add_row (row v.id) w) (suc n) in
    if mem_id v.id seen then skipped else added

module _ (lib : Providers) (tenant_id now : ℕ) where
  open lib use {create, extract_ref}

  unfoldable pub save_remediation :
      String
      → String
      → String
      → Option String
      → List Vulnerability
      → World
      → Option String
      → World × Result
  save_remediation rid provider project_key assignee rows w none = (w, refused provider_failed)
  save_remediation rid provider project_key assignee rows w (some url) =
      finish_ticket tenant_id url (
        link_remediation (new_row lib tenant_id now provider project_key assignee (some rid) url)
          rows [] w 0)

  -- `describe` makes the texts of the title.
  unfoldable pub remediation_task :
      (List Vulnerability → String) → String → Option ℕ → Option String → List Vulnerability → Task
  remediation_task describe provider due_days assignee rows =
      let severity = max_severity "LOW" rows in
      record {
        max_severity = severity;
        subject = describe rows;
        total = length rows;
        kwargs = provider_create_kwargs provider assignee (due_in due_days severity);
      }

  unfoldable pub submit_remediation :
      (List Vulnerability → String)
      → String
      → String
      → String
      → Option ℕ
      → Option String
      → World
      → List Vulnerability
      → World × Result
  submit_remediation describe rid provider project_key due_days assignee w [] =
      (w, refused no_open_vulns)
  submit_remediation describe rid provider project_key due_days assignee w (v ∷ vs) =
      if is_empty (filter (is_rule_ticket tenant_id provider rid) w.tickets)
      then save_remediation rid provider project_key assignee (v ∷ vs)
          (record w { calls = suc w.calls })
          (create tenant_id provider w.calls
            (remediation_task describe provider due_days assignee (v ∷ vs)))
      else (w, refused already_open)

  -- `by_hostname` is `ORDER BY Asset.hostname`.
  unfoldable pub create_remediation_ticket :
      (List Vulnerability → String)
      → (List Vulnerability → List Vulnerability)
      → String
      → String
      → String
      → Option ℕ
      → Option String
      → Filters
      → World
      → World × Result
  create_remediation_ticket describe by_hostname rid provider project_key due_days assignee fs w =
      submit_remediation describe rid provider project_key due_days assignee w
        (by_hostname (filter (is_in_remediation tenant_id rid fs) w.vulns))
