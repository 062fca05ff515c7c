-- ===== src/Ticketing.antt =====
-- backend/app/ticketing: the rows of models.py, and the queries that the services share.
-- A ticket of a provider is the group of rows with one URL, a row per finding.
pub mod Matching
pub mod Create
pub mod Rules
pub mod Close
mod Examples
use getvul.Prelude.{
  ℕ, String, Bool, true, false, not, ◌&&◌, ◌||◌, Option, none, some, List, [], ◌∷◌, ◌++◌, length,
  filter, any, map, ℤ, is_some, min, update_where, ltb, ◌==◌, str_eq, if◌then◌else◌,
}
use getvul.Models.{Vulnerability, is_open}
use getvul.Recompute.{is_on}

-- The columns of an asset that ticketing reads; `humaans_email` stands in `mdm_details`.
pub record Host : Type 0 where
  pub id : ℕ
  pub tenant_id : ℕ
  pub hostname : Option String
  pub is_ignored : Bool
  pub device_category : Option String
  pub risk_score : Option ℤ
  pub seen_by_sources : List String
  pub humaans_email : Option String

-- A row of `tickets`. `external_ticket_id` is the text "ref:vulnerability_id".
pub record Ticket : Type 0 where
  pub tenant_id : ℕ
  pub vulnerability_id : ℕ
  pub provider : String
  pub external_ticket_id : String × ℕ
  pub external_ticket_url : String
  pub external_status : String
  pub project_key : String
  pub assignee : Option String
  pub created_by_rule : Option String
  pub ticket_created_at : ℕ
  pub resolved_at : Option ℕ
  pub sla_due_at : Option ℕ

-- What a service reads and writes; `calls` counts the tickets asked of the providers, `closed` lists
-- the (provider, reference) that a provider was asked to close.
pub record World : Type 0 where
  pub vulns : List Vulnerability
  pub tickets : List Ticket
  pub calls : ℕ
  pub closed : List (String × String)

-- The arguments of `client.create`: what the title says, and the keywords that only Asana takes.
pub record Task : Type 0 where
  pub max_severity : String
  pub subject : String
  pub total : ℕ
  pub kwargs : Option (Option String × ℕ)

-- The ticketing clients: the URL that the n-th call returns, or none, and the last segment of a URL.
pub record Providers : Type 0 where
  pub create : ℕ → String → ℕ → Task → Option String
  pub extract_ref : String → String

unfoldable pub find_vuln : ℕ → List Vulnerability → Option Vulnerability
find_vuln i [] = none
find_vuln i (v ∷ vs) = if v.id == i then some v else find_vuln i vs

unfoldable pub has_asset : ℕ → Option Vulnerability → Bool
has_asset a none = false
has_asset a (some v) = is_on v.asset_id a

-- `Vulnerability.asset_id == asset.id`, with the status filter
unfoldable pub is_open_on : ℕ → Vulnerability → Bool
is_open_on a v = is_on v.asset_id a && is_open v.status

-- An unresolved row of the provider whose finding is on the asset.
unfoldable pub is_open_ticket : ℕ → String → List Vulnerability → ℕ → Ticket → Bool
is_open_ticket tenant_id provider vulns asset_id t =
    t.tenant_id == tenant_id
    && str_eq t.provider provider
    && not (is_some t.resolved_at)
    && has_asset asset_id (find_vuln t.vulnerability_id vulns)

unfoldable pub is_in_group : ℕ → String → Ticket → Bool
is_in_group tenant_id url t = str_eq t.external_ticket_url url && t.tenant_id == tenant_id

abbrev pub min_due : Option ℕ → Option ℕ → Option ℕ
min_due none o = o
min_due (some a) none = some a
min_due (some a) (some b) = some (min a b)

abbrev pub due_of : Option Vulnerability → Option ℕ
due_of none = none
due_of (some v) = v.sla_due_at

-- `MIN(v.sla_due_at)` over the rows of a group, joined to their findings
unfoldable pub group_due : ℕ → String → List Vulnerability → List Ticket → Option ℕ
group_due tenant_id url vulns [] = none
group_due tenant_id url vulns (t ∷ ts) =
    let rest = group_due tenant_id url vulns ts in
    if is_in_group tenant_id url t
    then min_due (due_of (find_vuln t.vulnerability_id vulns)) rest
    else rest

unfoldable pub recompute_ticket_sla : ℕ → String → World → World
recompute_ticket_sla tenant_id url w = record w {
  tickets =
      update_where (is_in_group tenant_id url)
        (λ t. record t { sla_due_at = group_due tenant_id url w.vulns w.tickets }) w.tickets;
}

unfoldable pub set_status : String → Vulnerability → Vulnerability
set_status status v = record v { status = status }
