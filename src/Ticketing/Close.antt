-- ===== src/Ticketing/Close.antt =====
-- backend/app/ticketing/service.py, `sync_ticket_status` and `close_ticket`: a ticket is done when
-- its provider says so, when a user closes it, or when its findings are. One run has one clock value.
pub mod Done
pub mod Settled
use getvul.Prelude.{
  ℕ, ◌+◌, String, Bool, true, false, not, ◌&&◌, ◌||◌, Option, none, some, is_some, List, [], ◌∷◌,
  ◌++◌, length, filter, any, mem_id, update_where, count_where, ltb, ◌==◌, str_eq, if◌then◌else◌,
}
use getvul.Models.{Vulnerability, is_open}
use getvul.Ticketing.{Ticket, World, is_in_group}

-- What `client.get` reads, a missing key read as `false` or "".
pub record Payload : Type 0 where
  pub completed : Bool
  pub status_category : String
  pub status_name : String
  pub state : String

-- The clients: is the provider configured, and the payload of a reference.
pub record Clients : Type 0 where
  pub is_configured : String → Bool
  pub get : String → String → Option Payload
  pub lower : String → String

unfoldable pub is_ticket_completed : (String → String) → String → Payload → Bool
is_ticket_completed lower provider p =
    if str_eq provider "ASANA"
    then p.completed
    else if str_eq provider "JIRA"
    then str_eq p.status_category "done"
      || any (str_eq (lower p.status_name)) ("done" ∷ "closed" ∷ "resolved" ∷ "completed" ∷ [])
    else if str_eq provider "GITHUB"
    then str_eq p.state "closed"
    else false

unfoldable pub is_settled : String → Bool
is_settled status = str_eq status "REMEDIATED" || str_eq status "SUPPRESSED"

abbrev pub is_remediated_status : String → Bool
is_remediated_status status = str_eq status "REMEDIATED"

unfoldable pub complete : ℕ → Ticket → Ticket
complete now t = record t { external_status = "completed"; resolved_at = some now }

unfoldable pub set_remediated : ℕ → Vulnerability → Vulnerability
set_remediated now v = record v { status = "REMEDIATED"; remediated_at = some now }

-- The findings after the loop over the rows, and how many it remediated.
pub record Remediation : Type 0 where
  pub vulns : List Vulnerability
  pub count : ℕ

unfoldable pub is_unkept : (String → Bool) → ℕ → Vulnerability → Bool
is_unkept keep i v = v.id == i && not (keep v.status)

-- The findings of the rows become REMEDIATED, but for those whose status is kept.
unfoldable pub remediate_rows : (String → Bool) → ℕ → List Ticket → Remediation → Remediation
remediate_rows keep now [] r = r
remediate_rows keep now (t ∷ ts) r = remediate_rows keep now ts (record {
  vulns = update_where (is_unkept keep t.vulnerability_id) (set_remediated now) r.vulns;
  count = r.count + count_where (is_unkept keep t.vulnerability_id) r.vulns;
})

pub data CloseResult : Type 0 where
  ticket_not_found no_connector : CloseResult
  closed : ℕ → ℕ → CloseResult

-- The rows of the group, of which the first names the provider and the reference.
unfoldable pub close_rows : Clients → ℕ → ℕ → String → List Ticket → World → World × CloseResult
close_rows clients tenant_id now url [] w = (w, ticket_not_found)
close_rows clients tenant_id now url (t ∷ ts) w =
    let r = remediate_rows is_settled now (t ∷ ts) (record { vulns = w.vulns; count = 0 }) in
    if clients.is_configured t.provider
    then (
      record w {
        vulns = r.vulns;
        tickets = update_where (is_in_group tenant_id url) (complete now) w.tickets;
        closed = w.closed ++ (t.provider, t.external_ticket_id.0) ∷ [];
      },
      closed (length (t ∷ ts)) r.count,
    )
    else (w, no_connector)

unfoldable pub close_ticket : Clients → ℕ → ℕ → String → World → World × CloseResult
close_ticket clients tenant_id now url w =
    close_rows clients tenant_id now url (filter (is_in_group tenant_id url) w.tickets) w

-- The state of the sync, with its counters.
pub record Sync : Type 0 where
  pub world : World
  pub synced : ℕ
  pub resolved : ℕ
  pub comments_added : ℕ

unfoldable pub is_unresolved : ℕ → String → Ticket → Bool
is_unresolved tenant_id provider t =
    t.tenant_id == tenant_id && not (is_some t.resolved_at) && str_eq t.provider provider

abbrev pub completes : Clients → String → Option Payload → Bool
completes clients provider none = false
completes clients provider (some p) = is_ticket_completed clients.lower provider p

unfoldable pub payload_of : Clients → Ticket → Option Payload
payload_of clients t = clients.get t.provider t.external_ticket_id.0

unfoldable pub is_completed : Clients → ℕ → String → Ticket → Bool
is_completed clients tenant_id provider t =
    is_unresolved tenant_id provider t && completes clients provider (payload_of clients t)

unfoldable pub is_read : Clients → ℕ → String → Ticket → Bool
is_read clients tenant_id provider t =
    is_unresolved tenant_id provider t && is_some (payload_of clients t)

-- What the provider's payload makes of a row.
unfoldable pub read_row : Clients → ℕ → Ticket → Ticket
read_row clients now t =
    if completes clients t.provider (payload_of clients t)
    then complete now t
    else record t { external_status = "open" }

-- The loop over the rows of one provider.
unfoldable pub sync_rows : Clients → ℕ → ℕ → String → Sync → Sync
sync_rows clients tenant_id now provider s =
    let done = filter (is_completed clients tenant_id provider) s.world.tickets in
    record s {
      world = record s.world {
        tickets =
            update_where (is_read clients tenant_id provider) (read_row clients now)
              s.world.tickets;
        vulns =
            (remediate_rows is_remediated_status now done
              (record { vulns = s.world.vulns; count = 0 })).vulns;
      };
      synced = s.synced + count_where (is_read clients tenant_id provider) s.world.tickets;
      resolved = s.resolved + length done;
    }

unfoldable pub is_open_row_of : ℕ → String → String → Ticket → Bool
is_open_row_of tenant_id provider ref t =
    is_unresolved tenant_id provider t && str_eq t.external_ticket_id.0 ref

abbrev pub linked_ids : List Ticket → List ℕ
linked_ids [] = []
linked_ids (t ∷ ts) = t.vulnerability_id ∷ linked_ids ts

-- The findings of a task's open rows.
unfoldable pub task_vulns : ℕ → String → String → World → List Vulnerability
task_vulns tenant_id provider ref w =
    let ids = linked_ids (filter (is_open_row_of tenant_id provider ref) w.tickets) in
    filter (λ v. mem_id v.id ids) w.vulns

unfoldable pub count_status : String → List Vulnerability → ℕ
count_status status = count_where (λ v. str_eq v.status status)

unfoldable pub still_open : List Vulnerability → ℕ
still_open vs = count_status "OPEN" vs + count_status "IN_PROGRESS" vs

-- No finding is open, and there is one.
unfoldable pub is_done : List Vulnerability → Bool
is_done vs = still_open vs == 0 && ltb 0 (length vs)

unfoldable pub close_task : ℕ → ℕ → String → String → Sync → Sync
close_task tenant_id now provider ref s = record s {
  world = record s.world {
    tickets = update_where (is_open_row_of tenant_id provider ref) (complete now) s.world.tickets;
    closed = s.world.closed ++ (provider, ref) ∷ [];
  };
  resolved = s.resolved + count_where (is_open_row_of tenant_id provider ref) s.world.tickets;
  comments_added = s.comments_added + 1;
}

-- A comment on the progress, when some findings are settled and some are open.
unfoldable pub comment_task : List Vulnerability → Sync → Sync
comment_task vs s =
    if (ltb 0 (count_status "REMEDIATED" vs) || ltb 0 (count_status "SUPPRESSED" vs))
      && ltb 0 (still_open vs)
    then record s { comments_added = s.comments_added + 1 }
    else s

unfoldable pub sync_task : ℕ → ℕ → String → String → Sync → Sync
sync_task tenant_id now provider ref s =
    let vs = task_vulns tenant_id provider ref s.world in
    if is_done vs then close_task tenant_id now provider ref s else comment_task vs s

unfoldable pub sync_tasks : ℕ → ℕ → String → List String → Sync → Sync
sync_tasks tenant_id now provider [] s = s
sync_tasks tenant_id now provider (ref ∷ refs) s =
    sync_tasks tenant_id now provider refs (sync_task tenant_id now provider ref s)

abbrev pub distinct : List String → List String → List String
distinct seen [] = []
distinct seen (x ∷ xs) =
    let old = distinct seen xs in
    let new = distinct (x ∷ seen) xs in if any (λ y. str_eq y x) seen then old else x ∷ new

abbrev pub refs_of : List Ticket → List String
refs_of [] = []
refs_of (t ∷ ts) = t.external_ticket_id.0 ∷ refs_of ts

abbrev pub providers_of : List Ticket → List String
providers_of [] = []
providers_of (t ∷ ts) = t.provider ∷ providers_of ts

-- One provider: its rows, then its tasks that are still open.
unfoldable pub sync_provider : Clients → ℕ → ℕ → String → Sync → Sync
sync_provider clients tenant_id now provider s =
    let r = sync_rows clients tenant_id now provider s in
    let refs = distinct [] (refs_of (filter (is_unresolved tenant_id provider) r.world.tickets)) in
    if clients.is_configured provider then sync_tasks tenant_id now provider refs r else s

unfoldable pub sync_providers : Clients → ℕ → ℕ → List String → Sync → Sync
sync_providers clients tenant_id now [] s = s
sync_providers clients tenant_id now (p ∷ ps) s =
    sync_providers clients tenant_id now ps (sync_provider clients tenant_id now p s)

unfoldable pub sync_ticket_status : Clients → ℕ → ℕ → World → Sync
sync_ticket_status clients tenant_id now w =
    let open_rows =
      filter (λ t. t.tenant_id == tenant_id && not (is_some t.resolved_at)) w.tickets in
    sync_providers clients tenant_id now (distinct [] (providers_of open_rows))
      (record { world = w; synced = 0; resolved = 0; comments_added = 0 })
