-- ===== src/Ticketing/Close/Done.antt =====
-- Closing a ticket: its rows are resolved and its findings settled.
use getvul.Prelude.{
  ℕ, ◌≡◌, refl, String, Bool, true, some, List, [], ◌∷◌, filter, update_where, arith, ◌==◌, ==_iff,
  if_case, if◌then◌else◌, All, filter-All, All-Memᴰ, Memᴰ, subst,
}
use getvul.Models.{Vulnerability}
use getvul.Ticketing.{Ticket, World, is_in_group}
use getvul.Ticketing.Close.{
  Clients, is_settled, complete, set_remediated, Remediation, is_unkept, remediate_rows,
  CloseResult, closed, close_rows, close_ticket,
}

-- The finding `i`, if it is there, has a status that is kept.
abbrev IsDone : (String → Bool) → ℕ → Vulnerability → Type 0
IsDone keep i v = (v.id == i) ≡ true → keep v.status ≡ true

module _ (keep : String → Bool) (now : ℕ) (k : keep "REMEDIATED" ≡ true) where
  update-IsDone :
      (i : ℕ) (v : Vulnerability)
      → IsDone keep i (if is_unkept keep i v then set_remediated now v else v)
  unfolding is_unkept set_remediated
  update-IsDone i v e = ground (arith, k)

  update-keeps :
      (i j : ℕ) (v : Vulnerability)
      → IsDone keep i v
      → IsDone keep i (if is_unkept keep j v then set_remediated now v else v)
  unfolding is_unkept set_remediated
  update-keeps i j v h e = ground (arith, k, h)

  update_where-IsDone :
      (i : ℕ) (vs : List Vulnerability)
      → All (IsDone keep i) (update_where (is_unkept keep i) (set_remediated now) vs)
  update_where-IsDone i [] = tt
  update_where-IsDone i (v ∷ vs) = (update-IsDone i v, update_where-IsDone i vs)

  update_where-keeps :
      (i j : ℕ) (vs : List Vulnerability)
      → All (IsDone keep i) vs
      → All (IsDone keep i) (update_where (is_unkept keep j) (set_remediated now) vs)
  update_where-keeps i j [] h = tt
  update_where-keeps i j (v ∷ vs) h = (update-keeps i j v h.0, update_where-keeps i j vs h.1)

  remediate_rows-keeps :
      (i : ℕ) (ts : List Ticket) (r : Remediation)
      → All (IsDone keep i) r.vulns
      → All (IsDone keep i) (remediate_rows keep now ts r).vulns
  unfolding remediate_rows
  remediate_rows-keeps i [] r h = h
  remediate_rows-keeps i (t ∷ ts) r h =
      remediate_rows-keeps i ts _ (update_where-keeps i t.vulnerability_id r.vulns h)

  remediate_rows-IsDone :
      (ts : List Ticket) (r : Remediation)
      → All (λ t. All (IsDone keep t.vulnerability_id) (remediate_rows keep now ts r).vulns) ts
  unfolding remediate_rows
  remediate_rows-IsDone [] r = tt
  remediate_rows-IsDone (t ∷ ts) r = (
    remediate_rows-keeps t.vulnerability_id ts _ (update_where-IsDone t.vulnerability_id r.vulns),
    remediate_rows-IsDone ts _,
  )

-- A row of the group, once it is closed.
abbrev pub IsClosed : ℕ → ℕ → String → List Vulnerability → Ticket → Type 0
IsClosed tenant_id now url vs t =
    is_in_group tenant_id url t ≡ true
    → (t.resolved_at ≡ some now) × All (IsDone is_settled t.vulnerability_id) vs

update-IsClosed :
    (tn now : ℕ) (url : String) (vs : List Vulnerability) (t : Ticket)
    → (is_in_group tn url t ≡ true → All (IsDone is_settled t.vulnerability_id) vs)
    → IsClosed tn now url vs (if is_in_group tn url t then complete now t else t)
unfolding complete
update-IsClosed tn now url vs t h =
    if_case (IsClosed tn now url vs) (is_in_group tn url t) _ _ (λ e _. (refl, h e))
      (λ e d. absurd cc)

update_where-IsClosed :
    (tn now : ℕ) (url : String) (vs : List Vulnerability) (ts : List Ticket)
    → All (λ t. is_in_group tn url t ≡ true → All (IsDone is_settled t.vulnerability_id) vs) ts
    → All (IsClosed tn now url vs) (update_where (is_in_group tn url) (complete now) ts)
update_where-IsClosed tn now url vs [] h = tt
update_where-IsClosed tn now url vs (t ∷ ts) h =
    (update-IsClosed tn now url vs t h.0, update_where-IsClosed tn now url vs ts h.1)

-- The rows of the group, closed with their findings.
IsGroupClosed : ℕ → ℕ → String → World × CloseResult → Type 0
IsGroupClosed tn now url (w, closed n m) = All (IsClosed tn now url w.vulns) w.tickets
IsGroupClosed tn now url (w, _) = Unit

close_rows-IsGroupClosed :
    (clients : Clients) (tn now : ℕ) (url : String) (ts : List Ticket) (w : World)
    → ts ≡ filter (is_in_group tn url) w.tickets
    → IsGroupClosed tn now url (close_rows clients tn now url ts w)
unfolding close_rows IsGroupClosed is_settled
close_rows-IsGroupClosed clients tn now url [] w e = tt
close_rows-IsGroupClosed clients tn now url (t ∷ ts) w e =
    if_case (IsGroupClosed tn now url) (clients.is_configured t.provider) _ _
      (λ _. update_where-IsClosed tn now url _ w.tickets (
        filter-All _ (is_in_group tn url) w.tickets (
          subst
            (All (λ q.
              All (IsDone is_settled q.vulnerability_id)
                (remediate_rows is_settled now (t ∷ ts)
                  (record { vulns = w.vulns; count = 0 })).vulns))
            e
            (remediate_rows-IsDone is_settled now refl (t ∷ ts)
              (record { vulns = w.vulns; count = 0 })))))
      (λ _. tt)

-- Once a user has closed a ticket, each row of its URL in the tenant is resolved at that time, and
-- the finding of each such row is REMEDIATED or SUPPRESSED, if it is stored.
pub close_ticket-closes :
    (clients : Clients) (tenant_id now : ℕ) (url : String) (w : World) (n m : ℕ) (t : Ticket)
    (v : Vulnerability)
    → (close_ticket clients tenant_id now url w).1 ≡ closed n m
    → Memᴰ t (close_ticket clients tenant_id now url w).0.tickets
    → is_in_group tenant_id url t ≡ true
    → Memᴰ v (close_ticket clients tenant_id now url w).0.vulns
    → v.id ≡ t.vulnerability_id
    → (t.resolved_at ≡ some now) × (is_settled v.status ≡ true)
unfolding close_ticket IsGroupClosed
close_ticket-closes clients tenant_id now url w n m t v e in_rows g in_vulns d =
    let after = close_ticket clients tenant_id now url w in
    let all : IsGroupClosed tenant_id now url (after.0, closed n m) =
      subst (λ r. IsGroupClosed tenant_id now url (after.0, r)) e
        (close_rows-IsGroupClosed clients tenant_id now url
          (filter (is_in_group tenant_id url) w.tickets) w refl) in
    let row = All-Memᴰ (IsClosed tenant_id now url after.0.vulns) t after.0.tickets all in_rows g in
    (
      row.0,
      All-Memᴰ (IsDone is_settled t.vulnerability_id) v after.0.vulns row.1 in_vulns
          ((==_iff v.id t.vulnerability_id).1 d),
    )
