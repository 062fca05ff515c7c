-- ===== src/Ticketing/Rules/Budget.antt =====
-- The budget of tickets that a rule has for a day.
use getvul.Prelude.{
  ℕ, suc, ◌+◌, ◌≤◌, ◌<◌, ◌≡◌, refl, inl, inr, String, true, false, not, ◌||◌, Option, none, some,
  List, [], ◌∷◌, length, filter, arith, ltb, leb, ◌==◌, Bool-cases, if_case, if◌then◌else◌,
}
use mathlib.Core.Path.{subst}
use getvul.Models.{Vulnerability}
use getvul.Access.{one_or_none}
use getvul.Ticketing.{Host, Ticket, World, Providers, is_open_on, recompute_ticket_sla}
use getvul.Ticketing.Matching.{is_empty}
use getvul.Ticketing.Create.{
  Result, refused, created, raised, HostRequest, Linked, add_row, is_row_of, link_host,
  finish_ticket, already_open, link_one, find_host, ticket_for_found, save_host, submit_host,
  ticket_for, by_severity, create_host_ticket, open_ticket_of,
}
use getvul.Ticketing.Create.Remediation.{
  Filters, link_remediation, save_remediation, remediation_task, is_rule_ticket, is_in_remediation,
  submit_remediation, create_remediation_ticket,
}
use getvul.Ticketing.Rules.{
  TicketRule, RuleCounts, Loop, Texts, remaining_budget, filters_of, is_provider, outcome,
  project_of, count_result, run_hosts, run_remediations, run_matched, run_assets, run_rule,
}

-- A creation that succeeds has called the provider once, any other at most once.
abbrev Charged : ℕ → World × Result → Type 0
Charged n (w, created _ _) = w.calls ≡ n + 1
Charged n (w, _) = (n ≤ w.calls) × (w.calls ≤ n + 1)

link_one-calls :
    (w : World) (n k : ℕ) (skipped added : Linked) (o : Option (Option Ticket))
    → w.calls ≡ k
    → skipped.world.calls ≡ k
    → added.world.calls ≡ k
    → (link_one w n skipped added o).world.calls ≡ k
unfolding link_one
link_one-calls w n k skipped added none a b c = a
link_one-calls w n k skipped added (some (some t)) a b c = b
link_one-calls w n k skipped added (some none) a b c = c

link_host-calls :
    (tn : ℕ) (p : String) (row : ℕ → Ticket) (vs : List Vulnerability) (w : World) (n : ℕ)
    → (link_host tn p row vs w n).world.calls ≡ w.calls
unfolding link_host add_row
link_host-calls tn p row [] w n = refl
link_host-calls tn p row (v ∷ vs) w n =
    link_one-calls w n w.calls (link_host tn p row vs w n)
      (link_host tn p row vs (add_row (row v.id) w) (suc n))
      (one_or_none (filter (is_row_of tn p v.id) w.tickets)) refl (link_host-calls tn p row vs w n)
      (link_host-calls tn p row vs (add_row (row v.id) w) (suc n))

link_remediation-calls :
    (row : ℕ → Ticket) (vs : List Vulnerability) (seen : List ℕ) (w : World) (n : ℕ)
    → (link_remediation row vs seen w n).world.calls ≡ w.calls
unfolding link_remediation add_row
link_remediation-calls row [] seen w n = refl
link_remediation-calls row (v ∷ vs) seen w n = ground (
  arith,
  link_remediation-calls row vs seen w n,
  link_remediation-calls row vs (v.id ∷ seen) (add_row (row v.id) w) (suc n),
)

finish_ticket-Charged :
    (tn n : ℕ) (url : String) (l : Linked)
    → l.world.calls ≡ n + 1
    → Charged n (finish_ticket tn url l)
unfolding finish_ticket recompute_ticket_sla
finish_ticket-Charged tn n url l h = elim (Bool-cases l.failed) [
  | inl e ↦ rw e (omega (arith, h), omega (arith, h))
  | inr e ↦ elim (Bool-cases (ltb 0 l.linked)) [ inl d ↦ rw (e, d) h | inr d ↦ rw (e, d) h ]
]

module _ (lib : Providers) (tn now : ℕ) where
  save_host-Charged :
      (q : HostRequest) (h : Host) (vs : List Vulnerability) (w : World) (n : ℕ) (o : Option String)
      → w.calls ≡ n + 1
      → Charged n (save_host lib tn now q h vs w o)
  unfolding save_host
  save_host-Charged q h vs w n none k = (omega (arith, k), omega (arith, k))
  save_host-Charged q h vs w n (some url) k =
      finish_ticket-Charged tn n url _ (rw (link_host-calls tn q.provider _ vs w 0) k)

  submit_host-Charged :
      (q : HostRequest) (h : Host) (w : World) (vs : List Vulnerability)
      → Charged w.calls (submit_host lib tn now q h w vs)
  unfolding submit_host
  submit_host-Charged q h w [] = (omega arith, omega arith)
  submit_host-Charged q h w (v ∷ vs) = save_host-Charged q h (v ∷ vs) _ w.calls _ (omega arith)

  ticket_for_found-Charged :
      (q : HostRequest) (w : World) (o : Option Host)
      → Charged w.calls (ticket_for_found lib tn now q w o)
  unfolding ticket_for_found ticket_for
  ticket_for_found-Charged q w none = (omega arith, omega arith)
  ticket_for_found-Charged q w (some h) =
      elim (is_empty (open_ticket_of lib tn now q.provider h.id w))
        as (λ b. Charged w.calls (
          if b
          then submit_host lib tn now q h w (by_severity (filter (is_open_on h.id) w.vulns))
          else (w, refused already_open))) [
            | true ↦ submit_host-Charged q h w (by_severity (filter (is_open_on h.id) w.vulns))
            | false ↦ (omega arith, omega arith)
          ]

  create_host_ticket-Charged :
      (q : HostRequest) (hosts : List Host) (w : World)
      → Charged w.calls (create_host_ticket lib tn now q hosts w)
  unfolding create_host_ticket
  create_host_ticket-Charged q hosts w =
      ticket_for_found-Charged q w (find_host tn q.asset_id hosts)

  save_remediation-Charged :
      (rid p key : String) (a : Option String) (rows : List Vulnerability) (w : World) (n : ℕ)
      (o : Option String)
      → w.calls ≡ n + 1
      → Charged n (save_remediation lib tn now rid p key a rows w o)
  unfolding save_remediation
  save_remediation-Charged rid p key a rows w n none k = (omega (arith, k), omega (arith, k))
  save_remediation-Charged rid p key a rows w n (some url) k =
      finish_ticket-Charged tn n url _ (rw (link_remediation-calls _ rows [] w 0) k)

  submit_remediation-Charged :
      (d : List Vulnerability → String) (rid p key : String) (due : Option ℕ) (a : Option String)
      (w : World) (vs : List Vulnerability)
      → Charged w.calls (submit_remediation lib tn now d rid p key due a w vs)
  unfolding submit_remediation
  submit_remediation-Charged d rid p key due a w [] = (omega arith, omega arith)
  submit_remediation-Charged d rid p key due a w (v ∷ vs) =
      elim (is_empty (filter (is_rule_ticket tn p rid) w.tickets))
        as (λ b. Charged w.calls (
          if b
          then save_remediation lib tn now rid p key a (v ∷ vs) (record w { calls = suc w.calls })
              (lib.create tn p w.calls (remediation_task lib tn now d p due a (v ∷ vs)))
          else (w, refused already_open))) [
            | true ↦ save_remediation-Charged rid p key a (v ∷ vs) _ w.calls _ (omega arith)
            | false ↦ (omega arith, omega arith)
          ]

  create_remediation_ticket-Charged :
      (d : List Vulnerability → String) (order : List Vulnerability → List Vulnerability)
      (rid p key : String) (due : Option ℕ) (a : Option String) (fs : Filters) (w : World)
      → Charged w.calls (create_remediation_ticket lib tn now d order rid p key due a fs w)
  unfolding create_remediation_ticket
  create_remediation_ticket-Charged d order rid p key due a fs w =
      submit_remediation-Charged d rid p key due a w
        (order (filter (is_in_remediation tn rid fs) w.vulns))

-- Since the state with `k` calls, there was one for each ticket counted, at most one more for each
-- creation counted as skipped, and no more tickets than the budget.
abbrev InBudget : ℕ → ℕ → Loop → Type 0
InBudget k b l =
    (k + l.created ≤ l.world.calls)
    × (l.failed ≡ false → l.world.calls ≤ k + l.created + l.skipped)
    × (l.created ≤ b)

count_result-InBudget :
    (k b : ℕ) (l : Loop) (r : World × Result)
    → l.created < b
    → l.failed ≡ false
    → Charged l.world.calls r
    → InBudget k b l
    → InBudget k b (count_result l r)
unfolding count_result
count_result-InBudget k b l (w, refused e) lt f c (p, q, s) =
    (omega (arith, c.0, p), (λ _. omega (arith, c.1, q f)), s)
count_result-InBudget k b l (w, created u n) lt f c (p, q, s) =
    (omega (arith, c, p), (λ _. omega (arith, c, q f)), omega (arith, lt))
count_result-InBudget k b l (w, raised) lt f c (p, q, s) =
    (omega (arith, c.0, p), (λ h. absurd cc), s)

-- A skipped asset leaves the calls.
skip-InBudget :
    (k b : ℕ) (l : Loop) → InBudget k b l → InBudget k b (record l { skipped = suc l.skipped })
skip-InBudget k b l (p, q, s) = (p, (λ f. omega (arith, q f)), s)

-- What a rule reports is within the calls since the state with `k` of them, and the budget.
abbrev IsWithin : ℕ → ℕ → World × Option RuleCounts → Type 0
IsWithin k b (w, none) = k ≤ w.calls
IsWithin k b (w, some c) =
    (k + c.created ≤ w.calls) × (w.calls ≤ k + c.created + c.skipped) × (c.created ≤ b)

module _ (lib : Providers) (texts : Texts) (now today_start : ℕ) where
  run_hosts-InBudget :
      (rule : TicketRule) (project : String) (b k : ℕ) (hosts hs : List Host) (l : Loop)
      → InBudget k b l
      → InBudget k b (run_hosts lib texts now today_start rule project b hosts hs l)
  unfolding run_hosts
  run_hosts-InBudget rule project b k hosts [] l i = i
  run_hosts-InBudget rule project b k hosts (h ∷ hs) l i =
      elim (Bool-cases (l.failed || leb b l.created)) [
        | inl e ↦ rw e i
        | inr e ↦
            elim (Bool-cases (
              is_empty (open_ticket_of lib rule.tenant_id now rule.action.provider h.id l.world))) [
                | inl d ↦
                    rw (e, d)
                      (run_hosts-InBudget rule project b k hosts hs _ (
                        count_result-InBudget k b l _ (ground (arith, e)) (ground (arith, e))
                          (create_host_ticket-Charged lib rule.tenant_id now _ hosts l.world) i))
                | inr d ↦
                    rw (e, d)
                      (run_hosts-InBudget rule project b k hosts hs _ (skip-InBudget k b l i))
              ]
      ]

  run_remediations-InBudget :
      (rule : TicketRule) (project : String) (b k : ℕ) (rids : List String) (l : Loop)
      → InBudget k b l
      → InBudget k b (run_remediations lib texts now today_start rule project b rids l)
  unfolding run_remediations
  run_remediations-InBudget rule project b k [] l i = i
  run_remediations-InBudget rule project b k (rid ∷ rids) l i =
      elim (Bool-cases (l.failed || leb b l.created)) [
        | inl e ↦ rw e i
        | inr e ↦ rw e (
            run_remediations-InBudget rule project b k rids _ (
              count_result-InBudget k b l _ (ground (arith, e)) (ground (arith, e))
                (create_remediation_ticket-Charged lib rule.tenant_id now texts.describe
                  texts.by_hostname rid rule.action.provider project rule.action.due_days
                  rule.action.assignee_email (filters_of rule.conditions) l.world)
                i))
      ]

  run_matched-InBudget :
      (rule : TicketRule) (project : String) (b : ℕ) (hosts assets : List Host) (w : World)
      → InBudget w.calls b (run_matched lib texts now today_start rule project b hosts assets w)
  unfolding run_matched
  run_matched-InBudget rule project b hosts assets w =
      if_case (InBudget w.calls b) rule.action.per_remediation _ _
        (λ e.
          run_remediations-InBudget rule project b w.calls _ _
            (omega arith, (λ _. omega arith), omega arith))
        (λ e.
          run_hosts-InBudget rule project b w.calls hosts assets _
            (omega arith, (λ _. omega arith), omega arith))

  outcome-IsWithin :
      (k b n : ℕ) (l : Loop) → InBudget k b l → IsWithin k b (outcome lib texts now today_start n l)
  outcome-IsWithin k b n l (p, q, s) = elim (Bool-cases l.failed) [
    | inl e ↦ rw e (omega (arith, p))
    | inr e ↦ rw e (p, q e, s)
  ]

  run_assets-IsWithin :
      (rule : TicketRule) (project : String) (hosts assets : List Host) (w : World)
      → IsWithin w.calls
          (remaining_budget rule today_start w)
          (run_assets lib texts now today_start rule project hosts assets w)
  unfolding run_assets
  run_assets-IsWithin rule project hosts assets w =
      let P = IsWithin w.calls (remaining_budget rule today_start w) in
      if_case P (is_empty assets) _ _ (λ _. (omega arith, omega arith, omega arith))
        (λ _.
          if_case P (not (is_provider rule.action.provider)) _ _ (λ _. omega arith)
            (λ _.
              if_case P (remaining_budget rule today_start w == 0) _ _
                (λ _. (omega arith, omega arith, omega arith))
                (λ _.
                  outcome-IsWithin w.calls (remaining_budget rule today_start w) (length assets)
                    (run_matched lib texts now today_start rule (project_of rule.action project)
                      (remaining_budget rule today_start w) hosts assets w)
                    (run_matched-InBudget rule _ (remaining_budget rule today_start w) hosts assets
                      w))))

  -- A run of a rule that reports its counts has created no more tickets than are left of its budget
  -- for the day; it has called the provider at least once for each ticket that it reports as
  -- created, and no more often than the tickets reported as created or skipped.
  pub run_rule-within :
      (rule : TicketRule) (project : String) (hosts : List Host) (w : World) (c : RuleCounts)
      → (run_rule lib texts now today_start rule project hosts w).1 ≡ some c
      → (w.calls + c.created ≤ (run_rule lib texts now today_start rule project hosts w).0.calls)
        × ((run_rule lib texts now today_start rule project hosts w).0.calls
            ≤ w.calls + c.created + c.skipped)
        × (c.created ≤ remaining_budget rule today_start w)
  unfolding run_rule
  run_rule-within rule project hosts w c e =
      subst
        (λ o.
          IsWithin w.calls (remaining_budget rule today_start w)
            ((run_rule lib texts now today_start rule project hosts w).0, o))
        e (run_assets-IsWithin rule project hosts _ w)
