-- ===== src/Ticketing/Close/Settled.antt =====
-- What a sync with one provider leaves open: a task with a finding that is open.
use getvul.Prelude.{
  ℕ, ◌≡◌, ◌≢◌, refl, sym, ap, ◌∙◌, subst, inl, inr, String, Bool, true, false, ◌&&◌, ◌||◌, List, [],
  ◌∷◌, filter, any, update_where, arith, str_eq, eq_iff, eq_refl, Bool-cases, if_case,
  if◌then◌else◌,
}
use getvul.Models.{Vulnerability}
use getvul.Ticketing.{Ticket, World}
use getvul.Ticketing.Close.{
  Clients, complete, Sync, is_unresolved, sync_rows, is_open_row_of, task_vulns, count_status,
  still_open, is_done, close_task, comment_task, sync_task, sync_tasks, distinct, refs_of,
  sync_provider,
}

true_not_false : (b : Bool) → b ≡ true → b ≢ false
true_not_false b t f = absurd (ground (arith, t, f))

module _ (tn now : ℕ) (p : String) where
  -- The findings of the task's open rows, none of which is open.
  abbrev closable : String → World → Bool
  closable r w = is_done (task_vulns tn p r w)

  complete-not_open : (r : String) (t : Ticket) → is_open_row_of tn p r (complete now t) ≡ false
  unfolding is_open_row_of is_unresolved complete
  complete-not_open r t = ground arith

  open-ref : (r : String) (t : Ticket) → is_open_row_of tn p r t ≡ true → t.external_ticket_id.0 ≡ r
  unfolding is_open_row_of
  open-ref r t h = (eq_iff t.external_ticket_id.0 r).0 (ground (arith, h))

  differ : (q r : String) → str_eq q r ≡ false → q ≢ r
  differ q r e d =
      absurd (true_not_false (str_eq q r) (subst (λ x. str_eq q x ≡ true) d (eq_refl q)) e)

  two_refs :
      (q r : String) (t : Ticket)
      → str_eq q r ≡ false
      → is_open_row_of tn p q t ≡ true
      → is_open_row_of tn p r t ≡ false
  two_refs q r t e h = elim (Bool-cases (is_open_row_of tn p r t)) [
    | inl k ↦ absurd (differ q r e (sym (open-ref q t h) ∙ open-ref r t k))
    | inr k ↦ k
  ]

  filter-complete :
      (q r : String) (ts : List Ticket)
      → str_eq q r ≡ false
      → filter (is_open_row_of tn p r) (update_where (is_open_row_of tn p q) (complete now) ts)
        ≡ filter (is_open_row_of tn p r) ts
  filter-complete q r [] e = refl
  filter-complete q r (t ∷ ts) e = elim (Bool-cases (is_open_row_of tn p q t)) [
    | inl h ↦ rw (h, complete-not_open r t, two_refs q r t e h) (filter-complete q r ts e)
    | inr h ↦ rw (h, filter-complete q r ts e) refl
  ]

  filter-complete_self :
      (q : String) (ts : List Ticket)
      → filter (is_open_row_of tn p q) (update_where (is_open_row_of tn p q) (complete now) ts) ≡ []
  filter-complete_self q [] = refl
  filter-complete_self q (t ∷ ts) = elim (Bool-cases (is_open_row_of tn p q t)) [
    | inl h ↦ rw (h, complete-not_open q t) (filter-complete_self q ts)
    | inr h ↦ rw (h, h) (filter-complete_self q ts)
  ]

  filter-none {ℓ} :
      {A : Type ℓ} (f : A → Bool) (xs : List A) → ((x : A) → f x ≡ false) → filter f xs ≡ []
  filter-none f [] h = refl
  filter-none f (x ∷ xs) h = rw (h x) (filter-none f xs h)

  -- A task without open rows has nothing to close.
  no_rows-closable :
      (r : String) (w : World)
      → filter (is_open_row_of tn p r) w.tickets ≡ []
      → closable r w ≡ false
  unfolding task_vulns is_done still_open count_status
  no_rows-closable r w e =
      rw e (rw (filter-none (λ (v : Vulnerability). false) w.vulns (λ v. refl)) refl)

  comment_task-world : (vs : List Vulnerability) (s : Sync) → (comment_task vs s).world ≡ s.world
  unfolding comment_task
  comment_task-world vs s = if_case (λ (u : Sync). u.world ≡ s.world) _ _ _ (λ _. refl) (λ _. refl)

  close_task-settles : (q : String) (s : Sync) → closable q (close_task tn now p q s).world ≡ false
  unfolding close_task
  close_task-settles q s = no_rows-closable q _ (filter-complete_self q s.world.tickets)

  close_task-keeps :
      (q r : String) (s : Sync)
      → str_eq q r ≡ false
      → closable r (close_task tn now p q s).world ≡ closable r s.world
  unfolding close_task task_vulns
  close_task-keeps q r s e = rw (filter-complete q r s.world.tickets e) refl

  sync_task-settles : (q : String) (s : Sync) → closable q (sync_task tn now p q s).world ≡ false
  unfolding sync_task
  sync_task-settles q s =
      if_case (λ (u : Sync). closable q u.world ≡ false) (closable q s.world) _ _
        (λ _. close_task-settles q s)
        (λ e. ap (closable q) (comment_task-world (task_vulns tn p q s.world) s) ∙ e)

  sync_task-keeps :
      (q r : String) (s : Sync)
      → closable r s.world ≡ false
      → closable r (sync_task tn now p q s).world ≡ false
  unfolding sync_task
  sync_task-keeps q r s k = elim (Bool-cases (str_eq q r)) [
    | inl e ↦
        subst (λ x. closable x (sync_task tn now p q s).world ≡ false) ((eq_iff q r).0 e)
          (sync_task-settles q s)
    | inr e ↦
        if_case (λ (u : Sync). closable r u.world ≡ false) (closable q s.world) _ _
          (λ _. close_task-keeps q r s e ∙ k)
          (λ _. ap (closable r) (comment_task-world (task_vulns tn p q s.world) s) ∙ k)
  ]

  sync_tasks-keeps :
      (refs : List String) (r : String) (s : Sync)
      → closable r s.world ≡ false
      → closable r (sync_tasks tn now p refs s).world ≡ false
  unfolding sync_tasks
  sync_tasks-keeps [] r s k = k
  sync_tasks-keeps (q ∷ refs) r s k = sync_tasks-keeps refs r _ (sync_task-keeps q r s k)

  sync_tasks-settles :
      (refs : List String) (r : String) (s : Sync)
      → any (λ y. str_eq y r) refs ≡ true
      → closable r (sync_tasks tn now p refs s).world ≡ false
  unfolding sync_tasks
  sync_tasks-settles [] r s h = absurd (ground arith)
  sync_tasks-settles (q ∷ refs) r s h = elim (Bool-cases (str_eq q r)) [
    | inl e ↦ sync_tasks-keeps refs r _ (
        subst (λ x. closable x (sync_task tn now p q s).world ≡ false) ((eq_iff q r).0 e)
          (sync_task-settles q s))
    | inr e ↦ sync_tasks-settles refs r _ (ground (arith, h, e))
  ]

  mem-str_eq :
      (x r : String) (seen : List String)
      → any (λ y. str_eq y x) seen ≡ true
      → str_eq x r ≡ true
      → any (λ y. str_eq y r) seen ≡ true
  mem-str_eq x r seen h e = subst (λ z. any (λ y. str_eq y z) seen ≡ true) ((eq_iff x r).0 e) h

  any-distinct :
      (r : String) (seen xs : List String)
      → (any (λ y. str_eq y r) (distinct seen xs) || any (λ y. str_eq y r) seen)
        ≡ (any (λ y. str_eq y r) xs || any (λ y. str_eq y r) seen)
  any-distinct r seen [] = refl
  any-distinct r seen (x ∷ xs) = elim (Bool-cases (any (λ y. str_eq y x) seen)) [
    | inl e ↦ rw e (ground (arith, any-distinct r seen xs, mem-str_eq x r seen e))
    | inr e ↦ rw e (ground (arith, any-distinct r (x ∷ seen) xs))
  ]

  refs-head :
      (b : Bool) (r : String) (t : Ticket) (ts : List Ticket)
      → any (λ y. str_eq y r) (refs_of (if b then t ∷ ts else ts)) ≡ false
      → ((b && str_eq t.external_ticket_id.0 r) ≡ false)
        × (any (λ y. str_eq y r) (refs_of ts) ≡ false)
  refs-head true r t ts h = (ground (arith, h), ground (arith, h))
  refs-head false r t ts h = (refl, h)

  no_ref-no_rows :
      (r : String) (ts : List Ticket)
      → any (λ y. str_eq y r) (refs_of (filter (is_unresolved tn p) ts)) ≡ false
      → filter (is_open_row_of tn p r) ts ≡ []
  unfolding is_open_row_of
  no_ref-no_rows r [] h = refl
  no_ref-no_rows r (t ∷ ts) h =
      let k = refs-head (is_unresolved tn p t) r t (filter (is_unresolved tn p) ts) h in
      rw k.0 (no_ref-no_rows r ts k.1)

  -- The loop over the tasks of all open rows leaves none to close.
  all_tasks-settles :
      (r : String) (s : Sync)
      → closable r
          (sync_tasks tn now p
            (distinct [] (refs_of (filter (is_unresolved tn p) s.world.tickets)))
            s).world
        ≡ false
  all_tasks-settles r s =
      let refs = refs_of (filter (is_unresolved tn p) s.world.tickets) in
      elim (Bool-cases (any (λ y. str_eq y r) (distinct [] refs))) [
        | inl e ↦ sync_tasks-settles (distinct [] refs) r s e
        | inr e ↦ sync_tasks-keeps (distinct [] refs) r s (
            no_rows-closable r s.world
              (no_ref-no_rows r s.world.tickets (ground (arith, e, any-distinct r [] refs))))
      ]

-- After the sync with a provider whose client is configured, no task of the tenant at that provider
-- is left with open rows whose stored findings are one or more and none of them open.
pub sync_provider-settles :
    (clients : Clients) (tenant_id now : ℕ) (provider ref : String) (s : Sync)
    → clients.is_configured provider ≡ true
    → is_done
        (task_vulns tenant_id provider ref (sync_provider clients tenant_id now provider s).world)
      ≡ false
unfolding sync_provider
sync_provider-settles clients tenant_id now provider ref s h =
    rw h (all_tasks-settles tenant_id now provider ref (sync_rows clients tenant_id now provider s))
