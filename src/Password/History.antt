-- ===== src/Password/History.antt =====
-- The history of a password: what a change writes into it, and what it then refuses.
use getvul.Prelude.{
  ℕ, zero, suc, ◌-◌, ◌≤◌, ◌<◌, max, ◌≡◌, refl, inl, inr, String, true, false, Option, none, some,
  List, [], ◌∷◌, ◌++◌, length, drop, length-append, arith, ltb, Bool-cases, Option-cases,
}
use getvul.Password.{
  Password, PasswordLib, PasswordRules, User, updated, refused, reused, present, or_default,
  save_user, validate_rules, matches_any, check_password_history, extend_history, with_password,
  set_password, check_current, after_current, change_user,
}

drop-append_last {ℓ} :
    {A : Type ℓ} (k : ℕ) (xs : List A) (x : A)
    → k ≤ length xs
    → drop k (xs ++ x ∷ []) ≡ drop k xs ++ x ∷ []
drop-append_last zero xs x h = refl
drop-append_last (suc k) [] x h = absurd (omega arith)
drop-append_last (suc k) (y ∷ xs) x h = drop-append_last k xs x (omega arith)

module _ (lib : PasswordLib) where
  matches_any-append :
      (new : Password) (hs : List String) (h : String)
      → or_default (lib.checkpw new h) false ≡ true
      → matches_any lib new (hs ++ h ∷ []) ≡ true
  unfolding matches_any
  matches_any-append new [] h m = ground arith
  matches_any-append new (x ∷ hs) h m = ground (arith, matches_any-append new hs h m)

  last-matches :
      (new : Password) (count : ℕ) (h : String) (hs : List String)
      → or_default (lib.checkpw new h) false ≡ true
      → 0 < count
      → check_password_history lib new (hs ++ h ∷ []) count ≡ true
  unfolding check_password_history
  last-matches new count h hs m c =
      let k = length (hs ++ h ∷ []) - count in
      let fits : k ≤ length hs = ground (arith, length-append hs (h ∷ [])) in
      let found = matches_any-append new (drop k hs) h m in
      ground (arith, drop-append_last k hs h fits)

  -- The entry that joined the history last is still among the last `count`.
  history-last :
      (new : Password) (n count : ℕ) (h : String) (hs : List String)
      → or_default (lib.checkpw new h) false ≡ true
      → 0 < count
      → check_password_history lib new (extend_history n (some h) hs) count ≡ true
  unfolding check_password_history extend_history
  history-last new n count h hs m c = elim (Bool-cases (ltb (max n 10) (length (hs ++ h ∷ [])))) [
    | inl e ↦
        rw
          (
            e,
            drop-append_last (length (hs ++ h ∷ []) - max n 10) hs h
                (ground (arith, length-append hs (h ∷ []))),
          )
          (last-matches new count h (drop (length (hs ++ h ∷ []) - max n 10) hs) m c)
    | inr e ↦ rw e (last-matches new count h hs m c)
  ]

  -- A change that succeeds has hashed the new password and saved it.
  change_user-saved :
      (salt : ℕ) (current : Option Password) (new : Password) (rules : PasswordRules) (u : User)
      (users : List User)
      → (change_user lib salt current new rules u users).1 ≡ updated
      → (hashed : String) × (lib.hashpw salt new ≡ some hashed)
        × ((change_user lib salt current new rules u users).0
            ≡ save_user (with_password lib rules.history_count hashed u) users)
  unfolding change_user set_password after_current
  change_user-saved salt current new rules u users h = elim (Option-cases (lib.hashpw salt new)) [
    | inl e ↦ absurd (ground arith)
    | inr (hashed, e) ↦ (hashed, e, ground arith)
  ]

  -- When a user who has a password changes it: the change saves the row with the new hash, and a
  -- change of that row back to the old password is refused as reused, under any policy that keeps
  -- a history, once the old password passes the policy and the check of the current password
  -- passes.
  pub change_user-no_return :
      (salt : ℕ) (current : Option Password) (new old : Password) (rules : PasswordRules) (u : User)
      (h : String) (users : List User)
      → present u.password_hash ≡ some h
      → lib.checkpw old h ≡ some true
      → (change_user lib salt current new rules u users).1 ≡ updated
      → (v : User) × ((change_user lib salt current new rules u users).0 ≡ save_user v users)
        × (v.password_hash ≡ lib.hashpw salt new)
        × ((salt' : ℕ) (again : Option Password) (strict : PasswordRules) (rows : List User)
            → 0 < strict.history_count
            → validate_rules lib old strict ≡ none
            → check_current lib (present v.password_hash) again ≡ some true
            → change_user lib salt' again old strict v rows
              ≡ (rows, refused (reused strict.history_count)))
  unfolding change_user with_password set_password after_current
  change_user-no_return salt current new old rules u h users set m done =
      let (hashed, e, saved) = change_user-saved salt current new rules u users done in
      (
        with_password lib rules.history_count hashed u,
        saved,
        ground (arith, e),
        λ salt' again strict rows c valid confirmed.
            let last =
              history-last old rules.history_count strict.history_count h u.password_history
                (ground arith) c in
            ground (arith, set, last, valid, confirmed),
      )
