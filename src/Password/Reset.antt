-- ===== src/Password/Reset.antt =====
-- The reset by token: one use, an expiry, and no write without success.
use getvul.Prelude.{
  ℕ, ◌≤◌, ◌≡◌, ◌≢◌, refl, ◌∙◌, inl, inr, String, Option, none, some, List, [], ◌∷◌, All, arith, ltb,
  Bool-cases, Option-cases,
}
use getvul.Password.{
  Password, PasswordLib, PasswordRules, StoredRules, User, Outcome, updated, crashed, refused,
  invalid_token, Token, Tokens, find_token, pop_token, drop_expired, find_user, finish_reset,
  reset_user, confirm_token, confirm_password_reset, set_password, with_defaults,
}

find_token-pop_token : (k : String) (ts : Tokens) → find_token k (pop_token k ts) ≡ none
unfolding find_token pop_token
find_token-pop_token k [] = refl
find_token-pop_token k ((j, t) ∷ ts) = ground (arith, find_token-pop_token k ts)

find_token-drop_expired :
    (now : ℕ) (k : String) (ts : Tokens)
    → find_token k ts ≡ none
    → find_token k (drop_expired now ts) ≡ none
unfolding find_token drop_expired
find_token-drop_expired now k [] h = refl
find_token-drop_expired now k ((j, t) ∷ ts) h = ground (arith, find_token-drop_expired now k ts)

abbrev pub IsLive : ℕ → String × Token → Type 0
IsLive now e = now ≤ e.1.expires_at

drop_expired-IsLive : (now : ℕ) (ts : Tokens) → All (IsLive now) (drop_expired now ts)
unfolding drop_expired
drop_expired-IsLive now [] = tt
drop_expired-IsLive now ((k, t) ∷ ts) = elim (Bool-cases (ltb t.expires_at now)) [
  | inl e ↦ rw e (drop_expired-IsLive now ts)
  | inr e ↦ rw e (ground arith, drop_expired-IsLive now ts)
]

finish_reset-used :
    (now : ℕ) (k : String) (ts : Tokens) (r : List User × Outcome)
    → (finish_reset now k ts r).2 ≡ updated
    → let ts' = (finish_reset now k ts r).1 in (find_token k ts' ≡ none) × All (IsLive now) ts'
unfolding finish_reset
finish_reset-used now k ts (us, updated) h = (
  find_token-drop_expired now k (pop_token k ts) (find_token-pop_token k ts),
  drop_expired-IsLive now (pop_token k ts),
)
finish_reset-used now k ts (us, crashed) h = cc
finish_reset-used now k ts (us, refused e) h = cc

finish_reset-kept :
    (now : ℕ) (k : String) (ts : Tokens) (r : List User × Outcome)
    → (finish_reset now k ts r).2 ≢ updated
    → ((finish_reset now k ts r).0 ≡ r.0)
      × ((finish_reset now k ts r).1 ≡ ts)
      × ((finish_reset now k ts r).2 ≡ r.1)
unfolding finish_reset
finish_reset-kept now k ts (us, updated) h = absurd (h refl)
finish_reset-kept now k ts (us, crashed) h = (refl, refl, refl)
finish_reset-kept now k ts (us, refused e) h = (refl, refl, refl)

module _ (lib : PasswordLib) (policies : ℕ → Option StoredRules) (salt now : ℕ) where
  reset_user-refused :
      (new : Password) (rules : PasswordRules) (u : User) (users : List User)
      → (reset_user lib salt new rules u users).1 ≢ updated
      → (reset_user lib salt new rules u users).0 ≡ users
  unfolding reset_user set_password
  reset_user-refused new rules u users h = ground arith

  confirm_token-used :
      (k : String) (t : Token) (new : Password) (users : List User) (ts : Tokens)
      → (confirm_token lib policies salt now k t new users ts).2 ≡ updated
      → let ts' = (confirm_token lib policies salt now k t new users ts).1 in
        (find_token k ts' ≡ none) × All (IsLive now) ts' × (now ≤ t.expires_at)
  unfolding confirm_token
  confirm_token-used k t new users ts h = elim (Bool-cases (ltb t.expires_at now)) [
    | inl e ↦ absurd (ground arith)
    | inr e ↦ elim (Option-cases (find_user t.user_id users)) [
      | inl n ↦ absurd (ground arith)
      | inr (u, n) ↦
          let rules = with_defaults (policies u.tenant_id) in
          let r = reset_user lib salt new rules u users in
          let done = finish_reset-used now k ts r (ground arith) in
          rw (e, n) (done.0, done.1, ground arith)
    ]
  ]

  confirm_token-refused :
      (k : String) (t : Token) (new : Password) (users : List User) (ts : Tokens)
      → (confirm_token lib policies salt now k t new users ts).2 ≢ updated
      → (confirm_token lib policies salt now k t new users ts).0 ≡ users
  unfolding confirm_token
  confirm_token-refused k t new users ts h = elim (Bool-cases (ltb t.expires_at now)) [
    | inl e ↦ ground arith
    | inr e ↦ elim (Option-cases (find_user t.user_id users)) [
      | inl n ↦ ground arith
      | inr (u, n) ↦
          let rules = with_defaults (policies u.tenant_id) in
          let r = reset_user lib salt new rules u users in
          let not_done : (finish_reset now k ts r).2 ≢ updated = λ d. h (rw (e, n) d) in
          let kept = finish_reset-kept now k ts r not_done in
          let same = reset_user-refused new rules u users (λ d. not_done (kept.2 ∙ d)) in
          rw (e, n) (kept.0 ∙ same)
    ]
  ]

  confirm-known :
      (k : String) (t : Token) (new : Password) (users : List User) (ts : Tokens)
      → find_token k ts ≡ some t
      → confirm_password_reset lib policies salt now k new users ts
        ≡ confirm_token lib policies salt now k t new users ts
  unfolding confirm_password_reset
  confirm-known k t new users ts e = ground arith

  confirm-unknown :
      (k : String) (new : Password) (users : List User) (ts : Tokens)
      → find_token k ts ≡ none
      → confirm_password_reset lib policies salt now k new users ts
        ≡ (users, ts, refused invalid_token)
  unfolding confirm_password_reset
  confirm-unknown k new users ts e = ground arith

  -- A reset that succeeds was asked for in time with a known token, and afterwards neither that
  -- token nor any expired one can be used: a second reset with it is refused and changes nothing.
  pub confirm_password_reset-once :
      (k : String) (new : Password) (users : List User) (ts : Tokens)
      → (confirm_password_reset lib policies salt now k new users ts).2 ≡ updated
      → let (users', ts', outcome) = confirm_password_reset lib policies salt now k new users ts in
        All (IsLive now) ts'
        × ((t : Token) × (find_token k ts ≡ some t) × (now ≤ t.expires_at))
        × ((again : Password)
            → confirm_password_reset lib policies salt now k again users' ts'
              ≡ (users', ts', refused invalid_token))
  confirm_password_reset-once k new users ts h = elim (Option-cases (find_token k ts)) [
    | inl e ↦ cc (h, confirm-unknown k new users ts e)
    | inr (t, e) ↦
        let known = confirm-known k t new users ts e in
        let done = confirm_token-used k t new users ts (rw known at h) in
        rw known (done.1, (t, e, done.2), λ again. confirm-unknown k again _ _ done.0)
  ]

  -- A reset that does not succeed leaves every user as it was.
  pub confirm_password_reset-refused :
      (k : String) (new : Password) (users : List User) (ts : Tokens)
      → (confirm_password_reset lib policies salt now k new users ts).2 ≢ updated
      → (confirm_password_reset lib policies salt now k new users ts).0 ≡ users
  confirm_password_reset-refused k new users ts h = elim (Option-cases (find_token k ts)) [
    | inl e ↦ rw (confirm-unknown k new users ts e) refl
    | inr (t, e) ↦
        let known = confirm-known k t new users ts e in
        rw known (confirm_token-refused k t new users ts (λ d. h (rw known d)))
  ]
