-- ===== src/Access/Login.antt =====
-- Signing in with a password: who is let in, and what is written.
use getvul.Prelude.{
  ℕ, ◌≡◌, refl, inl, inr, String, Bool, true, false, not, ◌&&◌, Option, none, some, List, [], ◌∷◌,
  arith, Bool-cases, Option-cases, Memᴰ, filter, str_eq, eq_iff, ap, subst, sym, ◌∙◌,
}
use getvul.Password.{Password, PasswordLib, User, present, save_user}
use getvul.Access.{
  Tenant, Access, granted, denied, bad_credentials, candidates, find_tenant, check_login,
  login_active, login_user, login_with_password,
}

-- What an `ORDER BY` gives: rows of the query only.
abbrev pub IsOrder : (List User → List User) → Type 0
IsOrder order = (users : List User) (u : User) → Memᴰ u (order users) → Memᴰ u users

-- The user who is let in: an active row with the address, with a hash that the password fits, of a
-- tenant that does not enforce SSO on it; only the time of the login is written.
pub record SignedIn (lib : PasswordLib) (now : ℕ) (email : String) (password : Password)
    (tenants : List Tenant) (users after : List User) (written : User) (tenant : Tenant)
    : Type 0 where
  pub user : User
  pub member : Memᴰ user users
  pub address : user.email ≡ lib.normalize_email email
  pub active : user.is_active ≡ true
  pub hash : String
  pub has_hash : present user.password_hash ≡ some hash
  pub fits : lib.checkpw password hash ≡ some true
  pub has_tenant : find_tenant user.tenant_id tenants ≡ some tenant
  pub allowed : (tenant.sso_enforced && not user.allow_password_login) ≡ false
  pub stamped : written ≡ record user { last_login_at = some now }
  pub saved : after ≡ save_user written users

filter-Memᴰ :
    (p : User → Bool) (us : List User) (u : User) → Memᴰ u (filter p us) → Memᴰ u us × (p u ≡ true)
filter-Memᴰ p [] u m = elim m [ ]
filter-Memᴰ p (v ∷ us) u m = elim (Bool-cases (p v)) [
  | inl e ↦
      let kept : Memᴰ u (v ∷ filter p us) = rw e at m in
      elim kept [
        | Memᴰ.head same ↦ (Memᴰ.head same, ap p same ∙ e)
        | Memᴰ.tail rest ↦ let (there, holds) = filter-Memᴰ p us u rest in (Memᴰ.tail there, holds)
      ]
  | inr e ↦ let (there, holds) = filter-Memᴰ p us u (rw e at m) in (Memᴰ.tail there, holds)
]

user_of : User → Access → User
user_of d (granted u t) = u
user_of d _ = d

tenant_of : Tenant → Access → Tenant
tenant_of d (granted u t) = t
tenant_of d _ = d

module _ (lib : PasswordLib) (now : ℕ) (email : String) (password : Password)
    (tenants : List Tenant) (users after : List User) (written : User) (tenant : Tenant) where
  abbrev Goal : Type 0
  Goal = SignedIn lib now email password tenants users after written tenant

  -- A row that the query finds.
  record IsFound (u : User) : Type 0 where
    member : Memᴰ u users
    address : u.email ≡ lib.normalize_email email
    active : u.is_active ≡ true

  check_login-SignedIn :
      (u : User) (h : String) (t : Tenant) (o : Option Bool)
      → IsFound u
      → present u.password_hash ≡ some h
      → find_tenant u.tenant_id tenants ≡ some t
      → (t.sso_enforced && not u.allow_password_login) ≡ false
      → lib.checkpw password h ≡ o
      → check_login lib now u t o users ≡ (after, granted written tenant)
      → Goal
  unfolding check_login user_of tenant_of
  check_login-SignedIn u h t none f p q b c e = absurd cc
  check_login-SignedIn u h t (some false) f p q b c e = absurd cc
  check_login-SignedIn u h t (some true) f p q b c e =
      let same_user : record u { last_login_at = some now } ≡ written =
        ap (λ (r : List User × Access). user_of u r.1) e in
      let same_tenant : t ≡ tenant = ap (λ (r : List User × Access). tenant_of t r.1) e in
      record {
        user = u;
        member = f.member;
        address = f.address;
        active = f.active;
        hash = h;
        has_hash = p;
        fits = c;
        has_tenant = q ∙ ap some same_tenant;
        allowed =
            subst (λ (s : Tenant). (s.sso_enforced && not u.allow_password_login) ≡ false)
              same_tenant b;
        stamped = sym same_user;
        saved =
            sym (ap (λ (r : List User × Access). r.0) e) ∙ ap (λ v. save_user v users) same_user;
      }

  login_active-SignedIn :
      (u : User)
      → IsFound u
      → login_active lib now password tenants u users ≡ (after, granted written tenant)
      → Goal
  unfolding login_active
  login_active-SignedIn u f e = elim (Option-cases (present u.password_hash)) [
    | inl p ↦ absurd cc
    | inr (h, p) ↦ elim (Option-cases (find_tenant u.tenant_id tenants)) [
      | inl q ↦ absurd cc
      | inr (t, q) ↦ elim (Bool-cases (t.sso_enforced && not u.allow_password_login)) [
        | inl b ↦ absurd cc
        | inr b ↦
            check_login-SignedIn u h t (lib.checkpw password h) f p q b refl
              (ground (arith, e, p, q, b))
      ]
    ]
  ]

  login_user-SignedIn :
      (u : User)
      → IsFound u
      → login_user lib now password tenants u users ≡ (after, granted written tenant)
      → Goal
  unfolding login_user
  login_user-SignedIn u f e = login_active-SignedIn u f (ground (arith, e, f.active))

  first-SignedIn :
      (us : List User)
      → ((u : User) → Memᴰ u us → IsFound u)
      → elim us as (λ _. List User × Access) [
        | [] ↦ (users, denied bad_credentials)
        | u ∷ _ ↦ login_user lib now password tenants u users
      ]
        ≡ (after, granted written tenant)
      → Goal
  first-SignedIn [] found e = absurd cc
  first-SignedIn (u ∷ us) found e = login_user-SignedIn u (found u (Memᴰ.head refl)) e

  -- When the query orders its own rows and a login is granted: the user is an active one with
  -- the address, has a hash that the password fits, and belongs to the tenant of the answer,
  -- which does not enforce SSO on that user; the store has the time of the login in that user's
  -- row and is otherwise as it was.
  pub login_with_password-SignedIn :
      (order : List User → List User)
      → IsOrder order
      → login_with_password lib order now email password tenants users
        ≡ (after, granted written tenant)
      → SignedIn lib now email password tenants users after written tenant
  unfolding login_with_password candidates
  login_with_password-SignedIn order rows e =
      first-SignedIn (candidates order (lib.normalize_email email) users)
        (λ u m.
          let q = λ (v : User). str_eq v.email (lib.normalize_email email) && v.is_active in
          let (there, holds) = filter-Memᴰ q users u (rows (filter q users) u m) in
          record {
            member = there;
            address = (eq_iff u.email (lib.normalize_email email)).0 (ground (arith, holds));
            active = ground (arith, holds);
          })
        e
