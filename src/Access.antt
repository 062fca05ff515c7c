-- ===== src/Access.antt =====
-- backend/app/auth/password.py, `register_user` and `login_with_password`, and
-- backend/app/auth/rbac.py: who gets in, and who passes a role check.
pub mod Roles
pub mod Login
pub mod Registration
mod Examples
use Prim.Native.Char.{code}
use getvul.Prelude.{
  ℕ, String, Bool, true, false, not, ◌&&◌, Option, none, some, is_some, List, [], ◌∷◌, ◌++◌, filter,
  leb, ◌==◌, str_eq, if◌then◌else◌,
}
use getvul.Password.{
  Password, PasswordLib, StoredRules, Refusal, User, present, validate_password, save_user,
}

-- The columns of a tenant that signing in reads.
pub record Tenant : Type 0 where
  pub id : ℕ
  pub slug : String
  pub domain : Option String
  pub is_active : Bool
  pub sso_enforced : Bool
  pub password_policy : Option StoredRules

-- `ROLE_HIERARCHY.get(role, d)`
unfoldable pub role_level : ℕ → String → ℕ
role_level d role =
    if str_eq role "OWNER"
    then 40
    else if str_eq role "ADMIN"
    then 30
    else if str_eq role "ANALYST"
    then 20
    else if str_eq role "VIEWER"
    then 10
    else d

unfoldable pub check_role : String → String → Bool
check_role role minimum_role = leb (role_level 100 minimum_role) (role_level 0 role)

-- `scalar_one_or_none()`, which raises on a second row: `none`.
unfoldable pub one_or_none {ℓ} : {A : Type ℓ} → List A → Option (Option A)
one_or_none [] = some none
one_or_none (a ∷ []) = some (some a)
one_or_none (a ∷ b ∷ rest) = none

unfoldable pub until_at : String → String
until_at String.[] = String.[]
until_at (String.◌∷◌ c s) =
    let rest = until_at s in if code c == 64 then String.[] else String.◌∷◌ c rest

-- `email.split("@")[1]`, of an address that has an "@"
unfoldable pub domain_of : String → Option String
domain_of String.[] = none
domain_of (String.◌∷◌ c s) =
    let rest = domain_of s in if code c == 64 then some (until_at s) else rest

pub data Denial : Type 0 where
  no_email no_organization email_exists : Denial
  weak_password : Refusal → Denial
  bad_credentials deactivated no_password_login sso_only : Denial

-- `raised` is an exception, with the session rolled back.
pub data Access : Type 0 where
  granted : User → Tenant → Access
  denied : Denial → Access
  raised : Access

unfoldable pub has_domain : String → Tenant → Bool
has_domain d t = elim t.domain [ none ↦ false | some e ↦ str_eq e d ]

-- The tenant by its slug when one is given and not empty, else by the address's domain.
unfoldable pub is_sought : Option String → String → Tenant → Bool
is_sought tenant_slug domain t =
    elim (present tenant_slug) [ some s ↦ str_eq t.slug s | none ↦ has_domain domain t ]
    && t.is_active

abbrev pub is_member : ℕ → String → User → Bool
is_member tenant_id email u = u.tenant_id == tenant_id && str_eq u.email email

abbrev pub is_of : ℕ → User → Bool
is_of tenant_id u = u.tenant_id == tenant_id

-- The first user of a tenant is its owner.
unfoldable pub first_role : ℕ → List User → String
first_role tenant_id users = elim (filter (is_of tenant_id) users) [
  | [] ↦ "OWNER"
  | _ ∷ _ ↦ "VIEWER"
]

-- The row that a login reads with `order`, the database's `ORDER BY`.
unfoldable pub candidates : (List User → List User) → String → List User → List User
candidates order email users = order (filter (λ u. str_eq u.email email && u.is_active) users)

unfoldable pub find_tenant : ℕ → List Tenant → Option Tenant
find_tenant i [] = none
find_tenant i (t ∷ ts) = if t.id == i then some t else find_tenant i ts

module _ (lib : PasswordLib) where
  open lib use {checkpw, hashpw, normalize_email}

  -- `new_id` is the key that the database draws, `hashed` the password's hash.
  unfoldable pub new_user : ℕ → ℕ → String → String → Tenant → List User → User
  new_user new_id now email hashed tenant users = record {
    id = new_id;
    tenant_id = tenant.id;
    email = email;
    is_active = true;
    allow_password_login = true;
    password_hash = some hashed;
    password_history = [];
    role = first_role tenant.id users;
    last_login_at = some now;
  }

  -- After the hashing, which may raise.
  unfoldable pub register_hashed :
      ℕ → ℕ → String → Tenant → Option String → List User → List User × Access
  register_hashed new_id now email tenant none users = (users, raised)
  register_hashed new_id now email tenant (some hashed) users =
      let u = new_user new_id now email hashed tenant users in (users ++ u ∷ [], granted u tenant)

  -- What the query for an existing user with the address leads to. `salt` is the salt that bcrypt
  -- draws.
  unfoldable pub register_new :
      ℕ → ℕ → ℕ → String → Password → Tenant → Option (Option User) → List User → List User × Access
  register_new new_id salt now email password tenant none users = (users, raised)
  register_new new_id salt now email password tenant (some (some _)) users =
      (users, denied email_exists)
  register_new new_id salt now email password tenant (some none) users =
      register_hashed new_id now email tenant (hashpw salt password) users

  unfoldable pub register_in :
      ℕ → ℕ → ℕ → String → Password → Tenant → List User → List User × Access
  register_in new_id salt now email password tenant users =
      elim (validate_password lib password tenant.password_policy) [
        | some e ↦ (users, denied (weak_password e))
        | none ↦
            register_new new_id salt now email password tenant
              (one_or_none (filter (is_member tenant.id email) users)) users
      ]

  unfoldable pub register_user :
      ℕ → ℕ → ℕ → String → Password → Option String → List Tenant → List User → List User × Access
  register_user new_id salt now email password tenant_slug tenants users =
      elim (domain_of (normalize_email email)) [
        | none ↦ (users, denied no_email)
        | some d ↦ elim (one_or_none (filter (is_sought tenant_slug d) tenants)) [
          | none ↦ (users, raised)
          | some none ↦ (users, denied no_organization)
          | some (some t) ↦ register_in new_id salt now (normalize_email email) password t users
        ]
      ]

  -- The password's check and the write of `last_login_at`.
  unfoldable pub check_login : ℕ → User → Tenant → Option Bool → List User → List User × Access
  check_login now u tenant none users = (users, raised)
  check_login now u tenant (some false) users = (users, denied bad_credentials)
  check_login now u tenant (some true) users =
      let u' = record u { last_login_at = some now } in (save_user u' users, granted u' tenant)

  unfoldable pub login_active : ℕ → Password → List Tenant → User → List User → List User × Access
  login_active now password tenants u users = elim (present u.password_hash) [
    | none ↦ (users, denied no_password_login)
    | some h ↦ elim (find_tenant u.tenant_id tenants) [
      | none ↦ (users, raised)
      | some t ↦
          if t.sso_enforced && not u.allow_password_login
          then (users, denied sso_only)
          else check_login now u t (checkpw password h) users
    ]
  ]

  -- `if not user.is_active`, then the rest.
  unfoldable pub login_user : ℕ → Password → List Tenant → User → List User → List User × Access
  login_user now password tenants u users =
      if u.is_active then login_active now password tenants u users else (users, denied deactivated)

  unfoldable pub login_with_password :
      (List User → List User) → ℕ → String → Password → List Tenant → List User → List User × Access
  login_with_password order now email password tenants users =
      elim (candidates order (normalize_email email) users) [
        | [] ↦ (users, denied bad_credentials)
        | u ∷ _ ↦ login_user now password tenants u users
      ]
