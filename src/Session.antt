-- ===== src/Session.antt =====
-- backend/app/auth/jwt.py, backend/app/auth/dependencies.py and `issue_tokens` and
-- `refresh_access_token` of backend/app/auth/service.py: who a request comes from, and what it may
-- reach. The text of a UUID is its number.
pub mod Gate
pub mod Refresh
pub mod Rotation
mod Examples
use getvul.Prelude.{
  ℕ, ◌+◌, ◌*◌, ◌<◌, ◌≡◌, String, Bool, true, false, not, ◌&&◌, Option, none, some, List, [], ◌∷◌,
  any, leb, ◌==◌, str_eq, if◌then◌else◌,
}
use getvul.Password.{User}

-- The payload of a token; `none` is a key that it lacks.
pub record Claims : Type 0 where
  pub sub : Option ℕ
  pub tenant_id : Option ℕ
  pub email : Option String
  pub role : Option String
  pub token_type : Option String
  pub must_change_password : Option Bool
  pub exp : ℕ

-- The JWT library under the service's key, with its texts; `decode now` is none for a `JWTError`,
-- and `is_dev_token` is the comparison with "dev-token".
pub record Jwt : Type 1 where
  pub Token : Type 0
  pub encode : Claims → Token
  pub decode : ℕ → Token → Option Claims
  pub is_dev_token : Token → Bool

-- The settings that are read.
pub record Settings : Type 0 where
  pub is_development : Bool
  pub access_minutes : ℕ
  pub refresh_days : ℕ

-- A row of `users`, with its flag.
pub record Member : Type 0 where
  pub user : User
  pub must_change_password : Bool

pub record CurrentUser : Type 0 where
  pub id : ℕ
  pub tenant_id : ℕ
  pub email : String
  pub role : String
  pub must_change_password : Bool

pub data AuthError : Type 0 where
  not_authenticated no_dev_user invalid_token invalid_token_type password_change_required :
      AuthError

-- `crashed` is an exception that is no HTTP error: a missing key or a text that is no UUID.
pub data Auth : Type 0 where
  authenticated : CurrentUser → Auth
  rejected : AuthError → Auth
  crashed : Auth

unfoldable pub allowlist : List String
allowlist = "/auth/change-password" ∷ "/auth/me" ∷ "/auth/logout" ∷ "/auth/refresh" ∷ []

unfoldable pub is_allowed : String → Bool
is_allowed path = any (str_eq path) allowlist

-- `_enforce_password_change_gate`; no path is a call without a request.
unfoldable pub enforce_password_change_gate : CurrentUser → Option String → Auth
enforce_password_change_gate u none = authenticated u
enforce_password_change_gate u (some path) =
    if u.must_change_password && not (is_allowed path)
    then rejected password_change_required
    else authenticated u

unfoldable pub current_of : Member → CurrentUser
current_of m = record {
  id = m.user.id;
  tenant_id = m.user.tenant_id;
  email = m.user.email;
  role = m.user.role;
  must_change_password = m.must_change_password;
}

abbrev pub or_else {ℓ} : {A : Type ℓ} → A → Option A → A
or_else d none = d
or_else d (some a) = a

-- The user that the claims name: `sub` must be there, and both ids be UUIDs.
unfoldable pub user_of_claims : Claims → Option ℕ → Option ℕ → Option CurrentUser
user_of_claims c (some i) (some t) = some (record {
  id = i;
  tenant_id = t;
  email = or_else "" c.email;
  role = or_else "VIEWER" c.role;
  must_change_password = or_else false c.must_change_password;
})
user_of_claims c _ _ = none

unfoldable pub gate_user : Option String → Option CurrentUser → Auth
gate_user path none = crashed
gate_user path (some u) = enforce_password_change_gate u path

-- A token without `sub` fails before its type is read.
unfoldable pub check_type : Option String → Claims → Option ℕ → Auth
check_type path c none = crashed
check_type path c (some i) =
    if str_eq (or_else "access" c.token_type) "access"
    then gate_user path (user_of_claims c (some i) c.tenant_id)
    else rejected invalid_token_type

unfoldable pub check_claims : Option String → Option Claims → Auth
check_claims path none = rejected invalid_token
check_claims path (some c) = check_type path c c.sub

unfoldable pub find_owner : List Member → Option Member
find_owner [] = none
find_owner (m ∷ ms) =
    if str_eq m.user.role "OWNER" && m.user.is_active then some m else find_owner ms

unfoldable pub dev_user : Option String → Option Member → Auth
dev_user path none = rejected no_dev_user
dev_user path (some m) = enforce_password_change_gate (current_of m) path

-- `broken` is an exception that the endpoint does not turn into an answer.
pub data Refreshed (T : Type 0) : Type 0 where
  bad_token wrong_type no_user broken : Refreshed T
  issued : T → Refreshed T

module _ (jwt : Jwt) (settings : Settings) where
  open jwt use {Token, encode, decode, is_dev_token}

  unfoldable pub check_token : ℕ → Option String → List Member → Option Token → Auth
  check_token now path members none = rejected not_authenticated
  check_token now path members (some token) =
      if settings.is_development && is_dev_token token
      then dev_user path (find_owner members)
      else check_claims path (decode now token)

  -- The request's path, if there is a request, and its bearer token, if there is one.
  unfoldable pub get_current_user : ℕ → Option String → Option Token → List Member → Auth
  get_current_user now path credentials members = check_token now path members credentials

  unfoldable pub access_claims : ℕ → CurrentUser → Claims
  access_claims now u = record {
    sub = some u.id;
    tenant_id = some u.tenant_id;
    email = some u.email;
    role = some u.role;
    token_type = some "access";
    must_change_password = some u.must_change_password;
    exp = now + settings.access_minutes * 60;
  }

  unfoldable pub create_access_token : ℕ → CurrentUser → Token
  create_access_token now u = encode (access_claims now u)

  unfoldable pub refresh_claims : ℕ → ℕ → ℕ → Claims
  refresh_claims now i t = record {
    sub = some i;
    tenant_id = some t;
    email = none;
    role = none;
    token_type = some "refresh";
    must_change_password = none;
    exp = now + settings.refresh_days * 86400;
  }

  unfoldable pub create_refresh_token : ℕ → ℕ → ℕ → Token
  create_refresh_token now i t = encode (refresh_claims now i t)

  -- The access token and the refresh token of a user.
  unfoldable pub issue_tokens : ℕ → Member → Token × Token
  issue_tokens now m =
      (create_access_token now (current_of m), create_refresh_token now m.user.id m.user.tenant_id)

  unfoldable pub find_active : ℕ → List Member → Option Member
  find_active i [] = none
  find_active i (m ∷ ms) = if m.user.id == i && m.user.is_active then some m else find_active i ms

  unfoldable pub issue_access : ℕ → Option Member → Refreshed Token
  issue_access now none = no_user
  issue_access now (some m) = issued (create_access_token now (current_of m))

  unfoldable pub refresh_for : ℕ → List Member → Claims → Option ℕ → Refreshed Token
  refresh_for now members c none = broken
  refresh_for now members c (some i) =
      if str_eq (or_else "access" c.token_type) "refresh"
      then issue_access now (find_active i members)
      else wrong_type

  unfoldable pub refresh_with : ℕ → List Member → Option Claims → Refreshed Token
  refresh_with now members none = bad_token
  refresh_with now members (some c) = refresh_for now members c c.sub

  unfoldable pub refresh_access_token : ℕ → Token → List Member → Refreshed Token
  refresh_access_token now token members = refresh_with now members (decode now token)

-- `require_role` of dependencies.py, with its own table and lower-case names.
unfoldable pub hierarchy_level : String → ℕ
hierarchy_level role =
    if str_eq role "owner"
    then 4
    else if str_eq role "admin"
    then 3
    else if str_eq role "analyst"
    then 2
    else if str_eq role "viewer"
    then 1
    else 0

unfoldable pub require_role : (String → String) → String → String → Bool
require_role lower minimum_role role =
    leb (hierarchy_level (lower minimum_role)) (hierarchy_level (lower role))
