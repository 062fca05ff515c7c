-- ===== src/Session/Gate.antt =====
-- The gate of the forced rotation, and the two role checks.
use getvul.Prelude.{
  ℕ, ◌*◌, leb, ◌≡◌, refl, subst, String, Bool, true, not, ◌&&◌, ◌||◌, Option, none, some, List,
  arith, str_eq, if_case,
}
use getvul.Access.{role_level, check_role}
use getvul.Session.{
  Jwt, Settings, Member, CurrentUser, Claims, Auth, authenticated, is_allowed,
  enforce_password_change_gate, current_of, user_of_claims, gate_user, or_else, check_type,
  check_claims, find_owner, dev_user, check_token, get_current_user, hierarchy_level, require_role,
}

abbrev is_gated : String → Auth → Bool
is_gated path (authenticated u) = not u.must_change_password || is_allowed path
is_gated path _ = true

gate-is_gated :
    (path : String) (u : CurrentUser)
    → is_gated path (enforce_password_change_gate u (some path)) ≡ true
unfolding enforce_password_change_gate
gate-is_gated path u =
    if_case (λ (a : Auth). is_gated path a ≡ true) (u.must_change_password && not (is_allowed path))
      _ _ (λ _. refl) (λ e. ground (arith, e))

gate_user-is_gated :
    (path : String) (o : Option CurrentUser) → is_gated path (gate_user (some path) o) ≡ true
unfolding gate_user
gate_user-is_gated path none = refl
gate_user-is_gated path (some u) = gate-is_gated path u

check_type-is_gated :
    (path : String) (c : Claims) (o : Option ℕ) → is_gated path (check_type (some path) c o) ≡ true
unfolding check_type
check_type-is_gated path c none = refl
check_type-is_gated path c (some i) =
    if_case (λ (a : Auth). is_gated path a ≡ true) (str_eq (or_else "access" c.token_type) "access")
      _ _ (λ _. gate_user-is_gated path (user_of_claims c (some i) c.tenant_id)) (λ _. refl)

check_claims-is_gated :
    (path : String) (o : Option Claims) → is_gated path (check_claims (some path) o) ≡ true
unfolding check_claims
check_claims-is_gated path none = refl
check_claims-is_gated path (some c) = check_type-is_gated path c c.sub

dev_user-is_gated :
    (path : String) (o : Option Member) → is_gated path (dev_user (some path) o) ≡ true
unfolding dev_user
dev_user-is_gated path none = refl
dev_user-is_gated path (some m) = gate-is_gated path (current_of m)

check_token-is_gated :
    (jwt : Jwt) (settings : Settings) (now : ℕ) (path : String) (members : List Member)
    (o : Option jwt.Token)
    → is_gated path (check_token jwt settings now (some path) members o) ≡ true
unfolding check_token
check_token-is_gated jwt settings now path members none = refl
check_token-is_gated jwt settings now path members (some token) =
    if_case (λ (a : Auth). is_gated path a ≡ true)
      (settings.is_development && jwt.is_dev_token token) _ _
      (λ _. dev_user-is_gated path (find_owner members))
      (λ _. check_claims-is_gated path (jwt.decode now token))

flag_allowed : (flag allowed : Bool) → (not flag || allowed) ≡ true → flag ≡ true → allowed ≡ true
flag_allowed flag allowed h e = ground (arith, h, e)

-- A user who must change the password is let through, with whatever token (that of the development
-- mode included), on the four paths of the allowlist only.
pub get_current_user-flagged :
    (jwt : Jwt) (settings : Settings) (now : ℕ) (path : String) (token : Option jwt.Token)
    (members : List Member) (u : CurrentUser)
    → get_current_user jwt settings now (some path) token members ≡ authenticated u
    → u.must_change_password ≡ true
    → is_allowed path ≡ true
unfolding get_current_user
get_current_user-flagged jwt settings now path token members u e flag =
    flag_allowed u.must_change_password (is_allowed path)
      (subst (λ (a : Auth). is_gated path a ≡ true) e
        (check_token-is_gated jwt settings now path members token))
      flag

pub data Role : Type 0 where
  owner admin analyst viewer : Role

unfoldable pub role_name : Role → String
role_name owner = "OWNER"
role_name admin = "ADMIN"
role_name analyst = "ANALYST"
role_name viewer = "VIEWER"

unfoldable pub small_name : Role → String
small_name owner = "owner"
small_name admin = "admin"
small_name analyst = "analyst"
small_name viewer = "viewer"

-- How high a role stands.
rank : Role → ℕ
rank owner = 4
rank admin = 3
rank analyst = 2
rank viewer = 1

hierarchy_level-rank : (r : Role) → hierarchy_level (small_name r) ≡ rank r
unfolding hierarchy_level small_name rank
hierarchy_level-rank owner = refl
hierarchy_level-rank admin = refl
hierarchy_level-rank analyst = refl
hierarchy_level-rank viewer = refl

role_level-rank : (d : ℕ) (r : Role) → role_level d (role_name r) ≡ 10 * rank r
unfolding role_level role_name rank
role_level-rank d owner = refl
role_level-rank d admin = refl
role_level-rank d analyst = refl
role_level-rank d viewer = refl

leb-tenfold : (a b : ℕ) → leb a b ≡ leb (10 * a) (10 * b)
leb-tenfold a b = ground arith

-- If lower-casing turns the four role names into their lower-case forms, the check of
-- dependencies.py and the check of rbac.py let the same roles through, for every minimum role.
pub require_role-check_role :
    (lower : String → String) (minimum_role role : Role)
    → ((r : Role) → lower (role_name r) ≡ small_name r)
    → require_role lower (role_name minimum_role) (role_name role)
      ≡ check_role (role_name role) (role_name minimum_role)
unfolding require_role check_role
require_role-check_role lower m r h =
    rw
      (
        h m,
        h r,
        hierarchy_level-rank m,
        hierarchy_level-rank r,
        role_level-rank 100 m,
        role_level-rank 0 r,
      )
      (leb-tenfold (rank m) (rank r))
