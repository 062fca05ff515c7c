-- ===== src/Session/Rotation.antt =====
-- backend/app/auth/router.py, `change_password_endpoint`: the forced rotation of a password. The
-- row of the tenant is taken to be there, as the user's foreign key says.
pub mod Cleared
use getvul.Prelude.{
  ℕ, String, Bool, true, false, not, ◌&&◌, Option, none, some, List, [], ◌∷◌, ◌==◌, if◌then◌else◌,
  codes, take,
}
use getvul.Password.{
  Password, PasswordLib, PasswordRules, StoredRules, Refusal, User, Outcome, updated, crashed,
  refused, forced_rotation_policy, present, change_password,
}
use getvul.Session.{Jwt, Settings, Member, CurrentUser, issue_tokens}

-- `str.strip`, `str.casefold`, and `SequenceMatcher(None, a, b).ratio() >= 0.7` of difflib.
pub record TextLib : Type 0 where
  pub strip : Password → Password
  pub casefold : Password → Password
  pub is_near : Password → Password → Bool

-- `a == b`
unfoldable pub eq_codes : Password → Password → Bool
eq_codes [] [] = true
eq_codes (x ∷ xs) (y ∷ ys) = x == y && eq_codes xs ys
eq_codes _ _ = false

pub data Reason : Type 0 where
  default_credential same_password near_default near_current : Reason
  change_refused : Refusal → Reason

pub data Reply (T : Type 0) : Type 0 where
  bad_request : Reason → Reply T
  server_error changed : Reply T
  rotated : T → T → Reply T

abbrev pub default_install_credential : Password
default_install_credential = codes "Admin123!"

unfoldable pub find_member : ℕ → List Member → Option Member
find_member i [] = none
find_member i (m ∷ ms) = if m.user.id == i then some m else find_member i ms

abbrev pub users_of : List Member → List User
users_of [] = []
users_of (m ∷ ms) = m.user ∷ users_of ms

-- The members, with their users' rows as written.
abbrev pub with_users : List User → List Member → List Member
with_users (u ∷ us) (m ∷ ms) = record m { user = u } ∷ with_users us ms
with_users _ ms = ms

unfoldable pub clear_flag : ℕ → List Member → List Member
clear_flag i [] = []
clear_flag i (m ∷ ms) =
    let rest = clear_flag i ms in
    (if m.user.id == i then record m { must_change_password = false } else m) ∷ rest

abbrev pub hash_of : Option Member → Option String
hash_of none = none
hash_of (some m) = m.user.password_hash

-- `current_hash and verify_password(...)`
unfoldable pub is_current : PasswordLib → Password → Option String → Option Bool
is_current lib new none = some false
is_current lib new (some h) = lib.checkpw new h

module _ (lib : TextLib) where
  -- `a.casefold().strip()[:128]`
  unfoldable pub normalized : Password → Password
  normalized p = take 128 (lib.strip (lib.casefold p))

  abbrev nonempty_near : Password → Password → Bool
  nonempty_near (x ∷ xs) (y ∷ ys) = lib.is_near (x ∷ xs) (y ∷ ys)
  nonempty_near _ _ = false

  -- `password_similarity_ratio(a, b) >= 0.7`, where the ratio with an empty text is 0.
  unfoldable pub is_similar : Password → Password → Bool
  unfolding normalized
  is_similar a b = nonempty_near (normalized a) (normalized b)

  -- The first forbidden text that is too similar; empty ones are skipped.
  unfoldable pub is_too_similar : Password → List Password → Option Password
  is_too_similar candidate [] = none
  is_too_similar candidate ([] ∷ rest) = is_too_similar candidate rest
  is_too_similar candidate ((c ∷ cs) ∷ rest) =
      let later = is_too_similar candidate rest in
      if is_similar candidate (c ∷ cs) then some (c ∷ cs) else later

  -- `a.casefold() == default_install_credential.casefold()`
  unfoldable pub folds_to_default : Password → Bool
  unfolding eq_codes
  folds_to_default p = eq_codes (lib.casefold p) (lib.casefold default_install_credential)

  -- The install credential, and the password that was sent as current, unless it is empty.
  abbrev pub forbidden : Option Password → List Password
  forbidden (some (c ∷ cs)) = default_install_credential ∷ (c ∷ cs) ∷ []
  forbidden _ = default_install_credential ∷ []

  abbrev pub hit_reason : Option Password → Option Reason
  hit_reason none = none
  hit_reason (some hit) = some (if folds_to_default hit then near_default else near_current)

  unfoldable pub near : Password → Option Password → Option Reason
  near new current = hit_reason (is_too_similar new (forbidden current))

module _ (jwt : Jwt) (settings : Settings) (lib : PasswordLib) (sim : TextLib) where
  open jwt use {Token}

  -- The end of a rotation: the flag is cleared, and fresh tokens are issued.
  unfoldable pub issue_for : ℕ → List Member → Option Member → List Member × Reply Token
  issue_for now members none = (members, server_error)
  issue_for now members (some m) =
      let (access, refresh) =
        issue_tokens jwt settings now (record m { must_change_password = false }) in
      (clear_flag m.user.id members, rotated access refresh)

  unfoldable pub finish_rotation :
      ℕ → ℕ → List Member → List User × Outcome → List Member × Reply Token
  finish_rotation now i members (users, updated) =
      let written = with_users users members in issue_for now written (find_member i written)
  finish_rotation now i members (users, crashed) = (members, server_error)
  finish_rotation now i members (users, refused e) = (members, bad_request (change_refused e))

  unfoldable pub finish_change : List Member → List User × Outcome → List Member × Reply Token
  finish_change members (users, updated) = (with_users users members, changed)
  finish_change members (users, crashed) = (members, server_error)
  finish_change members (users, refused e) = (members, bad_request (change_refused e))

  unfoldable pub rotate :
      (ℕ → Option StoredRules)
      → ℕ
      → ℕ
      → CurrentUser
      → Option Password
      → Password
      → List Member
      → Option Reason
      → List Member × Reply Token
  rotate policies salt now u current new members (some reason) = (members, bad_request reason)
  rotate policies salt now u current new members none = finish_rotation now u.id members (
      change_password lib policies salt u.id current new (some forced_rotation_policy)
        (users_of members))

  -- The check of the current hash, then the similarity.
  unfoldable pub check_same :
      (ℕ → Option StoredRules)
      → ℕ
      → ℕ
      → CurrentUser
      → Option Password
      → Password
      → List Member
      → Option Bool
      → List Member × Reply Token
  check_same policies salt now u current new members none = (members, server_error)
  check_same policies salt now u current new members (some true) =
      (members, bad_request same_password)
  check_same policies salt now u current new members (some false) =
      rotate policies salt now u current new members (near sim new current)

  unfoldable pub rotate_checked :
      (ℕ → Option StoredRules)
      → ℕ
      → ℕ
      → CurrentUser
      → Option Password
      → Password
      → List Member
      → List Member × Reply Token
  rotate_checked policies salt now u current new members =
      if folds_to_default sim (sim.strip new)
      then (members, bad_request default_credential)
      else check_same policies salt now u current new members
          (is_current lib new (present (hash_of (find_member u.id members))))

  unfoldable pub change_password_endpoint :
      (ℕ → Option StoredRules)
      → ℕ
      → ℕ
      → CurrentUser
      → Option Password
      → Password
      → List Member
      → List Member × Reply Token
  change_password_endpoint policies salt now u current new members =
      if u.must_change_password
      then rotate_checked policies salt now u current new members
      else finish_change members
          (change_password lib policies salt u.id current new none (users_of members))
