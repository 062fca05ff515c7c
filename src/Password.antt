-- ===== src/Password.antt =====
-- backend/app/auth/password.py: the password policy, the change of a password, and the reset.
-- bcrypt and Python's character classes are parameters (`PasswordLib`). A password is its list of
-- code points; `none` from `checkpw` and `hashpw` is an exception.
pub mod Policy
pub mod History
pub mod Reset
mod Examples
use getvul.Prelude.{
  ℕ, ◌+◌, ◌*◌, ◌-◌, max, String, Bool, true, false, not, ◌&&◌, ◌||◌, Option, none, some, List, [],
  ◌∷◌, ◌++◌, length, drop, filter, any, is_some, codes, ltb, ◌==◌, str_eq, if◌then◌else◌,
}

abbrev pub Password : Type 0
Password = List ℕ

pub record PasswordLib : Type 0 where
  pub is_upper : ℕ → Bool
  pub is_lower : ℕ → Bool
  pub is_digit : ℕ → Bool
  pub checkpw : Password → String → Option Bool
  pub hashpw : ℕ → Password → Option String  -- with the salt that is drawn
  pub normalize_email : String → String  -- `email.lower().strip()`

pub record PasswordRules : Type 0 where
  pub min_length : ℕ
  pub require_uppercase : Bool
  pub require_lowercase : Bool
  pub require_digit : Bool
  pub require_symbol : Bool
  pub history_count : ℕ

-- The symbols that `validate_password` counts.
unfoldable pub is_symbol : ℕ → Bool
is_symbol c = any (λ d. d == c) (codes "!@#$%^&*()_+-=[]{}|;:',.<>?/~`")

-- A stored policy may lack any key.
pub record StoredRules : Type 0 where
  pub min_length : Option ℕ
  pub require_uppercase : Option Bool
  pub require_lowercase : Option Bool
  pub require_digit : Option Bool
  pub require_symbol : Option Bool
  pub history_count : Option ℕ

abbrev pub default_policy : PasswordRules
default_policy = record {
  min_length = 8;
  require_uppercase = false;
  require_lowercase = false;
  require_digit = false;
  require_symbol = false;
  history_count = 0;
}

abbrev pub forced_rotation_policy : PasswordRules
forced_rotation_policy = record {
  min_length = 12;
  require_uppercase = true;
  require_lowercase = true;
  require_digit = true;
  require_symbol = true;
  history_count = 5;
}

abbrev pub or_default {ℓ} : {A : Type ℓ} → Option A → A → A
or_default none d = d
or_default (some a) d = a

-- `{**DEFAULT_POLICY, **(policy or {})}`
unfoldable pub with_defaults : Option StoredRules → PasswordRules
with_defaults none = default_policy
with_defaults (some r) = record {
  min_length = or_default r.min_length 8;
  require_uppercase = or_default r.require_uppercase false;
  require_lowercase = or_default r.require_lowercase false;
  require_digit = or_default r.require_digit false;
  require_symbol = or_default r.require_symbol false;
  history_count = or_default r.history_count 0;
}

-- The strictest of the two: `or` on the flags, `max` on the numbers.
unfoldable pub merge_policy_floor : Option StoredRules → PasswordRules → PasswordRules
unfolding with_defaults
merge_policy_floor base floor =
    let b = with_defaults base in
    record {
      min_length = max b.min_length floor.min_length;
      require_uppercase = b.require_uppercase || floor.require_uppercase;
      require_lowercase = b.require_lowercase || floor.require_lowercase;
      require_digit = b.require_digit || floor.require_digit;
      require_symbol = b.require_symbol || floor.require_symbol;
      history_count = max b.history_count floor.history_count;
    }

pub data Refusal : Type 0 where
  too_short : ℕ → Refusal
  no_uppercase no_lowercase no_digit no_symbol : Refusal
  wrong_current : Refusal
  reused : ℕ → Refusal
  user_not_found invalid_token token_expired : Refusal

pub record User : Type 0 where
  pub id : ℕ
  pub tenant_id : ℕ
  pub email : String
  pub is_active : Bool
  pub allow_password_login : Bool
  pub password_hash : Option String
  pub password_history : List String
  pub role : String
  pub last_login_at : Option ℕ

-- `crashed` is an exception out of bcrypt, with the session rolled back.
pub data Outcome : Type 0 where
  updated crashed : Outcome
  refused : Refusal → Outcome

-- A hash that is set: neither `None` nor empty.
unfoldable pub present : Option String → Option String
present none = none
present (some h) = if str_eq h "" then none else some h

-- `xs[-n:]` for 0 < n
abbrev pub last_of {ℓ} : {A : Type ℓ} → ℕ → List A → List A
last_of n xs = drop (length xs - n) xs

unfoldable pub find_user : ℕ → List User → Option User
find_user id [] = none
find_user id (u ∷ us) = if u.id == id then some u else find_user id us

-- The write-back of the one row with this primary key.
unfoldable pub save_user : User → List User → List User
save_user u [] = []
save_user u (v ∷ vs) = if v.id == u.id then u ∷ vs else v ∷ save_user u vs

-- `_reset_tokens`, the dict of a process.
pub record Token : Type 0 where
  pub user_id : ℕ
  pub tenant_id : ℕ
  pub email : String
  pub expires_at : ℕ

abbrev pub Tokens : Type 0
Tokens = List (String × Token)

abbrev pub reset_token_expiry_minutes : ℕ
reset_token_expiry_minutes = 30

unfoldable pub find_token : String → Tokens → Option Token
find_token k [] = none
find_token k ((j, t) ∷ ts) = if str_eq j k then some t else find_token k ts

unfoldable pub pop_token : String → Tokens → Tokens
pop_token k [] = []
pop_token k ((j, t) ∷ ts) = let rest = pop_token k ts in if str_eq j k then rest else (j, t) ∷ rest

unfoldable pub put_token : String → Token → Tokens → Tokens
put_token k t [] = (k, t) ∷ []
put_token k t ((j, u) ∷ ts) = if str_eq j k then (k, t) ∷ ts else (j, u) ∷ put_token k t ts

unfoldable pub drop_expired : ℕ → Tokens → Tokens
drop_expired now tokens = filter (λ e. not (ltb e.1.expires_at now)) tokens

-- The first active user with this address.
unfoldable pub find_email : String → List User → Option User
find_email e [] = none
find_email e (u ∷ us) = if str_eq u.email e && u.is_active then some u else find_email e us

-- `not (not user.password_hash and not user.allow_password_login)`
unfoldable pub can_reset : User → Bool
unfolding present
can_reset u = is_some (present u.password_hash) || u.allow_password_login

-- The policy in force: the tenant's, with the floor of a forced rotation merged in.
unfoldable pub rules_in_force : Option StoredRules → Option PasswordRules → PasswordRules
unfolding merge_policy_floor
rules_in_force policy none = with_defaults policy
rules_in_force policy (some floor) = merge_policy_floor policy floor

-- The old hash joins the history, which keeps its last `max(history_count, 10)` entries.
unfoldable pub extend_history : ℕ → Option String → List String → List String
extend_history history_count none history = history
extend_history history_count (some h) history =
    let longer = history ++ h ∷ [] in
    if ltb (max history_count 10) (length longer)
    then last_of (max history_count 10) longer
    else longer

-- What follows the write: the token goes, and so do all that have expired.
unfoldable pub finish_reset :
    ℕ → String → Tokens → List User × Outcome → List User × Tokens × Outcome
unfolding pop_token drop_expired
finish_reset now token tokens (users, updated) =
    (users, drop_expired now (pop_token token tokens), updated)
finish_reset now token tokens (users, outcome) = (users, tokens, outcome)

module _ (lib : PasswordLib) where
  open lib use {is_upper, is_lower, is_digit, checkpw, hashpw, normalize_email}

  -- `validate_password` on the merged rules: the first rule that fails.
  unfoldable pub validate_rules : Password → PasswordRules → Option Refusal
  validate_rules password p =
      if ltb (length password) p.min_length
      then some (too_short p.min_length)
      else if p.require_uppercase && not (any is_upper password)
      then some no_uppercase
      else if p.require_lowercase && not (any is_lower password)
      then some no_lowercase
      else if p.require_digit && not (any is_digit password)
      then some no_digit
      else if p.require_symbol && not (any is_symbol password)
      then some no_symbol
      else none

  unfoldable pub validate_password : Password → Option StoredRules → Option Refusal
  validate_password password policy = validate_rules password (with_defaults policy)

  unfoldable pub matches_any : Password → List String → Bool
  matches_any password [] = false
  matches_any password (h ∷ hs) = or_default (checkpw password h) false || matches_any password hs

  unfoldable pub check_password_history : Password → List String → ℕ → Bool
  check_password_history password history count =
      if ltb 0 count then matches_any password (last_of count history) else false

  -- The row with a new hash, and the old one in the history.
  unfoldable pub with_password : ℕ → String → User → User
  with_password history_count hashed u = record u {
    password_history = extend_history history_count (present u.password_hash) u.password_history;
    password_hash = some hashed;
  }

  -- The checks and the write that `change_password` and `confirm_password_reset` share.
  unfoldable pub set_password :
      ℕ → Password → PasswordRules → User → List User → List User × Outcome
  set_password salt new rules u users =
      if ltb 0 rules.history_count
        && check_password_history new u.password_history rules.history_count
      then (users, refused (reused rules.history_count))
      else elim (hashpw salt new) [
        | none ↦ (users, crashed)
        | some hashed ↦ (save_user (with_password rules.history_count hashed u) users, updated)
      ]

  -- `user.password_hash and current_password and not verify_password(...)`
  unfoldable pub check_current : Option String → Option Password → Option Bool
  check_current (some h) (some (c ∷ cs)) = checkpw (c ∷ cs) h
  check_current _ _ = some true

  unfoldable pub after_current :
      Option Bool → ℕ → Password → PasswordRules → User → List User → List User × Outcome
  after_current none salt new rules u users = (users, crashed)
  after_current (some false) salt new rules u users = (users, refused wrong_current)
  after_current (some true) salt new rules u users = set_password salt new rules u users

  unfoldable pub change_user :
      ℕ → Option Password → Password → PasswordRules → User → List User → List User × Outcome
  change_user salt current new rules u users = elim (validate_rules new rules) [
    | some e ↦ (users, refused e)
    | none ↦ after_current (check_current (present u.password_hash) current) salt new rules u users
  ]

  -- `policies` reads a tenant's stored policy.
  unfoldable pub change_password :
      (ℕ → Option StoredRules)
      → ℕ
      → ℕ
      → Option Password
      → Password
      → Option PasswordRules
      → List User
      → List User × Outcome
  change_password policies salt user_id current new floor users = elim (find_user user_id users) [
    | none ↦ (users, refused user_not_found)
    | some u ↦ change_user salt current new (rules_in_force (policies u.tenant_id) floor) u users
  ]

  -- `request_password_reset` up to the mail: the same answer in every case, and a token for an
  -- active user who may use a password. `token` is the random text that is drawn.
  unfoldable pub request_password_reset : ℕ → String → String → List User → Tokens → Tokens
  request_password_reset now token email users tokens =
      elim (find_email (normalize_email email) users) [
        | none ↦ tokens
        | some u ↦
            if can_reset u
            then put_token token
                (record {
                  user_id = u.id;
                  tenant_id = u.tenant_id;
                  email = normalize_email email;
                  expires_at = now + reset_token_expiry_minutes * 60;
                })
                tokens
            else tokens
      ]

  unfoldable pub reset_user : ℕ → Password → PasswordRules → User → List User → List User × Outcome
  reset_user salt new rules u users = elim (validate_rules new rules) [
    | some e ↦ (users, refused e)
    | none ↦ set_password salt new rules u users
  ]

  unfoldable pub confirm_token :
      (ℕ → Option StoredRules)
      → ℕ
      → ℕ
      → String
      → Token
      → Password
      → List User
      → Tokens
      → List User × Tokens × Outcome
  confirm_token policies salt now token t new users tokens =
      if ltb t.expires_at now
      then (users, pop_token token tokens, refused token_expired)
      else elim (find_user t.user_id users) [
        | none ↦ (users, pop_token token tokens, refused user_not_found)
        | some u ↦
            finish_reset now token tokens
              (reset_user salt new (with_defaults (policies u.tenant_id)) u users)
      ]

  unfoldable pub confirm_password_reset :
      (ℕ → Option StoredRules)
      → ℕ
      → ℕ
      → String
      → Password
      → List User
      → Tokens
      → List User × Tokens × Outcome
  confirm_password_reset policies salt now token new users tokens = elim (find_token token tokens) [
    | none ↦ (users, tokens, refused invalid_token)
    | some t ↦ confirm_token policies salt now token t new users tokens
  ]
