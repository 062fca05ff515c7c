-- ===== src/Password/Examples.antt =====
-- A hash that names the text, and one user who resets and changes a password.
use getvul.Prelude.{
  ◌<◌, ℕ, ◌≡◌, ◌≤◌, refl, String, Bool, true, false, ◌&&◌, Option, none, some, List, [], ◌∷◌, All,
  ◌==◌, if◌then◌else◌, leb, str_eq, codes,
}
use getvul.Password.{
  Password, PasswordLib, PasswordRules, StoredRules, User, Token, Tokens, Outcome, updated, refused,
  invalid_token, reused, forced_rotation_policy, check_current, present, save_user, change_user,
  with_defaults, merge_policy_floor, validate_rules, find_user, find_token, confirm_password_reset,
}
use getvul.Password.History.{change_user-no_return}
use getvul.Password.Reset.{IsLive, confirm_password_reset-once}

-- Equality of two texts, code by code.
same : List ℕ → List ℕ → Bool
same [] [] = true
same (x ∷ xs) (y ∷ ys) = x == y && same xs ys
same _ _ = false

abbrev old_text : Password
old_text = codes "oldPass123!xyz"

abbrev new_text : Password
new_text = codes "newPass456!xyz"

hash : Password → String
unfolding same
hash p = if same p old_text then "H1" else if same p new_text then "H2" else "H3"

abbrev lib : PasswordLib
lib = record {
  is_upper = λ c. leb 65 c && leb c 90;
  is_lower = λ c. leb 97 c && leb c 122;
  is_digit = λ c. leb 48 c && leb c 57;
  checkpw = λ p h. some (str_eq h (hash p));
  hashpw = λ salt p. some (hash p);
  normalize_email = λ e. e;
}

abbrev policies : ℕ → Option StoredRules
policies tenant = some (record {
  min_length = some 12;
  require_uppercase = some true;
  require_lowercase = some true;
  require_digit = some true;
  require_symbol = some true;
  history_count = some 5;
})

abbrev ana : User
ana = record {
  id = 1;
  tenant_id = 1;
  email = "ana@example.org";
  is_active = true;
  allow_password_login = true;
  password_hash = some "H1";
  password_history = "H0" ∷ [];
  role = "ADMIN";
  last_login_at = none;
}

abbrev users : List User
users = ana ∷ record ana { id = 2; email = "bob@example.org" } ∷ []

abbrev token : Token
token = record { user_id = 1; tenant_id = 1; email = "ana@example.org"; expires_at = 1800 }

abbrev tokens : Tokens
tokens = ("tok", token) ∷ []

reset : (confirm_password_reset lib policies 0 60 "tok" new_text users tokens).2 ≡ updated
unfolding confirm_password_reset find_token getvul.Password.confirm_token find_user
    getvul.Password.finish_reset getvul.Password.reset_user validate_rules with_defaults
    getvul.Password.is_symbol getvul.Password.set_password getvul.Password.check_password_history
    getvul.Password.matches_any hash
reset = refl

confirm_password_reset-once_example :
    let (users', ts', outcome) =
      confirm_password_reset lib policies 0 60 "tok" new_text users tokens in
    All (IsLive 60) ts'
    × ((t : Token) × (find_token "tok" tokens ≡ some t) × (60 ≤ t.expires_at))
    × ((again : Password)
        → confirm_password_reset lib policies 0 60 "tok" again users' ts'
          ≡ (users', ts', refused invalid_token))
confirm_password_reset-once_example =
    confirm_password_reset-once lib policies 0 60 "tok" new_text users tokens reset

changed : (change_user lib 0 (some old_text) new_text forced_rotation_policy ana users).1 ≡ updated
unfolding change_user validate_rules getvul.Password.is_symbol getvul.Password.after_current
    check_current present hash getvul.Password.set_password getvul.Password.check_password_history
    getvul.Password.matches_any
changed = refl

is_set : present ana.password_hash ≡ some "H1"
unfolding present
is_set = refl

old_text-hash : lib.checkpw old_text "H1" ≡ some true
unfolding hash
old_text-hash = refl

change_user-no_return_example :
    (v : User) × ((change_user lib 0 (some old_text) new_text forced_rotation_policy ana users).0
      ≡ save_user v users)
    × (v.password_hash ≡ lib.hashpw 0 new_text)
    × ((salt' : ℕ) (again : Option Password) (strict : PasswordRules) (rows : List User)
        → 0 < strict.history_count
        → validate_rules lib old_text strict ≡ none
        → check_current lib (present v.password_hash) again ≡ some true
        → change_user lib salt' again old_text strict v rows
          ≡ (rows, refused (reused strict.history_count)))
change_user-no_return_example =
    change_user-no_return lib 0 (some old_text) new_text old_text forced_rotation_policy ana "H1"
      users is_set old_text-hash changed
