-- ===== src/Session/Examples.antt =====
-- A flagged administrator signs in, is held at the gate, and refreshes the session.
use getvul.Prelude.{
  ◌≢◌, ◌+◌, codes, leb, ◌&&◌, ℕ, ◌≡◌, refl, String, Bool, true, false, Option, none, some, [], ◌∷◌,
  ltb, str_eq, arith, if◌then◌else◌,
}
use getvul.Session.{
  Jwt, Settings, Member, Claims, authenticated, allowlist, is_allowed, enforce_password_change_gate,
  current_of, get_current_user, check_token, check_claims, check_type, gate_user, user_of_claims,
  access_claims, issue_tokens, find_active, issued, refresh_access_token,
}
use getvul.Password.{
  Password, PasswordLib, StoredRules, present, change_password, find_user, change_user,
  validate_rules, rules_in_force, merge_policy_floor, with_defaults, is_symbol, after_current,
  check_current, set_password, check_password_history, matches_any, with_password, extend_history,
  save_user,
}
use getvul.Session.{CurrentUser, create_access_token, create_refresh_token, refresh_claims}
use getvul.Session.Rotation.{
  TextLib, eq_codes, default_install_credential, forbidden, is_too_similar, is_similar, normalized,
  folds_to_default, rotated, find_member, hash_of, is_current, near, clear_flag, issue_for,
  finish_rotation, rotate, check_same, rotate_checked, change_password_endpoint,
}
use getvul.Session.Rotation.Cleared.{change_password_endpoint-rotated}
use getvul.Session.Gate.{Role, role_name, small_name, get_current_user-flagged}
use getvul.Session.Refresh.{IsJwt, refresh-get_current_user}

abbrev read : ℕ → Claims → Option Claims
read now c = if ltb now c.exp then some c else none

abbrev never : Claims → Bool
never c = false

abbrev as_is : Claims → Claims
as_is c = c

abbrev plain : Jwt
plain = record { Token = Claims; encode = as_is; decode = read; is_dev_token = never }

abbrev settings : Settings
settings = record { is_development = false; access_minutes = 15; refresh_days = 7 }

abbrev admin : Member
admin = record {
  user = record {
    id = 5;
    tenant_id = 1;
    email = "admin@example.com";
    is_active = true;
    allow_password_login = true;
    password_hash = some "h";
    password_history = [];
    role = "ADMIN";
    last_login_at = none;
  };
  must_change_password = true;
}

passed :
    get_current_user plain settings 10
      (some "/auth/me")
      (some (access_claims plain settings 0 (current_of admin)))
      []
    ≡ authenticated (current_of admin)
unfolding get_current_user check_token check_claims check_type gate_user user_of_claims
    access_claims enforce_password_change_gate current_of is_allowed allowlist
passed = refl

flagged : (current_of admin).must_change_password ≡ true
unfolding current_of
flagged = refl

get_current_user-flagged_example : is_allowed "/auth/me" ≡ true
get_current_user-flagged_example =
    get_current_user-flagged plain settings 10 "/auth/me"
      (some (access_claims plain settings 0 (current_of admin))) [] (current_of admin) passed
      flagged

plain-IsJwt : IsJwt plain
plain-IsJwt = record { valid = λ c now h. ground (arith, h) }

found : find_active plain settings 5 (admin ∷ []) ≡ some admin
unfolding find_active
found = refl

refresh-get_current_user_example :
    (token : Claims) × (refresh_access_token plain settings 100
        (issue_tokens plain settings 0 admin).1
        (admin ∷ [])
      ≡ issued token)
    × (get_current_user plain settings 200 (some "/assets") (some token) []
        ≡ enforce_password_change_gate (current_of admin) (some "/assets"))
refresh-get_current_user_example =
    refresh-get_current_user plain settings plain-IsJwt 0 100 200 (some "/assets") admin admin
      (admin ∷ []) [] refl found (omega arith) (omega arith)

abbrev lower_of : String → String
lower_of s =
    if str_eq s "OWNER"
    then "owner"
    else if str_eq s "ADMIN"
    then "admin"
    else if str_eq s "ANALYST"
    then "analyst"
    else "viewer"

lower_of-names : (r : Role) → lower_of (role_name r) ≡ small_name r
unfolding role_name small_name
lower_of-names Role.owner = refl
lower_of-names Role.admin = refl
lower_of-names Role.analyst = refl
lower_of-names Role.viewer = refl

abbrev letters : PasswordLib
letters = record {
  is_upper = λ c. leb 65 c && leb c 90;
  is_lower = λ c. leb 97 c && leb c 122;
  is_digit = λ c. leb 48 c && leb c 57;
  checkpw = λ p h. some false;
  hashpw = λ salt p. some "H2";
  normalize_email = λ e. e;
}

lower : Password → Password
lower [] = []
lower (c ∷ cs) = (if leb 65 c && leb c 90 then c + 32 else c) ∷ lower cs

-- Two texts are near each other when they are the same up to case.
abbrev texts : TextLib
texts = record { strip = λ p. p; casefold = lower; is_near = eq_codes }

abbrev no_policies : ℕ → Option StoredRules
no_policies t = none

abbrev new_text : Password
new_text = codes "newPass456!xyz"

abbrev settled : Member
settled = record admin {
  user = record admin.user { password_hash = some "H2"; password_history = "h" ∷ [] };
  must_change_password = false;
}

rotation :
    change_password_endpoint plain settings letters texts no_policies 0 100
      (current_of admin)
      none
      new_text
      (admin ∷ [])
    ≡ (
      settled ∷ [],
      rotated
          (access_claims plain settings 100 (current_of settled))
          (refresh_claims plain settings 100 5 1),
    )
unfolding change_password_endpoint rotate_checked check_same rotate finish_rotation issue_for
    find_member clear_flag is_current near present current_of issue_tokens create_access_token
    create_refresh_token access_claims refresh_claims change_password find_user change_user
    validate_rules rules_in_force merge_policy_floor with_defaults is_symbol after_current
    check_current set_password check_password_history matches_any with_password extend_history
    save_user is_too_similar is_similar normalized folds_to_default eq_codes lower
rotation = refl

change_password_endpoint-rotated_example :
    (lower new_text ≢ lower default_install_credential)
    × (is_current letters new_text (present (hash_of (find_member 5 (admin ∷ [])))) ≡ some false)
    × (is_too_similar texts new_text (forbidden texts none) ≡ none)
    × ((v : CurrentUser) × (get_current_user plain settings 200
            (some "/assets")
            (some (access_claims plain settings 100 (current_of settled)))
            []
          ≡ authenticated v)
        × (v.must_change_password ≡ false)
        × (v.id ≡ 5))
unfolding current_of
change_password_endpoint-rotated_example =
    change_password_endpoint-rotated plain settings letters texts plain-IsJwt 100 200
      (some "/assets") [] no_policies 0 (current_of admin) none new_text (admin ∷ []) (settled ∷ [])
      (access_claims plain settings 100 (current_of settled))
      (refresh_claims plain settings 100 5 1) refl (omega arith) rotation
