-- ===== src/Access/Examples.antt =====
-- One organization and its first two users.
use getvul.Prelude.{◌≡◌, refl, true, false, ◌&&◌, none, some, [], ◌∷◌, leb, str_eq, codes}
use getvul.Password.{Password, PasswordLib, User, present, save_user}
use getvul.Access.{
  Tenant, check_role, role_level, granted, candidates, login_with_password, login_user,
  login_active, check_login, find_tenant, register_user,
}
use getvul.Access.Login.{SignedIn, login_with_password-SignedIn}
use getvul.Access.Registration.{Registered, IsUnique, register_user-Sound}

admin_passes_analyst : check_role "ADMIN" "ANALYST" ≡ true
unfolding check_role role_level
admin_passes_analyst = refl

analyst_passes_viewer : check_role "ANALYST" "VIEWER" ≡ true
unfolding check_role role_level
analyst_passes_viewer = refl

abbrev lib : PasswordLib
lib = record {
  is_upper = λ c. leb 65 c && leb c 90;
  is_lower = λ c. leb 97 c && leb c 122;
  is_digit = λ c. leb 48 c && leb c 57;
  checkpw = λ p h. some (str_eq h "hashed");
  hashpw = λ salt p. some "hashed";
  normalize_email = λ e. e;
}

abbrev org : Tenant
org = record {
  id = 1;
  slug = "acme";
  domain = some "example.org";
  is_active = true;
  sso_enforced = false;
  password_policy = none;
}

abbrev ana : User
ana = record {
  id = 1;
  tenant_id = 1;
  email = "ana@example.org";
  is_active = true;
  allow_password_login = true;
  password_hash = some "hashed";
  password_history = [];
  role = "OWNER";
  last_login_at = none;
}

abbrev text : Password
text = codes "longenough"

abbrev stamped : User
stamped = record ana { last_login_at = some 50 }

signed_in :
    login_with_password lib (λ us. us) 50 "ana@example.org" text (org ∷ []) (ana ∷ [])
    ≡ (stamped ∷ [], granted stamped org)
unfolding login_with_password candidates login_user login_active check_login find_tenant present
    save_user
signed_in = refl

login_with_password-SignedIn_example :
    SignedIn lib 50 "ana@example.org" text (org ∷ []) (ana ∷ []) (stamped ∷ []) stamped org
login_with_password-SignedIn_example =
    login_with_password-SignedIn lib 50 "ana@example.org" text (org ∷ []) (ana ∷ []) (stamped ∷ [])
      stamped org (λ us. us) (λ us u m. m) signed_in

register_user-Sound_example :
    Registered
      (ana ∷ [])
      (register_user lib 2 0 50 "bob@example.org" text none (org ∷ []) (ana ∷ []))
    × (IsUnique (ana ∷ [])
        → IsUnique (register_user lib 2 0 50 "bob@example.org" text none (org ∷ []) (ana ∷ [])).0)
register_user-Sound_example =
    register_user-Sound lib 2 0 50 text "bob@example.org" none (org ∷ []) (ana ∷ [])
