-- ===== src/Access/Registration.antt =====
-- Registering: an address is taken once per tenant, and a tenant's first user is its owner.
use getvul.Prelude.{
  ℕ, ◌≡◌, refl, sym, inl, inr, ◌↔◌, String, Bool, false, Option, none, some, List, [], ◌∷◌, ◌++◌,
  filter, All, arith, eq_iff, Bool-cases, Option-cases,
}
use mathlib.Core.Path.{subst}
use getvul.Password.{Refusal, Password, PasswordLib, User, validate_password}
use getvul.Access.{
  Tenant, Access, granted, denied, raised, weak_password, no_email, no_organization, is_member,
  is_of, first_role, one_or_none, domain_of, is_sought, new_user, register_hashed, register_new,
  register_in, register_user,
}

-- No two users of one tenant have the same address.
abbrev pub IsUnique : List User → Type 0
IsUnique [] = Unit
IsUnique (u ∷ us) = All (λ v. is_member u.tenant_id u.email v ≡ false) us × IsUnique us

none_found : (us : List User) → one_or_none us ≡ some none → us ≡ []
unfolding one_or_none
none_found [] h = refl
none_found (u ∷ []) h = cc
none_found (u ∷ v ∷ us) h = cc

All-filter_nil : (p : User → Bool) (us : List User) → filter p us ≡ [] → All (λ v. p v ≡ false) us
All-filter_nil p [] h = tt
All-filter_nil p (u ∷ us) h = elim (Bool-cases (p u)) [
  | inl e ↦ cc
  | inr e ↦ (e, All-filter_nil p us cc)
]

All-append :
    (p : User → Bool) (n : User) (us : List User)
    → All (λ v. p v ≡ false) us
    → p n ≡ false
    → All (λ v. p v ≡ false) (us ++ n ∷ [])
All-append p n [] h e = (e, tt)
All-append p n (u ∷ us) h e = (h.0, All-append p n us h.1 e)

is_member_sym :
    (u v : User) → is_member v.tenant_id v.email u ≡ false → is_member u.tenant_id u.email v ≡ false
is_member_sym u v h = ground (arith, h, eq_iff u.email v.email, eq_iff v.email u.email)

append_new :
    (n : User) (us : List User)
    → IsUnique us
    → All (λ v. is_member n.tenant_id n.email v ≡ false) us
    → IsUnique (us ++ n ∷ [])
append_new n [] h k = (tt, tt)
append_new n (u ∷ us) h k = (
  All-append (is_member u.tenant_id u.email) n us h.0 (is_member_sym u n k.0),
  append_new n us h.1 k.1,
)

-- The users after a registration: as they were, or with the new user, who is a tenant's owner
-- exactly if the tenant had no user.
abbrev pub Registered : List User → List User × Access → Type 0
Registered users (users', granted u t) =
    (users' ≡ users ++ u ∷ [])
    × (u.tenant_id ≡ t.id)
    × ((u.role ≡ "OWNER") ↔ All (λ v. is_of t.id v ≡ false) users)
Registered users (users', outcome) = users' ≡ users

nil_filter : (p : User → Bool) (us : List User) → All (λ v. p v ≡ false) us → filter p us ≡ []
nil_filter p [] h = refl
nil_filter p (u ∷ us) h = rw h.0 (nil_filter p us h.1)

role_if_none : List User → String
role_if_none [] = "OWNER"
role_if_none (_ ∷ _) = "VIEWER"

role_iff : (us : List User) → (role_if_none us ≡ "OWNER") ↔ (us ≡ [])
unfolding role_if_none
role_iff [] = ((λ _. refl), (λ _. refl))
role_iff (u ∷ us) = ((λ e. cc), (λ e. cc))

first_role_iff :
    (i : ℕ) (us : List User) → (first_role i us ≡ "OWNER") ↔ All (λ v. is_of i v ≡ false) us
unfolding first_role role_if_none
first_role_iff i us = (
  (λ e. All-filter_nil (is_of i) us ((role_iff (filter (is_of i) us)).0 e)),
  (λ h. (role_iff (filter (is_of i) us)).1 (nil_filter (is_of i) us h)),
)

module _ (lib : PasswordLib) (new_id salt now : ℕ) (password : Password) where
  abbrev Sound : List User → List User × Access → Type 0
  Sound users r = Registered users r × (IsUnique users → IsUnique r.0)

  register_in-weak :
      (email : String) (t : Tenant) (users : List User) (e : Refusal)
      → validate_password lib password t.password_policy ≡ some e
      → register_in lib new_id salt now email password t users ≡ (users, denied (weak_password e))
  unfolding register_in
  register_in-weak email t users e p = rw (register_in, p) refl

  register_in-register_new :
      (email : String) (t : Tenant) (users : List User)
      → validate_password lib password t.password_policy ≡ none
      → register_in lib new_id salt now email password t users
        ≡ register_new lib new_id salt now email password t
            (one_or_none (filter (is_member t.id email) users))
            users
  unfolding register_in
  register_in-register_new email t users p = rw (register_in, p) refl

  register_hashed-Sound :
      (o : Option String) (email : String) (t : Tenant) (users : List User)
      → All (λ v. is_member t.id email v ≡ false) users
      → Sound users (register_hashed lib new_id now email t o users)
  unfolding register_hashed new_user
  register_hashed-Sound none email t users h = (refl, λ k. k)
  register_hashed-Sound (some hashed) email t users h = (
    (refl, refl, first_role_iff t.id users),
    λ k. append_new (new_user lib new_id now email hashed t users) users k h,
  )

  register_new-Sound :
      (o : Option (Option User)) (email : String) (t : Tenant) (users : List User)
      → (o ≡ some none → All (λ v. is_member t.id email v ≡ false) users)
      → Sound users (register_new lib new_id salt now email password t o users)
  unfolding register_new
  register_new-Sound none email t users h = (refl, λ k. k)
  register_new-Sound (some (some _)) email t users h = (refl, λ k. k)
  register_new-Sound (some none) email t users h =
      register_hashed-Sound (lib.hashpw salt password) email t users (h refl)

  register_in-Sound :
      (email : String) (t : Tenant) (users : List User)
      → Sound users (register_in lib new_id salt now email password t users)
  register_in-Sound email t users =
      elim (Option-cases (validate_password lib password t.password_policy)) [
        | inr (e, p) ↦ subst (Sound users) (sym (register_in-weak email t users e p)) (refl, λ h. h)
        | inl p ↦ subst (Sound users) (sym (register_in-register_new email t users p)) (
            register_new-Sound (one_or_none (filter (is_member t.id email) users)) email t users
              (λ q.
                All-filter_nil (is_member t.id email) users
                  (none_found (filter (is_member t.id email) users) q)))
      ]

  -- A registration changes nothing unless it is granted. A granted one adds one user, who is the
  -- tenant's owner exactly if the tenant had no user, and keeps the addresses of a tenant's users
  -- distinct.
  pub register_user-Sound :
      (email : String) (tenant_slug : Option String) (tenants : List Tenant) (users : List User)
      → Registered users
          (register_user lib new_id salt now email password tenant_slug tenants users)
        × (IsUnique users
            → IsUnique
                (register_user lib new_id salt now email password tenant_slug tenants users).0)
  unfolding register_user
  register_user-Sound email tenant_slug tenants users =
      elim (domain_of (lib.normalize_email email))
        as (λ d. Sound users (elim d as (λ _. List User × Access) [
          | none ↦ (users, denied no_email)
          | some d ↦
              elim (one_or_none (filter (is_sought tenant_slug d) tenants))
                as (λ _. List User × Access) [
                  | none ↦ (users, raised)
                  | some none ↦ (users, denied no_organization)
                  | some (some t) ↦
                      register_in lib new_id salt now (lib.normalize_email email) password t users
                ]
        ])) [
          | none ↦ (refl, λ h. h)
          | some d ↦
              elim (one_or_none (filter (is_sought tenant_slug d) tenants))
                as (λ o. Sound users (elim o as (λ _. List User × Access) [
                  | none ↦ (users, raised)
                  | some none ↦ (users, denied no_organization)
                  | some (some t) ↦
                      register_in lib new_id salt now (lib.normalize_email email) password t users
                ])) [
                  | none ↦ (refl, λ h. h)
                  | some none ↦ (refl, λ h. h)
                  | some (some t) ↦ register_in-Sound (lib.normalize_email email) t users
                ]
        ]
