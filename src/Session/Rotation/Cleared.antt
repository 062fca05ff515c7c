-- ===== src/Session/Rotation/Cleared.antt =====
-- What a completed rotation means for the user's next requests.
use getvul.Prelude.{
  ◌≢◌, arith, ℕ, ◌+◌, ◌*◌, ◌<◌, ◌≡◌, refl, sym, ap, ◌∙◌, subst, String, Bool, true, false, Option,
  none, some, List, [], ◌∷◌, ◌==◌, ==_iff, if_case, if◌then◌else◌,
}
use mathlib.Core.Option.{some-injective}
use getvul.Password.{
  Password, PasswordLib, StoredRules, User, Outcome, updated, crashed, refused,
  forced_rotation_policy, present, change_password,
}
use getvul.Session.{
  Jwt, Settings, Member, CurrentUser, authenticated, enforce_password_change_gate, current_of,
  get_current_user, issue_tokens,
}
use getvul.Session.Refresh.{IsJwt, access-current}
use getvul.Session.Rotation.{
  TextLib, default_install_credential, eq_codes, forbidden, is_too_similar, folds_to_default,
  hit_reason, Reply, rotated, find_member, users_of, with_users, hash_of, is_current, near,
  issue_for, finish_rotation, finish_change, rotate, check_same, rotate_checked,
  change_password_endpoint,
}

find-head :
    (b : Bool) (i : ℕ) (n m : Member) (o : Option Member)
    → (b ≡ true → n.user.id ≡ i)
    → (o ≡ some m → m.user.id ≡ i)
    → (if b then some n else o) ≡ some m
    → m.user.id ≡ i
find-head true i n m o f g e = ap (λ (x : Member). x.user.id) (sym (some-injective n m e)) ∙ f refl
find-head false i n m o f g e = g e

find_member-id : (i : ℕ) (ms : List Member) (m : Member) → find_member i ms ≡ some m → m.user.id ≡ i
unfolding find_member
find_member-id i [] m e = absurd cc
find_member-id i (n ∷ ms) m e =
    find-head (n.user.id == i) i n m (find_member i ms) (λ h. (==_iff n.user.id i).0 h)
      (find_member-id i ms m) e

module _ (jwt : Jwt) (settings : Settings) (lib : PasswordLib) (sim : TextLib) (law : IsJwt jwt)
    (now later : ℕ) (path : Option String) (others : List Member) where
  abbrev R : Type 0
  R = List Member × Reply jwt.Token

  -- A reply with tokens is for a user without the flag.
  IsCleared : ℕ → R → Type 0
  IsCleared i (ms, rotated access refresh) =
      (u : CurrentUser) × (get_current_user jwt settings later path (some access) others
        ≡ authenticated u)
      × (u.must_change_password ≡ false)
      × (u.id ≡ i)
  IsCleared i (ms, _) = Unit

  open_gate :
      (u : CurrentUser) (p : Option String)
      → u.must_change_password ≡ false
      → enforce_password_change_gate u p ≡ authenticated u
  unfolding enforce_password_change_gate
  open_gate u none h = refl
  open_gate u (some p) h = rw h refl

  issue_for-IsCleared :
      (i : ℕ) (ms : List Member) (o : Option Member)
      → settings.is_development ≡ false
      → later < now + settings.access_minutes * 60
      → ((m : Member) → o ≡ some m → m.user.id ≡ i)
      → IsCleared i (issue_for jwt settings lib sim now ms o)
  unfolding issue_for IsCleared issue_tokens current_of
  issue_for-IsCleared i ms none d h k = tt
  issue_for-IsCleared i ms (some m) d h k =
      let cleared : Member = record m { must_change_password = false } in
      (
        current_of cleared,
        access-current jwt settings law now later path cleared others d h
            ∙ open_gate (current_of cleared) path refl,
        refl,
        k m refl,
      )

  finish_rotation-IsCleared :
      (i : ℕ) (ms : List Member) (r : List User × Outcome)
      → settings.is_development ≡ false
      → later < now + settings.access_minutes * 60
      → IsCleared i (finish_rotation jwt settings lib sim now i ms r)
  unfolding finish_rotation IsCleared
  finish_rotation-IsCleared i ms (users, updated) d h =
      issue_for-IsCleared i (with_users users ms) _ d h (find_member-id i (with_users users ms))
  finish_rotation-IsCleared i ms (users, crashed) d h = tt
  finish_rotation-IsCleared i ms (users, refused e) d h = tt

  finish_change-IsCleared :
      (i : ℕ) (ms : List Member) (r : List User × Outcome)
      → IsCleared i (finish_change jwt settings lib sim ms r)
  unfolding finish_change IsCleared
  finish_change-IsCleared i ms (users, updated) = tt
  finish_change-IsCleared i ms (users, crashed) = tt
  finish_change-IsCleared i ms (users, refused e) = tt

  module _ (policies : ℕ → Option StoredRules) (salt : ℕ) (u : CurrentUser)
      (current : Option Password) (new : Password) (members : List Member) where
    abbrev pub current_hash : Option String
    current_hash = present (hash_of (find_member u.id members))

    -- What a reply with tokens says of the new password and of the user's next requests.
    IsRotated : R → Type 0
    IsRotated (ms, rotated access refresh) =
        (folds_to_default sim (sim.strip new) ≡ false)
        × (is_current lib new current_hash ≡ some false)
        × (near sim new current ≡ none)
        × IsCleared u.id (ms, rotated access refresh)
    IsRotated (ms, _) = Unit

    IsCleared-IsRotated :
        (r : R)
        → folds_to_default sim (sim.strip new) ≡ false
        → is_current lib new current_hash ≡ some false
        → near sim new current ≡ none
        → IsCleared u.id r
        → IsRotated r
    unfolding IsRotated
    IsCleared-IsRotated (ms, rotated access refresh) a b c k = (a, b, c, k)
    IsCleared-IsRotated (ms, _) a b c k = tt

    rotate-IsRotated :
        (o : Option _)
        → settings.is_development ≡ false
        → later < now + settings.access_minutes * 60
        → folds_to_default sim (sim.strip new) ≡ false
        → is_current lib new current_hash ≡ some false
        → near sim new current ≡ o
        → IsRotated (rotate jwt settings lib sim policies salt now u current new members o)
    unfolding rotate IsRotated
    rotate-IsRotated (some reason) d h a b c = tt
    rotate-IsRotated none d h a b c =
        let written =
          change_password lib policies salt u.id current new (some forced_rotation_policy)
            (users_of members) in
        IsCleared-IsRotated (finish_rotation jwt settings lib sim now u.id members written) a b c
          (finish_rotation-IsCleared u.id members written d h)

    check_same-IsRotated :
        (o : Option Bool)
        → settings.is_development ≡ false
        → later < now + settings.access_minutes * 60
        → folds_to_default sim (sim.strip new) ≡ false
        → is_current lib new current_hash ≡ o
        → IsRotated (check_same jwt settings lib sim policies salt now u current new members o)
    unfolding check_same IsRotated
    check_same-IsRotated none d h a b = tt
    check_same-IsRotated (some true) d h a b = tt
    check_same-IsRotated (some false) d h a b = rotate-IsRotated (near sim new current) d h a b refl

    finish_change-IsRotated :
        (r : List User × Outcome) → IsRotated (finish_change jwt settings lib sim members r)
    unfolding finish_change IsRotated
    finish_change-IsRotated (users, updated) = tt
    finish_change-IsRotated (users, crashed) = tt
    finish_change-IsRotated (users, refused e) = tt

    rotate_checked-IsRotated :
        settings.is_development ≡ false
        → later < now + settings.access_minutes * 60
        → IsRotated (rotate_checked jwt settings lib sim policies salt now u current new members)
    unfolding rotate_checked IsRotated
    rotate_checked-IsRotated d h =
        if_case {A = R} IsRotated (folds_to_default sim (sim.strip new)) _ _ (λ _. tt)
          (λ a. check_same-IsRotated (is_current lib new current_hash) d h a refl)

    change_password_endpoint-IsRotated :
        settings.is_development ≡ false
        → later < now + settings.access_minutes * 60
        → IsRotated
            (change_password_endpoint jwt settings lib sim policies salt now u current new members)
    unfolding change_password_endpoint
    change_password_endpoint-IsRotated d h =
        if_case {A = R} IsRotated u.must_change_password _ _ (λ _. rotate_checked-IsRotated d h)
          (λ _. finish_change-IsRotated _)

eq_codes_self : (p : Password) → eq_codes p p ≡ true
unfolding eq_codes
eq_codes_self [] = refl
eq_codes_self (x ∷ xs) = ground (arith, eq_codes_self xs)

folds-differs :
    (sim : TextLib) (p : Password)
    → folds_to_default sim p ≡ false
    → sim.casefold p ≢ sim.casefold default_install_credential
unfolding folds_to_default
folds-differs sim p h e =
    let same : eq_codes (sim.casefold p) (sim.casefold default_install_credential) ≡ true =
      rw e (eq_codes_self (sim.casefold default_install_credential)) in
    absurd cc

hit_none : (sim : TextLib) (o : Option Password) → hit_reason sim o ≡ none → o ≡ none
hit_none sim none h = refl
hit_none sim (some p) h = absurd cc

-- If the tokens that the encoding makes decode until they expire, and no development mode is on:
-- when changing the password answers with tokens, the new password is not the install credential
-- (up to spaces and case), not the current one by its hash, and not too similar to the install
-- credential or to the password that was sent as current; and until the
-- access token expires, a request with it to any path is let through, as the same user, who no
-- longer has to change the password.
pub change_password_endpoint-rotated :
    (jwt : Jwt) (settings : Settings) (lib : PasswordLib) (sim : TextLib) (law : IsJwt jwt)
    (now later : ℕ) (path : Option String) (others : List Member)
    (policies : ℕ → Option StoredRules) (salt : ℕ) (u : CurrentUser) (current : Option Password)
    (new : Password) (members after : List Member) (access refresh : jwt.Token)
    → settings.is_development ≡ false
    → later < now + settings.access_minutes * 60
    → change_password_endpoint jwt settings lib sim policies salt now u current new members
      ≡ (after, rotated access refresh)
    → (sim.casefold (sim.strip new) ≢ sim.casefold default_install_credential)
      × (is_current lib new (present (hash_of (find_member u.id members))) ≡ some false)
      × (is_too_similar sim new (forbidden sim current) ≡ none)
      × ((v : CurrentUser) × (get_current_user jwt settings later path (some access) others
            ≡ authenticated v)
          × (v.must_change_password ≡ false)
          × (v.id ≡ u.id))
unfolding IsRotated IsCleared near
change_password_endpoint-rotated jwt settings lib sim law now later path others policies salt u
      current new members after access refresh d h e =
    let (differs, unlike_hash, unlike, cleared) =
      subst
        (IsRotated jwt settings lib sim law now later path others policies salt u current new
          members)
        e
        (change_password_endpoint-IsRotated jwt settings lib sim law now later path others policies
          salt u current new members d h) in
    (
      folds-differs sim (sim.strip new) differs,
      unlike_hash,
      hit_none sim (is_too_similar sim new (forbidden sim current)) unlike,
      cleared,
    )
