-- ===== src/Session/Refresh.antt =====
-- A refreshed session is that of the user as stored.
use getvul.Prelude.{ℕ, ◌+◌, ◌*◌, ◌<◌, ◌≡◌, refl, ◌∙◌, ap, String, false, Option, some, List}
use getvul.Session.{
  Jwt, Settings, Member, Claims, enforce_password_change_gate, current_of, user_of_claims,
  gate_user, check_type, check_claims, check_token, get_current_user, access_claims,
  create_access_token, refresh_claims, create_refresh_token, issue_tokens, find_active, issued,
  issue_access, refresh_for, refresh_with, refresh_access_token,
}

-- A token that has not expired decodes to what was encoded.
pub record IsJwt (jwt : Jwt) : Type 0 where
  pub valid : (c : Claims) (now : ℕ) → now < c.exp → jwt.decode now (jwt.encode c) ≡ some c

module _ (jwt : Jwt) (settings : Settings) (law : IsJwt jwt) where
  refresh-issue_access :
      (start now : ℕ) (m : Member) (members : List Member)
      → now < start + settings.refresh_days * 86400
      → refresh_access_token jwt settings now (issue_tokens jwt settings start m).1 members
        ≡ issue_access jwt settings now (find_active jwt settings m.user.id members)
  unfolding refresh_access_token issue_tokens create_refresh_token refresh_with refresh_for
      refresh_claims
  refresh-issue_access start now m members h =
      ap (refresh_with jwt settings now members)
        (law.valid (refresh_claims jwt settings start m.user.id m.user.tenant_id) now h)

  pub access-current :
      (now later : ℕ) (path : Option String) (m : Member) (members : List Member)
      → settings.is_development ≡ false
      → later < now + settings.access_minutes * 60
      → get_current_user jwt settings later path
          (some (create_access_token jwt settings now (current_of m)))
          members
        ≡ enforce_password_change_gate (current_of m) path
  unfolding get_current_user check_token create_access_token check_claims check_type gate_user
      user_of_claims access_claims
  access-current now later path m members d h =
      rw (d, law.valid (access_claims jwt settings now (current_of m)) later h) refl

  -- If the tokens that the encoding makes decode until they expire, and no development mode is on:
  -- with a refresh token that was issued to a user less than its lifetime ago, a user who is active
  -- gets an access token; until that expires, a request with it passes as the row stored at the
  -- refresh, with its current role and flag, and under the gate of the forced rotation.
  pub refresh-get_current_user :
      (start now later : ℕ) (path : Option String) (m row : Member) (members others : List Member)
      → settings.is_development ≡ false
      → find_active jwt settings m.user.id members ≡ some row
      → now < start + settings.refresh_days * 86400
      → later < now + settings.access_minutes * 60
      → (token : jwt.Token) × (refresh_access_token jwt settings now
            (issue_tokens jwt settings start m).1
            members
          ≡ issued token)
        × (get_current_user jwt settings later path (some token) others
            ≡ enforce_password_change_gate (current_of row) path)
  unfolding issue_access
  refresh-get_current_user start now later path m row members others d active fresh alive = (
    create_access_token jwt settings now (current_of row),
    refresh-issue_access start now m members fresh ∙ ap (issue_access jwt settings now) active,
    access-current now later path row others d alive,
  )
