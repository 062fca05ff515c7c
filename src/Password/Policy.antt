-- ===== src/Password/Policy.antt =====
-- The policy: what a floor does, and what an accepted password satisfies.
use getvul.Prelude.{◌≤◌, ◌≡◌, ◌↔◌, true, Option, none, any, length, arith}
use getvul.Password.{
  Password, PasswordLib, PasswordRules, StoredRules, is_symbol, with_defaults, merge_policy_floor,
  validate_rules,
}

-- A password meets rules: long enough, and with each class that is asked for.
pub record Meets (lib : PasswordLib) (password : Password) (p : PasswordRules) : Type 0 where
  pub long_enough : p.min_length ≤ length password
  pub uppercase : p.require_uppercase ≡ true → any lib.is_upper password ≡ true
  pub lowercase : p.require_lowercase ≡ true → any lib.is_lower password ≡ true
  pub digit : p.require_digit ≡ true → any lib.is_digit password ≡ true
  pub symbol : p.require_symbol ≡ true → any is_symbol password ≡ true

module _ (lib : PasswordLib) (password : Password) where
  -- A password is accepted exactly when it is long enough and has each required class.
  pub validate_rules_iff :
      (p : PasswordRules) → (validate_rules lib password p ≡ none) ↔ Meets lib password p
  unfolding validate_rules
  validate_rules_iff p = (λ h. ground arith, λ h. ground arith)

  Meets-merge :
      (base : Option StoredRules) (floor : PasswordRules)
      → Meets lib password (merge_policy_floor base floor)
        ↔ (Meets lib password (with_defaults base) × Meets lib password floor)
  unfolding merge_policy_floor
  Meets-merge base floor = (λ h. (ground arith, ground arith), λ h. ground arith)

  -- Under a policy merged with a floor a password is accepted exactly when the tenant's own policy
  -- and the floor both accept it.
  pub merge_policy_floor_iff :
      (base : Option StoredRules) (floor : PasswordRules)
      → (validate_rules lib password (merge_policy_floor base floor) ≡ none) ↔ (
          (validate_rules lib password (with_defaults base) ≡ none)
          × (validate_rules lib password floor ≡ none))
  merge_policy_floor_iff base floor = (
    λ h.
        let both = (Meets-merge base floor).0 ((validate_rules_iff _).0 h) in
        ((validate_rules_iff _).1 both.0, (validate_rules_iff _).1 both.1),
    λ h.
        (validate_rules_iff _).1
          ((Meets-merge base floor).1 ((validate_rules_iff _).0 h.0, (validate_rules_iff _).0 h.1)),
  )
