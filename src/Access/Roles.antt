-- ===== src/Access/Roles.antt =====
-- The role check is an order: what one role may do, every higher role may.
use getvul.Prelude.{◌≤◌, ◌≡◌, String, true, arith}
use getvul.Access.{role_level, check_role}

level_bound : (role : String) → role_level 0 role ≤ 40
unfolding role_level
level_bound role = ground arith

level_known : (role : String) → 1 ≤ role_level 0 role → role_level 100 role ≡ role_level 0 role
unfolding role_level
level_known role h = ground (arith, h)

level_positive : (role : String) → 1 ≤ role_level 100 role
unfolding role_level
level_positive role = ground arith

passes : (a b : String) → check_role a b ≡ true → role_level 100 b ≤ role_level 0 a
unfolding check_role
passes a b h = ground (arith, h)

passed : (a b : String) → role_level 100 b ≤ role_level 0 a → check_role a b ≡ true
unfolding check_role
passed a b h = ground (arith, h)

-- A role that passes another's check passes every check that the other passes; a role that is not
-- in the hierarchy passes none, and no role passes the check for one that is not.
pub check_role_trans :
    (a b c : String)
    → check_role a b ≡ true
    → check_role b c ≡ true
    → (check_role a c ≡ true) × (1 ≤ role_level 0 a) × (role_level 100 c ≤ 40)
check_role_trans a b c h k =
    let ab = passes a b h in
    let bc = passes b c k in
    let b_known = level_known b (omega (arith, bc, level_positive c)) in
    (
      passed a c (omega (arith, ab, bc, b_known)),
      omega (arith, ab, level_positive b),
      omega (arith, bc, level_bound b),
    )
