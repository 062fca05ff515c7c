-- ===== src/Risk/Floor.antt =====
-- The KEV floor: a maximum at the end, and nothing else.
use getvul.Prelude.{
  String, ◌≡◌, refl, Bool, true, false, not, List, [], ◌∷◌, ◌++◌, ℤ, pos, leb_ℤ, max_ℤ,
  if◌then◌else◌,
}
use getvul.Risk.{
  Floats, FindingScoreInputs, RiskBreakdownComponent, floor_component, sum_points, apply_floor,
  score_components, score_finding,
}

abbrev pub floored : Bool → ℤ → ℤ
floored kev n = if kev then max_ℤ n (pos 90) else n

pub final-apply_floor :
    (fl : Floats) (kev : Bool) (s : fl.F) (cs : List (RiskBreakdownComponent fl.F))
    → (apply_floor fl kev s cs).final_score ≡ floored kev (fl.round s)
unfolding apply_floor
final-apply_floor fl true s cs = refl
final-apply_floor fl false s cs = refl

pub final-score_finding :
    (fl : Floats) (upper : String → String) (i : FindingScoreInputs)
    → (score_finding fl upper i).final_score
      ≡ floored i.cisa_kev (fl.round (sum_points fl (score_components fl upper i)))
unfolding score_finding
final-score_finding fl upper i = final-apply_floor fl i.cisa_kev _ _

abbrev pub listed : FindingScoreInputs → Bool → FindingScoreInputs
listed i kev = record i { cisa_kev = kev }

-- For a finding in the KEV catalogue the score is the maximum of 90 and the score that the same
-- finding has outside it; the subtotal is the same, and the breakdown has one more component, the
-- floor's, exactly when the other score is below 90.
pub score_finding-floor :
    (fl : Floats) (upper : String → String) (i : FindingScoreInputs)
    → let in_kev = score_finding fl upper (listed i true) in
      let other = score_finding fl upper (listed i false) in
      let below = not (leb_ℤ (pos 90) other.final_score) in
      (in_kev.final_score ≡ max_ℤ other.final_score (pos 90))
      × (in_kev.subtotal ≡ other.subtotal)
      × (in_kev.kev_floor_applied ≡ below)
      × (in_kev.components ≡ (
          if below
          then other.components ++ floor_component fl other.final_score ∷ []
          else other.components))
unfolding score_finding apply_floor score_components
score_finding-floor fl upper i = (refl, refl, refl, refl)
