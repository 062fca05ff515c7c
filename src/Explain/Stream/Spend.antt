-- ===== src/Explain/Stream/Spend.antt =====
-- What the audit rows of a run add to the month's spend.
use Prim.Native.Char.{code}
use Prim.Native.String.{String as Text, ◌++◌ as append}
use text.Mathlib.TextLemmas.{nil-append, cons-append}
use getvul.Prelude.{
  Bool, ℕ, ◌+◌, ◌≤◌, ◌≡◌, refl, String, true, Option, none, List, ◌∷◌, ◌++◌, codes, ap, ◌∙◌, arith,
  ==_refl,
}
use getvul.Explain.{
  Usage, AuditRow, Assistant, AiSettings, amount, is_prefix, is_ai_action, spend_since,
}
use getvul.Explain.Stream.{Request, audit_row}

codes-append : (s t : String) → codes (append s t) ≡ codes s ++ codes t
codes-append Text.[] t = ap codes (nil-append t)
codes-append (Text.◌∷◌ c s) t =
    ap codes (cons-append c s t) ∙ ap (λ (xs : List ℕ). code c ∷ xs) (codes-append s t)

module _ (ai : Assistant) (st : AiSettings) (rq : Request) (now : ℕ) (raises : Bool) where
  action-is_ai :
      is_ai_action
        (audit_row ai st rq now raises ""
          (record { input_tokens = 0; output_tokens = 0 })
          none).action
      ≡ true
  unfolding is_ai_action is_prefix
  action-is_ai = rw (codes-append "ai.explain." rq.resource_type) refl

  -- A row counts with its price, and a row without one counts nothing.
  pub spend_since-audit_call :
      (status : String) (u : Usage) (cost : Option ℕ) (rows : List AuditRow) (since : ℕ)
      → since ≤ now
      → spend_since since rq.tenant_id (audit_row ai st rq now raises status u cost ∷ rows)
        ≡ amount cost + spend_since since rq.tenant_id rows
  unfolding spend_since
  spend_since-audit_call status u cost rows since h =
      ground (arith, action-is_ai, ==_refl rq.tenant_id)
