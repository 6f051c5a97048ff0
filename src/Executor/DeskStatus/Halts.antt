-- ===== src/Executor/DeskStatus/Halts.antt =====
-- agent/src/executor/safe-mode.ts: what stops a desk from sending, and what error outcomes do to it.
use Prim.Native.String.{String}
use text.Mathlib.Text.{◌==◌ as str_eq}
use text.Mathlib.TextPositions.{eq_refl}
use text.Mathlib.TextEquality.{eq_iff}
use deltadesk.Prelude.{
  ◌≡◌, refl, ◌≢◌, ◌↔◌, ◌⊎◌, inl, inr, false, none, some, List, [], ◌∷◌, arith, Bool-cases, subst,
}
use deltadesk.Executor.DeskStatus.{
  DeskStatus, registered, active, safe_mode, revoked, RiskClass, reducing, DeskDb, ExecErrorCode,
  ExecErrorOutcome, policy_denied, revoke, critical_error, safe_mode_outcome, exec_error_outcome,
  is_revoked, is_safe_mode, may_sign, is_reducing, get_desk, desk_halted_reason, set_desk_status,
  persist, notify, transition, enter_safe_mode, mark_revoked, apply_outcome, apply_error_outcome,
  apply_errors,
}

module _ (lower : String → String) where
  -- A step is held back by nothing just when it reduces risk, or the status can be read and is
  -- `active` or `registered`.
  pub desk_halted_reason-none_iff :
      (db : DeskDb) (lane : String) (risk_class : RiskClass)
      → (desk_halted_reason lower db lane risk_class ≡ none) ↔ (
          (risk_class ≡ reducing)
          ⊎ ((db.failing ≡ false)
              × ((get_desk lower db lane ≡ some active)
                  ⊎ (get_desk lower db lane ≡ some registered))))
  unfolding desk_halted_reason is_reducing may_sign
  desk_halted_reason-none_iff db lane risk_class = (λ e. ground arith, λ e. ground arith)

  -- A write of a status that may not sign, at any lane, lets no lane sign.
  persist-sends :
      (db : DeskDb) (lane other : String) (status : DeskStatus) (risk_class : RiskClass)
      → may_sign status ≡ false
      → desk_halted_reason lower (persist lower db other status) lane risk_class ≡ none
      → desk_halted_reason lower db lane risk_class ≡ none
  unfolding desk_halted_reason persist set_desk_status get_desk
  persist-sends db lane other status risk_class hs e = ground arith

  apply_outcome-sends :
      (db : DeskDb) (lane other : String) (code : ExecErrorCode) (o : ExecErrorOutcome)
      (risk_class : RiskClass)
      → desk_halted_reason lower (apply_outcome lower db other code o) lane risk_class ≡ none
      → desk_halted_reason lower db lane risk_class ≡ none
  unfolding apply_outcome transition enter_safe_mode mark_revoked notify desk_halted_reason may_sign
  apply_outcome-sends db lane other code policy_denied risk_class e =
      persist-sends db lane other safe_mode risk_class refl e
  apply_outcome-sends db lane other code safe_mode_outcome risk_class e =
      persist-sends db lane other safe_mode risk_class refl e
  apply_outcome-sends db lane other code critical_error risk_class e =
      persist-sends db lane other safe_mode risk_class refl e
  apply_outcome-sends db lane other code revoke risk_class e =
      persist-sends db lane other revoked risk_class refl e
  apply_outcome-sends db lane other code _ risk_class e = e

  -- Whatever errors follow, on whatever lanes, a step that is held back stays held back.
  pub apply_errors-keeps_halt :
      (db : DeskDb) (lane : String) (risk_class : RiskClass)
      (errors : List (String × ExecErrorCode))
      → desk_halted_reason lower db lane risk_class ≢ none
      → desk_halted_reason lower (apply_errors lower db errors) lane risk_class ≢ none
  unfolding apply_errors apply_error_outcome
  apply_errors-keeps_halt db lane risk_class [] h = h
  apply_errors-keeps_halt db lane risk_class ((other, code) ∷ rest) h =
      apply_errors-keeps_halt (apply_error_outcome lower db other code) lane risk_class rest
        (λ e. h (apply_outcome-sends db lane other code (exec_error_outcome code) risk_class e))

  persist-revoked :
      (db : DeskDb) (lane other : String) (status : DeskStatus)
      → (status ≡ safe_mode) ⊎ (status ≡ revoked)
      → get_desk lower db lane ≡ some revoked
      → get_desk lower (persist lower db other status) lane ≡ some revoked
  unfolding get_desk persist set_desk_status is_revoked is_safe_mode
  persist-revoked db lane other status hs h =
      elim (Bool-cases (str_eq (lower lane) (lower other))) [
        | inl e ↦
            let same = (eq_iff (lower lane) (lower other)).0 e in
            let at_other = subst (λ a. db.desks a ≡ some revoked) same h in ground arith
        | inr e ↦ ground arith
      ]

  apply_outcome-revoked :
      (db : DeskDb) (lane other : String) (code : ExecErrorCode) (o : ExecErrorOutcome)
      → get_desk lower db lane ≡ some revoked
      → get_desk lower (apply_outcome lower db other code o) lane ≡ some revoked
  unfolding apply_outcome transition enter_safe_mode mark_revoked notify get_desk
  apply_outcome-revoked db lane other code policy_denied e =
      persist-revoked db lane other safe_mode (inl refl) e
  apply_outcome-revoked db lane other code safe_mode_outcome e =
      persist-revoked db lane other safe_mode (inl refl) e
  apply_outcome-revoked db lane other code critical_error e =
      persist-revoked db lane other safe_mode (inl refl) e
  apply_outcome-revoked db lane other code revoke e =
      persist-revoked db lane other revoked (inr refl) e
  apply_outcome-revoked db lane other code _ e = e

  -- A revoked desk stays revoked whatever errors follow, on whatever lanes.
  pub apply_errors-revoked :
      (db : DeskDb) (lane : String) (errors : List (String × ExecErrorCode))
      → get_desk lower db lane ≡ some revoked
      → get_desk lower (apply_errors lower db errors) lane ≡ some revoked
  unfolding apply_errors apply_error_outcome
  apply_errors-revoked db lane [] e = e
  apply_errors-revoked db lane ((other, code) ∷ rest) e =
      apply_errors-revoked (apply_error_outcome lower db other code) lane rest
        (apply_outcome-revoked db lane other code (exec_error_outcome code) e)

  -- The outcomes that halt a desk.
  unfoldable pub IsHalting : ExecErrorOutcome → Type 0
  IsHalting o = (o ≡ policy_denied) ⊎ (o ≡ safe_mode_outcome) ⊎ (o ≡ critical_error) ⊎ (o ≡ revoke)

  persist-halts :
      (db : DeskDb) (lane : String) (to current : DeskStatus) (risk_class : RiskClass)
      → db.failing ≡ false
      → get_desk lower db lane ≡ some current
      → (to ≡ safe_mode) ⊎ (to ≡ revoked)
      → risk_class ≢ reducing
      → desk_halted_reason lower (persist lower db lane to) lane risk_class ≢ none
  unfolding desk_halted_reason persist set_desk_status get_desk may_sign is_reducing is_revoked
      is_safe_mode
  persist-halts db lane to current risk_class hf hd hs hr e =
      let same = eq_refl (lower lane) in ground arith

  apply_outcome-halts :
      (db : DeskDb) (lane : String) (code : ExecErrorCode) (o : ExecErrorOutcome)
      (risk_class : RiskClass) (current : DeskStatus)
      → db.failing ≡ false
      → get_desk lower db lane ≡ some current
      → IsHalting o
      → risk_class ≢ reducing
      → desk_halted_reason lower (apply_outcome lower db lane code o) lane risk_class ≢ none
  unfolding apply_outcome transition enter_safe_mode mark_revoked notify desk_halted_reason
      IsHalting
  apply_outcome-halts db lane code policy_denied risk_class current hf hd ho hr =
      persist-halts db lane safe_mode current risk_class hf hd (inl refl) hr
  apply_outcome-halts db lane code safe_mode_outcome risk_class current hf hd ho hr =
      persist-halts db lane safe_mode current risk_class hf hd (inl refl) hr
  apply_outcome-halts db lane code critical_error risk_class current hf hd ho hr =
      persist-halts db lane safe_mode current risk_class hf hd (inl refl) hr
  apply_outcome-halts db lane code revoke risk_class current hf hd ho hr =
      persist-halts db lane revoked current risk_class hf hd (inr refl) hr
  apply_outcome-halts db lane code _ risk_class current hf hd ho hr = ground arith

  -- When the database works and the lane has a desk, an error whose outcome is a policy denial, safe
  -- mode, critical or revoked leaves the lane unable to send any step but a risk-reducing one.
  pub apply_error_outcome-halts :
      (db : DeskDb) (lane : String) (code : ExecErrorCode) (risk_class : RiskClass)
      (status : DeskStatus)
      → db.failing ≡ false
      → get_desk lower db lane ≡ some status
      → IsHalting (exec_error_outcome code)
      → risk_class ≢ reducing
      → desk_halted_reason lower (apply_error_outcome lower db lane code) lane risk_class ≢ none
  unfolding apply_error_outcome
  apply_error_outcome-halts db lane code risk_class status hf hd ho hr =
      apply_outcome-halts db lane code (exec_error_outcome code) risk_class status hf hd ho hr
