-- ===== src/Approval/Decision.antt =====
-- agent/src/approval/gate.ts: `effectiveMode` and `decideApproval`, over any gate. `on_veto` is the
-- field `vetoed` of the result.
use mathlib.Core.Option.{get_or}
use deltadesk.Prelude.{
  ℕ, ◌<◌, ◌≡◌, ◌≢◌, ◌↔◌, ◌⊎◌, Bool, true, false, Option, none, some, ltb, if◌then◌else◌, arith,
}
use deltadesk.Executor.DeskStatus.{RiskClass, adding}
use deltadesk.Actions.{is_adding_class}
use deltadesk.Approval.Gate.{
  ApprovalChannel, ApprovalOutcome, approved_outcome, timeout, cancelled_outcome, not_required,
  advisory_outcome, ApprovalAnswer, CancelAnswer,
}

pub data DeskMode : Type 0 where
  advisory copilot autopilot : DeskMode

-- The two questions, of a window.
pub record ApprovalGate : Type 0 where
  pub request_approval : ℕ → ApprovalAnswer
  pub await_cancel_window : ℕ → CancelAnswer

-- Without a channel.
abbrev pub noop_approval_gate : ApprovalGate
noop_approval_gate = record {
  request_approval = λ w. record { approved = false; outcome = timeout; channel = none };
  await_cancel_window = λ w. record { cancelled = false; channel = none };
}

pub data RecordedStatus : Type 0 where
  recorded_advisory declined : RecordedStatus

pub record ApprovalDecision : Type 0 where
  pub execute : Bool
  pub outcome : ApprovalOutcome
  pub channel : Option ApprovalChannel
  pub status : Option RecordedStatus
  pub vetoed : Bool

unfoldable pub effective_mode : DeskMode → Option ℕ → DeskMode
effective_mode autopilot w = if ltb 0 (get_or w 0) then autopilot else copilot
effective_mode advisory w = advisory
effective_mode copilot w = copilot

module _ (gate : ApprovalGate) where
  -- A window of the request, in copilot.
  unfoldable pub copilot_decision : ℕ → ApprovalDecision
  copilot_decision window_ms =
      let answer = gate.request_approval window_ms in
      if answer.approved
      then record {
        execute = true;
        outcome = approved_outcome;
        channel = answer.channel;
        status = none;
        vetoed = false;
      }
      else record {
        execute = false;
        outcome = answer.outcome;
        channel = answer.channel;
        status = some declined;
        vetoed = true;
      }

  -- The cancel window, in autopilot.
  unfoldable pub autopilot_decision : ℕ → ApprovalDecision
  autopilot_decision window_ms =
      let answer = gate.await_cancel_window window_ms in
      if answer.cancelled
      then record {
        execute = false;
        outcome = cancelled_outcome;
        channel = answer.channel;
        status = some declined;
        vetoed = true;
      }
      else record {
        execute = true;
        outcome = not_required;
        channel = answer.channel;
        status = none;
        vetoed = false;
      }

  unfoldable pub decide_approval : DeskMode → RiskClass → ℕ → Option ℕ → ApprovalDecision
  unfolding effective_mode is_adding_class copilot_decision autopilot_decision
  decide_approval mode risk_class window_ms cancel_window_ms =
      let without_asking : ApprovalDecision = record {
        execute = true;
        outcome = not_required;
        channel = none;
        status = none;
        vetoed = false;
      } in
      elim (effective_mode mode cancel_window_ms) as (λ _. ApprovalDecision) [
        | advisory ↦ record {
          execute = false;
          outcome = advisory_outcome;
          channel = none;
          status = some recorded_advisory;
          vetoed = false;
        }
        | copilot ↦
            if is_adding_class risk_class then copilot_decision window_ms else without_asking
        | autopilot ↦
            if is_adding_class risk_class
            then autopilot_decision (get_or cancel_window_ms 0)
            else without_asking
      ]

  -- An adding step executes just when the owner approves it in copilot, or in autopilot with a cancel
  -- window that is not empty the owner does not cancel it; a step that is not adding executes in
  -- every mode but advisory. A decision anchors the cooldown just when it is recorded as declined.
  pub decide_approval-execute_iff :
      (mode : DeskMode) (risk_class : RiskClass) (window_ms : ℕ) (cancel_window_ms : Option ℕ)
      → let d = decide_approval mode risk_class window_ms cancel_window_ms in
        let running = effective_mode mode cancel_window_ms in
        ((d.execute ≡ true) ↔ (
          ((risk_class ≢ adding) × (mode ≢ advisory))
          ⊎ ((risk_class ≡ adding)
              × (((running ≡ copilot) × ((gate.request_approval window_ms).approved ≡ true))
                  ⊎ ((mode ≡ autopilot)
                      × (0 < get_or cancel_window_ms 0)
                      × ((gate.await_cancel_window (get_or cancel_window_ms 0)).cancelled
                          ≡ false))))))
        × ((d.vetoed ≡ true) ↔ (d.status ≡ some declined))
  unfolding decide_approval effective_mode is_adding_class copilot_decision autopilot_decision
  decide_approval-execute_iff advisory risk_class window_ms cancel_window_ms =
      ((λ e. ground arith, λ e. ground arith), (λ e. ground arith, λ e. ground arith))
  decide_approval-execute_iff copilot risk_class window_ms cancel_window_ms =
      ((λ e. ground arith, λ e. ground arith), (λ e. ground arith, λ e. ground arith))
  decide_approval-execute_iff autopilot risk_class window_ms cancel_window_ms =
      ((λ e. ground arith, λ e. ground arith), (λ e. ground arith, λ e. ground arith))
