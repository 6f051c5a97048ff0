-- ===== src/Executor/DeskStatus.antt =====
-- agent/src/executor/safe-mode.ts, with the desk rows of agent/src/state/db.ts and the error
-- taxonomy of agent/src/types.ts: what an execution outcome does to a desk, and which steps a desk
-- may send. The database is a state that may fail; a reason and a message are not kept, and an alert
-- is its severity and title.
pub mod Halts
use Prim.Native.String.{String}
use text.Mathlib.Text.{◌==◌ as str_eq}
use text.Mathlib.TextPositions.{eq_refl}
use deltadesk.Prelude.{
  ◌≡◌, refl, ◌≢◌, ◌↔◌, ◌⊎◌, inl, inr, Bool, true, false, not, ◌&&◌, Option, none, some, List, [],
  ◌∷◌, ◌++◌, if◌then◌else◌, arith, Bool-cases,
}

pub data DeskStatus : Type 0 where
  registered active safe_mode revoked disabled : DeskStatus

pub data RiskClass : Type 0 where
  adding reducing neutral : RiskClass

pub data NotifySeverity : Type 0 where
  info warn critical : NotifySeverity

pub data Title : Type 0 where
  desk_revoked desk_in_safe_mode gas_above_cap operator_needs_eth : Title

-- `failing` tells that a read or a write of the database throws.
pub record DeskDb : Type 0 where
  pub failing : Bool
  pub desks : String → Option DeskStatus
  pub alerts : List (NotifySeverity × Title)

pub data ExecErrorCode : Type 0 where
  sim_policy sim_transient sim_decision_used gas_cap insufficient_gas : ExecErrorCode
  signer_unavailable signer_denied signer_revoked signer_mismatch : ExecErrorCode
  fee_cap_too_low nonce_too_low rpc_unavailable receipt_timeout reverted : ExecErrorCode
  nonce_conflict deadline_passed desk_halted unknown : ExecErrorCode

pub data ExecErrorOutcome : Type 0 where
  fail retry_next_tick reconcile top_up_alert retry_once policy_denied : ExecErrorOutcome
  revoke critical_error resign_same_nonce lookup_by_hash unknown_outcome : ExecErrorOutcome
  decode_alert safe_mode_outcome : ExecErrorOutcome

unfoldable pub exec_error_outcome : ExecErrorCode → ExecErrorOutcome
exec_error_outcome sim_policy = fail
exec_error_outcome sim_transient = retry_next_tick
exec_error_outcome sim_decision_used = reconcile
exec_error_outcome gas_cap = top_up_alert
exec_error_outcome insufficient_gas = top_up_alert
exec_error_outcome signer_unavailable = retry_once
exec_error_outcome signer_denied = policy_denied
exec_error_outcome signer_revoked = revoke
exec_error_outcome signer_mismatch = critical_error
exec_error_outcome fee_cap_too_low = resign_same_nonce
exec_error_outcome nonce_too_low = lookup_by_hash
exec_error_outcome rpc_unavailable = unknown_outcome
exec_error_outcome receipt_timeout = unknown_outcome
exec_error_outcome reverted = decode_alert
exec_error_outcome nonce_conflict = safe_mode_outcome
exec_error_outcome deadline_passed = fail
exec_error_outcome desk_halted = fail
exec_error_outcome unknown = unknown_outcome

unfoldable pub is_revoked : DeskStatus → Bool
is_revoked revoked = true
is_revoked _ = false

unfoldable pub is_safe_mode : DeskStatus → Bool
is_safe_mode safe_mode = true
is_safe_mode _ = false

unfoldable pub may_sign : DeskStatus → Bool
may_sign active = true
may_sign registered = true
may_sign _ = false

unfoldable pub is_reducing : RiskClass → Bool
is_reducing reducing = true
is_reducing _ = false

unfoldable pub top_up_title : ExecErrorCode → Title
top_up_title gas_cap = gas_above_cap
top_up_title _ = operator_needs_eth

-- Why a step may not be sent.
pub data HaltReason : Type 0 where
  unreadable : HaltReason
  no_desk_row : HaltReason
  desk_is : DeskStatus → HaltReason

module _ (lower : String → String) where
  unfoldable pub get_desk : DeskDb → String → Option DeskStatus
  get_desk db lane = db.desks (lower lane)

  unfoldable pub desk_halted_reason : DeskDb → String → RiskClass → Option HaltReason
  unfolding may_sign is_reducing get_desk
  desk_halted_reason db lane risk_class =
      if is_reducing risk_class
      then none
      else if db.failing
      then some unreadable
      else elim (get_desk db lane) [
        | none ↦ some no_desk_row
        | some status ↦ if may_sign status then none else some (desk_is status)
      ]

  -- The update of a row that exists.
  unfoldable pub set_desk_status : DeskDb → String → DeskStatus → DeskDb
  set_desk_status db lane status = record db {
    desks = λ a. if str_eq a (lower lane) then some status else db.desks a;
  }

  -- The write of `transition`: a revoked desk is not taken to safe mode.
  unfoldable pub persist : DeskDb → String → DeskStatus → DeskDb
  unfolding get_desk set_desk_status is_revoked is_safe_mode
  persist db lane status = if db.failing then db else elim (get_desk db lane) [
    | none ↦ db
    | some current ↦
        if is_revoked current && is_safe_mode status then db else set_desk_status db lane status
  ]

  unfoldable pub notify : DeskDb → NotifySeverity → Title → DeskDb
  notify db severity title = record db { alerts = db.alerts ++ (severity, title) ∷ [] }

  unfoldable pub transition : DeskDb → String → DeskStatus → NotifySeverity → DeskDb
  unfolding persist notify is_revoked
  transition db lane status severity =
      notify (persist db lane status) severity
        (if is_revoked status then desk_revoked else desk_in_safe_mode)

  unfoldable pub enter_safe_mode : DeskDb → String → NotifySeverity → DeskDb
  unfolding transition
  enter_safe_mode db lane severity = transition db lane safe_mode severity

  unfoldable pub mark_revoked : DeskDb → String → DeskDb
  unfolding transition
  mark_revoked db lane = transition db lane revoked critical

  unfoldable pub apply_outcome : DeskDb → String → ExecErrorCode → ExecErrorOutcome → DeskDb
  unfolding enter_safe_mode mark_revoked notify top_up_title
  apply_outcome db lane code policy_denied = enter_safe_mode db lane critical
  apply_outcome db lane code safe_mode_outcome = enter_safe_mode db lane critical
  apply_outcome db lane code critical_error = enter_safe_mode db lane critical
  apply_outcome db lane code revoke = mark_revoked db lane
  apply_outcome db lane code top_up_alert = notify db warn (top_up_title code)
  apply_outcome db lane code _ = db

  unfoldable pub apply_error_outcome : DeskDb → String → ExecErrorCode → DeskDb
  unfolding exec_error_outcome apply_outcome
  apply_error_outcome db lane code = apply_outcome db lane code (exec_error_outcome code)

  -- The errors of a run, each with its lane.
  unfoldable pub apply_errors : DeskDb → List (String × ExecErrorCode) → DeskDb
  apply_errors db [] = db
  apply_errors db ((lane, code) ∷ rest) = apply_errors (apply_error_outcome db lane code) rest
