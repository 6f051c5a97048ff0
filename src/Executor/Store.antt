-- ===== src/Executor/Store.antt =====
-- agent/src/state/db.ts, the rows that an execution writes: the write-ahead row, the signed attempt with
-- the nonce, and the final statuses. A `Send` is not stored by the code: it records one call of the
-- broadcaster, with the rows and the clock at that moment and the error that it threw, if any.
pub mod Identity
use Prim.Native.String.{String}
use text.Mathlib.Text.{◌==◌ as str_eq}
use deltadesk.Prelude.{
  ℕ, ◌==◌, Bool, true, false, not, ◌&&◌, ◌||◌, Option, none, some, List, [], ◌∷◌, ◌++◌, map, any,
  filter, length, if◌then◌else◌,
}
use deltadesk.Prelude.Int.{ℤ, pos, max_ℤ}
use deltadesk.Executor.DeskStatus.{ExecErrorCode, unknown}
use deltadesk.Executor.Signing.{Answer, thrown, given}
use deltadesk.Reconcile.{
  AttemptStatus, ExecutionStatus, TxAttempt, Execution, Ledger, mark, in_execution, get_execution,
}

pub record Send : Type 0 where
  pub raw : String
  pub tx_hash : String
  pub now_ms : ℤ
  pub ledger : Ledger
  pub error : Option ExecErrorCode

pub record Store : Type 0 where
  pub ledger : Ledger
  pub last_nonce : String → Option ℤ
  pub sends : List Send

abbrev pub with_ledger : Store → Ledger → Store
with_ledger s db = record s { ledger = db }

abbrev pub same_bytes : List ℕ → List ℕ → Bool
same_bytes [] [] = true
same_bytes (a ∷ as_rest) (b ∷ rest) = a == b && same_bytes as_rest rest
same_bytes _ _ = false

abbrev pub is_step : List ℕ → ℕ → Execution → Bool
is_step decision step e = same_bytes e.decision_id decision && e.step_index == step

unfoldable pub has_execution_step : List ℕ → ℕ → List Execution → Bool
has_execution_step decision step rows = any (is_step decision step) rows

-- Whether `getExecutionByOnchainId` finds a row.
unfoldable pub has_onchain_id : List ℕ → List Execution → Bool
has_onchain_id id rows = any (λ e. same_bytes e.onchain_id id) rows

unfoldable pub is_in_flight : ExecutionStatus → Bool
is_in_flight ExecutionStatus.prepared = true
is_in_flight ExecutionStatus.simulated = true
is_in_flight ExecutionStatus.signed = true
is_in_flight ExecutionStatus.broadcast = true
is_in_flight ExecutionStatus.unknown = true
is_in_flight _ = false

unfoldable pub is_signable : ExecutionStatus → Bool
is_signable ExecutionStatus.prepared = true
is_signable ExecutionStatus.simulated = true
is_signable ExecutionStatus.signed = true
is_signable ExecutionStatus.broadcast = true
is_signable _ = false

abbrev pub is_signer : String → Execution → Bool
is_signer signer e = elim e.signer_address as (λ _. Bool) [
  | none ↦ false
  | some a ↦ str_eq a signer
]

unfoldable pub in_flight_count : String → List Execution → ℕ
unfolding is_in_flight
in_flight_count signer rows =
    length (filter (λ e. is_signer signer e && is_in_flight e.status) rows)

-- The row of `updateExecution`, with a status.
unfoldable pub set_execution : ℕ → ExecutionStatus → Ledger → Ledger
set_execution id status db = record db { executions = map (in_execution id status) db.executions }

abbrev pub at_signing : ℕ → String → Execution → Execution
at_signing id signer e =
    if e.execution_id == id
    then record e {
      status = ExecutionStatus.signed;
      is_signed = true;
      signer_address = elim e.signer_address [ none ↦ some signer | some a ↦ some a ];
    }
    else e

-- `recordSignedAttempt`: a hash that is stored already breaks a constraint of the table.
unfoldable pub record_in : Ledger → TxAttempt → Execution → Answer Ledger
unfolding is_signable
record_in db a e =
    if is_signable e.status
      && elim e.signer_address as (λ _. Bool) [
        | none ↦ true
        | some signer ↦ str_eq signer a.from_address
      ]
      && not (any (λ row. str_eq row.tx_hash a.tx_hash) db.attempts)
    then given (record db {
      attempts = db.attempts ++ a ∷ [];
      executions = map (at_signing a.execution_id a.from_address) db.executions;
    })
    else thrown unknown

unfoldable pub record_signed_attempt : Ledger → TxAttempt → Answer Ledger
unfolding record_in get_execution
record_signed_attempt db a = elim (get_execution a.execution_id db.executions) [
  | none ↦ thrown unknown
  | some e ↦ record_in db a e
]

unfoldable pub advance_nonce : (String → Option ℤ) → String → ℕ → String → Option ℤ
advance_nonce last signer nonce a =
    if str_eq a signer
    then some (elim (last a) [ none ↦ pos nonce | some n ↦ max_ℤ n (pos nonce) ])
    else last a

-- `finalize` of agent/src/executor/rh-executor.ts, with the status of the attempt and of its execution.
unfoldable pub finalize : ℕ → String → AttemptStatus → ExecutionStatus → Store → Store
unfolding set_execution mark
finalize id hash attempt_status status s = with_ledger s (
    set_execution id status
      (record s.ledger { attempts = map (mark hash attempt_status) s.ledger.attempts }))

abbrev pub finalize_dropped : ℕ → String → Store → Store
finalize_dropped id hash s = finalize id hash AttemptStatus.dropped ExecutionStatus.dropped s

abbrev pub finalize_unknown : ℕ → String → Store → Store
finalize_unknown id hash s = finalize id hash AttemptStatus.unknown ExecutionStatus.unknown s

unfoldable pub may_land : AttemptStatus → Bool
may_land AttemptStatus.signed = true
may_land AttemptStatus.broadcast = true
may_land AttemptStatus.unknown = true
may_land _ = false

-- An attempt of the execution that may still land, or that was sent.
abbrev pub is_at_large : ℕ → TxAttempt → Bool
is_at_large id a = a.execution_id == id && (may_land a.status || not (a.broadcast_count == 0))

-- The status of an execution that ended with an error.
unfoldable pub error_status : ℕ → List TxAttempt → Execution → ExecutionStatus
unfolding may_land
error_status id attempts e =
    if not e.is_signed
    then ExecutionStatus.failed
    else if any (is_at_large id) attempts
    then ExecutionStatus.unknown
    else ExecutionStatus.dropped

unfoldable pub settle_row : ℕ → Option Execution → Ledger → Ledger
unfolding set_execution error_status
settle_row id none db = db
settle_row id (some e) db = set_execution id (error_status id db.attempts e) db

unfoldable pub settle_error : ℕ → Ledger → Ledger
unfolding get_execution settle_row
settle_error id db = settle_row id (get_execution id db.executions) db
