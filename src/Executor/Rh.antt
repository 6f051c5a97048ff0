-- ===== src/Executor/Rh.antt =====
-- agent/src/executor/rh-executor.ts: the parts of one step, which Loop and Run compose, from its
-- write-ahead row to its receipt. What the
-- world answers is an argument, at each point where the code asks: the chain, the signer, the clock,
-- and what other tasks have made of the desks by then. Alerts of a revert, gas, fees and error texts
-- of a row are left out.

pub mod Loop
pub mod Run
pub mod Execute
pub mod Ready
pub mod Lawful
pub mod Few
pub mod Unsent
pub mod Resent
pub mod Last
pub mod Sends
pub mod Keeping
pub mod Kept
pub mod Once
use Prim.Native.String.{String}
use text.Mathlib.Text.{◌==◌ as str_eq}
use deltadesk.Prelude.{
  ℕ, suc, ◌*◌, ltb, ◌==◌, Bool, true, false, not, ◌&&◌, ◌||◌, Option, none, some, List, [], ◌∷◌,
  ◌++◌, any, map, if◌then◌else◌,
}
use deltadesk.Prelude.Int.{ℤ, pos, ◌+ℤ◌, leb_ℤ, pos_part, floor_div}
use deltadesk.Prelude.Result.{Result, ok, err, Error, range_error, gas_cap, unknown_attempt}
use deltadesk.Actions.{DeskAction, risk_class_of}
use deltadesk.Guard.Input.{Meta, TxCall}
use deltadesk.Guard.Rules.{same_class}
use deltadesk.Executor.Fees.{FeePolicyOptions, FeeQuote, quote, bump, gas_limit_for}
use deltadesk.Executor.Nonce.{Attempt, NonceDb, next}
use deltadesk.Executor.DecisionId.{encode_decision_id}
use deltadesk.Executor.DeskStatus.{
  RiskClass, DeskDb, ExecErrorCode, unknown, sim_transient, sim_decision_used, desk_halted,
  fee_cap_too_low, nonce_too_low, rpc_unavailable, critical, desk_halted_reason, enter_safe_mode,
  apply_error_outcome,
}
use deltadesk.Executor.Signing.{
  Answer, thrown, given, UnsignedTx, Codec, sign_with_retry, verify_signed_tx,
}
use deltadesk.Executor.Store.{
  Send, Store, with_ledger, same_bytes, has_execution_step, has_onchain_id, in_flight_count,
  set_execution, record_signed_attempt, advance_nonce, finalize_dropped, finalize_unknown,
  settle_error,
}
use deltadesk.Reconcile.{
  AttemptStatus, ExecutionStatus, TxAttempt, Ledger, ChainClient, Broadcaster, mark, record_receipt,
  mark_broadcast, resolve, is_final,
}
use deltadesk.Reconcile.Batch.{row_of}

-- `max_gas_cents` is none when there is no cap, `fee_cents` when the price of ether is unknown.
pub record Config : Type 0 where
  pub codec : Codec
  pub signer_address : String
  pub chain_id : ℕ
  pub lane_address : String
  pub encode : DeskAction → Meta → Answer TxCall
  pub operator_selectors : List String
  pub fees : FeePolicyOptions
  pub max_gas_cents : Option ℕ
  pub fee_cents : ℕ → Option ℕ
  pub margin_sec : ℤ
  pub receipt_timeout_ms : ℕ

pub record Resimulation : Type 0 where
  pub is_ok : Bool
  pub error : Option ExecErrorCode
  pub gas_estimate : Option ℕ

pub record PreparedStep : Type 0 where
  pub decision_id : List ℕ
  pub step_index : ℕ
  pub lane_address : String
  pub action : DeskAction
  pub meta : Meta
  pub risk_class : RiskClass
  pub call : Option TxCall
  pub simulation : Option Resimulation

-- A hash, an error whose text says that the bytes are known already, or another error.
pub data NodeReply : Type 0 where
  returned_hash : String → NodeReply
  already_known : NodeReply
  rejected : ExecErrorCode → NodeReply

-- The moments at which the status of the desk is read; the turns of the broadcast loop are counted.
pub data Moment : Type 0 where
  before_signing : Moment
  before_sending before_resigning : ℕ → Moment

-- `sign` is asked in a turn and a try of it; `send_raw` is what the node replies to bytes;
-- `in_pool` and `mined` answer whether the chain has a transaction, and its receipt; `polled` and `elapsed_ms` are those of the wait.
pub record World : Type 0 where
  pub head : Answer (Option ℕ)
  pub simulated : TxCall → Answer Resimulation
  pub pending_count : Answer ℕ
  pub others : Moment → DeskDb → DeskDb
  pub sign : ℕ → UnsignedTx → ℕ → Answer String
  pub now_ms : ℕ → ℤ
  pub send_raw : ℕ → String → NodeReply
  pub in_pool : ℕ → String → Answer Bool
  pub mined : ℕ → String → Answer Bool
  pub base_fee : ℕ → Answer (Option ℕ)
  pub polled : String → ℕ → Answer (Option Bool)
  pub elapsed_ms : ℕ → ℕ
  pub resolver : Option (ChainClient × Broadcaster)
  pub resolved_ms : ℤ

pub record Signed : Type 0 where
  pub raw : String
  pub tx_hash : String

-- How the loop ends: the bytes were sent, or the execution is final without a receipt.
pub data LoopEnd : Type 0 where
  sent : Signed → LoopEnd
  returned : LoopEnd

abbrev pub max_fee_resigns : ℕ
max_fee_resigns = 2

-- The store comes back after an exception too, since what was written stays written.
abbrev pub Exec {ℓ} : Type ℓ → Type ℓ
Exec A = Store → Answer A × Store

infixl 5 ◌>>=◌
unfoldable pub ◌>>=◌ {ℓ κ} : {A : Type ℓ} {B : Type κ} → Exec A → (A → Exec B) → Exec B
(m >>= k) s =
    let (r, after) = m s in elim r [ given a ↦ k a after | thrown code ↦ (thrown code, after) ]

abbrev pub lift {ℓ} : {A : Type ℓ} → Answer A → Exec A
lift r s = (r, s)

-- The class of an error of a fee policy or of the nonces.
unfoldable pub code_of : Error → ExecErrorCode
code_of gas_cap = ExecErrorCode.gas_cap
code_of unknown_attempt = unknown
code_of range_error = unknown

abbrev pub or_throw {ℓ} : {A : Type ℓ} → Result A → Answer A
or_throw (ok a) = given a
or_throw (err e) = thrown (code_of e)

module _ (K : Config) (w : World) (step : PreparedStep) (id : ℕ) where
  abbrev pub see : Moment → Store → Store
  see m s = with_ledger s (record s.ledger { desks = w.others m s.ledger.desks })

  -- `haltedReason` is not null.
  unfoldable pub is_halted_now : Store → Bool
  unfolding desk_halted_reason
  is_halted_now s =
      elim (desk_halted_reason K.codec.lower s.ledger.desks step.lane_address step.risk_class)
        as (λ _. Bool) [ none ↦ false | some reason ↦ true ]

  unfoldable pub row_signed : UnsignedTx → Signed → TxAttempt
  row_signed tx signed = record {
    tx_hash = signed.tx_hash;
    execution_id = id;
    from_address = K.codec.lower K.signer_address;
    nonce = tx.nonce;
    deadline_sec = step.meta.deadline;
    signed_raw_tx = signed.raw;
    status = AttemptStatus.signed;
    broadcast_count = 0;
  }

  -- One transaction of the database: the bytes and the nonce, or neither.
  unfoldable pub persisted : UnsignedTx → Signed → Answer Ledger → Exec Signed
  unfolding advance_nonce
  persisted tx signed (thrown code) s = (thrown code, s)
  persisted tx signed (given db) s = (
    given signed,
    record s {
      ledger = db;
      last_nonce = advance_nonce s.last_nonce (K.codec.lower K.signer_address) tx.nonce;
    },
  )

  unfoldable pub persist_signed : UnsignedTx → Signed → Exec Signed
  unfolding record_signed_attempt persisted row_signed
  persist_signed tx signed s =
      persisted tx signed (record_signed_attempt s.ledger (row_signed tx signed)) s

  unfoldable pub sign_verify_persist : ℕ → UnsignedTx → Exec Signed
  unfolding ◌>>=◌ sign_with_retry verify_signed_tx persist_signed
  sign_verify_persist turn tx = do
    raw ← lift (sign_with_retry (w.sign turn tx))
    hash ← lift (verify_signed_tx K.codec raw tx (K.codec.lower K.signer_address))
    persist_signed tx (record { raw = raw; tx_hash = hash })

  -- Retire the bytes that the node rejected, and sign again at the same nonce with a higher fee.
  unfoldable pub resign : ℕ → UnsignedTx → Signed → Exec (UnsignedTx × Signed)
  unfolding ◌>>=◌ mark bump sign_verify_persist
  resign turn tx signed s =
      (do
        base ← lift (w.base_fee turn)
        q ← lift (or_throw (bump K.fees base tx.max_fee_per_gas))
        let raised = record tx { max_fee_per_gas = q.max_fee_per_gas }
        again ← sign_verify_persist (suc turn) raised
        lift (given (raised, again)))
        (with_ledger s (record s.ledger {
          attempts = map (mark signed.tx_hash AttemptStatus.replaced) s.ledger.attempts;
        }))

  -- `markAttemptBroadcast`, with the row of the hash.
  unfoldable pub mark_row : Signed → Option TxAttempt → Exec LoopEnd
  unfolding mark_broadcast
  mark_row signed none s = (thrown unknown, s)
  mark_row signed (some a) s = (given (sent signed), with_ledger s (mark_broadcast s.ledger a))

  unfoldable pub mark_sent : Signed → Exec LoopEnd
  unfolding mark_row row_of
  mark_sent signed s = mark_row signed (row_of signed.tx_hash s.ledger.attempts) s

  unfoldable pub give_up_nonce : Signed → Store → Store
  unfolding enter_safe_mode
  give_up_nonce signed s =
      let dropped = finalize_dropped id signed.tx_hash s in
      with_ledger dropped (record dropped.ledger {
        desks = enter_safe_mode K.codec.lower dropped.ledger.desks step.lane_address critical;
      })

  -- The nonce was used by bytes that the chain knows, or by a transaction that is not ours.
  unfoldable pub look_up_by_hash : ℕ → Signed → Exec LoopEnd
  unfolding ◌>>=◌ mark_sent give_up_nonce
  look_up_by_hash turn signed = do
    pooled ← lift (w.in_pool turn signed.tx_hash)
    known ← lift (if pooled then given true else w.mined turn signed.tx_hash)
    if known then mark_sent signed else (λ s. (given returned, give_up_nonce signed s))

  -- Refused by the node: final for this step.
  unfoldable pub refuse : Signed → ExecErrorCode → Store → Store
  unfolding apply_error_outcome
  refuse signed code s =
      let dropped = finalize_dropped id signed.tx_hash s in
      with_ledger dropped (record dropped.ledger {
        desks = apply_error_outcome K.codec.lower dropped.ledger.desks step.lane_address code;
      })
