-- ===== src/Reconcile.antt =====
-- agent/src/reconcile/startup.ts, with the rows of agent/src/types.ts and the writes of
-- agent/src/state/db.ts: the resolution of one signed attempt. The answers of the chain, which may
-- fail, and of the broadcaster are arguments; hashes are in lower case, as they are stored. Gas, fees,
-- times and texts of a row are left out, and the rows stand in the order of their attempts.
pub mod Sending
pub mod Finality
pub mod Histories
pub mod Deadline
pub mod Batch
pub mod Keeping
pub mod Identity
pub mod Recorded
use Prim.Native.String.{String}
use text.Mathlib.Text.{◌==◌ as str_eq}
use deltadesk.Prelude.{
  ℕ, suc, ◌+◌, Bool, true, false, not, ◌&&◌, ◌||◌, Option, none, some, List, [], ◌∷◌, map, any,
  filter, ltb, leb, ◌==◌, if◌then◌else◌,
}
use deltadesk.Prelude.Int.{ℤ, leb_ℤ}
use deltadesk.Prelude.Result.{Result, ok, err, ◌>>=◌}
use deltadesk.Executor.DeskStatus.{DeskDb, RiskClass, critical, desk_halted_reason, enter_safe_mode}

pub data AttemptStatus : Type 0 where
  signed broadcast confirmed reverted dropped replaced unknown : AttemptStatus

pub data ExecutionStatus : Type 0 where
  prepared simulated signed broadcast confirmed reverted : ExecutionStatus
  failed declined dropped unknown : ExecutionStatus

pub data AttemptResolution : Type 0 where
  confirmed reverted pending rebroadcast dropped conflict replaced : AttemptResolution

pub record TxAttempt : Type 0 where
  pub tx_hash : String
  pub execution_id : ℕ
  pub from_address : String
  pub nonce : ℕ
  pub deadline_sec : ℤ
  pub signed_raw_tx : String
  pub status : AttemptStatus
  pub broadcast_count : ℕ

-- `is_signed` tells that the row has a time of signing. A decision is the digits of its ULID.
pub record Execution : Type 0 where
  pub execution_id : ℕ
  pub decision_id : List ℕ
  pub step_index : ℕ
  pub onchain_id : List ℕ
  pub signer_address : Option String
  pub is_signed : Bool
  pub lane_address : String
  pub risk_class : RiskClass
  pub status : ExecutionStatus

pub record Ledger : Type 0 where
  pub attempts : List TxAttempt
  pub executions : List Execution
  pub desks : DeskDb

-- What the chain answers: a receipt, with whether it is a success, if there is one; whether the node has
-- the transaction; the latest count of an address.
pub record ChainClient : Type 0 where
  pub receipt : String → Result (Option Bool)
  pub has_transaction : String → Result Bool
  pub latest_count : String → Result ℕ

-- `sends` tells that a broadcast of the bytes throws nothing.
pub record Broadcaster : Type 0 where
  pub sends : String → Bool
  pub hash_of : String → String
  pub max_broadcasts : ℕ

pub record Outcome : Type 0 where
  pub resolution : AttemptResolution
  pub ledger : Ledger

unfoldable pub is_final : AttemptStatus → Bool
is_final AttemptStatus.confirmed = true
is_final AttemptStatus.reverted = true
is_final AttemptStatus.dropped = true
is_final AttemptStatus.replaced = true
is_final _ = false

unfoldable pub resolution_of : AttemptStatus → AttemptResolution
resolution_of AttemptStatus.confirmed = AttemptResolution.confirmed
resolution_of AttemptStatus.reverted = AttemptResolution.reverted
resolution_of AttemptStatus.dropped = AttemptResolution.dropped
resolution_of AttemptStatus.replaced = AttemptResolution.replaced
resolution_of _ = pending

abbrev pub with_status : AttemptStatus → TxAttempt → TxAttempt
with_status s a = record a { status = s }

-- `updateTxAttempt` of one row.
unfoldable pub mark : String → AttemptStatus → TxAttempt → TxAttempt
mark hash s a = if str_eq a.tx_hash hash then with_status s a else a

abbrev pub in_execution : ℕ → ExecutionStatus → Execution → Execution
in_execution id s e = if e.execution_id == id then record e { status = s } else e

abbrev pub is_sibling : TxAttempt → TxAttempt → Bool
is_sibling a s = s.execution_id == a.execution_id && not (str_eq s.tx_hash a.tx_hash)

-- One row at a receipt: the attempt takes its status, an open sibling of its nonce is replaced.
unfoldable pub settle_row : TxAttempt → AttemptStatus → TxAttempt → TxAttempt
unfolding is_final mark
settle_row attempt s a =
    if is_sibling attempt a && a.nonce == attempt.nonce && not (is_final a.status)
    then with_status AttemptStatus.replaced a
    else mark attempt.tx_hash s a

unfoldable pub status_of_receipt : Bool → AttemptStatus
status_of_receipt true = AttemptStatus.confirmed
status_of_receipt false = AttemptStatus.reverted

unfoldable pub record_receipt : Ledger → TxAttempt → Bool → Ledger
unfolding settle_row status_of_receipt
record_receipt db attempt success = record db {
  attempts = map (settle_row attempt (status_of_receipt success)) db.attempts;
  executions =
      map
        (in_execution attempt.execution_id
          (if success then ExecutionStatus.confirmed else ExecutionStatus.reverted))
        db.executions;
}

unfoldable pub drop : Ledger → TxAttempt → Ledger
unfolding mark is_final
drop db attempt =
    let rows = map (mark attempt.tx_hash AttemptStatus.dropped) db.attempts in
    record db {
      attempts = rows;
      executions =
          if any (λ s. is_sibling attempt s && not (is_final s.status)) rows
          then db.executions
          else map (in_execution attempt.execution_id ExecutionStatus.dropped) db.executions;
    }

unfoldable pub get_execution : ℕ → List Execution → Option Execution
get_execution id [] = none
get_execution id (e ∷ es) =
    let rest = get_execution id es in if e.execution_id == id then some e else rest

-- `markAttemptBroadcast`.
unfoldable pub count_broadcast : String → TxAttempt → TxAttempt
count_broadcast hash a =
    if str_eq a.tx_hash hash
    then record a {
      status = elim a.status as (λ _. AttemptStatus) [
        | AttemptStatus.signed ↦ AttemptStatus.broadcast
        | AttemptStatus.unknown ↦ AttemptStatus.broadcast
        | s ↦ s
      ];
      broadcast_count = suc a.broadcast_count;
    }
    else a

unfoldable pub mark_broadcast : Ledger → TxAttempt → Ledger
unfolding count_broadcast
mark_broadcast db attempt = record db {
  attempts = map (count_broadcast attempt.tx_hash) db.attempts;
  executions =
      map
        (λ e. elim e.status as (λ _. Execution) [
          | ExecutionStatus.signed ↦ in_execution attempt.execution_id ExecutionStatus.broadcast e
          | ExecutionStatus.unknown ↦ in_execution attempt.execution_id ExecutionStatus.broadcast e
          | _ ↦ e
        ])
        db.executions;
}

-- The first sibling of the same nonce that has a receipt.
unfoldable pub landed_sibling :
    ChainClient → TxAttempt → List TxAttempt → Result (Option (TxAttempt × Bool))
landed_sibling chain attempt [] = ok none
landed_sibling chain attempt (s ∷ ss) =
    let rest = landed_sibling chain attempt ss in
    if is_sibling attempt s && s.nonce == attempt.nonce
    then (chain.receipt s.tx_hash >>= λ r. elim r as (λ _. Result (Option (TxAttempt × Bool))) [
      | none ↦ rest
      | some success ↦ ok (some (s, success))
    ])
    else rest

module _ (lower : String → String) (chain : ChainClient) (out : Broadcaster) where
  unfoldable pub safe_mode_of : Ledger → Option Execution → Ledger
  unfolding enter_safe_mode
  safe_mode_of db none = db
  safe_mode_of db (some e) = record db {
    desks = enter_safe_mode lower db.desks e.lane_address critical;
  }

  -- The nonce was used, by a sibling or by a foreign transaction.
  unfoldable pub nonce_used : Ledger → TxAttempt → Option (TxAttempt × Bool) → Outcome
  unfolding record_receipt mark drop safe_mode_of get_execution
  nonce_used db attempt (some (s, success)) =
      let settled = record_receipt db s success in
      record {
        resolution = AttemptResolution.replaced;
        ledger = record settled {
          attempts = map (mark attempt.tx_hash AttemptStatus.replaced) settled.attempts;
        };
      }
  nonce_used db attempt none = record {
    resolution = conflict;
    ledger = safe_mode_of (drop db attempt) (get_execution attempt.execution_id db.executions);
  }

  -- No execution row, or a desk that may not send the attempt.
  unfoldable pub is_halted : Ledger → Option Execution → Bool
  unfolding desk_halted_reason
  is_halted db none = true
  is_halted db (some e) =
      elim (desk_halted_reason lower db.desks e.lane_address e.risk_class) as (λ _. Bool) [
        | none ↦ false
        | some reason ↦ true
      ]

  unfoldable pub may_send : Ledger → TxAttempt → Bool
  unfolding is_halted get_execution
  may_send db attempt =
      not (is_halted db (get_execution attempt.execution_id db.executions))
      && ltb attempt.broadcast_count out.max_broadcasts
      && str_eq (lower (out.hash_of attempt.signed_raw_tx)) (lower attempt.tx_hash)
      && out.sends attempt.signed_raw_tx

  unfoldable pub unmined : Ledger → TxAttempt → ℤ → ℕ → Outcome
  unfolding may_send mark_broadcast drop
  unmined db attempt now_sec latest =
      if leb_ℤ attempt.deadline_sec now_sec
      then record { resolution = AttemptResolution.dropped; ledger = drop db attempt }
      else if ltb latest attempt.nonce || not (may_send db attempt)
      then record { resolution = pending; ledger = db }
      else record { resolution = rebroadcast; ledger = mark_broadcast db attempt }

  unfoldable pub at_count : Ledger → TxAttempt → ℤ → ℕ → Result Outcome
  unfolding landed_sibling nonce_used unmined
  at_count db attempt now_sec latest =
      if ltb attempt.nonce latest
      then (landed_sibling chain attempt db.attempts >>= λ s. ok (nonce_used db attempt s))
      else ok (unmined db attempt now_sec latest)

  unfoldable pub without_receipt : Ledger → TxAttempt → ℤ → Bool → Result Outcome
  unfolding at_count
  without_receipt db attempt now_sec true = ok (record { resolution = pending; ledger = db })
  without_receipt db attempt now_sec false =
      chain.latest_count attempt.from_address >>= λ latest. at_count db attempt now_sec latest

  unfoldable pub at_receipt : Ledger → TxAttempt → ℤ → Option Bool → Result Outcome
  unfolding without_receipt record_receipt status_of_receipt resolution_of
  at_receipt db attempt now_sec (some success) = ok (record {
    resolution = resolution_of (status_of_receipt success);
    ledger = record_receipt db attempt success;
  })
  at_receipt db attempt now_sec none =
      chain.has_transaction attempt.tx_hash >>= λ pooled. without_receipt db attempt now_sec pooled

  unfoldable pub resolve : Ledger → TxAttempt → ℤ → Result Outcome
  unfolding is_final resolution_of at_receipt
  resolve db attempt now_sec =
      if is_final attempt.status
      then ok (record { resolution = resolution_of attempt.status; ledger = db })
      else chain.receipt attempt.tx_hash >>= λ r. at_receipt db attempt now_sec r
