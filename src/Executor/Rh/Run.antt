-- ===== src/Executor/Rh/Run.antt =====
-- agent/src/executor/rh-executor.ts: `run`, from the simulation to the receipt, and what `execute` writes
-- when it throws.
use Prim.Native.String.{String}
use deltadesk.Prelude.{
  ℕ, ◌*◌, ltb, Bool, true, false, not, Option, none, some, ◌∷◌, map, if◌then◌else◌,
}
use deltadesk.Prelude.Int.{ℤ, pos, pos_part, floor_div}
use deltadesk.Prelude.Result.{Result, ok, err}
use deltadesk.Guard.Input.{TxCall}
use deltadesk.Executor.Fees.{FeeQuote, quote, gas_limit_for}
use deltadesk.Executor.Nonce.{NonceDb, next}
use deltadesk.Executor.DeskStatus.{
  ExecErrorCode, unknown, sim_transient, desk_halted, apply_error_outcome,
}
use deltadesk.Executor.Signing.{Answer, thrown, given, UnsignedTx}
use deltadesk.Executor.Store.{
  Send, Store, with_ledger, set_execution, finalize_unknown, settle_error,
}
use mathlib.Core.Option.{get_or}
use deltadesk.Executor.Receipt.{ReceiptOutcome, confirmed, reverted, timeout, wait_for_receipt}
use deltadesk.Executor.Rh.{
  Config, PreparedStep, World, Resimulation, Signed, LoopEnd, sent, returned, Exec, ◌>>=◌, lift,
  or_throw, code_of, before_signing, see, is_halted_now, sign_verify_persist, max_fee_resigns,
}
use deltadesk.Executor.Rh.Loop.{send_loop}
use deltadesk.Reconcile.{
  ExecutionStatus, TxAttempt, Ledger, ChainClient, Broadcaster, Outcome, rebroadcast,
  record_receipt, resolve,
}
use deltadesk.Reconcile.Batch.{row_of, unresolved}

-- The gas of a simulation that succeeded.
unfoldable pub resimulated : Resimulation → Answer ℕ
resimulated sim = elim sim.error [
  | some code ↦ thrown code
  | none ↦
      if not sim.is_ok
      then thrown sim_transient
      else elim sim.gas_estimate [ none ↦ thrown sim_transient | some gas ↦ given gas ]
]

unfoldable pub nonce_db : Store → NonceDb
unfolding unresolved
nonce_db s = record {
  last_nonce = s.last_nonce;
  unresolved =
      map (λ a. record { from_address = a.from_address; tx_hash = a.tx_hash })
        (unresolved s.ledger);
}

module _ (K : Config) (w : World) (step : PreparedStep) where
  unfoldable pub gas_check : ℕ → Answer (Unit {0})
  gas_check wei = elim K.max_gas_cents [
    | none ↦ given tt
    | some cap ↦ elim (K.fee_cents wei) [
      | none ↦ given tt
      | some cents ↦ if ltb cap cents then thrown ExecErrorCode.gas_cap else given tt
    ]
  ]

  unfoldable pub next_nonce : ℕ → Exec ℕ
  unfolding nonce_db next
  next_nonce pending s =
      let (r, db) =
        next K.codec.lower (nonce_db s) (K.codec.lower K.signer_address) (pos pending) in
      (
        elim r as (λ _. Answer ℕ) [ ok n ↦ given (pos_part n) | err e ↦ thrown (code_of e) ],
        record s { last_nonce = db.last_nonce },
      )

  abbrev pub unsigned_tx : TxCall → ℕ → FeeQuote → ℕ → UnsignedTx
  unsigned_tx call gas fee nonce = record {
    chain_id = K.chain_id;
    to = call.to;
    data_text = call.data_text;
    value = 0;
    nonce = nonce;
    gas = gas;
    max_fee_per_gas = fee.max_fee_per_gas;
    max_priority_fee_per_gas = 0;
  }

  module _ (id : ℕ) where
    unfoldable pub check_status : Exec (Unit {0})
    unfolding is_halted_now
    check_status s0 =
        let s = see K w step id before_signing s0 in
        (if is_halted_now K w step id s then thrown desk_halted else given tt, s)

    -- The resolver's answer; an error is left for the reconciler.
    unfoldable pub or_left : Result Outcome → Store → Store
    or_left (ok o) s = with_ledger s o.ledger
    or_left (err e) s = s

    abbrev pub resolved_sec : ℤ
    resolved_sec = floor_div w.resolved_ms 1000

    abbrev pub is_rebroadcast : Result Outcome → Bool
    is_rebroadcast (err e) = false
    is_rebroadcast (ok o) = elim o.resolution as (λ _. Bool) [ rebroadcast ↦ true | _ ↦ false ]

    -- The resolver calls the broadcaster just where it rebroadcasts if that call throws nothing.
    unfoldable pub calls_broadcaster : ChainClient × Broadcaster → Ledger → TxAttempt → Bool
    unfolding resolve
    calls_broadcaster (chain, out) db a =
        is_rebroadcast
          (resolve K.codec.lower chain (record out { sends = λ raw. true }) db a resolved_sec)

    -- The call on record; the resolver only logs the class of its error.
    abbrev pub resend_of : Broadcaster → TxAttempt → Ledger → Send
    resend_of out a db = record {
      raw = a.signed_raw_tx;
      tx_hash = a.tx_hash;
      now_ms = w.resolved_ms;
      ledger = db;
      error = if out.sends a.signed_raw_tx then none else some unknown;
    }

    unfoldable pub log_resend : ChainClient × Broadcaster → TxAttempt → Store → Store
    unfolding calls_broadcaster
    log_resend (chain, out) a s = record s {
      sends =
          if calls_broadcaster (chain, out) s.ledger a
          then resend_of out a s.ledger ∷ s.sends
          else s.sends;
    }

    unfoldable pub resolve_row : ChainClient × Broadcaster → Option TxAttempt → Store → Store
    unfolding resolve or_left log_resend
    resolve_row (chain, out) none s = s
    resolve_row (chain, out) (some a) s =
        or_left (resolve K.codec.lower chain out s.ledger a resolved_sec)
          (log_resend (chain, out) a s)

    unfoldable pub resolve_once : Option (ChainClient × Broadcaster) → Signed → Store → Store
    unfolding row_of resolve_row
    resolve_once none signed s = s
    resolve_once (some resolver) signed s =
        resolve_row resolver (row_of signed.tx_hash s.ledger.attempts) s

    unfoldable pub at_outcome : Signed → TxAttempt → ReceiptOutcome → Store → Store
    unfolding record_receipt resolve_once
    at_outcome signed a confirmed s = with_ledger s (record_receipt s.ledger a true)
    at_outcome signed a reverted s = with_ledger s (record_receipt s.ledger a false)
    at_outcome signed a timeout s =
        resolve_once w.resolver signed (finalize_unknown id signed.tx_hash s)

    -- A clock that does not advance would leave no outcome; it counts as a timeout.
    unfoldable pub received : String → ReceiptOutcome
    unfolding wait_for_receipt
    received hash =
        get_or (wait_for_receipt (w.polled hash) w.elapsed_ms K.receipt_timeout_ms) timeout

    unfoldable pub at_row : Signed → Option TxAttempt → Exec (Unit {0})
    unfolding at_outcome received
    at_row signed none s = (thrown unknown, s)
    at_row signed (some a) s = (given tt, at_outcome signed a (received signed.tx_hash) s)

    unfoldable pub await_receipt : LoopEnd → Exec (Unit {0})
    unfolding row_of at_row
    await_receipt returned s = (given tt, s)
    await_receipt (sent signed) s = at_row signed (row_of signed.tx_hash s.ledger.attempts) s

    unfoldable pub fetch_nonce : Exec ℕ
    unfolding ◌>>=◌ next_nonce
    fetch_nonce = lift w.pending_count >>= next_nonce

    unfoldable pub send_and_wait : UnsignedTx → Signed → Exec (Unit {0})
    unfolding ◌>>=◌ send_loop await_receipt
    send_and_wait tx signed = send_loop K w step id max_fee_resigns 0 (tx, signed) >>= await_receipt

    unfoldable pub sign_and_send : UnsignedTx → Exec (Unit {0})
    unfolding ◌>>=◌ sign_verify_persist send_and_wait
    sign_and_send tx = sign_verify_persist K w step id 0 tx >>= send_and_wait tx

    -- Nothing is signed for a halted desk.
    unfoldable pub send_step : TxCall → ℕ → FeeQuote → Exec (Unit {0})
    unfolding ◌>>=◌ check_status fetch_nonce sign_and_send
    send_step call gas fee = do
      _ ← check_status
      nonce ← fetch_nonce
      sign_and_send (unsigned_tx call gas fee nonce)

    unfoldable pub set_simulated : Exec (Unit {0})
    unfolding set_execution
    set_simulated s =
        (given tt, with_ledger s (set_execution id ExecutionStatus.simulated s.ledger))

    -- The gas limit and the fee, after the simulation at a fresh block.
    unfoldable pub simulate_again : TxCall → Exec (ℕ × FeeQuote)
    unfolding ◌>>=◌ resimulated set_simulated gas_limit_for quote gas_check
    simulate_again call = do
      base ← lift w.head
      sim ← lift (w.simulated call)
      estimate ← lift (resimulated sim)
      _ ← set_simulated
      fee ← lift (or_throw (quote K.fees base))
      _ ← lift (gas_check (gas_limit_for estimate * fee.max_fee_per_gas))
      lift (given (gas_limit_for estimate, fee))

    unfoldable pub run : TxCall → Exec (Unit {0})
    unfolding ◌>>=◌ simulate_again send_step
    run call = simulate_again call >>= λ p. send_step call p.0 p.1

    unfoldable pub settle : ExecErrorCode → Store → Store
    unfolding settle_error apply_error_outcome
    settle code s =
        let db = settle_error id s.ledger in
        with_ledger s
          (record db { desks = apply_error_outcome K.codec.lower db.desks step.lane_address code })

    unfoldable pub settled : Answer (Unit {0}) × Store → Store
    unfolding settle
    settled (given done, s) = s
    settled (thrown code, s) = settle code s

    unfoldable pub run_and_settle : TxCall → Store → Store
    unfolding run settled
    run_and_settle call s = settled (run call s)
