-- ===== src/Executor/Rh/Kept.antt =====
-- agent/src/executor/rh-executor.ts, `run`: the identities of executions.
use deltadesk.Prelude.{ℕ, ◌≡◌, refl, ◌∙◌, inl, inr, true, false, Option, none, some}
use deltadesk.Prelude.Result.{Result, ok, err}
use deltadesk.Guard.Input.{TxCall}
use deltadesk.Executor.Fees.{FeeQuote}
use deltadesk.Executor.Signing.{Answer, Answer-cases, thrown, given, UnsignedTx}
use deltadesk.Executor.Store.{Store}
use deltadesk.Reconcile.{TxAttempt, Ledger, ChainClient, Broadcaster, Outcome, resolve}
use deltadesk.Reconcile.Identity.{identities, record_receipt-identities, resolve-identities}
use deltadesk.Executor.Receipt.{ReceiptOutcome, confirmed, reverted, timeout}
use deltadesk.Executor.Rh.{
  Config, PreparedStep, World, Signed, LoopEnd, sent, returned, Exec, ◌>>=◌, max_fee_resigns,
  sign_verify_persist,
}
use deltadesk.Executor.Rh.Loop.{send_loop}
use deltadesk.Executor.Rh.Unsent.{after_call, simulate_again_cases}
use deltadesk.Executor.Store.Identity.{
  set_execution-identities, settle_error-identities, finalize-identities,
}
use deltadesk.Executor.Rh.Keeping.{Keeps, sign_verify_persist-Keeps, send_loop-Keeps}
use deltadesk.Executor.Rh.Run.{
  log_resend, or_left, resolved_sec, resolve_row, resolve_once, at_outcome, at_row, received,
  await_receipt, check_status, next_nonce, fetch_nonce, send_and_wait, sign_and_send, send_step,
  unsigned_tx, set_simulated, simulate_again, run, settle, settled, run_and_settle,
}

module _ (K : Config) (w : World) (step : PreparedStep) (id : ℕ) (db : Ledger) where
  resolve_row-Keeps :
      (resolver : ChainClient × Broadcaster) (row : Option TxAttempt) (s : Store)
      → Keeps db s
      → Keeps db (resolve_row K w step id resolver row s)
  unfolding resolve_row
  resolve_row-Keeps (chain, out) none s h = h
  resolve_row-Keeps (chain, out) (some a) s h = answered _ refl
    where
      answered :
          (r : Result Outcome)
          → resolve K.codec.lower chain out s.ledger a (resolved_sec K w step id) ≡ r
          → Keeps db (or_left K w step id r (log_resend K w step id (chain, out) a s))
      answered (err e) q = unfold or_left log_resend in h
      answered (ok o) q =
          unfold or_left log_resend in
          resolve-identities K.codec.lower chain out s.ledger a (resolved_sec K w step id) o q ∙ h

  resolve_once-Keeps :
      (resolver : Option (ChainClient × Broadcaster)) (signed : Signed) (s : Store)
      → Keeps db s
      → Keeps db (resolve_once K w step id resolver signed s)
  unfolding resolve_once
  resolve_once-Keeps none signed s h = h
  resolve_once-Keeps (some resolver) signed s h = resolve_row-Keeps resolver _ s h

  at_outcome-Keeps :
      (signed : Signed) (a : TxAttempt) (r : ReceiptOutcome) (s : Store)
      → Keeps db s
      → Keeps db (at_outcome K w step id signed a r s)
  unfolding at_outcome
  at_outcome-Keeps signed a confirmed s h = record_receipt-identities s.ledger a true ∙ h
  at_outcome-Keeps signed a reverted s h = record_receipt-identities s.ledger a false ∙ h
  at_outcome-Keeps signed a timeout s h =
      resolve_once-Keeps w.resolver signed _ (finalize-identities id signed.tx_hash _ _ s ∙ h)

  at_row-Keeps :
      (signed : Signed) (row : Option TxAttempt) (s : Store)
      → Keeps db s
      → Keeps db (at_row K w step id signed row s).1
  unfolding at_row
  at_row-Keeps signed none s h = h
  at_row-Keeps signed (some a) s h =
      at_outcome-Keeps signed a (received K w step id signed.tx_hash) s h

  await_receipt-Keeps :
      (end : LoopEnd) (s : Store) → Keeps db s → Keeps db (await_receipt K w step id end s).1
  unfolding await_receipt
  await_receipt-Keeps returned s h = h
  await_receipt-Keeps (sent signed) s h = at_row-Keeps signed _ s h

  sign_and_send-Keeps :
      (tx : UnsignedTx) (s : Store) → Keeps db s → Keeps db (sign_and_send K w step id tx s).1
  unfolding sign_and_send send_and_wait
  sign_and_send-Keeps tx s h =
      after_call (Keeps db) (sign_verify_persist K w step id 0 tx) (send_and_wait K w step id tx) s
        signs
        (λ signed _.
          after_call (Keeps db) (send_loop K w step id max_fee_resigns 0 (tx, signed))
            (await_receipt K w step id) _ (sends signed)
            (λ end _. await_receipt-Keeps end _ (sends signed)))
    where
      signs : Keeps db (sign_verify_persist K w step id 0 tx s).1
      signs = sign_verify_persist-Keeps K w step id db 0 tx s h

      sends :
          (signed : Signed)
          → Keeps db
              (send_loop K w step id max_fee_resigns 0
                (tx, signed)
                (sign_verify_persist K w step id 0 tx s).1).1
      sends signed = send_loop-Keeps K w step id db max_fee_resigns 0 (tx, signed) _ signs

  fetch_nonce-Keeps : (s : Store) → Keeps db s → Keeps db (fetch_nonce K w step id s).1
  unfolding fetch_nonce ◌>>=◌ next_nonce
  fetch_nonce-Keeps s h = elim (Answer-cases w.pending_count) [
    | inl (code, e) ↦ rw e h
    | inr (n, e) ↦ rw e h
  ]

  send_step-Keeps :
      (call : TxCall) (gas : ℕ) (fee : FeeQuote) (s : Store)
      → Keeps db s
      → Keeps db (send_step K w step id call gas fee s).1
  unfolding send_step check_status identities
  send_step-Keeps call gas fee s h =
      after_call (Keeps db) (check_status K w step id) (λ _. fetch_nonce K w step id >>= next) s h
        (λ _ _.
          after_call (Keeps db) (fetch_nonce K w step id) next seen nonced
            (λ nonce _. sign_and_send-Keeps (unsigned_tx K w step call gas fee nonce) _ nonced))
    where
      next : ℕ → Exec (Unit {0})
      next nonce = sign_and_send K w step id (unsigned_tx K w step call gas fee nonce)

      seen : Store
      seen = (check_status K w step id s).1

      nonced : Keeps db (fetch_nonce K w step id seen).1
      nonced = fetch_nonce-Keeps seen h

  simulate_again-Keeps :
      (call : TxCall) (s : Store) → Keeps db s → Keeps db (simulate_again K w step id call s).1
  unfolding set_simulated
  simulate_again-Keeps call s h = elim (simulate_again_cases K w step id call s) [
    | inl e ↦ rw e h
    | inr e ↦ rw e (set_execution-identities id _ s.ledger ∙ h)
  ]

  settled-Keeps : (r : Answer (Unit {0}) × Store) → Keeps db r.1 → Keeps db (settled K w step id r)
  unfolding settled settle identities
  settled-Keeps (given done, s) h = h
  settled-Keeps (thrown code, s) h = settle_error-identities id s.ledger ∙ h

  pub run_and_settle-Keeps :
      (call : TxCall) (s : Store) → Keeps db s → Keeps db (run_and_settle K w step id call s)
  unfolding run_and_settle run
  run_and_settle-Keeps call s h = settled-Keeps _ (
      after_call (Keeps db) (simulate_again K w step id call)
        (λ p. send_step K w step id call p.0 p.1) s simulated
        (λ p _. send_step-Keeps call p.0 p.1 _ simulated))
    where
      simulated : Keeps db (simulate_again K w step id call s).1
      simulated = simulate_again-Keeps call s h
