-- ===== src/Executor/Rh/Few.antt =====
-- agent/src/executor/rh-executor.ts, the broadcast loop: how often it calls the broadcaster.
use deltadesk.Prelude.{
  ℕ, zero, suc, ◌+◌, ◌≤◌, ◌≡◌, refl, ap, inl, inr, Option, none, some, length, arith, Bool-cases,
}
use deltadesk.Prelude.Int.{◌+ℤ◌, leb_ℤ, floor_div}
use deltadesk.Executor.DeskStatus.{ExecErrorCode}
use deltadesk.Executor.Signing.{Answer, thrown, given, UnsignedTx}
use deltadesk.Executor.Store.{Store, finalize}
use deltadesk.Reconcile.{TxAttempt}
use deltadesk.Executor.Rh.{
  Config, PreparedStep, World, Signed, LoopEnd, Exec, ◌>>=◌, see, is_halted_now, before_sending,
  before_resigning, mark_row, mark_sent, refuse, look_up_by_hash,
}
use deltadesk.Executor.Rh.Loop.{
  Refusal, fee_cap, nonce_used, maybe_sent, refused, Again, drop_unsent, resign_or_stop, on_error,
  after_error, send_error, logged, after_mark, after_send, broadcast, one_turn, send_loop,
}
use deltadesk.Executor.Rh.Ready.{Resigns, resign-Resigns}
use deltadesk.Executor.Rh.Lawful.{look_up_by_hash-sends}

-- At most `n` sends more.
abbrev pub Few : ℕ → Store → Store → Type 0
Few n s after = length after.sends ≤ length s.sends + n

same-Few : (n : ℕ) (s after : Store) → after.sends ≡ s.sends → Few n s after
same-Few n s after e = rw e (omega arith)

module _ (K : Config) (w : World) (step : PreparedStep) (id : ℕ) where
  -- What the rest of the loop adds.
  abbrev FewAgain : ℕ → Again K w step id → Type 0
  FewAgain n none = Unit
  FewAgain n (some again) = (next : UnsignedTx × Signed) (s : Store) → Few n s (again next s).1

  then_again-Few :
      (n : ℕ) (tx : UnsignedTx) (s : Store) (again : UnsignedTx × Signed → Exec LoopEnd)
      → FewAgain n (some again)
      → (r : Answer (UnsignedTx × Signed) × Store) → Resigns K w step id tx s r
      → Few n s
          (elim r.0 as (λ _. Answer LoopEnd × Store) [
            | given next ↦ again next r.1
            | thrown code ↦ (thrown code, r.1)
          ]).1
  then_again-Few n tx s again few (thrown code, after) e = same-Few n s after e
  then_again-Few n tx s again few (given next, after) (fee, e, ready, kept) =
      let longer : Few n after (again next after).1 = few next after in
      let same : length after.sends ≡ length s.sends = ap length kept in omega arith

  resign_or_stop-Few :
      (n turn : ℕ) (tx : UnsignedTx) (signed : Signed) (s : Store)
      (again : UnsignedTx × Signed → Exec LoopEnd)
      → FewAgain n (some again)
      → Few n s (resign_or_stop K w step id turn tx signed again s).1
  unfolding resign_or_stop ◌>>=◌ drop_unsent finalize
  resign_or_stop-Few n turn tx signed s again few =
      elim (Bool-cases (is_halted_now K w step id seen)) [
        | inl e ↦ rw e (omega arith)
        | inr e ↦ rw e (
            then_again-Few n tx seen again few _
              (resign-Resigns K w step id turn tx tx.max_fee_per_gas signed seen))
      ]
    where
      seen : Store
      seen = see K w step id (before_resigning turn) s

  on_error-Few :
      (n : ℕ) (kind : Refusal) (code : ExecErrorCode) (turn : ℕ) (tx : UnsignedTx) (signed : Signed)
      (again : Again K w step id) (s : Store)
      → FewAgain n again
      → Few n s (on_error K w step id kind code turn tx signed again s).1
  unfolding on_error refuse finalize
  on_error-Few n fee_cap code turn tx signed (some again) s few =
      resign_or_stop-Few n turn tx signed s again few
  on_error-Few n fee_cap code turn tx signed none s few = omega arith
  on_error-Few n nonce_used code turn tx signed again s few =
      same-Few n s (look_up_by_hash K w step id turn signed s).1
        (look_up_by_hash-sends K w step id turn signed s)
  on_error-Few n maybe_sent code turn tx signed again s few = omega arith
  on_error-Few n refused code turn tx signed again s few = omega arith

  marked-Few :
      (n turn : ℕ) (tx : UnsignedTx) (signed : Signed) (again : Again K w step id)
      (row : Option TxAttempt) (s : Store)
      → FewAgain n again
      → let (r, after) = mark_row K w step id signed row s in
        Few n s
          (elim r as (λ _. Answer LoopEnd × Store) [
            | given end ↦ (given end, after)
            | thrown code ↦ after_error K w step id code turn tx signed again after
          ]).1
  unfolding mark_row after_error
  marked-Few n turn tx signed again none s few = on_error-Few n _ _ turn tx signed again s few
  marked-Few n turn tx signed again (some a) s few = omega arith

  after_send-Few :
      (n : ℕ) (error : Option ExecErrorCode) (turn : ℕ) (tx : UnsignedTx) (signed : Signed)
      (again : Again K w step id) (s : Store)
      → FewAgain n again
      → Few n s (after_send K w step id error turn tx signed again s).1
  unfolding after_send after_mark after_error mark_sent
  after_send-Few n none turn tx signed again s few = marked-Few n turn tx signed again _ s few
  after_send-Few n (some code) turn tx signed again s few =
      on_error-Few n _ code turn tx signed again s few

  one_turn-Few :
      (n turn : ℕ) (tx : UnsignedTx) (signed : Signed) (again : Again K w step id) (s : Store)
      → FewAgain n again
      → Few (suc n) s (one_turn K w step id turn tx signed again s).1
  unfolding one_turn drop_unsent broadcast finalize
  one_turn-Few n turn tx signed again s few = elim (Bool-cases (is_halted_now K w step id seen)) [
    | inl e ↦ rw e (omega arith)
    | inr e ↦
        elim (Bool-cases
          (leb_ℤ step.meta.deadline (floor_div (w.now_ms turn) 1000 +ℤ K.margin_sec))) [
            | inl l ↦ rw (e, l) (omega arith)
            | inr l ↦ rw (e, l) (omega (arith, sent, one_more))
          ]
  ]
    where
      seen : Store
      seen = see K w step id (before_sending turn) s

      sent :
          Few n
            (logged K w step id turn signed seen)
            (after_send K w step id
              (send_error K w step id turn signed)
              turn
              tx
              signed
              again
              (logged K w step id turn signed seen)).1
      sent =
          after_send-Few n (send_error K w step id turn signed) turn tx signed again
            (logged K w step id turn signed seen) few

      one_more : length (logged K w step id turn signed seen).sends ≡ suc (length s.sends)
      one_more = unfold logged in refl

  -- The loop is left after a send for each re-signature that is allowed, and one more.
  pub send_loop-Few :
      (left turn : ℕ) (next : UnsignedTx × Signed) (s : Store)
      → Few (suc left) s (send_loop K w step id left turn next s).1
  unfolding send_loop
  send_loop-Few zero turn (tx, signed) s = one_turn-Few 0 turn tx signed none s tt
  send_loop-Few (suc left) turn (tx, signed) s =
      one_turn-Few (suc left) turn tx signed (some (send_loop K w step id left (suc turn))) s
        (send_loop-Few left (suc turn))
