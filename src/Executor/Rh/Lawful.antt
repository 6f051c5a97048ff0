-- ===== src/Executor/Rh/Lawful.antt =====
-- agent/src/executor/rh-executor.ts, the broadcast loop: what holds of every call of the broadcaster that it makes.
use deltadesk.Prelude.{
  ℕ, zero, suc, ◌≡◌, refl, inl, inr, Bool, true, false, Option, none, some, All, Bool-cases, subst,
  sym,
}
use deltadesk.Prelude.Int.{◌+ℤ◌, leb_ℤ, floor_div}
use deltadesk.Executor.DeskStatus.{ExecErrorCode}
use deltadesk.Executor.Signing.{Answer, Answer-cases, thrown, given, UnsignedTx}
use deltadesk.Executor.Store.{Store, finalize}
use deltadesk.Reconcile.Batch.{row_of}
use deltadesk.Reconcile.{TxAttempt}
use deltadesk.Executor.Rh.{
  ◌>>=◌, Config, PreparedStep, World, Signed, LoopEnd, Exec, is_halted_now, see, before_sending,
  before_resigning, mark_row, mark_sent, look_up_by_hash, give_up_nonce, refuse,
}
use deltadesk.Executor.Rh.Loop.{
  Refusal, fee_cap, nonce_used, maybe_sent, refused, Again, drop_unsent, resign_or_stop, on_error,
  after_error, send_error, logged, after_mark, after_send, broadcast, one_turn, send_loop,
}
use deltadesk.Executor.Rh.Ready.{
  IsLawful, IsReady, at_fee, logged-IsLawful, Resigns, resign-Resigns,
}

module _ (K : Config) (w : World) (step : PreparedStep) (id : ℕ) where
  abbrev pub Lawful : UnsignedTx → Store → Type 0
  Lawful tx s = All (IsLawful K w step id tx) s.sends

  -- What the rest of the loop keeps.
  abbrev KeepsLawful : UnsignedTx → Again K w step id → Type 0
  KeepsLawful tx none = Unit
  KeepsLawful tx (some again) =
      (fee : ℕ) (signed : Signed) (s : Store)
      → IsReady K w step id tx fee signed s
      → Lawful tx s
      → Lawful tx (again (at_fee K w step id tx fee, signed) s).1

  then_again :
      (tx : UnsignedTx) (s : Store) (again : UnsignedTx × Signed → Exec LoopEnd)
      → KeepsLawful tx (some again)
      → Lawful tx s
      → (r : Answer (UnsignedTx × Signed) × Store) → Resigns K w step id tx s r
      → Lawful tx
          (elim r.0 as (λ _. Answer LoopEnd × Store) [
            | given next ↦ again next r.1
            | thrown code ↦ (thrown code, r.1)
          ]).1
  then_again tx s again keeps h (thrown code, after) e =
      subst (All (IsLawful K w step id tx)) (sym e) h
  then_again tx s again keeps h (given (raised, signed), after) (fee, e, ready, kept) =
      rw e (keeps fee signed after ready (subst (All (IsLawful K w step id tx)) (sym kept) h))

  resign_or_stop-Lawful :
      (turn : ℕ) (tx : UnsignedTx) (fee : ℕ) (signed : Signed) (s : Store)
      (again : UnsignedTx × Signed → Exec LoopEnd)
      → KeepsLawful tx (some again)
      → Lawful tx s
      → Lawful tx (resign_or_stop K w step id turn (at_fee K w step id tx fee) signed again s).1
  unfolding ◌>>=◌ resign_or_stop drop_unsent finalize
  resign_or_stop-Lawful turn tx fee signed s again keeps h =
      elim (Bool-cases (is_halted_now K w step id (see K w step id (before_resigning turn) s))) [
        | inl e ↦ rw e h
        | inr e ↦
            rw e (then_again tx s again keeps h _ (resign-Resigns K w step id turn tx fee signed _))
      ]

  mark_row-sends :
      (signed : Signed) (row : Option TxAttempt) (s : Store)
      → (mark_row K w step id signed row s).1.sends ≡ s.sends
  unfolding mark_row
  mark_row-sends signed none s = refl
  mark_row-sends signed (some a) s = refl

  pub mark_sent-sends :
      (signed : Signed) (s : Store) → (mark_sent K w step id signed s).1.sends ≡ s.sends
  unfolding mark_sent
  mark_sent-sends signed s = mark_row-sends signed (row_of signed.tx_hash s.ledger.attempts) s

  pub look_up_by_hash-sends :
      (turn : ℕ) (signed : Signed) (s : Store)
      → (look_up_by_hash K w step id turn signed s).1.sends ≡ s.sends
  unfolding ◌>>=◌ look_up_by_hash give_up_nonce finalize
  look_up_by_hash-sends turn signed s = elim (Answer-cases (w.in_pool turn signed.tx_hash)) [
    | inl (code, e) ↦ rw e refl
    | inr (true, e) ↦ rw e (mark_sent-sends signed s)
    | inr (false, e) ↦ elim (Answer-cases (w.mined turn signed.tx_hash)) [
      | inl (code, m) ↦ rw (e, m) refl
      | inr (true, m) ↦ rw (e, m) (mark_sent-sends signed s)
      | inr (false, m) ↦ rw (e, m) refl
    ]
  ]

  on_error-Lawful :
      (kind : Refusal) (code : ExecErrorCode) (turn : ℕ) (tx : UnsignedTx) (fee : ℕ)
      (signed : Signed) (again : Again K w step id) (s : Store)
      → KeepsLawful tx again
      → Lawful tx s
      → Lawful tx (on_error K w step id kind code turn (at_fee K w step id tx fee) signed again s).1
  unfolding on_error refuse finalize
  on_error-Lawful fee_cap code turn tx fee signed (some again) s keeps h =
      resign_or_stop-Lawful turn tx fee signed s again keeps h
  on_error-Lawful fee_cap code turn tx fee signed none s keeps h = h
  on_error-Lawful nonce_used code turn tx fee signed again s keeps h =
      subst (All (IsLawful K w step id tx)) (sym (look_up_by_hash-sends turn signed s)) h
  on_error-Lawful maybe_sent code turn tx fee signed again s keeps h = h
  on_error-Lawful refused code turn tx fee signed again s keeps h = h

  marked :
      (turn : ℕ) (tx : UnsignedTx) (fee : ℕ) (signed : Signed) (again : Again K w step id)
      (row : Option TxAttempt) (s : Store)
      → KeepsLawful tx again
      → Lawful tx s
      → let (r, after) = mark_row K w step id signed row s in
        Lawful tx
          (elim r as (λ _. Answer LoopEnd × Store) [
            | given end ↦ (given end, after)
            | thrown code ↦
                after_error K w step id code turn (at_fee K w step id tx fee) signed again after
          ]).1
  unfolding mark_row after_error
  marked turn tx fee signed again none s keeps h =
      on_error-Lawful _ _ turn tx fee signed again s keeps h
  marked turn tx fee signed again (some a) s keeps h = h

  after_send-Lawful :
      (error : Option ExecErrorCode) (turn : ℕ) (tx : UnsignedTx) (fee : ℕ) (signed : Signed)
      (again : Again K w step id) (s : Store)
      → KeepsLawful tx again
      → Lawful tx s
      → Lawful tx (after_send K w step id error turn (at_fee K w step id tx fee) signed again s).1
  unfolding after_send after_mark after_error mark_sent
  after_send-Lawful none turn tx fee signed again s keeps h =
      marked turn tx fee signed again _ s keeps h
  after_send-Lawful (some code) turn tx fee signed again s keeps h =
      on_error-Lawful _ code turn tx fee signed again s keeps h

  one_turn-Lawful :
      (turn : ℕ) (tx : UnsignedTx) (fee : ℕ) (signed : Signed) (again : Again K w step id)
      (s : Store)
      → KeepsLawful tx again
      → IsReady K w step id tx fee signed s
      → Lawful tx s
      → Lawful tx (one_turn K w step id turn (at_fee K w step id tx fee) signed again s).1
  unfolding one_turn drop_unsent finalize broadcast
  one_turn-Lawful turn tx fee signed again s keeps ready h =
      elim (Bool-cases (is_halted_now K w step id seen)) [
        | inl e ↦ rw e h
        | inr e ↦ elim (Bool-cases late) [
          | inl l ↦ rw (e, l) h
          | inr l ↦
              rw (e, l)
                (after_send-Lawful (send_error K w step id turn signed) turn tx fee signed again
                  (logged K w step id turn signed seen) keeps
                  (logged-IsLawful K w step id tx turn fee signed seen ready_then e l h))
        ]
      ]
    where
      seen : Store
      seen = see K w step id (before_sending turn) s

      late : Bool
      late = leb_ℤ step.meta.deadline (floor_div (w.now_ms turn) 1000 +ℤ K.margin_sec)

      ready_then : IsReady K w step id tx fee signed seen
      ready_then = record { is_verified = ready.is_verified; is_stored = ready.is_stored }

  pub send_loop-Lawful :
      (left turn : ℕ) (tx : UnsignedTx) (fee : ℕ) (signed : Signed) (s : Store)
      → IsReady K w step id tx fee signed s
      → Lawful tx s
      → Lawful tx (send_loop K w step id left turn (at_fee K w step id tx fee, signed) s).1
  unfolding send_loop
  send_loop-Lawful zero turn tx fee signed s ready h =
      one_turn-Lawful turn tx fee signed none s tt ready h
  send_loop-Lawful (suc left) turn tx fee signed s ready h =
      one_turn-Lawful turn tx fee signed (some (send_loop K w step id left (suc turn))) s
        (λ next again after. send_loop-Lawful left (suc turn) tx next again after) ready h
