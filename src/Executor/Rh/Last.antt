-- ===== src/Executor/Rh/Last.antt =====
-- agent/src/executor/rh-executor.ts, the broadcast loop: the bytes whose receipt is awaited, against the
-- last ones on record.
use Prim.Native.String.{String}
use deltadesk.Prelude.{
  ℕ, zero, suc, ◌≡◌, refl, inl, inr, true, false, Option, none, some, List, [], ◌∷◌, Bool-cases,
}
use deltadesk.Prelude.Int.{◌+ℤ◌, leb_ℤ, floor_div}
use deltadesk.Executor.DeskStatus.{ExecErrorCode}
use deltadesk.Executor.Signing.{Answer, Answer-cases, thrown, given, UnsignedTx}
use deltadesk.Executor.Store.{Send, Store}
use deltadesk.Reconcile.{TxAttempt}
use deltadesk.Reconcile.Batch.{row_of}
use deltadesk.Executor.Rh.{
  Config, PreparedStep, World, Signed, LoopEnd, sent, returned, Exec, ◌>>=◌, see, is_halted_now,
  before_sending, before_resigning, mark_row, mark_sent, look_up_by_hash, resign,
}
use deltadesk.Executor.Rh.Loop.{
  Refusal, fee_cap, nonce_used, maybe_sent, refused, Again, drop_unsent, resign_or_stop, on_error,
  after_error, send_error, logged, after_mark, after_send, broadcast, one_turn, send_loop,
}

-- The newest call on record, which stands first, has a hash.
abbrev pub NewestIs : String → List Send → Type 0
NewestIs hash [] = ⊥
NewestIs hash (e ∷ rest) = e.tx_hash ≡ hash

-- What is awaited was sent last.
abbrev pub SentLast : Answer LoopEnd × Store → Type 0
SentLast (thrown code, s) = Unit
SentLast (given returned, s) = Unit
SentLast (given (sent signed), s) = NewestIs signed.tx_hash s.sends

module _ (K : Config) (w : World) (step : PreparedStep) (id : ℕ) where
  abbrev AgainSentLast : Again K w step id → Type 0
  AgainSentLast none = Unit
  AgainSentLast (some again) = (next : UnsignedTx × Signed) (s : Store) → SentLast (again next s)

  then_again-SentLast :
      (again : UnsignedTx × Signed → Exec LoopEnd)
      → AgainSentLast (some again)
      → (r : Answer (UnsignedTx × Signed) × Store)
      → SentLast (elim r.0 as (λ _. Answer LoopEnd × Store) [
        | given next ↦ again next r.1
        | thrown code ↦ (thrown code, r.1)
      ])
  then_again-SentLast again h (thrown code, after) = tt
  then_again-SentLast again h (given next, after) = h next after

  resign_or_stop-SentLast :
      (turn : ℕ) (tx : UnsignedTx) (signed : Signed) (s : Store)
      (again : UnsignedTx × Signed → Exec LoopEnd)
      → AgainSentLast (some again)
      → SentLast (resign_or_stop K w step id turn tx signed again s)
  unfolding resign_or_stop ◌>>=◌ drop_unsent
  resign_or_stop-SentLast turn tx signed s again h =
      elim (Bool-cases (is_halted_now K w step id seen)) [
        | inl e ↦ rw (e, SentLast) tt
        | inr e ↦ rw e (then_again-SentLast again h (resign K w step id turn tx signed seen))
      ]
    where
      seen : Store
      seen = see K w step id (before_resigning turn) s

  mark_row-SentLast :
      (signed : Signed) (row : Option TxAttempt) (s : Store)
      → NewestIs signed.tx_hash s.sends
      → SentLast (mark_row K w step id signed row s)
  unfolding mark_row
  mark_row-SentLast signed none s h = tt
  mark_row-SentLast signed (some a) s h = h

  mark_sent-SentLast :
      (signed : Signed) (s : Store)
      → NewestIs signed.tx_hash s.sends
      → SentLast (mark_sent K w step id signed s)
  unfolding mark_sent
  mark_sent-SentLast signed s h =
      mark_row-SentLast signed (row_of signed.tx_hash s.ledger.attempts) s h

  look_up_by_hash-SentLast :
      (turn : ℕ) (signed : Signed) (s : Store)
      → NewestIs signed.tx_hash s.sends
      → SentLast (look_up_by_hash K w step id turn signed s)
  unfolding ◌>>=◌ look_up_by_hash
  look_up_by_hash-SentLast turn signed s h = elim (Answer-cases (w.in_pool turn signed.tx_hash)) [
    | inl (code, e) ↦ rw (e, SentLast) tt
    | inr (true, e) ↦ rw e (mark_sent-SentLast signed s h)
    | inr (false, e) ↦ elim (Answer-cases (w.mined turn signed.tx_hash)) [
      | inl (code, m) ↦ rw (e, m, SentLast) tt
      | inr (true, m) ↦ rw (e, m) (mark_sent-SentLast signed s h)
      | inr (false, m) ↦ rw (e, m, SentLast) tt
    ]
  ]

  on_error-SentLast :
      (kind : Refusal) (code : ExecErrorCode) (turn : ℕ) (tx : UnsignedTx) (signed : Signed)
      (again : Again K w step id) (s : Store)
      → AgainSentLast again
      → NewestIs signed.tx_hash s.sends
      → SentLast (on_error K w step id kind code turn tx signed again s)
  unfolding on_error
  on_error-SentLast fee_cap code turn tx signed (some again) s h n =
      resign_or_stop-SentLast turn tx signed s again h
  on_error-SentLast fee_cap code turn tx signed none s h n = tt
  on_error-SentLast nonce_used code turn tx signed again s h n =
      look_up_by_hash-SentLast turn signed s n
  on_error-SentLast maybe_sent code turn tx signed again s h n = tt
  on_error-SentLast refused code turn tx signed again s h n = tt

  marked-SentLast :
      (turn : ℕ) (tx : UnsignedTx) (signed : Signed) (again : Again K w step id)
      (row : Option TxAttempt) (s : Store)
      → AgainSentLast again
      → NewestIs signed.tx_hash s.sends
      → let (r, after) = mark_row K w step id signed row s in
        SentLast (elim r as (λ _. Answer LoopEnd × Store) [
          | given end ↦ (given end, after)
          | thrown code ↦ after_error K w step id code turn tx signed again after
        ])
  unfolding mark_row after_error
  marked-SentLast turn tx signed again none s h n = on_error-SentLast _ _ turn tx signed again s h n
  marked-SentLast turn tx signed again (some a) s h n = n

  after_send-SentLast :
      (error : Option ExecErrorCode) (turn : ℕ) (tx : UnsignedTx) (signed : Signed)
      (again : Again K w step id) (s : Store)
      → AgainSentLast again
      → NewestIs signed.tx_hash s.sends
      → SentLast (after_send K w step id error turn tx signed again s)
  unfolding after_send after_mark after_error mark_sent
  after_send-SentLast none turn tx signed again s h n = marked-SentLast turn tx signed again _ s h n
  after_send-SentLast (some code) turn tx signed again s h n =
      on_error-SentLast _ code turn tx signed again s h n

  one_turn-SentLast :
      (turn : ℕ) (tx : UnsignedTx) (signed : Signed) (again : Again K w step id) (s : Store)
      → AgainSentLast again
      → SentLast (one_turn K w step id turn tx signed again s)
  unfolding one_turn drop_unsent broadcast
  one_turn-SentLast turn tx signed again s h = elim (Bool-cases (is_halted_now K w step id seen)) [
    | inl e ↦ rw (e, SentLast) tt
    | inr e ↦
        elim (Bool-cases
          (leb_ℤ step.meta.deadline (floor_div (w.now_ms turn) 1000 +ℤ K.margin_sec))) [
            | inl l ↦ rw (e, l, SentLast) tt
            | inr l ↦
                rw (e, l)
                  (after_send-SentLast (send_error K w step id turn signed) turn tx signed again
                    (logged K w step id turn signed seen) h (unfold logged in refl))
          ]
  ]
    where
      seen : Store
      seen = see K w step id (before_sending turn) s

  pub send_loop-SentLast :
      (left turn : ℕ) (next : UnsignedTx × Signed) (s : Store)
      → SentLast (send_loop K w step id left turn next s)
  unfolding send_loop
  send_loop-SentLast zero turn (tx, signed) s = one_turn-SentLast turn tx signed none s tt
  send_loop-SentLast (suc left) turn (tx, signed) s =
      one_turn-SentLast turn tx signed (some (send_loop K w step id left (suc turn))) s
        (send_loop-SentLast left (suc turn))
