-- ===== src/Executor/Rh/Keeping.antt =====
-- agent/src/executor/rh-executor.ts, the signing and the broadcast loop: the identities of executions.
use Prim.Native.String.{String}
use deltadesk.Prelude.{
  ℕ, zero, suc, ◌≡◌, refl, ◌∙◌, inl, inr, true, false, Option, none, some, map, Bool-cases,
}
use deltadesk.Prelude.Int.{◌+ℤ◌, leb_ℤ, floor_div}
use deltadesk.Executor.Fees.{quote, bump}
use deltadesk.Executor.DeskStatus.{ExecErrorCode}
use deltadesk.Executor.Signing.{
  Answer, Answer-cases, thrown, given, UnsignedTx, sign_with_retry, verify_signed_tx,
}
use deltadesk.Executor.Store.{Store, with_ledger, record_signed_attempt}
use deltadesk.Reconcile.{AttemptStatus, TxAttempt, Ledger, mark}
use deltadesk.Reconcile.Identity.{identities, mark_broadcast-identities}
use deltadesk.Executor.Rh.{
  Config, PreparedStep, World, Moment, Signed, LoopEnd, Exec, ◌>>=◌, lift, or_throw, see,
  row_signed, persisted, persist_signed, sign_verify_persist, resign, mark_row, mark_sent,
  give_up_nonce, look_up_by_hash, refuse, is_halted_now, before_sending, before_resigning,
}
use deltadesk.Executor.Rh.Loop.{
  Refusal, fee_cap, nonce_used, maybe_sent, refused, Again, drop_unsent, resign_or_stop, on_error,
  after_error, send_error, logged, after_mark, after_send, broadcast, one_turn, send_loop,
}
use deltadesk.Executor.Rh.Unsent.{after_call}
use deltadesk.Executor.Store.Identity.{record_signed_attempt-identities, finalize-identities}

-- What has the identities of a ledger.
abbrev pub Keeps : Ledger → Store → Type 0
Keeps db s = identities s.ledger ≡ identities db

module _ (K : Config) (w : World) (step : PreparedStep) (id : ℕ) (db : Ledger) where
  see-Keeps : (m : Moment) (s : Store) → Keeps db s → Keeps db (see K w step id m s)
  unfolding identities
  see-Keeps m s h = h

  persisted-Keeps :
      (tx : UnsignedTx) (signed : Signed) (r : Answer Ledger) (s : Store)
      → record_signed_attempt s.ledger (row_signed K w step id tx signed) ≡ r
      → Keeps db s
      → Keeps db (persisted K w step id tx signed r s).1
  unfolding persisted
  persisted-Keeps tx signed (thrown code) s e h = h
  persisted-Keeps tx signed (given after) s e h =
      record_signed_attempt-identities s.ledger after _ e ∙ h

  persist_signed-Keeps :
      (tx : UnsignedTx) (signed : Signed) (s : Store)
      → Keeps db s
      → Keeps db (persist_signed K w step id tx signed s).1
  unfolding persist_signed
  persist_signed-Keeps tx signed s h = persisted-Keeps tx signed _ s refl h

  pub sign_verify_persist-Keeps :
      (turn : ℕ) (tx : UnsignedTx) (s : Store)
      → Keeps db s
      → Keeps db (sign_verify_persist K w step id turn tx s).1
  unfolding sign_verify_persist
  sign_verify_persist-Keeps turn tx s h =
      after_call (Keeps db) (lift (sign_with_retry (w.sign turn tx)))
        (λ raw. lift (verify_signed_tx K.codec raw tx signer) >>= persist raw) s h
        (λ raw _.
          after_call (Keeps db) (lift (verify_signed_tx K.codec raw tx signer)) (persist raw) s h
            (λ hash _. persist_signed-Keeps tx _ s h))
    where
      signer : String
      signer = K.codec.lower K.signer_address

      persist : String → String → Exec Signed
      persist raw hash = persist_signed K w step id tx (record { raw = raw; tx_hash = hash })

  resign-Keeps :
      (turn : ℕ) (tx : UnsignedTx) (signed : Signed) (s : Store)
      → Keeps db s
      → Keeps db (resign K w step id turn tx signed s).1
  unfolding resign ◌>>=◌ identities
  resign-Keeps turn tx signed s h = elim (Answer-cases (w.base_fee turn)) [
    | inl (code, e) ↦ rw e h
    | inr (base, e) ↦ elim (Answer-cases (or_throw (bump K.fees base tx.max_fee_per_gas))) [
      | inl (code, q) ↦ rw (e, q) h
      | inr (quote, q) ↦
          let raised : UnsignedTx = record tx { max_fee_per_gas = quote.max_fee_per_gas } in
          let signs : Exec Signed = sign_verify_persist K w step id (suc turn) raised in
          let kept : Keeps db (signs retired).1 =
            sign_verify_persist-Keeps (suc turn) raised retired h in
          rw (e, q)
            (after_call (Keeps db) signs (λ again. lift (given (raised, again))) retired kept
              (λ again _. kept))
    ]
  ]
    where
      retired : Store
      retired = with_ledger s (record s.ledger {
        attempts = map (mark signed.tx_hash AttemptStatus.replaced) s.ledger.attempts;
      })

  -- What the rest of the loop keeps.
  abbrev KeepsAgain : Again K w step id → Type 0
  KeepsAgain none = Unit
  KeepsAgain (some again) =
      (next : UnsignedTx × Signed) (s : Store) → Keeps db s → Keeps db (again next s).1

  resign_or_stop-Keeps :
      (turn : ℕ) (tx : UnsignedTx) (signed : Signed) (s : Store)
      (again : UnsignedTx × Signed → Exec LoopEnd)
      → KeepsAgain (some again)
      → Keeps db s
      → Keeps db (resign_or_stop K w step id turn tx signed again s).1
  unfolding resign_or_stop drop_unsent identities
  resign_or_stop-Keeps turn tx signed s again keeps h =
      elim (Bool-cases (is_halted_now K w step id seen)) [
        | inl e ↦ rw e (finalize-identities id signed.tx_hash _ _ seen ∙ h)
        | inr e ↦ rw e (
            after_call (Keeps db) (resign K w step id turn tx signed) again seen
              (resign-Keeps turn tx signed seen h)
              (λ next _. keeps next _ (resign-Keeps turn tx signed seen h)))
      ]
    where
      seen : Store
      seen = see K w step id (before_resigning turn) s

  mark_row-Keeps :
      (signed : Signed) (row : Option TxAttempt) (s : Store)
      → Keeps db s
      → Keeps db (mark_row K w step id signed row s).1
  unfolding mark_row
  mark_row-Keeps signed none s h = h
  mark_row-Keeps signed (some a) s h = mark_broadcast-identities s.ledger a ∙ h

  mark_sent-Keeps :
      (signed : Signed) (s : Store) → Keeps db s → Keeps db (mark_sent K w step id signed s).1
  unfolding mark_sent
  mark_sent-Keeps signed s h = mark_row-Keeps signed _ s h

  look_up_by_hash-Keeps :
      (turn : ℕ) (signed : Signed) (s : Store)
      → Keeps db s
      → Keeps db (look_up_by_hash K w step id turn signed s).1
  unfolding look_up_by_hash ◌>>=◌ give_up_nonce identities
  look_up_by_hash-Keeps turn signed s h = elim (Answer-cases (w.in_pool turn signed.tx_hash)) [
    | inl (code, e) ↦ rw e h
    | inr (true, e) ↦ rw e (mark_sent-Keeps signed s h)
    | inr (false, e) ↦ elim (Answer-cases (w.mined turn signed.tx_hash)) [
      | inl (code, m) ↦ rw (e, m) h
      | inr (true, m) ↦ rw (e, m) (mark_sent-Keeps signed s h)
      | inr (false, m) ↦ rw (e, m) (finalize-identities id signed.tx_hash _ _ s ∙ h)
    ]
  ]

  refuse-Keeps :
      (signed : Signed) (code : ExecErrorCode) (s : Store)
      → Keeps db s
      → Keeps db (refuse K w step id signed code s)
  unfolding refuse identities
  refuse-Keeps signed code s h = finalize-identities id signed.tx_hash _ _ s ∙ h

  on_error-Keeps :
      (kind : Refusal) (code : ExecErrorCode) (turn : ℕ) (tx : UnsignedTx) (signed : Signed)
      (again : Again K w step id) (s : Store)
      → KeepsAgain again
      → Keeps db s
      → Keeps db (on_error K w step id kind code turn tx signed again s).1
  unfolding on_error
  on_error-Keeps fee_cap code turn tx signed (some again) s keeps h =
      resign_or_stop-Keeps turn tx signed s again keeps h
  on_error-Keeps fee_cap code turn tx signed none s keeps h = refuse-Keeps signed code s h
  on_error-Keeps nonce_used code turn tx signed again s keeps h =
      look_up_by_hash-Keeps turn signed s h
  on_error-Keeps maybe_sent code turn tx signed again s keeps h =
      finalize-identities id signed.tx_hash _ _ s ∙ h
  on_error-Keeps refused code turn tx signed again s keeps h = refuse-Keeps signed code s h

  marked-Keeps :
      (turn : ℕ) (tx : UnsignedTx) (signed : Signed) (again : Again K w step id)
      (row : Option TxAttempt) (s : Store)
      → KeepsAgain again
      → Keeps db s
      → let (r, after) = mark_row K w step id signed row s in
        Keeps db
          (elim r as (λ _. Answer LoopEnd × Store) [
            | given end ↦ (given end, after)
            | thrown code ↦ after_error K w step id code turn tx signed again after
          ]).1
  unfolding mark_row after_error
  marked-Keeps turn tx signed again none s keeps h =
      on_error-Keeps _ _ turn tx signed again s keeps h
  marked-Keeps turn tx signed again (some a) s keeps h = mark_broadcast-identities s.ledger a ∙ h

  after_send-Keeps :
      (error : Option ExecErrorCode) (turn : ℕ) (tx : UnsignedTx) (signed : Signed)
      (again : Again K w step id) (s : Store)
      → KeepsAgain again
      → Keeps db s
      → Keeps db (after_send K w step id error turn tx signed again s).1
  unfolding after_send after_mark after_error mark_sent
  after_send-Keeps none turn tx signed again s keeps h =
      marked-Keeps turn tx signed again _ s keeps h
  after_send-Keeps (some code) turn tx signed again s keeps h =
      on_error-Keeps _ code turn tx signed again s keeps h

  one_turn-Keeps :
      (turn : ℕ) (tx : UnsignedTx) (signed : Signed) (again : Again K w step id) (s : Store)
      → KeepsAgain again
      → Keeps db s
      → Keeps db (one_turn K w step id turn tx signed again s).1
  unfolding one_turn drop_unsent broadcast logged identities
  one_turn-Keeps turn tx signed again s keeps h =
      elim (Bool-cases (is_halted_now K w step id seen)) [
        | inl e ↦ rw e dropped
        | inr e ↦
            elim (Bool-cases
              (leb_ℤ step.meta.deadline (floor_div (w.now_ms turn) 1000 +ℤ K.margin_sec))) [
                | inl l ↦ rw (e, l) dropped
                | inr l ↦
                    rw (e, l)
                      (after_send-Keeps (send_error K w step id turn signed) turn tx signed again
                        (logged K w step id turn signed seen) keeps h)
              ]
      ]
    where
      seen : Store
      seen = see K w step id (before_sending turn) s

      dropped : Keeps db (drop_unsent K w step id signed seen).1
      dropped = finalize-identities id signed.tx_hash _ _ seen ∙ h

  pub send_loop-Keeps :
      (left turn : ℕ) (next : UnsignedTx × Signed) (s : Store)
      → Keeps db s
      → Keeps db (send_loop K w step id left turn next s).1
  unfolding send_loop
  send_loop-Keeps zero turn (tx, signed) s h = one_turn-Keeps turn tx signed none s tt h
  send_loop-Keeps (suc left) turn (tx, signed) s h =
      one_turn-Keeps turn tx signed (some (send_loop K w step id left (suc turn))) s
        (send_loop-Keeps left (suc turn)) h
