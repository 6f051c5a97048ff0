-- ===== src/Executor/Rh/Ready.antt =====
-- agent/src/executor/rh-executor.ts: what a signature, or a re-signature, leaves behind.
use Prim.Native.String.{String}
use mathlib.Core.List.{Memᴰ}
use mathlib.Core.List.Memᴰ
use deltadesk.Prelude.{
  ◌==◌, ap, Bool, Bool-cases, Option, some, true, ◌∙◌, ℕ, suc, ◌≡◌, refl, inl, inr, false, none, [],
  ◌∷◌, ◌++◌, All, arith, Option-cases, subst, sym,
}
use deltadesk.Prelude.Int.{◌+ℤ◌, ◌<ℤ◌, leb_ℤ, floor_div}
use deltadesk.Executor.DeskStatus.{desk_halted_reason}
use text.Mathlib.Text.{◌==◌ as str_eq}
use mathlib.Core.Option.{get_or}
use deltadesk.Executor.Signing.{
  Codec, ParsedTx, is_some_of, fields_match, verify_recovered, verify_parsed, Answer, Answer-cases,
  sign_with_retry, thrown, given, UnsignedTx, verify_signed_tx,
}
use deltadesk.Executor.Store.{Send, Store, record_in, record_signed_attempt}
use deltadesk.Reconcile.{TxAttempt, Execution, Ledger, get_execution}
use deltadesk.Executor.Fees.{bump}
use deltadesk.Executor.Rh.{
  ◌>>=◌, or_throw, Config, PreparedStep, World, Signed, row_signed, persisted, persist_signed,
  sign_verify_persist, resign, is_halted_now,
}
use deltadesk.Executor.Rh.Loop.{logged}

-- Bytes that parse to the transaction, and recover to the signer.
pub record IsSigned (C : Codec) (raw : String) (tx : UnsignedTx) (signer hash : String)
    : Type 0 where
  pub parsed : ParsedTx
  pub parses : C.parse raw ≡ some parsed
  pub same_to : (to : String) × (parsed.to ≡ some to) × (str_eq (C.lower to) (C.lower tx.to) ≡ true)
  pub same_data : str_eq (C.lower (get_or parsed.data_text "0x")) (C.lower tx.data_text) ≡ true
  pub same_chain : parsed.chain_id ≡ some tx.chain_id
  pub same_value : get_or parsed.value 0 ≡ tx.value
  pub same_nonce : get_or parsed.nonce 0 ≡ tx.nonce
  pub same_gas : get_or parsed.gas 0 ≡ tx.gas
  pub same_fee : get_or parsed.max_fee_per_gas 0 ≡ tx.max_fee_per_gas
  pub recovered : String
  pub recovers : C.recover raw ≡ some recovered
  pub same_signer : str_eq (C.lower recovered) (C.lower signer) ≡ true
  pub same_hash : hash ≡ C.hash_of raw

some-is_some_of :
    {A : Type 0} (test : A → Bool) (o : Option A)
    → is_some_of test o ≡ true
    → (a : A) × (o ≡ some a) × (test a ≡ true)
some-is_some_of test none h = absurd (ground arith)
some-is_some_of test (some a) h = (a, refl, h)

module _ (C : Codec) (raw : String) (tx : UnsignedTx) (signer hash : String) where
  recovered-IsSigned :
      (p : ParsedTx) (r : Option String)
      → C.parse raw ≡ some p
      → fields_match C p tx ≡ true
      → C.recover raw ≡ r
      → verify_recovered C raw signer r ≡ given hash
      → IsSigned C raw tx signer hash
  unfolding fields_match verify_recovered
  recovered-IsSigned p none e f q h = absurd (ground arith)
  recovered-IsSigned p (some a) e f q h =
      let (chain, chain_eq, chain_same) =
        some-is_some_of (λ c. c == tx.chain_id) p.chain_id (ground arith) in
      record {
        parsed = p;
        parses = e;
        same_to = some-is_some_of (λ t. str_eq (C.lower t) (C.lower tx.to)) p.to (ground arith);
        same_data = ground arith;
        same_chain = chain_eq ∙ ap some (ground arith);
        same_value = ground arith;
        same_nonce = ground arith;
        same_gas = ground arith;
        same_fee = ground arith;
        recovered = a;
        recovers = q;
        same_signer = ground arith;
        same_hash = ground arith;
      }

  parsed-IsSigned :
      (r : Option ParsedTx)
      → C.parse raw ≡ r
      → verify_parsed C raw tx signer r ≡ given hash
      → IsSigned C raw tx signer hash
  unfolding verify_parsed
  parsed-IsSigned none e h = absurd (ground arith)
  parsed-IsSigned (some p) e h = elim (Bool-cases (fields_match C p tx)) [
    | inl f ↦ recovered-IsSigned p _ e f refl (rw f at h)
    | inr f ↦ absurd (ground arith)
  ]

  verify_signed_tx-IsSigned :
      verify_signed_tx C raw tx signer ≡ given hash → IsSigned C raw tx signer hash
  unfolding verify_signed_tx
  verify_signed_tx-IsSigned h = elim (Bool-cases (C.is_typed raw)) [
    | inl t ↦ parsed-IsSigned _ refl (rw t at h)
    | inr t ↦ absurd (ground arith)
  ]

module _ (K : Config) (w : World) (step : PreparedStep) (id : ℕ) where
  -- A desk that may send the step, a deadline that is not near, and bytes that are stored as signed and
  -- that were verified as the transaction at some fee.
  pub record IsLawful (tx : UnsignedTx) (e : Send) : Type 0 where
    pub not_halted :
        desk_halted_reason K.codec.lower e.ledger.desks step.lane_address step.risk_class ≡ none
    pub in_time : (floor_div e.now_ms 1000 +ℤ K.margin_sec) <ℤ step.meta.deadline
    pub fee : ℕ
    pub verified :
        IsSigned K.codec e.raw
          (record tx { max_fee_per_gas = fee })
          (K.codec.lower K.signer_address)
          e.tx_hash
    pub stored :
        Memᴰ
          (row_signed K w step id
            (record tx { max_fee_per_gas = fee })
            (record { raw = e.raw; tx_hash = e.tx_hash }))
          e.ledger.attempts

  -- Bytes that are ready to be sent, as far as the signer and the database go.
  pub record IsReady (tx : UnsignedTx) (fee : ℕ) (signed : Signed) (s : Store) : Type 0 where
    pub is_verified :
        verify_signed_tx K.codec signed.raw
          (record tx { max_fee_per_gas = fee })
          (K.codec.lower K.signer_address)
        ≡ given signed.tx_hash
    pub is_stored :
        Memᴰ (row_signed K w step id (record tx { max_fee_per_gas = fee }) signed) s.ledger.attempts

  abbrev pub at_fee : UnsignedTx → ℕ → UnsignedTx
  at_fee tx fee = record tx { max_fee_per_gas = fee }

  not_halted_now :
      (s : Store)
      → is_halted_now K w step id s ≡ false
      → desk_halted_reason K.codec.lower s.ledger.desks step.lane_address step.risk_class ≡ none
  unfolding is_halted_now
  not_halted_now s h =
      elim (Option-cases
        (desk_halted_reason K.codec.lower s.ledger.desks step.lane_address step.risk_class)) [
          | inl e ↦ e
          | inr (reason, e) ↦ absurd (ground arith)
        ]

  pub logged-IsLawful :
      (tx : UnsignedTx) (turn fee : ℕ) (signed : Signed) (s : Store)
      → IsReady tx fee signed s
      → is_halted_now K w step id s ≡ false
      → leb_ℤ step.meta.deadline (floor_div (w.now_ms turn) 1000 +ℤ K.margin_sec) ≡ false
      → All (IsLawful tx) s.sends
      → All (IsLawful tx) (logged K w step id turn signed s).sends
  unfolding logged
  logged-IsLawful tx turn fee signed s ready h late rest = (
    record {
      not_halted = not_halted_now s h;
      in_time = ground arith;
      fee = fee;
      verified = verify_signed_tx-IsSigned K.codec signed.raw _ _ signed.tx_hash ready.is_verified;
      stored = ready.is_stored;
    },
    rest,
  )

  -- What a re-signature gives is ready, and it sends nothing.
  abbrev pub Signs : UnsignedTx → Store → Answer Signed × Store → ℕ → Type 0
  Signs tx s (given signed, after) fee = IsReady tx fee signed after × (after.sends ≡ s.sends)
  Signs tx s (thrown code, after) fee = after.sends ≡ s.sends

  record_in-attempts :
      (db after : Ledger) (a : TxAttempt) (e : Execution)
      → record_in db a e ≡ given after
      → after.attempts ≡ db.attempts ++ a ∷ []
  unfolding record_in
  record_in-attempts db after a e h = ground arith

  record_signed_attempt-stored :
      (db after : Ledger) (a : TxAttempt)
      → record_signed_attempt db a ≡ given after
      → Memᴰ a after.attempts
  unfolding record_signed_attempt
  record_signed_attempt-stored db after a h =
      elim (Option-cases (get_execution a.execution_id db.executions)) [
        | inl e ↦ absurd (ground arith)
        | inr (row, e) ↦
            subst (Memᴰ a) (sym (record_in-attempts db after a row (ground arith)))
              (Memᴰ.append_right db.attempts (Memᴰ.head refl))
      ]

  persisted-Signs :
      (tx : UnsignedTx) (fee : ℕ) (signed : Signed) (s : Store) (r : Answer Ledger)
      → verify_signed_tx K.codec signed.raw (at_fee tx fee) (K.codec.lower K.signer_address)
        ≡ given signed.tx_hash
      → record_signed_attempt s.ledger (row_signed K w step id (at_fee tx fee) signed) ≡ r
      → Signs tx s (persisted K w step id (at_fee tx fee) signed r s) fee
  unfolding persisted
  persisted-Signs tx fee signed s (thrown code) verified e = refl
  persisted-Signs tx fee signed s (given db) verified e = (
    record { is_verified = verified; is_stored = record_signed_attempt-stored s.ledger db _ e },
    refl,
  )

  persist_signed-Signs :
      (tx : UnsignedTx) (fee : ℕ) (signed : Signed) (s : Store)
      → verify_signed_tx K.codec signed.raw (at_fee tx fee) (K.codec.lower K.signer_address)
        ≡ given signed.tx_hash
      → Signs tx s (persist_signed K w step id (at_fee tx fee) signed s) fee
  unfolding persist_signed
  persist_signed-Signs tx fee signed s verified = persisted-Signs tx fee signed s _ verified refl

  pub sign_verify_persist-Signs :
      (turn : ℕ) (tx : UnsignedTx) (fee : ℕ) (s : Store)
      → Signs tx s (sign_verify_persist K w step id turn (at_fee tx fee) s) fee
  unfolding ◌>>=◌ sign_verify_persist
  sign_verify_persist-Signs turn tx fee s =
      elim (Answer-cases (sign_with_retry (w.sign turn (at_fee tx fee)))) [
        | inl (code, e) ↦ rw e refl
        | inr (raw, e) ↦
            elim (Answer-cases
              (verify_signed_tx K.codec raw (at_fee tx fee) (K.codec.lower K.signer_address))) [
                | inl (code, v) ↦ rw (e, v) refl
                | inr (hash, v) ↦
                    rw (e, v, Signs)
                      (persist_signed-Signs tx fee (record { raw = raw; tx_hash = hash }) s v)
              ]
      ]

  -- The same of a re-signature, at some fee.
  abbrev pub Resigns : UnsignedTx → Store → Answer (UnsignedTx × Signed) × Store → Type 0
  Resigns tx s (given (raised, signed), after) =
      (fee : ℕ) × (raised ≡ at_fee tx fee) × IsReady tx fee signed after × (after.sends ≡ s.sends)
  Resigns tx s (thrown code, after) = after.sends ≡ s.sends

  with_fee :
      (tx : UnsignedTx) (fee : ℕ) (s : Store) (r : Answer Signed × Store)
      → Signs tx s r fee
      → Resigns tx s (elim r.0 as (λ _. Answer (UnsignedTx × Signed) × Store) [
        | given again ↦ (given (at_fee tx fee, again), r.1)
        | thrown code ↦ (thrown code, r.1)
      ])
  with_fee tx fee s (given again, after) (ready, e) = (fee, refl, ready, e)
  with_fee tx fee s (thrown code, after) e = e

  pub resign-Resigns :
      (turn : ℕ) (tx : UnsignedTx) (fee : ℕ) (signed : Signed) (s : Store)
      → Resigns tx s (resign K w step id turn (at_fee tx fee) signed s)
  unfolding ◌>>=◌ resign
  resign-Resigns turn tx fee signed s = elim (Answer-cases (w.base_fee turn)) [
    | inl (code, e) ↦ rw (e, Resigns) refl
    | inr (base, e) ↦ elim (Answer-cases (or_throw (bump K.fees base fee))) [
      | inl (code, q) ↦ rw (e, q, Resigns) refl
      | inr (quote, q) ↦
          rw (e, q)
            (with_fee tx quote.max_fee_per_gas s _
              (sign_verify_persist-Signs (suc turn) tx quote.max_fee_per_gas _))
    ]
  ]
