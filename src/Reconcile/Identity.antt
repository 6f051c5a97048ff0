-- ===== src/Reconcile/Identity.antt =====
-- agent/src/reconcile/startup.ts, `resolve`: the identities of executions.
use Prim.Native.String.{String}
use deltadesk.Prelude.{
  ℕ, ◌≡◌, refl, subst, inl, inr, Bool, true, false, not, ◌&&◌, ◌||◌, Option, none, some, List, [],
  ◌∷◌, map, any, ltb, ◌==◌, arith, Bool-cases,
}
use deltadesk.Prelude.Int.{ℤ, leb_ℤ}
use deltadesk.Prelude.Result.{ok, ◌>>=◌, >>=-eq_ok}
use deltadesk.Reconcile.{
  AttemptStatus, ExecutionStatus, TxAttempt, Execution, Ledger, ChainClient, Broadcaster, Outcome,
  is_final, is_sibling, in_execution, record_receipt, drop, mark_broadcast, mark, landed_sibling,
  safe_mode_of, nonce_used, may_send, unmined, at_count, without_receipt, at_receipt, resolve,
}

-- What tells an execution from the others.
pub record Identity : Type 0 where
  pub execution_id : ℕ
  pub decision_id : List ℕ
  pub step_index : ℕ
  pub onchain_id : List ℕ

abbrev pub identity_of : Execution → Identity
identity_of e = record {
  execution_id = e.execution_id;
  decision_id = e.decision_id;
  step_index = e.step_index;
  onchain_id = e.onchain_id;
}

unfoldable pub identities : Ledger → List Identity
identities db = map identity_of db.executions

pub map-identities :
    (f : Execution → Execution) (rows : List Execution)
    → ((e : Execution) → identity_of (f e) ≡ identity_of e)
    → map identity_of (map f rows) ≡ map identity_of rows
map-identities f [] h = refl
map-identities f (e ∷ rest) h = rw (h e, map-identities f rest h) refl

pub in_execution-identity :
    (id : ℕ) (s : ExecutionStatus) (e : Execution)
    → identity_of (in_execution id s e) ≡ identity_of e
in_execution-identity id s e = elim (Bool-cases (e.execution_id == id)) [
  | inl h ↦ rw h refl
  | inr h ↦ rw h refl
]

pub in_execution-identities :
    (id : ℕ) (s : ExecutionStatus) (rows : List Execution)
    → map identity_of (map (in_execution id s) rows) ≡ map identity_of rows
in_execution-identities id s rows = map-identities _ rows (in_execution-identity id s)

pub record_receipt-identities :
    (db : Ledger) (a : TxAttempt) (success : Bool)
    → identities (record_receipt db a success) ≡ identities db
unfolding identities record_receipt
record_receipt-identities db a success = in_execution-identities _ _ db.executions

drop-identities : (db : Ledger) (a : TxAttempt) → identities (drop db a) ≡ identities db
unfolding identities drop
drop-identities db a =
    elim (Bool-cases (
      any (λ s. is_sibling a s && not (is_final s.status))
        (map (mark a.tx_hash AttemptStatus.dropped) db.attempts))) [
          | inl h ↦ rw h refl
          | inr h ↦ rw h (in_execution-identities _ _ db.executions)
        ]

broadcast-identity :
    (id : ℕ) (s : ExecutionStatus) (e : Execution)
    → identity_of (elim s as (λ _. Execution) [
      | ExecutionStatus.signed ↦ in_execution id ExecutionStatus.broadcast e
      | ExecutionStatus.unknown ↦ in_execution id ExecutionStatus.broadcast e
      | _ ↦ e
    ])
      ≡ identity_of e
broadcast-identity id ExecutionStatus.signed e = in_execution-identity id _ e
broadcast-identity id ExecutionStatus.unknown e = in_execution-identity id _ e
broadcast-identity id ExecutionStatus.prepared e = refl
broadcast-identity id ExecutionStatus.simulated e = refl
broadcast-identity id ExecutionStatus.broadcast e = refl
broadcast-identity id ExecutionStatus.confirmed e = refl
broadcast-identity id ExecutionStatus.reverted e = refl
broadcast-identity id ExecutionStatus.failed e = refl
broadcast-identity id ExecutionStatus.declined e = refl
broadcast-identity id ExecutionStatus.dropped e = refl

pub mark_broadcast-identities :
    (db : Ledger) (a : TxAttempt) → identities (mark_broadcast db a) ≡ identities db
unfolding identities mark_broadcast
mark_broadcast-identities db a =
    map-identities _ db.executions (λ e. broadcast-identity a.execution_id e.status e)

module _ (lower : String → String) (chain : ChainClient) (out : Broadcaster) (db : Ledger)
    (attempt : TxAttempt) (now_sec : ℤ) where
  abbrev Kept : Ledger → Type 0
  Kept after = identities after ≡ identities db

  safe_mode_of-Kept :
      (after : Ledger) (e : Option Execution)
      → Kept after
      → Kept (safe_mode_of lower chain out after e)
  unfolding safe_mode_of identities
  safe_mode_of-Kept after none h = h
  safe_mode_of-Kept after (some e) h = h

  nonce_used-Kept :
      (s : Option (TxAttempt × Bool)) → Kept (nonce_used lower chain out db attempt s).ledger
  unfolding nonce_used
  nonce_used-Kept none = safe_mode_of-Kept (drop db attempt) _ (drop-identities db attempt)
  nonce_used-Kept (some (s, success)) = unfold identities in record_receipt-identities db s success

  unmined-Kept : (latest : ℕ) → Kept (unmined lower chain out db attempt now_sec latest).ledger
  unfolding unmined
  unmined-Kept latest = elim (Bool-cases (leb_ℤ attempt.deadline_sec now_sec)) [
    | inl e ↦ rw e (drop-identities db attempt)
    | inr e ↦
        elim (Bool-cases (ltb latest attempt.nonce || not (may_send lower chain out db attempt))) [
          | inl f ↦ rw (e, f) refl
          | inr f ↦ rw (e, f) (mark_broadcast-identities db attempt)
        ]
  ]

  at_count-Kept :
      (latest : ℕ) (o : Outcome)
      → at_count lower chain out db attempt now_sec latest ≡ ok o
      → Kept o.ledger
  unfolding at_count
  at_count-Kept latest o e = elim (Bool-cases (ltb attempt.nonce latest)) [
    | inl used ↦
        let looked : (landed_sibling chain attempt db.attempts >>= λ s.
        ok (nonce_used lower chain out db attempt s))
            ≡ ok o =
          ground arith in
        let (s, found, same) = >>=-eq_ok (landed_sibling chain attempt db.attempts) _ looked in
        let same_o : nonce_used lower chain out db attempt s ≡ o = ground arith in
        subst (λ (x : Outcome). Kept x.ledger) same_o (nonce_used-Kept s)
    | inr free ↦
        let same : unmined lower chain out db attempt now_sec latest ≡ o = ground arith in
        subst (λ (x : Outcome). Kept x.ledger) same (unmined-Kept latest)
  ]

  without_receipt-Kept :
      (pooled : Bool) (o : Outcome)
      → without_receipt lower chain out db attempt now_sec pooled ≡ ok o
      → Kept o.ledger
  unfolding without_receipt
  without_receipt-Kept true o e = subst Kept (ground arith) refl
  without_receipt-Kept false o e =
      let (latest, f, rest) = >>=-eq_ok (chain.latest_count attempt.from_address) _ e in
      at_count-Kept latest o rest

  at_receipt-Kept :
      (r : Option Bool) (o : Outcome)
      → at_receipt lower chain out db attempt now_sec r ≡ ok o
      → Kept o.ledger
  unfolding at_receipt
  at_receipt-Kept none o e =
      let (pooled, f, rest) = >>=-eq_ok (chain.has_transaction attempt.tx_hash) _ e in
      without_receipt-Kept pooled o rest
  at_receipt-Kept (some success) o e =
      let same : record_receipt db attempt success ≡ o.ledger = ground arith in
      subst Kept same (record_receipt-identities db attempt success)

  -- Resolving an attempt leaves the ids, decisions and steps of all executions as they are.
  pub resolve-identities :
      (o : Outcome)
      → resolve lower chain out db attempt now_sec ≡ ok o
      → identities o.ledger ≡ identities db
  unfolding resolve
  resolve-identities o e = elim (Bool-cases (is_final attempt.status)) [
    | inl f ↦ let same : db ≡ o.ledger = ground arith in subst Kept same refl
    | inr f ↦
        let asked : (chain.receipt attempt.tx_hash >>= λ r.
        at_receipt lower chain out db attempt now_sec r)
            ≡ ok o =
          ground arith in
        let (r, g, rest) = >>=-eq_ok (chain.receipt attempt.tx_hash) _ asked in
        at_receipt-Kept r o rest
  ]
