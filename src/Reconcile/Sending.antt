-- ===== src/Reconcile/Sending.antt =====
-- agent/src/reconcile/startup.ts: when the stored bytes of an attempt are sent again, and what becomes
-- of an attempt that the chain does not know.
use Prim.Native.String.{String}
use text.Mathlib.Text.{◌==◌ as str_eq}
use deltadesk.Prelude.{
  ℕ, ◌≤◌, ◌<◌, ◌≡◌, refl, ap, subst, ◌∙◌, inl, inr, Bool, true, false, Option, none, some, ltb,
  arith, Bool-cases, Option-cases,
}
use deltadesk.Prelude.Int.{ℤ, ◌<ℤ◌}
use deltadesk.Prelude.Result.{ok, ◌>>=◌, >>=-eq_ok}
use deltadesk.Executor.DeskStatus.{desk_halted_reason}
use deltadesk.Reconcile.{
  AttemptStatus, rebroadcast, TxAttempt, Execution, Ledger, ChainClient, Broadcaster, Outcome,
  is_final, resolution_of, status_of_receipt, get_execution, landed_sibling, nonce_used, is_halted,
  may_send, unmined, at_count, without_receipt, at_receipt, resolve,
}

resolution_of-sends : (s : AttemptStatus) → resolution_of s ≡ rebroadcast → ⊥
unfolding resolution_of
resolution_of-sends AttemptStatus.signed h = ground arith
resolution_of-sends AttemptStatus.broadcast h = ground arith
resolution_of-sends AttemptStatus.confirmed h = ground arith
resolution_of-sends AttemptStatus.reverted h = ground arith
resolution_of-sends AttemptStatus.dropped h = ground arith
resolution_of-sends AttemptStatus.replaced h = ground arith
resolution_of-sends AttemptStatus.unknown h = ground arith

module _ (lower : String → String) (chain : ChainClient) (out : Broadcaster) (db : Ledger)
    (attempt : TxAttempt) (now_sec : ℤ) where
  -- What must hold for stored bytes to be sent again.
  pub record IsSendable : Type 0 where
    pub is_open : is_final attempt.status ≡ false
    pub not_mined : chain.receipt attempt.tx_hash ≡ ok none
    pub not_pooled : chain.has_transaction attempt.tx_hash ≡ ok false
    pub nonce_is_next : chain.latest_count attempt.from_address ≡ ok attempt.nonce
    pub before_deadline : now_sec <ℤ attempt.deadline_sec
    pub execution : Execution
    pub is_its_execution : get_execution attempt.execution_id db.executions ≡ some execution
    pub not_halted :
        desk_halted_reason lower db.desks execution.lane_address execution.risk_class ≡ none
    pub within_bound : attempt.broadcast_count < out.max_broadcasts
    pub bytes_match :
        str_eq (lower (out.hash_of attempt.signed_raw_tx)) (lower attempt.tx_hash) ≡ true

  -- What is sent is the last branch.
  unmined-rebroadcast :
      (latest : ℕ)
      → (unmined lower chain out db attempt now_sec latest).resolution ≡ rebroadcast
      → (now_sec <ℤ attempt.deadline_sec)
        × (attempt.nonce ≤ latest)
        × (may_send lower chain out db attempt ≡ true)
  unfolding unmined
  unmined-rebroadcast latest h = (ground arith, ground arith, ground arith)

  nonce_used-sends :
      (s : Option (TxAttempt × Bool))
      → (nonce_used lower chain out db attempt s).resolution ≡ rebroadcast
      → ⊥
  unfolding nonce_used
  nonce_used-sends none h = ground arith
  nonce_used-sends (some (s, success)) h = ground arith

  at_count-rebroadcast :
      (latest : ℕ) (o : Outcome)
      → at_count lower chain out db attempt now_sec latest ≡ ok o
      → o.resolution ≡ rebroadcast
      → (latest ≡ attempt.nonce)
        × (now_sec <ℤ attempt.deadline_sec)
        × (may_send lower chain out db attempt ≡ true)
  unfolding at_count
  at_count-rebroadcast latest o e h = elim (Bool-cases (ltb attempt.nonce latest)) [
    | inl used ↦
        let looked : (landed_sibling chain attempt db.attempts >>= λ s.
        ok (nonce_used lower chain out db attempt s))
            ≡ ok o =
          ground arith in
        let (s, found, same) = >>=-eq_ok (landed_sibling chain attempt db.attempts) _ looked in
        let same_o : nonce_used lower chain out db attempt s ≡ o = ground arith in
        absurd (nonce_used-sends s (ap (λ x. x.resolution) same_o ∙ h))
    | inr free ↦
        let same : unmined lower chain out db attempt now_sec latest ≡ o = ground arith in
        let (early, low, send) = unmined-rebroadcast latest (ap (λ x. x.resolution) same ∙ h) in
        (ground arith, early, send)
  ]

  may_send-execution :
      may_send lower chain out db attempt ≡ true
      → (e : Execution) × (get_execution attempt.execution_id db.executions ≡ some e)
        × (desk_halted_reason lower db.desks e.lane_address e.risk_class ≡ none)
  unfolding may_send is_halted
  may_send-execution h = elim (Option-cases (get_execution attempt.execution_id db.executions)) [
    | inl f ↦ absurd (ground arith)
    | inr (e, f) ↦
        elim (Option-cases (desk_halted_reason lower db.desks e.lane_address e.risk_class)) [
          | inl g ↦ (e, f, g)
          | inr (r, g) ↦ absurd (ground arith)
        ]
  ]

  may_send-bounds :
      may_send lower chain out db attempt ≡ true
      → (attempt.broadcast_count < out.max_broadcasts)
        × (str_eq (lower (out.hash_of attempt.signed_raw_tx)) (lower attempt.tx_hash) ≡ true)
  unfolding may_send
  may_send-bounds h = (ground arith, ground arith)

  at_receipt-rebroadcast :
      (r : Option Bool) (o : Outcome)
      → at_receipt lower chain out db attempt now_sec r ≡ ok o
      → o.resolution ≡ rebroadcast
      → (r ≡ none)
        × (chain.has_transaction attempt.tx_hash ≡ ok false)
        × (latest : ℕ) × (chain.latest_count attempt.from_address ≡ ok latest)
        × (at_count lower chain out db attempt now_sec latest ≡ ok o)
  unfolding at_receipt without_receipt resolution_of status_of_receipt
  at_receipt-rebroadcast (some true) o e h = absurd (ground arith)
  at_receipt-rebroadcast (some false) o e h = absurd (ground arith)
  at_receipt-rebroadcast none o e h =
      let (pooled, f, rest) = >>=-eq_ok (chain.has_transaction attempt.tx_hash) _ e in
      elim (Bool-cases pooled) [
        | inl t ↦ absurd (ground arith)
        | inr t ↦
            let asked : (chain.latest_count attempt.from_address >>= λ n.
            at_count lower chain out db attempt now_sec n)
                ≡ ok o =
              subst (λ b. without_receipt lower chain out db attempt now_sec b ≡ ok o) t rest in
            let (latest, g, last) = >>=-eq_ok (chain.latest_count attempt.from_address) _ asked in
            (refl, f ∙ ap ok t, latest, g, last)
      ]

  -- Stored bytes are sent again only for an open attempt that the chain has neither mined nor pooled, whose nonce is
  -- the next one, before its deadline, within the bound on broadcasts, whose bytes hash to it, and whose
  -- desk may send its execution: never for a halted desk that it adds risk to.
  pub resolve-IsSendable :
      (o : Outcome)
      → resolve lower chain out db attempt now_sec ≡ ok o
      → o.resolution ≡ rebroadcast
      → IsSendable
  resolve-IsSendable o e h = elim (Bool-cases (is_final attempt.status)) [
    | inl f ↦
        let same : ok (record { resolution = resolution_of attempt.status; ledger = db }) ≡ ok o =
          unfold resolve in ground arith in
        absurd (resolution_of-sends attempt.status (ground arith))
    | inr f ↦
        let asked : (chain.receipt attempt.tx_hash >>= λ r.
        at_receipt lower chain out db attempt now_sec r)
            ≡ ok o =
          unfold resolve in ground arith in
        let (r, g, rest) = >>=-eq_ok (chain.receipt attempt.tx_hash) _ asked in
        let (no_receipt, not_pooled, latest, count, last) = at_receipt-rebroadcast r o rest h in
        let (same, early, send) = at_count-rebroadcast latest o last h in
        let (ex, row, free) = may_send-execution send in
        let (bound, bytes) = may_send-bounds send in
        record {
          is_open = f;
          not_mined = g ∙ ap ok no_receipt;
          not_pooled = not_pooled;
          nonce_is_next = count ∙ ap ok same;
          before_deadline = early;
          execution = ex;
          is_its_execution = row;
          not_halted = free;
          within_bound = bound;
          bytes_match = bytes;
        }
  ]
