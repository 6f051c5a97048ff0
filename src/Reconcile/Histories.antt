-- ===== src/Reconcile/Histories.antt =====
-- agent/src/reconcile/startup.ts, `resolve`: what the resolution of one attempt does to the rows of all.
use Prim.Native.String.{String}
use deltadesk.Prelude.{
  ℕ, ◌≡◌, ap, sym, subst, ◌∙◌, inl, inr, Bool, true, false, not, ◌||◌, Option, none, some, List, [],
  ◌∷◌, All, ltb, arith, Bool-cases,
}
use deltadesk.Prelude.Int.{ℤ, leb_ℤ}
use deltadesk.Prelude.Result.{ok, ◌>>=◌, >>=-eq_ok}
use deltadesk.Reconcile.{
  AttemptStatus, TxAttempt, Execution, Ledger, ChainClient, Broadcaster, Outcome, is_final,
  status_of_receipt, settle_row, record_receipt, drop, get_execution, count_broadcast,
  mark_broadcast, landed_sibling, safe_mode_of, nonce_used, may_send, unmined, at_count,
  without_receipt, at_receipt, resolve, mark,
}
use deltadesk.Reconcile.Finality.{
  lapses, Rows, IsCurrent, Rows-map, map-map, Rows-same, mark-RowMoves, settle_row-RowMoves,
  count_broadcast-RowMoves, replaced-RowMoves,
}

module _ (lower : String → String) (chain : ChainClient) (out : Broadcaster) (db : Ledger)
    (attempt : TxAttempt) (now_sec : ℤ) where
  -- The rows of an outcome come from those of the ledger by allowed moves.
  Follows : Ledger → Type 0
  Follows after = Rows db.attempts after.attempts

  record_receipt-Follows : (s : TxAttempt) (success : Bool) → Follows (record_receipt db s success)
  unfolding Follows record_receipt
  record_receipt-Follows s success =
      Rows-map (settle_row s (status_of_receipt success)) (λ a. Unit) db.attempts
        (λ a u. settle_row-RowMoves s a success) (all_unit db.attempts)
    where
      all_unit : (rows : List TxAttempt) → All (λ a. Unit {0}) rows
      all_unit [] = tt
      all_unit (a ∷ rest) = (tt, all_unit rest)

  module _ (open_attempt : is_final attempt.status ≡ false)
      (current : All (IsCurrent attempt) db.attempts) where
    drop-Follows : Follows (drop db attempt)
    unfolding Follows drop IsCurrent
    drop-Follows =
        Rows-map (mark attempt.tx_hash AttemptStatus.dropped) (IsCurrent attempt) db.attempts
          (λ a q.
            mark-RowMoves attempt.tx_hash AttemptStatus.dropped a
              (λ e. lapses (ap is_final (q e) ∙ open_attempt)))
          current

    safe_mode_of-Follows :
        (after : Ledger) (e : Option Execution)
        → Follows after
        → Follows (safe_mode_of lower chain out after e)
    unfolding Follows safe_mode_of
    safe_mode_of-Follows after none h = h
    safe_mode_of-Follows after (some e) h = h

    nonce_used-Follows :
        (s : Option (TxAttempt × Bool)) → Follows (nonce_used lower chain out db attempt s).ledger
    unfolding nonce_used record_receipt Follows
    nonce_used-Follows none =
        unfold Follows in
        safe_mode_of-Follows (drop db attempt) (get_execution attempt.execution_id db.executions)
          drop-Follows
    nonce_used-Follows (some (s, success)) =
        let f = settle_row s (status_of_receipt success) in
        let g = mark attempt.tx_hash AttemptStatus.replaced in
        subst (Rows db.attempts) (sym (map-map f g db.attempts)) (
          Rows-map (λ a. g (f a)) (IsCurrent attempt) db.attempts
            (λ a q. replaced-RowMoves attempt s a success open_attempt q) current)

    mark_broadcast-Follows : Follows (mark_broadcast db attempt)
    unfolding Follows mark_broadcast
    mark_broadcast-Follows =
        Rows-map (count_broadcast attempt.tx_hash) (IsCurrent attempt) db.attempts
          (λ a q. count_broadcast-RowMoves attempt.tx_hash a) current

    same-Follows : Follows db
    unfolding Follows
    same-Follows = Rows-same db.attempts

    unmined-Follows :
        (latest : ℕ) → Follows (unmined lower chain out db attempt now_sec latest).ledger
    unfolding unmined
    unmined-Follows latest = elim (Bool-cases (leb_ℤ attempt.deadline_sec now_sec)) [
      | inl e ↦ rw e drop-Follows
      | inr e ↦
          elim (Bool-cases
            (ltb latest attempt.nonce || not (may_send lower chain out db attempt))) [
              | inl f ↦ rw (e, f) same-Follows
              | inr f ↦ rw (e, f) mark_broadcast-Follows
            ]
    ]

    at_count-Follows :
        (latest : ℕ) (o : Outcome)
        → at_count lower chain out db attempt now_sec latest ≡ ok o
        → Follows o.ledger
    unfolding at_count
    at_count-Follows latest o e = elim (Bool-cases (ltb attempt.nonce latest)) [
      | inl used ↦
          let looked : (landed_sibling chain attempt db.attempts >>= λ s.
          ok (nonce_used lower chain out db attempt s))
              ≡ ok o =
            ground arith in
          let (s, found, same) = >>=-eq_ok (landed_sibling chain attempt db.attempts) _ looked in
          let same_o : nonce_used lower chain out db attempt s ≡ o = ground arith in
          subst (λ x. Follows x.ledger) same_o (nonce_used-Follows s)
      | inr free ↦
          let same : unmined lower chain out db attempt now_sec latest ≡ o = ground arith in
          subst (λ x. Follows x.ledger) same (unmined-Follows latest)
    ]

    without_receipt-Follows :
        (pooled : Bool) (o : Outcome)
        → without_receipt lower chain out db attempt now_sec pooled ≡ ok o
        → Follows o.ledger
    unfolding without_receipt
    without_receipt-Follows true o e = subst Follows (ground arith) same-Follows
    without_receipt-Follows false o e =
        let (latest, f, rest) = >>=-eq_ok (chain.latest_count attempt.from_address) _ e in
        at_count-Follows latest o rest

    at_receipt-Follows :
        (r : Option Bool) (o : Outcome)
        → at_receipt lower chain out db attempt now_sec r ≡ ok o
        → Follows o.ledger
    unfolding at_receipt
    at_receipt-Follows none o e =
        let (pooled, f, rest) = >>=-eq_ok (chain.has_transaction attempt.tx_hash) _ e in
        without_receipt-Follows pooled o rest
    at_receipt-Follows (some success) o e =
        let same : record_receipt db attempt success ≡ o.ledger = ground arith in
        subst Follows same (record_receipt-Follows attempt success)

  -- Resolving an attempt that is as the ledger has it changes every row only as allowed: its bytes,
  -- hash and nonce stay, its broadcasts are not fewer, and a final status changes to nothing but that of a receipt.
  pub resolve-Rows :
      (o : Outcome)
      → All (IsCurrent attempt) db.attempts
      → resolve lower chain out db attempt now_sec ≡ ok o
      → Rows db.attempts o.ledger.attempts
  unfolding resolve
  resolve-Rows o current e = elim (Bool-cases (is_final attempt.status)) [
    | inl f ↦
        let same : db ≡ o.ledger = ground arith in
        subst (λ x. Rows db.attempts x.attempts) same (Rows-same db.attempts)
    | inr f ↦
        let asked : (chain.receipt attempt.tx_hash >>= λ r.
        at_receipt lower chain out db attempt now_sec r)
            ≡ ok o =
          ground arith in
        let (r, g, rest) = >>=-eq_ok (chain.receipt attempt.tx_hash) _ asked in
        unfold Follows in at_receipt-Follows f current r o rest
  ]
