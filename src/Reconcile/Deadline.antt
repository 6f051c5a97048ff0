-- ===== src/Reconcile/Deadline.antt =====
-- agent/src/reconcile/startup.ts, `resolve`: an open attempt that the chain does not know does not outlive its
-- deadline.
use Prim.Native.String.{String}
use text.Mathlib.Text.{◌==◌ as str_eq}
use deltadesk.Prelude.{
  ℕ, ◌≡◌, refl, ◌⊎◌, inl, inr, true, false, ◌&&◌, Option, none, some, List, [], ◌∷◌, map, All, ltb,
  ◌==◌, arith, Bool-cases,
}
use deltadesk.Prelude.Int.{ℤ, leb_ℤ, ◌≤ℤ◌}
use deltadesk.Prelude.Result.{ok}
use deltadesk.Reconcile.{
  AttemptStatus, AttemptResolution, conflict, TxAttempt, Execution, Ledger, ChainClient,
  Broadcaster, Outcome, is_final, drop, get_execution, landed_sibling, safe_mode_of, nonce_used,
  unmined, at_count, without_receipt, at_receipt, resolve, is_sibling, mark,
}

-- Every row of the hash is dropped.
unfoldable pub IsDropped : String → TxAttempt → Type 0
IsDropped hash a = str_eq a.tx_hash hash ≡ true → a.status ≡ AttemptStatus.dropped

mark-IsDropped :
    (hash : String) (a : TxAttempt) → IsDropped hash (mark hash AttemptStatus.dropped a)
unfolding IsDropped mark
mark-IsDropped hash a = elim (Bool-cases (str_eq a.tx_hash hash)) [
  | inl e ↦ rw e (λ h. refl)
  | inr e ↦ rw e (λ h. absurd (ground arith))
]

map-mark-IsDropped :
    (hash : String) (rows : List TxAttempt)
    → All (IsDropped hash) (map (mark hash AttemptStatus.dropped) rows)
map-mark-IsDropped hash [] = tt
map-mark-IsDropped hash (a ∷ rest) = (mark-IsDropped hash a, map-mark-IsDropped hash rest)

module _ (lower : String → String) (chain : ChainClient) (out : Broadcaster) (db : Ledger)
    (attempt : TxAttempt) (now_sec : ℤ) where
  -- The chain answers, and knows no receipt and not the attempt.
  pub record IsUnknown (latest : ℕ) : Type 0 where
    pub no_receipt : (hash : String) → chain.receipt hash ≡ ok none
    pub not_pooled : chain.has_transaction attempt.tx_hash ≡ ok false
    pub count : chain.latest_count attempt.from_address ≡ ok latest

  -- An attempt that is given up, as a conflict of nonces or past its deadline.
  IsGivenUp : Outcome → Type 0
  IsGivenUp o =
      ((o.resolution ≡ conflict) ⊎ (o.resolution ≡ AttemptResolution.dropped))
      × All (IsDropped attempt.tx_hash) o.ledger.attempts

  landed_sibling-none :
      (rows : List TxAttempt)
      → ((hash : String) → chain.receipt hash ≡ ok none)
      → landed_sibling chain attempt rows ≡ ok none
  unfolding landed_sibling
  landed_sibling-none [] h = refl
  landed_sibling-none (s ∷ ss) h =
      let later = landed_sibling-none ss h in
      elim (Bool-cases (is_sibling attempt s && s.nonce == attempt.nonce)) [
        | inl e ↦ rw (e, h s.tx_hash, later)
        | inr e ↦ rw (e, later)
      ]

  nonce_used-IsGivenUp : IsGivenUp (nonce_used lower chain out db attempt none)
  unfolding IsGivenUp nonce_used
  nonce_used-IsGivenUp = (inl refl, safe (get_execution attempt.execution_id db.executions))
    where
      safe :
          (e : Option Execution)
          → All
              (IsDropped attempt.tx_hash)
              (safe_mode_of lower chain out (drop db attempt) e).attempts
      safe none = map-mark-IsDropped attempt.tx_hash db.attempts
      safe (some e) = map-mark-IsDropped attempt.tx_hash db.attempts

  unmined-IsGivenUp :
      (latest : ℕ)
      → attempt.deadline_sec ≤ℤ now_sec
      → IsGivenUp (unmined lower chain out db attempt now_sec latest)
  unfolding IsGivenUp unmined drop
  unmined-IsGivenUp latest late =
      let passed : leb_ℤ attempt.deadline_sec now_sec ≡ true = ground arith in
      rw passed (inr refl, map-mark-IsDropped attempt.tx_hash db.attempts)

  at_count-IsGivenUp :
      (latest : ℕ)
      → ((hash : String) → chain.receipt hash ≡ ok none)
      → attempt.deadline_sec ≤ℤ now_sec
      → (o : Outcome) × (at_count lower chain out db attempt now_sec latest ≡ ok o) × IsGivenUp o
  unfolding at_count
  at_count-IsGivenUp latest none_landed late = elim (Bool-cases (ltb attempt.nonce latest)) [
    | inl e ↦ (
      nonce_used lower chain out db attempt none,
      rw (e, landed_sibling-none db.attempts none_landed),
      nonce_used-IsGivenUp,
    )
    | inr e ↦
        (unmined lower chain out db attempt now_sec latest, rw e, unmined-IsGivenUp latest late)
  ]

  -- From the deadline of an open attempt on, if the chain answers that it has no receipt and does not know the attempt,
  -- resolving it returns a result: the attempt is given up, for a conflict of nonces or for the deadline,
  -- and every row of its hash is dropped.
  pub resolve-IsDropped :
      (latest : ℕ)
      → is_final attempt.status ≡ false
      → IsUnknown latest
      → attempt.deadline_sec ≤ℤ now_sec
      → (o : Outcome) × (resolve lower chain out db attempt now_sec ≡ ok o)
        × ((o.resolution ≡ conflict) ⊎ (o.resolution ≡ AttemptResolution.dropped))
        × All (IsDropped attempt.tx_hash) o.ledger.attempts
  unfolding resolve at_receipt without_receipt IsGivenUp
  resolve-IsDropped latest is_open silent late =
      let (o, e, (why, rows)) = at_count-IsGivenUp latest silent.no_receipt late in
      (
        o,
        rw (is_open, silent.no_receipt attempt.tx_hash, silent.not_pooled, silent.count) e,
        why,
        rows,
      )
