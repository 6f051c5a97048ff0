-- ===== src/Reconcile/Finality.antt =====
-- agent/src/reconcile/startup.ts: how the rows of attempts may change when one of them is resolved, and
-- that an attempt the chain does not know is settled by its deadline.
use Prim.Native.String.{String}
use text.Mathlib.Text.{◌==◌ as str_eq}
use deltadesk.Prelude.{
  ◌≤◌, ◌≡◌, refl, ap, subst, ◌∙◌, inl, inr, Bool, true, false, not, ◌&&◌, List, [], ◌∷◌, map, All,
  ◌==◌, arith, Bool-cases,
}
use deltadesk.Reconcile.{
  AttemptStatus, TxAttempt, is_final, status_of_receipt, settle_row, count_broadcast, is_sibling,
  mark,
}

-- How the status of an attempt may change: a receipt settles it, whatever it was; else only an open attempt
-- is replaced or dropped, and one that is not known to be sent becomes broadcast.
pub data Moves : AttemptStatus → AttemptStatus → Type 0 where
  stays : {s : AttemptStatus} → Moves s s
  lands : {s : AttemptStatus} (success : Bool) → Moves s (status_of_receipt success)
  retires : {s : AttemptStatus} → is_final s ≡ false → Moves s AttemptStatus.replaced
  lapses : {s : AttemptStatus} → is_final s ≡ false → Moves s AttemptStatus.dropped
  sends : Moves AttemptStatus.signed AttemptStatus.broadcast
  sends_unknown : Moves AttemptStatus.unknown AttemptStatus.broadcast

-- The bytes of an attempt, its hash and its nonce never change, and its broadcasts are not fewer.
pub record RowMoves (a b : TxAttempt) : Type 0 where
  pub moves : Moves a.status b.status
  pub same_bytes : b.signed_raw_tx ≡ a.signed_raw_tx
  pub same_hash : b.tx_hash ≡ a.tx_hash
  pub same_nonce : b.nonce ≡ a.nonce
  pub more_broadcasts : a.broadcast_count ≤ b.broadcast_count

unfoldable pub Rows : List TxAttempt → List TxAttempt → Type 0
Rows [] [] = Unit
Rows (a ∷ rest) (b ∷ others) = RowMoves a b × Rows rest others
Rows _ _ = ⊥

-- The rows of an attempt's hash are the attempt as it was read.
unfoldable pub IsCurrent : TxAttempt → TxAttempt → Type 0
IsCurrent attempt a = str_eq a.tx_hash attempt.tx_hash ≡ true → a.status ≡ attempt.status

pub Rows-map :
    (f : TxAttempt → TxAttempt) (Q : TxAttempt → Type 0) (rows : List TxAttempt)
    → ((a : TxAttempt) → Q a → RowMoves a (f a))
    → All Q rows
    → Rows rows (map f rows)
unfolding Rows
Rows-map f Q [] step h = tt
Rows-map f Q (a ∷ rest) step (q, h) = (step a q, Rows-map f Q rest step h)

pub map-map :
    (f g : TxAttempt → TxAttempt) (rows : List TxAttempt)
    → map g (map f rows) ≡ map (λ a. g (f a)) rows
map-map f g [] = refl
map-map f g (a ∷ rest) = ap (λ l. g (f a) ∷ l) (map-map f g rest)

row_stays : (a : TxAttempt) → RowMoves a a
row_stays a = record {
  moves = stays;
  same_bytes = refl;
  same_hash = refl;
  same_nonce = refl;
  more_broadcasts = omega arith;
}

row_takes :
    (a : TxAttempt) (s : AttemptStatus) → Moves a.status s → RowMoves a (record a { status = s })
row_takes a s m = record {
  moves = m;
  same_bytes = refl;
  same_hash = refl;
  same_nonce = refl;
  more_broadcasts = omega arith;
}

pub Rows-same : (rows : List TxAttempt) → Rows rows rows
unfolding Rows
Rows-same [] = tt
Rows-same (a ∷ rest) = (row_stays a, Rows-same rest)

pub mark-RowMoves :
    (hash : String) (s : AttemptStatus) (a : TxAttempt)
    → (str_eq a.tx_hash hash ≡ true → Moves a.status s)
    → RowMoves a (mark hash s a)
unfolding mark
mark-RowMoves hash s a m = elim (Bool-cases (str_eq a.tx_hash hash)) [
  | inl e ↦ rw e (row_takes a s (m e))
  | inr e ↦ rw e (row_stays a)
]

pub settle_row-RowMoves :
    (attempt a : TxAttempt) (success : Bool)
    → RowMoves a (settle_row attempt (status_of_receipt success) a)
unfolding settle_row
settle_row-RowMoves attempt a success =
    elim (Bool-cases
      (is_sibling attempt a && a.nonce == attempt.nonce && not (is_final a.status))) [
        | inl e ↦ rw e (row_takes a AttemptStatus.replaced (retires (ground arith)))
        | inr e ↦
            rw e (mark-RowMoves attempt.tx_hash (status_of_receipt success) a (λ h. lands success))
      ]

broadcast_status :
    (s : AttemptStatus)
    → Moves s (elim s as (λ _. AttemptStatus) [
      | AttemptStatus.signed ↦ AttemptStatus.broadcast
      | AttemptStatus.unknown ↦ AttemptStatus.broadcast
      | t ↦ t
    ])
broadcast_status AttemptStatus.signed = sends
broadcast_status AttemptStatus.unknown = sends_unknown
broadcast_status AttemptStatus.broadcast = stays
broadcast_status AttemptStatus.confirmed = stays
broadcast_status AttemptStatus.reverted = stays
broadcast_status AttemptStatus.dropped = stays
broadcast_status AttemptStatus.replaced = stays

pub count_broadcast-RowMoves : (hash : String) (a : TxAttempt) → RowMoves a (count_broadcast hash a)
unfolding count_broadcast
count_broadcast-RowMoves hash a = elim (Bool-cases (str_eq a.tx_hash hash)) [
  | inl e ↦ rw e (record {
    moves = broadcast_status a.status;
    same_bytes = refl;
    same_hash = refl;
    same_nonce = refl;
    more_broadcasts = omega arith;
  })
  | inr e ↦ rw e (row_stays a)
]

-- A row after a sibling's receipt and the replacement of the attempt.
pub replaced-RowMoves :
    (attempt s a : TxAttempt) (success : Bool)
    → is_final attempt.status ≡ false
    → IsCurrent attempt a
    → RowMoves a
        (mark attempt.tx_hash AttemptStatus.replaced (settle_row s (status_of_receipt success) a))
unfolding mark IsCurrent
replaced-RowMoves attempt s a success f q =
    let settled = settle_row-RowMoves s a success in
    let b = settle_row s (status_of_receipt success) a in
    elim (Bool-cases (str_eq b.tx_hash attempt.tx_hash)) [
      | inl e ↦
          let mine = subst (λ h. str_eq h attempt.tx_hash ≡ true) settled.same_hash e in
          rw e (record {
            moves = retires (ap is_final (q mine) ∙ f);
            same_bytes = settled.same_bytes;
            same_hash = settled.same_hash;
            same_nonce = settled.same_nonce;
            more_broadcasts = settled.more_broadcasts;
          })
      | inr e ↦ rw e settled
    ]
