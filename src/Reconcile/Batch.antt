-- ===== src/Reconcile/Batch.antt =====
-- agent/src/reconcile/startup.ts, `resolveAll`: every unresolved attempt in turn, each read again before it
-- is resolved; an error leaves it unknown.
use Prim.Native.String.{String}
use text.Mathlib.Text.{◌==◌ as str_eq}
use deltadesk.Prelude.{
  ◌≡◌, refl, ◌∙◌, Bool, true, false, not, Option, none, some, List, [], ◌∷◌, map, All, arith,
  if◌then◌else◌,
}
use deltadesk.Prelude.Int.{ℤ}
use deltadesk.Prelude.Result.{Result, ok, err}
use deltadesk.Reconcile.{
  AttemptStatus, AttemptResolution, TxAttempt, Ledger, ChainClient, Broadcaster, Outcome, is_final,
  status_of_receipt, resolve, mark,
}
use mathlib.Core.Option.{get_or}
use deltadesk.Prelude.{filter}
use deltadesk.Reconcile.{pending}
use deltadesk.Reconcile.Finality.{Moves, stays, lands, retires, lapses, sends, sends_unknown, Rows}

-- `getAttemptByHash`.
unfoldable pub row_of : String → List TxAttempt → Option TxAttempt
row_of hash [] = none
row_of hash (a ∷ rest) =
    let later = row_of hash rest in if str_eq a.tx_hash hash then some a else later

unfoldable pub unresolved : Ledger → List TxAttempt
unresolved db = filter (λ a. not (is_final a.status)) db.attempts

unfoldable pub may_be_unknown : AttemptStatus → Bool
may_be_unknown AttemptStatus.signed = true
may_be_unknown AttemptStatus.broadcast = true
may_be_unknown _ = false

unfoldable pub after_error : Ledger → TxAttempt → Ledger
unfolding may_be_unknown mark
after_error db cur =
    if may_be_unknown cur.status
    then record db { attempts = map (mark cur.tx_hash AttemptStatus.unknown) db.attempts }
    else db

unfoldable pub outcome_or_error : Ledger → TxAttempt → Result Outcome → Outcome
unfolding after_error
outcome_or_error db cur (ok o) = o
outcome_or_error db cur (err e) = record { resolution = pending; ledger = after_error db cur }

module _ (lower : String → String) (chain : ChainClient) (out : Broadcaster) (now_sec : ℤ) where
  unfoldable pub resolve_one : Ledger → TxAttempt → Outcome
  unfolding row_of outcome_or_error resolve
  resolve_one db a =
      let cur = get_or (row_of a.tx_hash db.attempts) a in
      outcome_or_error db cur (resolve lower chain out db cur now_sec)

  -- The resolutions, of which the tally counts each kind, and the ledger after all.
  unfoldable pub resolve_each : Ledger → List TxAttempt → List AttemptResolution × Ledger
  unfolding resolve_one
  resolve_each db [] = ([], db)
  resolve_each db (a ∷ rest) =
      let o = resolve_one db a in
      let later = resolve_each o.ledger rest in (o.resolution ∷ later.0, later.1)

  unfoldable pub resolve_all : Ledger → List AttemptResolution × Ledger
  unfolding resolve_each unresolved
  resolve_all db = resolve_each db (unresolved db)

-- No two rows have one hash.
unfoldable pub Distinct : List TxAttempt → Type 0
Distinct [] = Unit
Distinct (a ∷ rest) = All (λ b. b.tx_hash ≡ a.tx_hash → ⊥) rest × Distinct rest

-- What every row keeps: its hash and bytes, and that it is final.
pub record RowKeeps (a b : TxAttempt) : Type 0 where
  pub hash_kept : b.tx_hash ≡ a.tx_hash
  pub bytes_kept : b.signed_raw_tx ≡ a.signed_raw_tx
  pub final_kept : is_final a.status ≡ true → is_final b.status ≡ true

unfoldable pub Kept : List TxAttempt → List TxAttempt → Type 0
Kept [] [] = Unit
Kept (a ∷ rest) (b ∷ others) = RowKeeps a b × Kept rest others
Kept _ _ = ⊥

Moves-final : (s t : AttemptStatus) → Moves s t → is_final s ≡ true → is_final t ≡ true
unfolding is_final status_of_receipt
Moves-final s t stays h = h
Moves-final s t (lands true) h = refl
Moves-final s t (lands false) h = refl
Moves-final s t (retires o) h = refl
Moves-final s t (lapses o) h = refl
Moves-final s t sends h = absurd (ground arith)
Moves-final s t sends_unknown h = absurd (ground arith)

pub Rows-Kept : (xs ys : List TxAttempt) → Rows xs ys → Kept xs ys
unfolding Rows Kept
Rows-Kept [] [] r = tt
Rows-Kept (a ∷ rest) [] r = absurd r
Rows-Kept [] (b ∷ others) r = absurd r
Rows-Kept (a ∷ rest) (b ∷ others) (r, rs) = (
  record {
    hash_kept = r.same_hash;
    bytes_kept = r.same_bytes;
    final_kept = Moves-final a.status b.status r.moves;
  },
  Rows-Kept rest others rs,
)

pub Kept-trans : (xs ys zs : List TxAttempt) → Kept xs ys → Kept ys zs → Kept xs zs
unfolding Kept
Kept-trans [] [] [] k l = tt
Kept-trans [] [] (z ∷ zs) k l = absurd l
Kept-trans [] (y ∷ ys) zs k l = absurd k
Kept-trans (x ∷ xs) [] zs k l = absurd k
Kept-trans (x ∷ xs) (y ∷ ys) [] k l = absurd l
Kept-trans (x ∷ xs) (y ∷ ys) (z ∷ zs) (k, ks) (l, ls) = (
  record {
    hash_kept = l.hash_kept ∙ k.hash_kept;
    bytes_kept = l.bytes_kept ∙ k.bytes_kept;
    final_kept = λ h. l.final_kept (k.final_kept h);
  },
  Kept-trans xs ys zs ks ls,
)

pub Kept-same : (xs : List TxAttempt) → Kept xs xs
unfolding Kept
Kept-same [] = tt
Kept-same (x ∷ xs) =
    (record { hash_kept = refl; bytes_kept = refl; final_kept = λ h. h }, Kept-same xs)
