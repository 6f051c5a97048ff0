-- ===== src/Reconcile/Keeping.antt =====
-- agent/src/reconcile/startup.ts, `resolveAll`: what a run over all attempts keeps of every row.
use Prim.Native.String.{String}
use text.Mathlib.Text.{◌==◌ as str_eq}
use deltadesk.Prelude.{
  ◌≡◌, refl, ap, sym, subst, ◌∙◌, inl, inr, Bool, true, false, none, some, List, [], ◌∷◌, map, All,
  arith, Bool-cases, Option-cases,
}
use deltadesk.Prelude.Int.{ℤ}
use deltadesk.Prelude.Result.{Result, ok, err}
use deltadesk.Reconcile.{
  AttemptStatus, TxAttempt, Ledger, ChainClient, Broadcaster, Outcome, is_final, resolve, mark,
}
use text.Mathlib.TextEquality.{eq_iff}
use mathlib.Core.Option.{get_or}
use deltadesk.Reconcile.Finality.{IsCurrent}
use deltadesk.Reconcile.Histories.{resolve-Rows}
use deltadesk.Reconcile.Batch.{
  row_of, may_be_unknown, after_error, outcome_or_error, resolve_one, resolve_each, resolve_all,
  unresolved, Distinct, Kept, Rows-Kept, Kept-trans, Kept-same,
}

all_distinct :
    (a b : TxAttempt) (rest others : List TxAttempt)
    → Kept rest others
    → a.tx_hash ≡ b.tx_hash
    → All (λ x. x.tx_hash ≡ a.tx_hash → ⊥) rest
    → All (λ x. x.tx_hash ≡ b.tx_hash → ⊥) others
unfolding Kept
all_distinct a b [] [] k e d = tt
all_distinct a b [] (y ∷ ys) k e d = absurd k
all_distinct a b (x ∷ xs) [] k e d = absurd k
all_distinct a b (x ∷ xs) (y ∷ ys) (k, ks) e (d, ds) =
    (λ f. d (sym k.hash_kept ∙ f ∙ sym e), all_distinct a b xs ys ks e ds)

Distinct-Kept : (xs ys : List TxAttempt) → Kept xs ys → Distinct xs → Distinct ys
unfolding Kept Distinct
Distinct-Kept [] [] k d = tt
Distinct-Kept [] (y ∷ ys) k d = absurd k
Distinct-Kept (x ∷ xs) [] k d = absurd k
Distinct-Kept (x ∷ xs) (y ∷ ys) (k, ks) (d, ds) =
    (all_distinct x y xs ys ks (sym k.hash_kept) d, Distinct-Kept xs ys ks ds)

-- The row that is found has the hash it was looked for by.
pub row_of-hash :
    (h : String) (rows : List TxAttempt) (c : TxAttempt) → row_of h rows ≡ some c → c.tx_hash ≡ h
unfolding row_of
row_of-hash h [] c e = absurd (ground arith)
row_of-hash h (a ∷ rest) c e = elim (Bool-cases (str_eq a.tx_hash h)) [
  | inl f ↦
      let same : a ≡ c = ground arith in sym (ap (λ x. x.tx_hash) same) ∙ (eq_iff a.tx_hash h).0 f
  | inr f ↦ row_of-hash h rest c (ground arith)
]

others-IsCurrent :
    (c : TxAttempt) (rest : List TxAttempt)
    → All (λ x. x.tx_hash ≡ c.tx_hash → ⊥) rest
    → All (IsCurrent c) rest
unfolding IsCurrent
others-IsCurrent c [] d = tt
others-IsCurrent c (x ∷ xs) (d, ds) =
    (λ e. absurd (d ((eq_iff x.tx_hash c.tx_hash).0 e)), others-IsCurrent c xs ds)

row_of-All :
    (P : TxAttempt → Type 0) (h : String) (rows : List TxAttempt) (c : TxAttempt)
    → All P rows
    → row_of h rows ≡ some c
    → P c
unfolding row_of
row_of-All P h [] c p e = absurd (ground arith)
row_of-All P h (a ∷ rest) c (p, ps) e = elim (Bool-cases (str_eq a.tx_hash h)) [
  | inl f ↦ let same : a ≡ c = ground arith in subst P same p
  | inr f ↦ row_of-All P h rest c ps (ground arith)
]

row_of-IsCurrent :
    (h : String) (rows : List TxAttempt) (c : TxAttempt)
    → Distinct rows
    → row_of h rows ≡ some c
    → All (IsCurrent c) rows
unfolding Distinct IsCurrent
row_of-IsCurrent h [] c d e = tt
row_of-IsCurrent h (a ∷ rest) c (d, ds) e = elim (Bool-cases (str_eq a.tx_hash h)) [
  | inl f ↦
      let same : a ≡ c = unfold row_of in ground arith in
      (
        λ g. ap (λ x. x.status) same,
        others-IsCurrent c rest (subst (λ x. All (λ y. y.tx_hash ≡ x.tx_hash → ⊥) rest) same d),
      )
  | inr f ↦
      let later : row_of h rest ≡ some c = unfold row_of in ground arith in
      let away = row_of-All (λ x. x.tx_hash ≡ a.tx_hash → ⊥) h rest c d later in
      (
        λ g. absurd (away (sym ((eq_iff a.tx_hash c.tx_hash).0 g))),
        row_of-IsCurrent h rest c ds later,
      )
]

none-IsCurrent :
    (h : String) (c : TxAttempt) (rows : List TxAttempt)
    → c.tx_hash ≡ h
    → row_of h rows ≡ none
    → All (IsCurrent c) rows
unfolding row_of IsCurrent
none-IsCurrent h c [] same e = tt
none-IsCurrent h c (a ∷ rest) same e = elim (Bool-cases (str_eq a.tx_hash h)) [
  | inl f ↦ absurd (ground arith)
  | inr f ↦ (
    λ g. absurd (differs (subst (λ x. str_eq a.tx_hash x ≡ true) same g) f),
    none-IsCurrent h c rest same (ground arith),
  )
]
  where
    differs : {b : Bool} → b ≡ true → b ≡ false → ⊥
    differs p q = ground arith

-- The attempt that is resolved is as the ledger has it.
read-IsCurrent :
    (a : TxAttempt) (rows : List TxAttempt)
    → Distinct rows
    → All (IsCurrent (get_or (row_of a.tx_hash rows) a)) rows
read-IsCurrent a rows d = elim (Option-cases (row_of a.tx_hash rows)) [
  | inl e ↦ rw e (none-IsCurrent a.tx_hash a rows refl e)
  | inr (c, e) ↦ rw e (row_of-IsCurrent a.tx_hash rows c d e)
]

may_be_unknown-open : (s : AttemptStatus) → may_be_unknown s ≡ true → is_final s ≡ true → ⊥
unfolding may_be_unknown is_final
may_be_unknown-open AttemptStatus.signed h f = ground arith
may_be_unknown-open AttemptStatus.broadcast h f = ground arith
may_be_unknown-open AttemptStatus.confirmed h f = ground arith
may_be_unknown-open AttemptStatus.reverted h f = ground arith
may_be_unknown-open AttemptStatus.dropped h f = ground arith
may_be_unknown-open AttemptStatus.replaced h f = ground arith
may_be_unknown-open AttemptStatus.unknown h f = ground arith

mark_unknown-Kept :
    (cur : TxAttempt) (rows : List TxAttempt)
    → may_be_unknown cur.status ≡ true
    → All (IsCurrent cur) rows
    → Kept rows (map (mark cur.tx_hash AttemptStatus.unknown) rows)
unfolding Kept mark IsCurrent
mark_unknown-Kept cur [] m q = tt
mark_unknown-Kept cur (a ∷ rest) m (q, qs) = elim (Bool-cases (str_eq a.tx_hash cur.tx_hash)) [
  | inl e ↦ rw e (
    record {
      hash_kept = refl;
      bytes_kept = refl;
      final_kept = λ f. absurd (may_be_unknown-open cur.status m (sym (ap is_final (q e)) ∙ f));
    },
    mark_unknown-Kept cur rest m qs,
  )
  | inr e ↦ rw e (
    record { hash_kept = refl; bytes_kept = refl; final_kept = λ f. f },
    mark_unknown-Kept cur rest m qs,
  )
]

after_error-Kept :
    (db : Ledger) (cur : TxAttempt)
    → All (IsCurrent cur) db.attempts
    → Kept db.attempts (after_error db cur).attempts
unfolding after_error
after_error-Kept db cur q = elim (Bool-cases (may_be_unknown cur.status)) [
  | inl e ↦ rw e (mark_unknown-Kept cur db.attempts e q)
  | inr e ↦ rw e (Kept-same db.attempts)
]

module _ (lower : String → String) (chain : ChainClient) (out : Broadcaster) (now_sec : ℤ) where
  outcome-Kept :
      (db : Ledger) (cur : TxAttempt) (r : Result Outcome)
      → resolve lower chain out db cur now_sec ≡ r
      → All (IsCurrent cur) db.attempts
      → Kept db.attempts (outcome_or_error db cur r).ledger.attempts
  unfolding outcome_or_error
  outcome-Kept db cur (ok o) e q =
      Rows-Kept db.attempts o.ledger.attempts (resolve-Rows lower chain out db cur now_sec o q e)
  outcome-Kept db cur (err x) e q = after_error-Kept db cur q

  resolve_one-Kept :
      (db : Ledger) (a : TxAttempt)
      → Distinct db.attempts
      → Kept db.attempts (resolve_one lower chain out now_sec db a).ledger.attempts
  unfolding resolve_one
  resolve_one-Kept db a d =
      let cur = get_or (row_of a.tx_hash db.attempts) a in
      outcome-Kept db cur (resolve lower chain out db cur now_sec) refl
        (read-IsCurrent a db.attempts d)

  resolve_each-Kept :
      (db : Ledger) (todo : List TxAttempt)
      → Distinct db.attempts
      → Kept db.attempts (resolve_each lower chain out now_sec db todo).1.attempts
  unfolding resolve_each
  resolve_each-Kept db [] d = Kept-same db.attempts
  resolve_each-Kept db (a ∷ rest) d =
      let next = (resolve_one lower chain out now_sec db a).ledger in
      let first = resolve_one-Kept db a d in
      Kept-trans db.attempts next.attempts
        (resolve_each lower chain out now_sec next rest).1.attempts first
        (resolve_each-Kept next rest (Distinct-Kept db.attempts next.attempts first d))

  -- Resolving all attempts, if no two rows have one hash, keeps each row's hash and bytes, and an attempt that was
  -- final is final after it, whatever the chain and the broadcaster answer, errors included.
  pub resolve_all-Kept :
      (db : Ledger)
      → Distinct db.attempts
      → Kept db.attempts (resolve_all lower chain out now_sec db).1.attempts
  unfolding resolve_all
  resolve_all-Kept db d = resolve_each-Kept db (unresolved db) d
