-- ===== src/Reconcile/Recorded.antt =====
-- agent/src/reconcile/startup.ts, `resolveAll`: the identities of executions.
use Prim.Native.String.{String}
use mathlib.Core.Option.{get_or}
use deltadesk.Prelude.{◌≡◌, refl, ◌∙◌, inl, inr, List, [], ◌∷◌, Bool-cases}
use deltadesk.Prelude.Int.{ℤ}
use deltadesk.Prelude.Result.{Result, ok, err}
use deltadesk.Reconcile.{TxAttempt, Ledger, ChainClient, Broadcaster, Outcome, resolve}
use deltadesk.Reconcile.Batch.{
  row_of, may_be_unknown, after_error, outcome_or_error, resolve_one, resolve_each, resolve_all,
  unresolved,
}
use deltadesk.Reconcile.Identity.{identities, resolve-identities}

after_error-identities :
    (db : Ledger) (cur : TxAttempt) → identities (after_error db cur) ≡ identities db
unfolding after_error identities
after_error-identities db cur = elim (Bool-cases (may_be_unknown cur.status)) [
  | inl e ↦ rw e refl
  | inr e ↦ rw e refl
]

module _ (lower : String → String) (chain : ChainClient) (out : Broadcaster) (now_sec : ℤ) where
  outcome-identities :
      (db : Ledger) (cur : TxAttempt) (r : Result Outcome)
      → resolve lower chain out db cur now_sec ≡ r
      → identities (outcome_or_error db cur r).ledger ≡ identities db
  unfolding outcome_or_error
  outcome-identities db cur (ok o) e = resolve-identities lower chain out db cur now_sec o e
  outcome-identities db cur (err x) e = after_error-identities db cur

  resolve_one-identities :
      (db : Ledger) (a : TxAttempt)
      → identities (resolve_one lower chain out now_sec db a).ledger ≡ identities db
  unfolding resolve_one
  resolve_one-identities db a =
      outcome-identities db (get_or (row_of a.tx_hash db.attempts) a) _ refl

  resolve_each-identities :
      (db : Ledger) (rows : List TxAttempt)
      → identities (resolve_each lower chain out now_sec db rows).1 ≡ identities db
  unfolding resolve_each
  resolve_each-identities db [] = refl
  resolve_each-identities db (a ∷ rest) =
      resolve_each-identities (resolve_one lower chain out now_sec db a).ledger rest
      ∙ resolve_one-identities db a

  pub resolve_all-identities :
      (db : Ledger) → identities (resolve_all lower chain out now_sec db).1 ≡ identities db
  unfolding resolve_all
  resolve_all-identities db = resolve_each-identities db (unresolved db)
