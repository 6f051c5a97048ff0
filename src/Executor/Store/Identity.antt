-- ===== src/Executor/Store/Identity.antt =====
-- agent/src/state/db.ts: the identities of executions under the writes of a step.
use Prim.Native.String.{String}
use deltadesk.Prelude.{
  ℕ, ◌==◌, ◌≡◌, refl, sym, ap, ◌∙◌, inl, inr, Bool, true, ◌&&◌, Option, none, some, List, [], ◌∷◌,
  map, any, arith, Bool-cases, Option-cases,
}
use deltadesk.Executor.Signing.{given}
use deltadesk.Executor.Store.{
  Store, same_bytes, is_step, has_execution_step, set_execution, at_signing, record_in,
  record_signed_attempt, finalize, settle_row, settle_error,
}
use deltadesk.Reconcile.{
  AttemptStatus, ExecutionStatus, TxAttempt, Execution, Ledger, get_execution,
}
use deltadesk.Reconcile.Identity.{
  Identity, identity_of, identities, map-identities, in_execution-identities,
}

-- Whether a step is among the executions, by what tells them apart.
abbrev is_identity_of : List ℕ → ℕ → Identity → Bool
is_identity_of decision step i = same_bytes i.decision_id decision && i.step_index == step

any-identities :
    (decision : List ℕ) (step : ℕ) (rows : List Execution)
    → any (is_step decision step) rows ≡ any (is_identity_of decision step) (map identity_of rows)
any-identities decision step [] = refl
any-identities decision step (e ∷ rest) = rw (any-identities decision step rest) refl

pub has_execution_step-identities :
    (decision : List ℕ) (step : ℕ) (db after : Ledger)
    → identities after ≡ identities db
    → has_execution_step decision step db.executions ≡ true
    → has_execution_step decision step after.executions ≡ true
unfolding has_execution_step identities
has_execution_step-identities decision step db after same h =
    any-identities decision step after.executions
    ∙ ap (any (is_identity_of decision step)) same
    ∙ sym (any-identities decision step db.executions)
    ∙ h

at_signing-identity :
    (id : ℕ) (signer : String) (e : Execution)
    → identity_of (at_signing id signer e) ≡ identity_of e
at_signing-identity id signer e = elim (Bool-cases (e.execution_id == id)) [
  | inl h ↦ rw h refl
  | inr h ↦ rw h refl
]

record_in-executions :
    (db after : Ledger) (a : TxAttempt) (e : Execution)
    → record_in db a e ≡ given after
    → after.executions ≡ map (at_signing a.execution_id a.from_address) db.executions
unfolding record_in
record_in-executions db after a e h = ground arith

pub record_signed_attempt-identities :
    (db after : Ledger) (a : TxAttempt)
    → record_signed_attempt db a ≡ given after
    → identities after ≡ identities db
unfolding record_signed_attempt identities
record_signed_attempt-identities db after a h =
    elim (Option-cases (get_execution a.execution_id db.executions)) [
      | inl e ↦ absurd (ground arith)
      | inr (row, e) ↦
          ap (map identity_of) (record_in-executions db after a row (ground arith))
          ∙ map-identities _ db.executions (at_signing-identity a.execution_id a.from_address)
    ]

pub set_execution-identities :
    (id : ℕ) (status : ExecutionStatus) (db : Ledger)
    → identities (set_execution id status db) ≡ identities db
unfolding identities set_execution
set_execution-identities id status db = in_execution-identities id status db.executions

settle_row-identities :
    (id : ℕ) (row : Option Execution) (db : Ledger)
    → identities (settle_row id row db) ≡ identities db
unfolding settle_row
settle_row-identities id none db = refl
settle_row-identities id (some e) db = set_execution-identities id _ db

pub settle_error-identities :
    (id : ℕ) (db : Ledger) → identities (settle_error id db) ≡ identities db
unfolding settle_error
settle_error-identities id db = settle_row-identities id _ db

pub finalize-identities :
    (id : ℕ) (hash : String) (a : AttemptStatus) (e : ExecutionStatus) (s : Store)
    → identities (finalize id hash a e s).ledger ≡ identities s.ledger
unfolding finalize identities set_execution
finalize-identities id hash a e s = in_execution-identities id e s.ledger.executions
