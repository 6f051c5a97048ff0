-- ===== src/Executor/Rh/Once.antt =====
-- agent/src/executor/rh-executor.ts, `execute`: a second execution of a step.
use deltadesk.Prelude.{
  ℕ, ◌≡◌, refl, ap, inl, inr, Bool, true, List, [], ◌∷◌, ◌++◌, any, arith, Bool-cases,
}
use deltadesk.Guard.Input.{TxCall}
use deltadesk.Executor.DeskStatus.{DeskDb, ExecErrorCode, sim_decision_used}
use deltadesk.Executor.Signing.{Answer, Answer-cases, thrown, given}
use deltadesk.Executor.Store.{Store, with_ledger, same_bytes, is_step, has_execution_step}
use Prim.Native.String.{String}
use deltadesk.Prelude.Int.{ℤ}
use deltadesk.Prelude.Result.{ok}
use deltadesk.Reconcile.{TxAttempt, Ledger, ChainClient, Broadcaster, Outcome, resolve}
use deltadesk.Reconcile.Batch.{resolve_all}
use deltadesk.Reconcile.Identity.{resolve-identities}
use deltadesk.Reconcile.Recorded.{resolve_all-identities}
use deltadesk.Executor.Rh.{Config, PreparedStep, World, Exec, ◌>>=◌}
use deltadesk.Executor.Store.Identity.{has_execution_step-identities}
use deltadesk.Executor.Rh.Execute.{
  admit, insert_execution, next_id, assert_lane_step, fresh_call, check_simulation, write_row,
  write_ahead, start, execute,
}
use deltadesk.Executor.Rh.Kept.{run_and_settle-Keeps}

-- A call that throws ends the code.
thrown_by :
    {A B : Type 0} {code : ExecErrorCode} {after : Store} (m : Exec A) (k : A → Exec B) (s : Store)
    → m s ≡ (thrown code, after)
    → (m >>= k) s ≡ (thrown code, after)
unfolding ◌>>=◌
thrown_by {A = A} {B = B} m k s e =
    ap
      (λ (r : Answer A × Store). elim r.0 as (λ _. Answer B × Store) [
        | given a ↦ k a r.1
        | thrown code ↦ (thrown code, r.1)
      ])
      e

same_bytes_refl : (l : List ℕ) → same_bytes l l ≡ true
same_bytes_refl [] = refl
same_bytes_refl (x ∷ xs) = ground (arith, same_bytes_refl xs)

any_last :
    {A : Type 0} (p : A → Bool) (x : A) (xs : List A) → p x ≡ true → any p (xs ++ x ∷ []) ≡ true
any_last p x [] h = rw h refl
any_last p x (y ∷ ys) h = ground (arith, any_last p x ys h)

any_append :
    {A : Type 0} (p : A → Bool) (xs ys : List A) → any p xs ≡ true → any p (xs ++ ys) ≡ true
any_append p [] ys h = absurd (ground arith)
any_append p (x ∷ xs) ys h = elim (Bool-cases (p x)) [
  | inl e ↦ rw e refl
  | inr e ↦ ground (arith, any_append p xs ys (ground arith))
]

-- The database has an execution of a step of a decision.
abbrev pub HasStep : List ℕ → ℕ → Ledger → Type 0
HasStep decision index db = has_execution_step decision index db.executions ≡ true

module _ (K : Config) (w : World) (step : PreparedStep) where
  abbrev Recorded : Store → Type 0
  Recorded s = HasStep step.decision_id step.step_index s.ledger

  insert_execution-Recorded :
      (onchain : List ℕ) (db : Ledger)
      → has_execution_step step.decision_id step.step_index
          (insert_execution K w step onchain db).executions
        ≡ true
  unfolding has_execution_step insert_execution
  insert_execution-Recorded onchain db =
      any_last (is_step step.decision_id step.step_index) _ db.executions
        (ground (arith, same_bytes_refl step.decision_id))

  -- What a step that was not refused leaves behind.
  abbrev RecordsStep : Answer ℕ × Store → Type 0
  RecordsStep (thrown code, after) = Unit
  RecordsStep (given id, after) = Recorded after

  written_row :
      (onchain : List ℕ) (call : TxCall) (s : Store) (r : Answer (Unit {0}))
      → RecordsStep ((write_row K w step onchain r >>= start K w step call) s)
  unfolding ◌>>=◌ write_row start
  written_row onchain call s (thrown code) = tt
  written_row onchain call s (given done) =
      has_execution_step-identities step.decision_id step.step_index
        (insert_execution K w step onchain s.ledger) _
        (run_and_settle-Keeps K w step (next_id s.ledger.executions)
          (insert_execution K w step onchain s.ledger) call _ refl)
        (insert_execution-Recorded onchain s.ledger)

  pub execute-RecordsStep : (s : Store) → RecordsStep (execute K w step s)
  unfolding execute ◌>>=◌ write_ahead
  execute-RecordsStep s = elim (Answer-cases (assert_lane_step K w step)) [
    | inl (code, a) ↦ rw (a, RecordsStep) tt
    | inr (onchain, a) ↦ elim (Answer-cases (fresh_call K w step)) [
      | inl (code, f) ↦ rw (a, f, RecordsStep) tt
      | inr (call, f) ↦ elim (Answer-cases (check_simulation K w step)) [
        | inl (code, c) ↦ rw (a, f, c, RecordsStep) tt
        | inr (done, c) ↦ rw (a, f, c) (written_row onchain call s _)
      ]
    ]
  ]

  admit-refused :
      (onchain : List ℕ) (db : Ledger)
      → has_execution_step step.decision_id step.step_index db.executions ≡ true
      → admit K w step onchain db ≡ thrown sim_decision_used
  unfolding admit
  admit-refused onchain db h = rw h refl

  write_ahead-refused :
      (onchain : List ℕ) (s : Store)
      → Recorded s
      → write_ahead K w step onchain s ≡ (thrown sim_decision_used, s)
  unfolding write_ahead write_row
  write_ahead-refused onchain s h =
      ap (λ (r : Answer (Unit {0})). write_row K w step onchain r s)
        (admit-refused onchain s.ledger h)

  -- A step that has an execution is refused, whatever the world answers.
  execute_again :
      (s : Store) → Recorded s → (code : ExecErrorCode) × (execute K w step s ≡ (thrown code, s))
  unfolding execute ◌>>=◌
  execute_again s h = elim (Answer-cases (assert_lane_step K w step)) [
    | inl (code, a) ↦ rw a (code, refl)
    | inr (onchain, a) ↦ elim (Answer-cases (fresh_call K w step)) [
      | inl (code, f) ↦ rw (a, f) (code, refl)
      | inr (call, f) ↦ elim (Answer-cases (check_simulation K w step)) [
        | inl (code, c) ↦ rw (a, f, c) (code, refl)
        | inr (done, c) ↦
            rw (a, f, c)
              (
                sim_decision_used,
                thrown_by (write_ahead K w step onchain) (start K w step call) s
                    (write_ahead-refused onchain s h),
              )
      ]
    ]
  ]

Recorded-given :
    (K : Config) (w : World) (step : PreparedStep) (id : ℕ) (r : Answer ℕ × Store)
    → RecordsStep K w step r
    → r.0 ≡ given id
    → Recorded K w step r.1
Recorded-given K w step id (thrown code, s) h e = absurd (ground arith)
Recorded-given K w step id (given i, s) h e = h

-- An execution of any step keeps the rows of the others.
module _ (K : Config) (w : World) (step : PreparedStep) (decision : List ℕ) (index : ℕ) where
  insert_execution-HasStep :
      (onchain : List ℕ) (db : Ledger)
      → HasStep decision index db
      → HasStep decision index (insert_execution K w step onchain db)
  unfolding has_execution_step insert_execution
  insert_execution-HasStep onchain db h = any_append (is_step decision index) db.executions _ h

  written-HasStep :
      (onchain : List ℕ) (call : TxCall) (s : Store) (r : Answer (Unit {0}))
      → HasStep decision index s.ledger
      → HasStep decision index ((write_row K w step onchain r >>= start K w step call) s).1.ledger
  unfolding ◌>>=◌ write_row start
  written-HasStep onchain call s (thrown code) h = h
  written-HasStep onchain call s (given done) h =
      has_execution_step-identities decision index (insert_execution K w step onchain s.ledger) _
        (run_and_settle-Keeps K w step (next_id s.ledger.executions)
          (insert_execution K w step onchain s.ledger) call _ refl)
        (insert_execution-HasStep onchain s.ledger h)

  execute-HasStep :
      (s : Store)
      → HasStep decision index s.ledger
      → HasStep decision index (execute K w step s).1.ledger
  unfolding execute ◌>>=◌ write_ahead
  execute-HasStep s h = elim (Answer-cases (assert_lane_step K w step)) [
    | inl (code, a) ↦ rw a h
    | inr (onchain, a) ↦ elim (Answer-cases (fresh_call K w step)) [
      | inl (code, f) ↦ rw (a, f) h
      | inr (call, f) ↦ elim (Answer-cases (check_simulation K w step)) [
        | inl (code, c) ↦ rw (a, f, c) h
        | inr (done, c) ↦ rw (a, f, c) (written-HasStep onchain call s _ h)
      ]
    ]
  ]

-- What the agent may do to a store in the meantime: to execute any step, also of other decisions and
-- lanes, with any answers of the world; to resolve an attempt, or all of them; and to change the status
-- of any desks.
pub data Meanwhile (s : Store) : Store → Type 0 where
  at_once : Meanwhile s s
  executes :
      {t : Store} (K : Config) (w : World) (step : PreparedStep)
      → Meanwhile s t
      → Meanwhile s (execute K w step t).1
  resolves :
      {t : Store} (lower : String → String) (chain : ChainClient) (out : Broadcaster)
      (attempt : TxAttempt) (now_sec : ℤ) (o : Outcome)
      → resolve lower chain out t.ledger attempt now_sec ≡ ok o
      → Meanwhile s t
      → Meanwhile s (with_ledger t o.ledger)
  resolves_all :
      {t : Store} (lower : String → String) (chain : ChainClient) (out : Broadcaster) (now_sec : ℤ)
      → Meanwhile s t
      → Meanwhile s (with_ledger t (resolve_all lower chain out now_sec t.ledger).1)
  sets_desks :
      {t : Store} (desks : DeskDb)
      → Meanwhile s t
      → Meanwhile s (with_ledger t (record t.ledger { desks = desks }))

Meanwhile-HasStep :
    {s t : Store} (decision : List ℕ) (index : ℕ)
    → Meanwhile s t
    → HasStep decision index s.ledger
    → HasStep decision index t.ledger
Meanwhile-HasStep decision index at_once h = h
Meanwhile-HasStep decision index (executes K w step m) h =
    execute-HasStep K w step decision index _ (Meanwhile-HasStep decision index m h)
Meanwhile-HasStep decision index (resolves {t = t} lower chain out attempt now_sec o e m) h =
    has_execution_step-identities decision index t.ledger o.ledger
      (resolve-identities lower chain out t.ledger attempt now_sec o e)
      (Meanwhile-HasStep decision index m h)
Meanwhile-HasStep decision index (resolves_all {t = t} lower chain out now_sec m) h =
    has_execution_step-identities decision index t.ledger _
      (resolve_all-identities lower chain out now_sec t.ledger)
      (Meanwhile-HasStep decision index m h)
Meanwhile-HasStep decision index (sets_desks desks m) h = Meanwhile-HasStep decision index m h

-- Once a step has been executed, also if it failed, was never sent or is not resolved yet, every later
-- attempt to execute the same step of the same decision is refused and changes nothing, whatever the
-- second attempt's action and configuration are, whatever the world answers it, and whatever steps the
-- agent has executed, attempts it has resolved and statuses of desks that were set in the meantime.
pub execute-once :
    (K later : Config) (w after : World) (step again : PreparedStep) (s t : Store) (id : ℕ)
    → (execute K w step s).0 ≡ given id
    → Meanwhile (execute K w step s).1 t
    → again.decision_id ≡ step.decision_id
    → again.step_index ≡ step.step_index
    → (code : ExecErrorCode) × (execute later after again t ≡ (thrown code, t))
execute-once K later w after step again s t id e m same_decision same_step =
    let recorded = Recorded-given K w step id _ (execute-RecordsStep K w step s) e in
    execute_again later after again t (
      rw (same_decision, same_step) (Meanwhile-HasStep step.decision_id step.step_index m recorded))
