-- ===== src/Executor/Rh/Execute.antt =====
-- agent/src/executor/rh-executor.ts: `execute`. An `Error` that is no `ExecError` is of the class
-- `unknown`.
use text.Mathlib.Text.{◌==◌ as str_eq}
use deltadesk.Prelude.{
  ℕ, suc, ltb, ◌==◌, max, Bool, true, false, not, ◌&&◌, ◌||◌, none, some, List, [], ◌∷◌, ◌++◌, any,
  if◌then◌else◌,
}
use deltadesk.Actions.{hedge, risk_class_of}
use deltadesk.Guard.Input.{TxCall}
use deltadesk.Guard.Rules.{same_class}
use deltadesk.Executor.DecisionId.{encode_decision_id}
use deltadesk.Executor.DeskStatus.{unknown, sim_transient, sim_decision_used}
use deltadesk.Executor.Signing.{Answer, thrown, given}
use deltadesk.Executor.Store.{
  with_ledger, same_bytes, has_execution_step, has_onchain_id, in_flight_count,
}
use deltadesk.Executor.Rh.{Config, PreparedStep, World, Exec, ◌>>=◌, lift, or_throw}
use deltadesk.Reconcile.{ExecutionStatus, Execution, Ledger}
use deltadesk.Executor.Rh.Run.{run_and_settle}

-- The ids of a table of SQLite grow.
unfoldable pub next_id : List Execution → ℕ
next_id [] = 1
next_id (e ∷ rest) = max (suc e.execution_id) (next_id rest)

unfoldable pub encoded_id : List ℕ → ℕ → Answer (List ℕ)
unfolding encode_decision_id
encoded_id decision step = or_throw (encode_decision_id decision step)

module _ (K : Config) (w : World) (step : PreparedStep) where
  -- `assertLaneStep`, with the id of the step on the chain.
  unfoldable pub assert_lane_step : Answer (List ℕ)
  unfolding encoded_id risk_class_of
  assert_lane_step =
      let is_hedge = elim step.action as (λ _. Bool) [ hedge order ↦ true | _ ↦ false ] in
      if is_hedge || not (str_eq (K.codec.lower step.lane_address) K.lane_address)
      then thrown unknown
      else elim (encoded_id step.decision_id step.step_index) as (λ _. Answer (List ℕ)) [
        | thrown code ↦ thrown code
        | given onchain ↦
            if same_bytes step.meta.decision_id onchain
              && same_class (risk_class_of step.action) step.risk_class
            then given onchain
            else thrown unknown
      ]

  -- The prepared call is what the configuration, the action and the meta encode to.
  unfoldable pub same_call : TxCall → TxCall → Bool
  same_call call prepared =
      str_eq call.to (K.codec.lower prepared.to)
      && str_eq (K.codec.lower call.data_text) (K.codec.lower prepared.data_text)
      && prepared.value == 0
      && any (str_eq call.selector) K.operator_selectors

  unfoldable pub fresh_call : Answer TxCall
  unfolding same_call
  fresh_call = elim step.call as (λ _. Answer TxCall) [
    | none ↦ thrown unknown
    | some prepared ↦ elim (K.encode step.action step.meta) as (λ _. Answer TxCall) [
      | thrown code ↦ thrown code
      | given call ↦ if same_call call prepared then given call else thrown unknown
    ]
  ]

  unfoldable pub check_simulation : Answer (Unit {0})
  check_simulation = elim step.simulation as (λ _. Answer Unit) [
    | none ↦ thrown sim_transient
    | some sim ↦
        if sim.is_ok
        then given tt
        else elim sim.error [ none ↦ thrown sim_transient | some code ↦ thrown code ]
  ]

  -- Idempotency, and one transaction in flight for a signer.
  unfoldable pub admit : List ℕ → Ledger → Answer (Unit {0})
  unfolding has_execution_step has_onchain_id in_flight_count
  admit onchain db =
      if has_execution_step step.decision_id step.step_index db.executions
        || has_onchain_id onchain db.executions
      then thrown sim_decision_used
      else if ltb 0 (in_flight_count (K.codec.lower K.signer_address) db.executions)
      then thrown sim_transient
      else given tt

  unfoldable pub insert_execution : List ℕ → Ledger → Ledger
  unfolding next_id
  insert_execution onchain db = record db {
    executions =
        db.executions
        ++ record {
          execution_id = next_id db.executions;
          decision_id = step.decision_id;
          step_index = step.step_index;
          onchain_id = onchain;
          signer_address = some (K.codec.lower K.signer_address);
          is_signed = false;
          lane_address = step.lane_address;
          risk_class = step.risk_class;
          status = ExecutionStatus.prepared;
        }
          ∷ [];
  }

  unfoldable pub write_row : List ℕ → Answer (Unit {0}) → Exec ℕ
  unfolding insert_execution
  write_row onchain (thrown code) s = (thrown code, s)
  write_row onchain (given done) s =
      (given (next_id s.ledger.executions), with_ledger s (insert_execution onchain s.ledger))

  unfoldable pub write_ahead : List ℕ → Exec ℕ
  unfolding admit write_row
  write_ahead onchain s = write_row onchain (admit onchain s.ledger) s

  unfoldable pub start : TxCall → ℕ → Exec ℕ
  unfolding run_and_settle
  start call id s = (given id, run_and_settle K w step id call s)

  -- The id of the execution.
  unfoldable pub execute : Exec ℕ
  unfolding ◌>>=◌ assert_lane_step fresh_call check_simulation write_ahead start
  execute = do
    onchain ← lift assert_lane_step
    call ← lift fresh_call
    _ ← lift check_simulation
    id ← write_ahead onchain
    start call id
