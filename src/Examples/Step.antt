-- ===== src/Examples/Step.antt =====
-- The theorems on the pipeline of one step at a concrete exit.
use deltadesk.Executor.Receipt.{Ends, wait_for_receipt, wait_for_receipt-Ends}
use deltadesk.Prelude.{
  ◌==◌, ◌*◌, if◌then◌else◌, arith, ℕ, ◌≡◌, refl, true, false, none, some, List, [], ◌∷◌, map,
  length,
}
use deltadesk.Prelude.Int.{pos, ◌+ℤ◌}
use deltadesk.Actions.{lane_a, exit_all}
use deltadesk.Guard.Input.{TxCall}
use deltadesk.Executor.DeskStatus.{active, reducing, ExecErrorCode}
use deltadesk.Executor.Signing.{thrown, given, Codec}
use deltadesk.Executor.Store.{Send, Store, finalize}
use deltadesk.Reconcile.{Execution, ExecutionStatus, ChainClient, Broadcaster}
use deltadesk.Prelude.Result.{ok}
use deltadesk.Executor.Rh.{Config, PreparedStep, World, Resimulation, already_known}
use deltadesk.Executor.Rh.Execute.{execute}
use deltadesk.Executor.Rh.Sends.{SendsLawfully, execute-SendsLawfully}
use deltadesk.Executor.Rh.Once.{at_once, executes, execute-once}

abbrev codec : Codec
codec = record {
  lower = λ s. s;
  is_typed = λ s. true;
  parse = λ s. some (record {
    is_eip1559 = true;
    chain_id = some 4663;
    to = some "0xa";
    data_text = some "0x605dcf24";
    value = none;
    nonce = some 7;
    gas = some 125;
    max_fee_per_gas = some 20;
    max_priority_fee_per_gas = none;
    access_list_length = 0;
    has_signature = true;
  });
  recover = λ s. some "0xc";
  hash_of = λ s. "0x1";
}

abbrev call : TxCall
call = record { to = "0xa"; data_text = "0x605dcf24"; value = 0; selector = "0x605dcf24" }

abbrev config : Config
config = record {
  codec = codec;
  signer_address = "0xc";
  chain_id = 4663;
  lane_address = "0xa";
  encode = λ a m. given call;
  operator_selectors = "0x605dcf24" ∷ [];
  fees = record { floor_wei = 10; cap_wei = 100 };
  max_gas_cents = none;
  fee_cents = λ wei. none;
  margin_sec = pos 2;
  receipt_timeout_ms = 1000;
}

abbrev simulated : Resimulation
simulated = record { is_ok = true; error = none; gas_estimate = some 100 }

abbrev ulid : List ℕ
ulid =
    0 ∷ 0 ∷ 0 ∷ 0 ∷ 0 ∷ 0 ∷ 0 ∷ 0 ∷ 0 ∷ 0 ∷ 0 ∷ 0 ∷ 0 ∷ 0 ∷ 0 ∷ 0 ∷ 0 ∷ 0 ∷ 0 ∷ 0 ∷ 0 ∷ 0 ∷ 0 ∷ 0
    ∷ 0 ∷ 0 ∷ []

abbrev onchain_id : List ℕ
onchain_id =
    0 ∷ 0 ∷ 0 ∷ 0 ∷ 0 ∷ 0 ∷ 0 ∷ 0 ∷ 0 ∷ 0 ∷ 0 ∷ 0 ∷ 0 ∷ 0 ∷ 0 ∷ 0 ∷ 1 ∷ 0 ∷ 0 ∷ 0 ∷ 0 ∷ 0 ∷ 0 ∷ 0
    ∷ 0 ∷ 0 ∷ 0 ∷ 0 ∷ 0 ∷ 0 ∷ 0 ∷ 0 ∷ []

abbrev next_onchain_id : List ℕ
next_onchain_id =
    0 ∷ 0 ∷ 0 ∷ 0 ∷ 0 ∷ 0 ∷ 0 ∷ 0 ∷ 0 ∷ 0 ∷ 0 ∷ 0 ∷ 0 ∷ 0 ∷ 0 ∷ 0 ∷ 1 ∷ 1 ∷ 0 ∷ 0 ∷ 0 ∷ 0 ∷ 0 ∷ 0
    ∷ 0 ∷ 0 ∷ 0 ∷ 0 ∷ 0 ∷ 0 ∷ 0 ∷ 0 ∷ []

abbrev step : PreparedStep
step = record {
  decision_id = ulid;
  step_index = 0;
  lane_address = "0xa";
  action = exit_all lane_a;
  meta = record { decision_id = onchain_id; deadline = pos 100 };
  risk_class = reducing;
  call = some call;
  simulation = some simulated;
}

-- A world in which the step is signed, sent and confirmed.
abbrev world : World
world = record {
  head = given (some 10);
  simulated = λ c. given simulated;
  pending_count = given 7;
  others = λ m db. db;
  sign = λ turn tx try. given "0x02";
  now_ms = λ turn. pos 50000;
  send_raw = λ turn raw. already_known;
  in_pool = λ turn hash. given true;
  mined = λ turn hash. given true;
  base_fee = λ turn. given (some 10);
  polled = λ hash n. given (if n == 2 then some true else none);
  elapsed_ms = λ n. 250 * n;
  resolver = none;
  resolved_ms = pos 60000;
}

abbrev empty : Store
empty = record {
  ledger = record {
    attempts = [];
    executions = [];
    desks = record { failing = false; desks = λ a. some active; alerts = [] };
  };
  last_nonce = λ a. none;
  sends = [];
}

-- The chain knows nothing of the transaction, whose nonce is the next one, and the bytes hash to it.
abbrev silent_chain : ChainClient
silent_chain = record {
  receipt = λ h. ok none;
  has_transaction = λ h. ok false;
  latest_count = λ a. ok 7;
}

abbrev resolver : Broadcaster
resolver = record { sends = λ raw. true; hash_of = λ raw. "0x1"; max_broadcasts = 5 }

-- No receipt in time: the resolver sends the same bytes once again.
abbrev timed_out : World
timed_out = record world { polled = λ hash n. given none; resolver = some (silent_chain, resolver) }

execute-SendsLawfully_example :
    SendsLawfully config timed_out step empty (execute config timed_out step empty)
execute-SendsLawfully_example = execute-SendsLawfully config timed_out step empty refl

resent_once :
    map (λ (e : Send). e.raw) (execute config timed_out step empty).1.sends ≡ "0x02" ∷ "0x02" ∷ []
unfolding execute ◌+ℤ◌ finalize
resent_once = refl

executed : (execute config world step empty).0 ≡ given 1
unfolding execute
executed = refl

confirmed_once :
    (map (λ (e : Execution). e.status) (execute config world step empty).1.ledger.executions
      ≡ ExecutionStatus.confirmed ∷ [])
    × (length (execute config world step empty).1.sends ≡ 1)
unfolding execute ◌+ℤ◌
confirmed_once = (refl, refl)

-- Another step of the same decision, in the meantime.
abbrev next_step : PreparedStep
next_step = record step {
  step_index = 1;
  meta = record step.meta { decision_id = next_onchain_id };
}

abbrev between : Store
between = (execute config world next_step (execute config world step empty).1).1

executed_both : length between.ledger.executions ≡ 2
unfolding execute ◌+ℤ◌
executed_both = refl

execute-once_example :
    (code : ExecErrorCode) × (execute config world step between ≡ (thrown code, between))
execute-once_example =
    execute-once config config world world step step empty between 1 executed
      (executes config world next_step at_once) refl refl

wait_for_receipt-Ends_example :
    Ends
      (world.polled "0x1")
      (λ n. 250 * n)
      1000
      0
      (wait_for_receipt (world.polled "0x1") (λ n. 250 * n) 1000)
wait_for_receipt-Ends_example =
    wait_for_receipt-Ends (world.polled "0x1") (λ n. 250 * n) 1000 (λ n. omega arith)
