-- ===== src/Examples/Reconcile.antt =====
-- The theorems on the resolution of attempts at a concrete attempt.
use Prim.Native.String.{String}
use deltadesk.Prelude.{◌≡◌, refl, ◌⊎◌, true, false, [], ◌∷◌, none, some, All, arith}
use deltadesk.Prelude.Int.{pos}
use deltadesk.Prelude.Result.{ok}
use deltadesk.Executor.DeskStatus.{
  active, adding, desk_halted_reason, get_desk, may_sign, is_reducing,
}
use deltadesk.Reconcile.{
  AttemptStatus, AttemptResolution, ExecutionStatus, rebroadcast, conflict, TxAttempt, Ledger,
  ChainClient, Broadcaster, Outcome, resolve, is_final, mark_broadcast, get_execution,
}
use deltadesk.Reconcile.Sending.{IsSendable, resolve-IsSendable}
use deltadesk.Reconcile.Finality.{Rows, IsCurrent}
use deltadesk.Reconcile.Histories.{resolve-Rows}
use deltadesk.Reconcile.Batch.{resolve_all, Distinct, Kept}
use deltadesk.Reconcile.Keeping.{resolve_all-Kept}
use deltadesk.Reconcile.Deadline.{IsDropped, resolve-IsDropped}

abbrev lower : String → String
lower s = s

abbrev attempt : TxAttempt
attempt = record {
  tx_hash = "0x1";
  execution_id = 1;
  from_address = "0xc";
  nonce = 7;
  deadline_sec = pos 100;
  signed_raw_tx = "0x1";
  status = AttemptStatus.signed;
  broadcast_count = 1;
}

abbrev ledger : Ledger
ledger = record {
  attempts = attempt ∷ [];
  executions =
      record {
        execution_id = 1;
        decision_id = 0 ∷ [];
        step_index = 0;
        onchain_id = 0 ∷ [];
        signer_address = some "0xc";
        is_signed = true;
        lane_address = "0xa";
        risk_class = adding;
        status = ExecutionStatus.signed;
      }
      ∷ [];
  desks = record { failing = false; desks = λ a. some active; alerts = [] };
}

-- A chain that knows nothing of the attempt.
abbrev silent : ChainClient
silent = record {
  receipt = λ h. ok none;
  has_transaction = λ h. ok false;
  latest_count = λ a. ok 7;
}

abbrev out : Broadcaster
out = record { sends = λ b. true; hash_of = λ b. b; max_broadcasts = 3 }

abbrev resent : Outcome
resent = record { resolution = rebroadcast; ledger = mark_broadcast ledger attempt }

resent_before_deadline : resolve lower silent out ledger attempt (pos 50) ≡ ok resent
unfolding resolve desk_halted_reason get_desk may_sign is_reducing get_execution
resent_before_deadline = refl

resolve-IsSendable_example : IsSendable lower silent out ledger attempt (pos 50)
resolve-IsSendable_example =
    resolve-IsSendable lower silent out ledger attempt (pos 50) resent resent_before_deadline refl

resolve-Rows_example : Rows (attempt ∷ []) (mark_broadcast ledger attempt).attempts
unfolding IsCurrent
resolve-Rows_example =
    resolve-Rows lower silent out ledger attempt (pos 50) resent ((λ e. refl), tt)
      resent_before_deadline

resolve-IsDropped_example :
    (o : Outcome) × (resolve lower silent out ledger attempt (pos 100) ≡ ok o)
    × ((o.resolution ≡ conflict) ⊎ (o.resolution ≡ AttemptResolution.dropped))
    × All (IsDropped "0x1") o.ledger.attempts
unfolding is_final
resolve-IsDropped_example =
    resolve-IsDropped lower silent out ledger attempt (pos 100) 7 refl
      (record { no_receipt = λ h. refl; not_pooled = refl; count = refl }) (omega arith)

resolve_all-Kept_example :
    Kept (attempt ∷ []) (resolve_all lower silent out (pos 50) ledger).1.attempts
unfolding Distinct
resolve_all-Kept_example = resolve_all-Kept lower silent out (pos 50) ledger (tt, tt)
