-- ===== src/Examples/Desk.antt =====
-- agent/src/sense/freshness.ts, agent/src/watchdog/rules.ts and agent/src/approval/gate.ts at concrete
-- ages, lanes and answers.
use deltadesk.Prelude.{
  ℕ, ◌+◌, ◌*◌, ◌<◌, min, ◌≤◌, ◌≡◌, refl, ◌≢◌, ◌↔◌, ◌⊎◌, inr, true, false, Option, none, some, arith,
  leb,
}
use deltadesk.Prelude.Int.{ℤ, pos, ◌-ℤ◌, ◌+ℤ◌, ltb_ℤ, leb_ℤ, abs}
use deltadesk.Prelude.Floats.{Floats}
use deltadesk.Sense.Freshness.{SourceStatus, ms}
use deltadesk.Watchdog.{
  WatchdogInput, WatchdogThresholds, evaluate_watchdog, pause_and_exit, no_action, alert,
  is_dead_man, is_operator_gas, is_nav_drop, agent_alive, is_rerange_cap, is_unverified_stale,
}
use deltadesk.Watchdog.Verdict.{evaluate_watchdog-exit_iff, evaluate_watchdog-quiet_iff}
use deltadesk.Approval.Gate.{
  View, Signal, Watched, watch, poll, request_approval, ApprovalAnswer, approve, timeout,
}
use deltadesk.Approval.Gate.Watch.{watch-answers, request_approval-answers}
use deltadesk.Approval.Decision.{
  noop_approval_gate, autopilot, decide_approval, decide_approval-execute_iff,
}
use deltadesk.Executor.DeskStatus.{adding}

abbrev good : SourceStatus
good = record { ok = true; age_ms = some (ms (pos 9000)) }

-- Integers in the place of the floats.
abbrev integers : Floats
integers = record {
  Float = ℤ;
  of_ℤ = λ z. z;
  add = ◌+ℤ◌;
  sub = ◌-ℤ◌;
  mul = λ a b. a;
  div = λ a b. a;
  abs = λ a. pos (abs a);
  is_finite = λ a. true;
  lt = ltb_ℤ;
  le = leb_ℤ;
}

abbrev thresholds : WatchdogThresholds ℤ
thresholds = record {
  nav_drop_pct = pos 5;
  max_reverts = 3;
  rerange_headroom = 1;
  operator_reserve_wei = 100;
  dead_man_ms = pos 900000;
  unverified_max_ms = pos 600000;
}

-- A lane with positions whose agent is unreachable around a scheduled action.
abbrev lane : Option ℤ → WatchdogInput ℤ
lane scheduled = record {
  now_ms = pos 1000;
  has_positions = true;
  nav_usd = none;
  nav_baseline_usd = none;
  nav_market_move_usd = none;
  budgets = none;
  consecutive_reverts = 0;
  foreign_actions = 0;
  unverified_actions = 2;
  unverified_for_ms = some (pos 5);
  operator_eth_wei = none;
  agent_health = none;
  scheduled_action_at_ms = scheduled;
  telegram_pause_requested = false;
}

evaluate_watchdog-exit_iff_example :
    (evaluate_watchdog integers (lane (some (pos 2000))) thresholds).action ≡ pause_and_exit
unfolding is_dead_man is_operator_gas is_nav_drop agent_alive ◌-ℤ◌
evaluate_watchdog-exit_iff_example =
    (evaluate_watchdog-exit_iff integers (lane (some (pos 2000))) thresholds).1 (refl, refl)

-- Two actions that cannot be checked, and nothing else, never pause.
evaluate_watchdog-quiet_iff_example :
    ((evaluate_watchdog integers (lane none) thresholds).action ≡ no_action)
    ⊎ ((evaluate_watchdog integers (lane none) thresholds).action ≡ alert)
unfolding is_dead_man is_operator_gas is_nav_drop is_rerange_cap is_unverified_stale agent_alive
evaluate_watchdog-quiet_iff_example =
    (evaluate_watchdog-quiet_iff integers (lane none) thresholds).1 refl

-- The approve file appears after three time units.
abbrev answers : ℕ → View
answers t = record { approve_file = leb 3 t; cancel_file = false; row = none }

watch-answers_example :
    (w : Watched) × (watch 2 10 answers ≡ some w)
    × (w.signal ≡ poll (answers w.waited))
    × (w.waited ≤ 10)
    × ((w.timed_out ≡ true) ↔ (w.signal ≡ none))
    × (w.signal ≡ none → w.waited ≡ 10)
    × ((t : ℕ) → ((u : ℕ) → t ≤ u → poll (answers u) ≢ none) → w.waited ≤ t + 2)
watch-answers_example = watch-answers 2 10 answers (omega arith)

request_approval-answers_example :
    (answer : ApprovalAnswer) × (n : ℕ) × (request_approval 2 10 answers ≡ some answer)
    × ((k : ℕ) → k < n → poll (answers (min (k * 2) 10)) ≡ none)
    × ((answer.approved ≡ true)
        ↔ ((s : Signal) × (poll (answers (min (n * 2) 10)) ≡ some s) × (s.kind ≡ approve)))
    × ((answer.outcome ≡ timeout) ↔ (poll (answers (min (n * 2) 10)) ≡ none))
    × (answer.outcome ≡ timeout → 10 ≤ n * 2)
request_approval-answers_example = request_approval-answers 2 10 answers (omega arith)

decide_approval-execute_iff_example :
    (decide_approval noop_approval_gate autopilot adding 100 (some 60)).execute ≡ true
decide_approval-execute_iff_example =
    (decide_approval-execute_iff noop_approval_gate autopilot adding 100 (some 60)).0.1
      (inr (refl, inr (refl, omega arith, refl)))
