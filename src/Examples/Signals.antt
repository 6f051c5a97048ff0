-- ===== src/Examples/Signals.antt =====
-- agent/src/regime/gates.ts, agent/src/regime/signal.ts and the risk modes of agent/src/guard/risk.ts at
-- concrete snapshots, states and gates.
use deltadesk.Prelude.{
  subst, ◌≡◌, refl, ◌≢◌, true, false, none, some, [], ◌∷◌, filter, any, All, arith,
}
use deltadesk.Prelude.Int.{pos, ◌-ℤ◌, ◌+ℤ◌}
use deltadesk.Sense.Freshness.{SourceName, Freshness, fresh, regular, is_market_closed}
use deltadesk.Gates.{closed, halt, gate_names, same_gate}
use deltadesk.Gates.Modes.{RiskMode, risk_mode_of, risk_mode_from}
use deltadesk.Gates.Triggers.{
  Snapshot, default_options, evaluate, closed_triggers, halt_triggers, corp_action_triggers,
  stale_ref_triggers, reopen_guard_triggers, is_action_pending, is_multiplier_change,
  is_unavailable, is_fresh,
}
use deltadesk.Gates.Triggers.FailClosed.{fired, risk_mode_of-evaluate, normal-IsKnown}
use deltadesk.Gates.Signal.{
  SignalState, SignalWatch, LatestSignal, GateSignalInput, Announcement, emit, detect_gate_signal,
  declined, gates_of_mask, gates_mask_of_names, reentered,
}
use deltadesk.Gates.Signal.Mask.{gates_of_mask-gates_mask_of_names}
use deltadesk.Gates.Signal.Emission.{Allows, detect_gate_signal-emit_iff}

abbrev calm : Snapshot
calm = record {
  calendar = regular;
  reopen_kind = none;
  chain_read = none;
  is_trading_halt = some false;
  corp_actions_state = some (record { pending_for_symbol = false; next_effective_at_ms = none });
  has_fair_value = true;
}

abbrev all_fresh : SourceName → Freshness
all_fresh source = fresh

calm_is_normal :
    risk_mode_of (fired (evaluate default_options calm all_fresh (pos 0))) ≡ RiskMode.normal
unfolding risk_mode_of risk_mode_from fired evaluate closed_triggers halt_triggers
    corp_action_triggers stale_ref_triggers reopen_guard_triggers is_action_pending
    is_multiplier_change is_unavailable is_fresh is_market_closed
calm_is_normal = refl

risk_mode_of-evaluate_example :
    risk_mode_of (fired (evaluate default_options calm all_fresh (pos 0))) ≡ RiskMode.normal
unfolding closed_triggers halt_triggers corp_action_triggers stale_ref_triggers
    reopen_guard_triggers is_action_pending is_multiplier_change is_unavailable is_fresh
    is_market_closed
risk_mode_of-evaluate_example =
    (risk_mode_of-evaluate default_options calm all_fresh (pos 0)).1.1
      (refl, refl, refl, refl, refl)

normal-IsKnown_example :
    All (λ source. all_fresh source ≡ fresh) default_options.required
    × (calm.has_fair_value ≡ true)
    × (calm.corp_actions_state ≢ none)
    × (is_market_closed calm.calendar ≡ false)
    × (calm.reopen_kind ≡ none)
normal-IsKnown_example = normal-IsKnown default_options calm all_fresh (pos 0) calm_is_normal

gates_of_mask-gates_mask_of_names_example :
    gates_of_mask (gates_mask_of_names (halt ∷ closed ∷ halt ∷ []))
    ≡ filter (λ g. any (same_gate g) (halt ∷ closed ∷ halt ∷ [])) gate_names
gates_of_mask-gates_mask_of_names_example =
    gates_of_mask-gates_mask_of_names (halt ∷ closed ∷ halt ∷ [])

abbrev open_state : SignalState
open_state = record { regime_code = 1; gates_mask = 0 }

abbrev stale_state : SignalState
stale_state = record { regime_code = 1; gates_mask = 8 }

abbrev flapping : SignalWatch
flapping = record { key = stale_state; since_ms = pos 100; settled = true; away = none }

abbrev refused : LatestSignal
refused = record { to_key = open_state; status = declined; created_at_ms = pos 50 }

abbrev asking : GateSignalInput
asking = record {
  enabled = true;
  halted = false;
  in_flight = 0;
  state = stale_state;
  settled = true;
  watch = flapping;
  now_ms = pos 200;
  last_emitted = some open_state;
  latest = some refused;
  signed_1h = 1;
  max_per_hour = 6;
  min_dwell_ms = pos 60;
  retry_ms = pos 1000;
}

abbrev announced : Announcement
announced = record { from_state = some open_state; to_state = stale_state; at_ms = pos 100 }

refused-Allows : (latest : LatestSignal) → some refused ≡ some latest → Allows asking latest
unfolding reentered ◌-ℤ◌ ◌+ℤ◌
refused-Allows latest h =
    let same : refused ≡ latest = ground arith in
    let first : Allows asking refused =
      (λ e. ground arith, λ e. ground arith, omega arith, λ e away. ground arith) in
    subst (Allows asking) same first

detect_gate_signal-emit_iff_example : detect_gate_signal asking ≡ emit announced
detect_gate_signal-emit_iff_example =
    (detect_gate_signal-emit_iff asking announced).1
      (refl, refl, refl, refl, refl, refused-Allows, omega arith, refl, refl, refl)
