-- ===== src/Gates/Triggers/FailClosed.antt =====
-- agent/src/regime/gates.ts with agent/src/guard/risk.ts: which snapshots leave the desk free to add risk.
use deltadesk.Prelude.{
  ◌≡◌, ◌≢◌, ◌↔◌, Bool, true, false, not, ◌||◌, none, some, List, [], ◌∷◌, any, All, if◌then◌else◌,
  arith,
}
use deltadesk.Prelude.Int.{ℤ}
use deltadesk.Sense.Freshness.{SourceName, Freshness, fresh, is_market_closed}
use deltadesk.Gates.{
  GateName, closed, halt, corp_action, stale_ref, reopen_guard, bound_pinned, wrapper_premium,
  event,
}
use deltadesk.Gates.Modes.{RiskMode, risk_mode_from, risk_mode_of}
use deltadesk.Gates.Triggers.{
  Snapshot, GateEvaluatorOptions, evaluate, closed_triggers, halt_triggers, corp_action_triggers,
  stale_ref_triggers, reopen_guard_triggers, is_fresh,
}

-- The gates that fired.
unfoldable pub fired : List (GateName × Bool) → List GateName
fired [] = []
fired ((g, b) ∷ rest) = let later = fired rest in if b then g ∷ later else later

five : Bool → Bool → Bool → Bool → Bool → List GateName
unfolding fired
five a b c d e = fired (
    (closed, a)
    ∷ (halt, b)
    ∷ (corp_action, c)
    ∷ (stale_ref, d)
    ∷ (reopen_guard, e)
    ∷ (bound_pinned, false)
    ∷ (wrapper_premium, false)
    ∷ (event, false)
    ∷ [])

risk_mode_of-five :
    (a b c d e : Bool)
    → risk_mode_of (five a b c d e) ≡ (
        if b
        then RiskMode.flat
        else if a || c || d || e
        then RiskMode.reduce_only
        else RiskMode.normal)
unfolding five risk_mode_of risk_mode_from
risk_mode_of-five a b c d e = ground arith

-- The gates that fire on a snapshot force a flat desk just when a trading halt is reported, and leave
-- it free to add risk just when none of the five armed gates triggers.
pub risk_mode_of-evaluate :
    (opts : GateEvaluatorOptions) (s : Snapshot) (freshness : SourceName → Freshness) (now_ms : ℤ)
    → let mode = risk_mode_of (fired (evaluate opts s freshness now_ms)) in
      ((mode ≡ RiskMode.flat) ↔ (s.is_trading_halt ≡ some true))
      × ((mode ≡ RiskMode.normal) ↔ (
          (closed_triggers s ≡ false)
          × (halt_triggers s ≡ false)
          × (corp_action_triggers opts s freshness now_ms ≡ false)
          × (stale_ref_triggers opts s freshness ≡ false)
          × (reopen_guard_triggers s ≡ false)))
unfolding evaluate five halt_triggers
risk_mode_of-evaluate opts s freshness now_ms =
    rw
      (risk_mode_of-five (closed_triggers s) (halt_triggers s)
        (corp_action_triggers opts s freshness now_ms) (stale_ref_triggers opts s freshness)
        (reopen_guard_triggers s))
      ((λ e. ground arith, λ e. ground arith), (λ e. ground arith, λ e. ground arith))

all_fresh :
    (freshness : SourceName → Freshness) (sources : List SourceName)
    → any (λ source. not (is_fresh (freshness source))) sources ≡ false
    → All (λ source. freshness source ≡ fresh) sources
unfolding is_fresh
all_fresh freshness [] e = tt
all_fresh freshness (source ∷ rest) e = (ground arith, all_fresh freshness rest (ground arith))

-- A snapshot leaves the desk free to add risk only if every required source is FRESH, there is a fair
-- value, the corporate actions are known, the market is not closed and no reopening window is open.
pub normal-IsKnown :
    (opts : GateEvaluatorOptions) (s : Snapshot) (freshness : SourceName → Freshness) (now_ms : ℤ)
    → risk_mode_of (fired (evaluate opts s freshness now_ms)) ≡ RiskMode.normal
    → All (λ source. freshness source ≡ fresh) opts.required
      × (s.has_fair_value ≡ true)
      × (s.corp_actions_state ≢ none)
      × (is_market_closed s.calendar ≡ false)
      × (s.reopen_kind ≡ none)
unfolding stale_ref_triggers corp_action_triggers closed_triggers reopen_guard_triggers
normal-IsKnown opts s freshness now_ms e =
    let (h_closed, h_halt, h_corp, h_stale, h_reopen) =
      (risk_mode_of-evaluate opts s freshness now_ms).1.0 e in
    (
      all_fresh freshness opts.required (ground arith),
      ground arith,
      λ h. ground arith,
      ground arith,
      ground arith,
    )
