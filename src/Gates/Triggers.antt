-- ===== src/Gates/Triggers.antt =====
-- agent/src/regime/gates.ts and the fields of a snapshot it reads: which gates trigger on a tick. Times
-- are integers of milliseconds; a trigger is its gate and whether it fired, without its text.
pub mod FailClosed
use deltadesk.Prelude.{
  ℕ, ◌*◌, ◌≡◌, refl, ◌≢◌, ◌↔◌, ◌⊎◌, inl, inr, Bool, true, false, not, ◌&&◌, ◌||◌, Option, none,
  some, List, [], ◌∷◌, ◌++◌, any, every, ltb, ◌==◌, if◌then◌else◌, arith,
}
use deltadesk.Prelude.Int.{ℤ, pos, ◌-ℤ◌, leb_ℤ, ltb_ℤ, abs}
use deltadesk.Sense.Freshness.{
  SourceName, chain, hl, rh, k, corp_actions, Freshness, fresh, stale, unavailable, RegimeName,
  is_market_closed,
}
use deltadesk.Gates.{
  GateName, closed, halt, corp_action, stale_ref, reopen_guard, bound_pinned, wrapper_premium,
  event, gate_implemented, gate_effect,
}

pub data ReopenKind : Type 0 where
  weekday_open wake : ReopenKind

pub record CorpActionsState : Type 0 where
  pub pending_for_symbol : Bool
  pub next_effective_at_ms : Option ℤ

-- `effective_at` is in seconds.
pub record ChainRead : Type 0 where
  pub risk_adding_open : Bool
  pub effective_at : Option ℕ

pub record Snapshot : Type 0 where
  pub calendar : RegimeName
  pub reopen_kind : Option ReopenKind
  pub chain_read : Option ChainRead
  pub is_trading_halt : Option Bool
  pub corp_actions_state : Option CorpActionsState
  pub has_fair_value : Bool

pub record GateEvaluatorOptions : Type 0 where
  pub horizon_ms : ℤ
  pub multiplier_window_ms : ℕ
  pub required : List SourceName

abbrev pub default_options : GateEvaluatorOptions
default_options = record {
  horizon_ms = pos (24 * 3600000);
  multiplier_window_ms = 24 * 3600000;
  required = chain ∷ hl ∷ k ∷ rh ∷ [];
}

unfoldable pub is_fresh : Freshness → Bool
is_fresh fresh = true
is_fresh _ = false

unfoldable pub is_unavailable : Freshness → Bool
is_unavailable unavailable = true
is_unavailable _ = false

unfoldable pub closed_triggers : Snapshot → Bool
closed_triggers s =
    is_market_closed s.calendar
    || elim s.chain_read as (λ _. Bool) [ none ↦ false | some c ↦ not c.risk_adding_open ]

unfoldable pub halt_triggers : Snapshot → Bool
halt_triggers s = elim s.is_trading_halt as (λ _. Bool) [ none ↦ false | some b ↦ b ]

unfoldable pub is_action_pending : ℤ → ℤ → CorpActionsState → Bool
is_action_pending horizon_ms now_ms state =
    state.pending_for_symbol && elim state.next_effective_at_ms as (λ _. Bool) [
      | none ↦ true
      | some at ↦ leb_ℤ (at -ℤ now_ms) horizon_ms
    ]

unfoldable pub is_multiplier_change : ℕ → ℤ → Option ChainRead → Bool
is_multiplier_change window_ms now_ms none = false
is_multiplier_change window_ms now_ms (some c) = elim c.effective_at as (λ _. Bool) [
  | none ↦ false
  | some at ↦ not (at == 0) && ltb (abs (now_ms -ℤ pos (at * 1000))) window_ms
]

unfoldable pub corp_action_triggers :
    GateEvaluatorOptions → Snapshot → (SourceName → Freshness) → ℤ → Bool
unfolding is_action_pending is_multiplier_change is_unavailable
corp_action_triggers opts s freshness now_ms =
    elim s.corp_actions_state as (λ _. Bool) [
      | none ↦ true
      | some state ↦
          is_unavailable (freshness corp_actions) || is_action_pending opts.horizon_ms now_ms state
    ]
    || is_multiplier_change opts.multiplier_window_ms now_ms s.chain_read

unfoldable pub stale_ref_triggers :
    GateEvaluatorOptions → Snapshot → (SourceName → Freshness) → Bool
unfolding is_fresh
stale_ref_triggers opts s freshness =
    any (λ source. not (is_fresh (freshness source))) opts.required || not s.has_fair_value

unfoldable pub reopen_guard_triggers : Snapshot → Bool
reopen_guard_triggers s = elim s.reopen_kind as (λ _. Bool) [ none ↦ false | some kind ↦ true ]

unfoldable pub evaluate :
    GateEvaluatorOptions → Snapshot → (SourceName → Freshness) → ℤ → List (GateName × Bool)
unfolding closed_triggers halt_triggers corp_action_triggers stale_ref_triggers
    reopen_guard_triggers
evaluate opts s freshness now_ms =
    (closed, closed_triggers s)
    ∷ (halt, halt_triggers s)
    ∷ (corp_action, corp_action_triggers opts s freshness now_ms)
    ∷ (stale_ref, stale_ref_triggers opts s freshness)
    ∷ (reopen_guard, reopen_guard_triggers s)
    ∷ (bound_pinned, false)
    ∷ (wrapper_premium, false)
    ∷ (event, false)
    ∷ []
