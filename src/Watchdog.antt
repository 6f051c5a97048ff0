-- ===== src/Watchdog.antt =====
-- agent/src/watchdog/rules.ts and its types: the watchdog's verdict on a lane and the transactions it
-- implies. Times are integers of milliseconds, counts natural numbers, NAVs floats. A trigger is its
-- name, without the text that describes it.
pub mod Verdict
use mathlib.Core.Option.{get_or}
use deltadesk.Prelude.{
  ℕ, ◌≡◌, Bool, true, false, not, ◌&&◌, ◌||◌, Option, none, some, List, [], ◌∷◌, ◌++◌, any, every,
  ltb, leb, if◌then◌else◌,
}
use deltadesk.Prelude.Int.{ℤ, pos, ◌-ℤ◌, leb_ℤ, abs}
use deltadesk.Prelude.Floats.{Floats}

pub data WatchdogTriggerName : Type 0 where
  nav_drop rerange_cap revert_streak foreign_action unverified_action : WatchdogTriggerName
  unverified_stale operator_gas dead_man telegram_pause : WatchdogTriggerName

pub record HealthView : Type 0 where
  pub last_tick_age_ms : Option ℤ
  pub lock_held : Bool

pub record LaneBudgets : Type 0 where
  pub reranges_1h_left : ℕ
  pub reranges_24h_left : ℕ

pub record WatchdogThresholds (Float : Type 0) : Type 0 where
  pub nav_drop_pct : Float
  pub max_reverts : ℕ
  pub rerange_headroom : ℕ
  pub operator_reserve_wei : ℕ
  pub dead_man_ms : ℤ
  pub unverified_max_ms : ℤ

pub record WatchdogInput (Float : Type 0) : Type 0 where
  pub now_ms : ℤ
  pub has_positions : Bool
  pub nav_usd : Option Float
  pub nav_baseline_usd : Option Float
  pub nav_market_move_usd : Option Float
  pub budgets : Option LaneBudgets
  pub consecutive_reverts : ℕ
  pub foreign_actions : ℕ
  pub unverified_actions : ℕ
  pub unverified_for_ms : Option ℤ
  pub operator_eth_wei : Option ℕ
  pub agent_health : Option HealthView
  pub scheduled_action_at_ms : Option ℤ
  pub telegram_pause_requested : Bool

pub data WatchdogAction : Type 0 where
  no_action alert pause pause_and_exit : WatchdogAction

pub record WatchdogVerdict : Type 0 where
  pub action : WatchdogAction
  pub triggers : List WatchdogTriggerName

abbrev pub heartbeat_stale_ms : ℤ
heartbeat_stale_ms = pos 120000

unfoldable pub exiting : WatchdogTriggerName → Bool
exiting nav_drop = true
exiting operator_gas = true
exiting dead_man = true
exiting _ = false

unfoldable pub alert_only : WatchdogTriggerName → Bool
alert_only unverified_action = true
alert_only _ = false

unfoldable pub agent_alive : Option HealthView → Bool
agent_alive none = false
agent_alive (some h) = h.lock_held && elim h.last_tick_age_ms as (λ _. Bool) [
  | none ↦ false
  | some age ↦ leb_ℤ age heartbeat_stale_ms
]

-- `if (test) triggers.push(name)`.
abbrev pub push_if : Bool → WatchdogTriggerName → List WatchdogTriggerName
push_if test name = if test then name ∷ [] else []

module _ (F : Floats) where
  -- The drop against the market-explained value of the baseline, in percent of the baseline.
  unfoldable pub is_nav_drop : WatchdogInput F.Float → WatchdogThresholds F.Float → Bool
  is_nav_drop input t = elim input.nav_usd as (λ _. Bool) [
    | none ↦ false
    | some nav ↦ elim input.nav_baseline_usd as (λ _. Bool) [
      | none ↦ false
      | some baseline ↦
          let expected = F.add baseline (get_or input.nav_market_move_usd (F.of_ℤ (pos 0))) in
          let drop_pct = F.mul (F.div (F.sub expected nav) baseline) (F.of_ℤ (pos 100)) in
          F.lt (F.of_ℤ (pos 0)) baseline && F.lt t.nav_drop_pct drop_pct
    ]
  ]

unfoldable pub is_rerange_cap : Option LaneBudgets → ℕ → Bool
is_rerange_cap none headroom = false
is_rerange_cap (some b) headroom =
    leb b.reranges_1h_left headroom || leb b.reranges_24h_left headroom

-- An action has stayed unverified too long while the agent is down.
unfoldable pub is_unverified_stale : Option ℤ → ℤ → Option HealthView → Bool
unfolding agent_alive
is_unverified_stale none max_ms health = false
is_unverified_stale (some age) max_ms health = leb_ℤ max_ms age && not (agent_alive health)

unfoldable pub is_operator_gas : Option ℕ → ℕ → Bool
is_operator_gas none reserve = false
is_operator_gas (some wei) reserve = ltb wei reserve

unfoldable pub is_dead_man : Option ℤ → ℤ → ℤ → Option HealthView → Bool
unfolding agent_alive
is_dead_man none now_ms dead_man_ms health = false
is_dead_man (some at) now_ms dead_man_ms health =
    leb_ℤ (pos (abs (now_ms -ℤ at))) dead_man_ms && not (agent_alive health)

-- The action of a list of triggers.
unfoldable pub action_of : List WatchdogTriggerName → Bool → WatchdogAction
unfolding alert_only exiting
action_of [] has_positions = no_action
action_of (x ∷ xs) has_positions =
    if every alert_only (x ∷ xs)
    then alert
    else if has_positions && any exiting (x ∷ xs)
    then pause_and_exit
    else pause

module _ (F : Floats) where
  unfoldable pub triggers_of :
      WatchdogInput F.Float → WatchdogThresholds F.Float → List WatchdogTriggerName
  unfolding is_nav_drop is_rerange_cap is_unverified_stale is_operator_gas is_dead_man
  triggers_of input t =
      let unverified = ltb 0 input.unverified_actions in
      let is_stale =
        is_unverified_stale input.unverified_for_ms t.unverified_max_ms input.agent_health in
      push_if (is_nav_drop F input t) nav_drop
      ++ push_if (is_rerange_cap input.budgets t.rerange_headroom) rerange_cap
      ++ push_if (leb t.max_reverts input.consecutive_reverts) revert_streak
      ++ push_if (ltb 0 input.foreign_actions) foreign_action
      ++ push_if (unverified && is_stale) unverified_stale
      ++ push_if (unverified && not is_stale) unverified_action
      ++ push_if (is_operator_gas input.operator_eth_wei t.operator_reserve_wei) operator_gas
      ++ push_if
          (is_dead_man input.scheduled_action_at_ms input.now_ms t.dead_man_ms input.agent_health)
          dead_man
      ++ push_if input.telegram_pause_requested telegram_pause

  unfoldable pub evaluate_watchdog :
      WatchdogInput F.Float → WatchdogThresholds F.Float → WatchdogVerdict
  unfolding triggers_of action_of
  evaluate_watchdog input t =
      let triggers = triggers_of input t in
      record { action = action_of triggers input.has_positions; triggers = triggers }

pub data PlannedAction : Type 0 where
  send_pause send_exit_all : PlannedAction

-- The transactions of an action for a lane that is paused and has positions, or not.
unfoldable pub planned_actions : WatchdogAction → Bool → Bool → List PlannedAction
planned_actions no_action paused has_positions = []
planned_actions alert paused has_positions = []
planned_actions pause paused has_positions = if paused then [] else send_pause ∷ []
planned_actions pause_and_exit paused has_positions =
    (if paused then [] else send_pause ∷ []) ++ (if has_positions then send_exit_all ∷ [] else [])
