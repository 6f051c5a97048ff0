-- ===== src/Watchdog/Verdict.antt =====
-- agent/src/watchdog/rules.ts: which conditions make the verdict pause and exit, and what is sent.
use deltadesk.Prelude.{
  ◌≡◌, refl, ◌↔◌, ◌⊎◌, Bool, true, false, not, ◌&&◌, ◌||◌, List, [], ◌∷◌, ◌++◌, any, every, ltb,
  leb, arith, sym, subst,
}
use deltadesk.Prelude.Floats.{Floats}
use deltadesk.Watchdog.{
  WatchdogTriggerName, WatchdogInput, WatchdogThresholds, WatchdogAction, no_action, alert, pause,
  pause_and_exit, nav_drop, rerange_cap, revert_streak, foreign_action, unverified_stale,
  unverified_action, operator_gas, dead_man, telegram_pause, exiting, alert_only, push_if,
  is_nav_drop, is_rerange_cap, is_unverified_stale, is_operator_gas, is_dead_man, action_of,
  triggers_of, evaluate_watchdog, send_pause, send_exit_all, planned_actions,
}

-- A trigger that exits is never one that only alerts.
exiting-not_alert_only :
    (xs : List WatchdogTriggerName) → any exiting xs ≡ true → every alert_only xs ≡ false
unfolding exiting alert_only
exiting-not_alert_only [] e = ground arith
exiting-not_alert_only (x ∷ xs) e = let later = exiting-not_alert_only xs in ground arith

action_of-exit_iff :
    (xs : List WatchdogTriggerName) (has_positions : Bool)
    → (action_of xs has_positions ≡ pause_and_exit)
      ↔ ((has_positions ≡ true) × (any exiting xs ≡ true))
unfolding action_of
action_of-exit_iff [] has_positions = (λ e. ground arith, λ e. ground arith)
action_of-exit_iff (x ∷ xs) has_positions =
    let apart = exiting-not_alert_only (x ∷ xs) in (λ e. ground arith, λ e. ground arith)

pauses : WatchdogTriggerName → Bool
pauses x = not (alert_only x)

every-alert_only : (xs : List WatchdogTriggerName) → every alert_only xs ≡ not (any pauses xs)
unfolding pauses
every-alert_only [] = refl
every-alert_only (x ∷ xs) = let later = every-alert_only xs in ground arith

action_of-quiet_iff :
    (xs : List WatchdogTriggerName) (has_positions : Bool)
    → ((action_of xs has_positions ≡ no_action) ⊎ (action_of xs has_positions ≡ alert))
      ↔ (any pauses xs ≡ false)
unfolding action_of
action_of-quiet_iff [] has_positions = (λ e. ground arith, λ e. ground arith)
action_of-quiet_iff (x ∷ xs) has_positions =
    let same = every-alert_only (x ∷ xs) in (λ e. ground arith, λ e. ground arith)

push_all : (a b c d e f g h i : Bool) → List WatchdogTriggerName
push_all a b c d e f g h i =
    push_if a nav_drop
    ++ push_if b rerange_cap
    ++ push_if c revert_streak
    ++ push_if d foreign_action
    ++ push_if e unverified_stale
    ++ push_if f unverified_action
    ++ push_if g operator_gas
    ++ push_if h dead_man
    ++ push_if i telegram_pause

any-exiting : (a b c d e f g h i : Bool) → any exiting (push_all a b c d e f g h i) ≡ a || g || h
unfolding push_all exiting
any-exiting a b c d e f g h i = ground arith

any-pauses :
    (a b c d e f g h i : Bool)
    → any pauses (push_all a b c d e f g h i) ≡ a || b || c || d || e || g || h || i
unfolding push_all pauses alert_only
any-pauses a b c d e f g h i = ground arith

module _ (F : Floats) (input : WatchdogInput F.Float) (t : WatchdogThresholds F.Float) where
  drops : Bool
  drops = is_nav_drop F input t

  no_gas : Bool
  no_gas = is_operator_gas input.operator_eth_wei t.operator_reserve_wei

  dies : Bool
  dies = is_dead_man input.scheduled_action_at_ms input.now_ms t.dead_man_ms input.agent_health

  capped : Bool
  capped = is_rerange_cap input.budgets t.rerange_headroom

  reverting : Bool
  reverting = leb t.max_reverts input.consecutive_reverts

  is_foreign : Bool
  is_foreign = ltb 0 input.foreign_actions

  is_stale : Bool
  is_stale =
      ltb 0 input.unverified_actions
      && is_unverified_stale input.unverified_for_ms t.unverified_max_ms input.agent_health

  is_unverified : Bool
  is_unverified =
      ltb 0 input.unverified_actions
      && not (is_unverified_stale input.unverified_for_ms t.unverified_max_ms input.agent_health)

  triggers : List WatchdogTriggerName
  triggers =
      push_all drops capped reverting is_foreign is_stale is_unverified no_gas dies
        input.telegram_pause_requested

  triggers_of-push_all : triggers_of F input t ≡ triggers
  unfolding triggers_of push_all triggers drops no_gas dies capped reverting is_foreign is_stale
      is_unverified
  triggers_of-push_all = refl

  -- The verdict is to pause and exit just when the lane has positions, and the NAV dropped, the
  -- operator is short of gas or the dead-man switch fired.
  pub evaluate_watchdog-exit_iff : ((evaluate_watchdog F input t).action ≡ pause_and_exit) ↔ (
      (input.has_positions ≡ true)
      × ((is_nav_drop F input t
            || is_operator_gas input.operator_eth_wei t.operator_reserve_wei
            || is_dead_man input.scheduled_action_at_ms input.now_ms t.dead_man_ms
                input.agent_health)
          ≡ true))
  unfolding evaluate_watchdog drops no_gas dies triggers
  evaluate_watchdog-exit_iff =
      let acts : List WatchdogTriggerName → WatchdogAction =
        λ xs. action_of xs input.has_positions in
      subst
        (λ xs.
          (acts xs ≡ pause_and_exit)
          ↔ ((input.has_positions ≡ true) × ((drops || no_gas || dies) ≡ true)))
        (sym triggers_of-push_all)
        (subst (λ b. (acts triggers ≡ pause_and_exit) ↔ ((input.has_positions ≡ true) × (b ≡ true)))
          (any-exiting drops capped reverting is_foreign is_stale is_unverified no_gas dies
            input.telegram_pause_requested)
          (action_of-exit_iff triggers input.has_positions))

  -- A verdict sends no pause, being nothing or an alert, just when none of these holds: a NAV drop, a
  -- rerange budget at the headroom, a streak of reverts, a foreign action, an action unverified too
  -- long while the agent is down, too little gas, a dead agent around a scheduled action, a request
  -- to pause.
  pub evaluate_watchdog-quiet_iff :
      (((evaluate_watchdog F input t).action ≡ no_action)
        ⊎ ((evaluate_watchdog F input t).action ≡ alert))
      ↔ ((is_nav_drop F input t
            || is_rerange_cap input.budgets t.rerange_headroom
            || leb t.max_reverts input.consecutive_reverts
            || ltb 0 input.foreign_actions
            || (ltb 0 input.unverified_actions
                && is_unverified_stale input.unverified_for_ms t.unverified_max_ms
                    input.agent_health)
            || is_operator_gas input.operator_eth_wei t.operator_reserve_wei
            || is_dead_man input.scheduled_action_at_ms input.now_ms t.dead_man_ms
                input.agent_health
            || input.telegram_pause_requested)
          ≡ false)
  unfolding evaluate_watchdog drops no_gas dies capped reverting is_foreign is_stale triggers
  evaluate_watchdog-quiet_iff =
      let acts : List WatchdogTriggerName → WatchdogAction =
        λ xs. action_of xs input.has_positions in
      subst
        (λ xs. ((acts xs ≡ no_action) ⊎ (acts xs ≡ alert)) ↔ (
          (drops || capped || reverting || is_foreign || is_stale || no_gas || dies
            || input.telegram_pause_requested)
          ≡ false))
        (sym triggers_of-push_all)
        (subst (λ b. ((acts triggers ≡ no_action) ⊎ (acts triggers ≡ alert)) ↔ (b ≡ false))
          (any-pauses drops capped reverting is_foreign is_stale is_unverified no_gas dies
            input.telegram_pause_requested)
          (action_of-quiet_iff triggers input.has_positions))

-- An exit alone is sent just for a verdict to pause and exit on a paused lane with positions; a pause
-- and then an exit just for that verdict on a lane with positions that is not paused; a pause alone
-- just on a lane that is not paused, for a verdict to pause, or to pause and exit without positions.
pub planned_actions_order :
    (decided : WatchdogAction) (paused has_positions : Bool)
    → let sent = planned_actions decided paused has_positions in
      ((sent ≡ send_exit_all ∷ [])
        ↔ ((decided ≡ pause_and_exit) × (has_positions ≡ true) × (paused ≡ true)))
      × ((sent ≡ send_pause ∷ send_exit_all ∷ [])
          ↔ ((decided ≡ pause_and_exit) × (has_positions ≡ true) × (paused ≡ false)))
      × ((sent ≡ send_pause ∷ []) ↔ (
          (paused ≡ false)
          × ((decided ≡ pause) ⊎ ((decided ≡ pause_and_exit) × (has_positions ≡ false)))))
unfolding planned_actions
planned_actions_order decided paused has_positions = (
  (λ e. ground arith, λ e. ground arith),
  (λ e. ground arith, λ e. ground arith),
  (λ e. ground arith, λ e. ground arith),
)
