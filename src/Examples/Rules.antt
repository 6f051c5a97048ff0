-- ===== src/Examples/Rules.antt =====
-- The theorems on the guard at one step: a rerange that an overlay has tightened.
use Prim.Native.String.{String}
use mathlib.Core.List.{Memᴰ}
use deltadesk.Prelude.{
  ℕ, zero, suc, ◌++◌, ◌≡◌, refl, ◌↔◌, true, false, List, [], ◌∷◌, none, some, All, arith,
}
use deltadesk.Prelude.Int.{ℤ, pos, ◌≤ℤ◌, ◌+ℤ◌, ◌-ℤ◌, leb_ℤ, ltb_ℤ, abs}
use deltadesk.Prelude.Floats.{Floats}
use deltadesk.Bands.{shape_ok, fence_allows_from, fence_allows}
use deltadesk.Units.Spacing.{is_aligned}
use deltadesk.Gates.Modes.{normal}
use deltadesk.Sense.Freshness.{fresh}
use deltadesk.Executor.DeskStatus.{RiskClass, adding}
use deltadesk.Actions.{
  lane_a, Rerange, DeskAction, rerange, lane_of, risk_class_of, class_of_ranges, is_adding_class,
  adds_risk,
}
use deltadesk.Overlay.{DeskPlan, cents}
use deltadesk.Overlay.Stage.{llm, checked}
use deltadesk.Guard.{shares_of}
use deltadesk.Guard.Input.{GuardInput, ChainRead, paper}
use deltadesk.Guard.Rules.{Texts}
use deltadesk.Guard.Rules as R
use deltadesk.Guard.Rules.Limits as L
use deltadesk.Guard.Rules.Steps as S
use deltadesk.Units.Money.{usd6_to_cents_floor, usd6_to_cents_ceil}
use deltadesk.Guard.Check.{GuardRule, GuardDecision, execute, check_guard, outcome}
use deltadesk.Guard.Check as G
use deltadesk.Guard.Authority.{check_guard-execute_iff}
use deltadesk.Guard.Promises.{IsCapped, execute-IsCapped}
use deltadesk.Guard.Placed.{IsPlaced, execute-IsPlaced}
use deltadesk.Guard.Origin.{HasRerangeShares, execute-origin}

-- Integers in the place of the floats, and texts that are compared as they stand.
abbrev integers : Floats
integers = record {
  Float = ℤ;
  of_ℤ = λ z. z;
  add = ◌+ℤ◌;
  sub = ◌-ℤ◌;
  mul = λ a b. a;
  div = λ a b. a;
  abs = λ a. pos (abs a);
  is_finite = λ a. true;
  lt = ltb_ℤ;
  le = leb_ℤ;
}

abbrev number : String → ℤ
number s = pos 0

abbrev texts : Texts
texts = record {
  lower = λ s. s;
  units = λ s. 10;
  starts_with = λ s t. true;
  has_raw_address = λ s. false;
  is_decimal = λ s. true;
}

abbrev move : ℕ → Rerange
move share = record {
  lane = lane_a;
  ranges =
      record {
        range = record { tick_lower = pos 860; tick_upper = pos 960 };
        share0_bps = pos share;
        share1_bps = pos 0;
      }
      ∷ [];
  expected_tick = pos 850;
  max_tick_delta = pos 2;
}

abbrev plan : ℕ → ℕ → DeskPlan
plan share notional = record {
  lane = lane_a;
  lane_address = "0xa";
  risk_mode = normal;
  actions = rerange (move share) ∷ [];
  notional_cents = cents (pos notional);
  pool_tick = some (pos 850);
  is_initial_mint = true;
}

abbrev read : ChainRead
read = record {
  pool_tick = pos 851;
  lane_state = record {
    lane_address = "0xa";
    owner = "0xb";
    operator = "0xc";
    paused = false;
    risk_adding_open = true;
    ref_tick = record { tick = pos 850; band_ticks = pos 20; code = 0 };
    caps = record {
      max_deploy_usd6 = 500000000;
      turnover_usd6_per_day = 1000000000;
      max_tick_delta = pos 10;
      min_width_ticks = pos 10;
      max_width_ticks = pos 1000;
      max_deadline_ahead = pos 60;
      max_ranges = 4;
    };
    budgets = record {
      turnover_available_usd6 = 900000000;
      reranges_1h_left = 2;
      reranges_24h_left = 8;
      next_rerange_at = pos 0;
    };
    position0 = 0;
    position1 = 0;
  };
  funds = record {
    sqrt_price = 1;
    position_details = [];
    balance0 = 400000000;
    balance1 = 0;
    nvda = none;
    usdg = none;
  };
  operator_eth_wei = pos 1000;
}

abbrev zeros : ℕ → List ℕ
zeros zero = []
zeros (suc n) = 0 ∷ zeros n

abbrev input : RiskClass → DeskAction → GuardInput integers
input class action = record {
  decision = zeros 26;
  step = 0;
  action = action;
  risk_class = class;
  meta = some (record { decision_id = zeros 16 ++ 1 ∷ zeros 15; deadline = pos 30 });
  expected = record { lane = lane_a; lane_address = "0xa"; chain_id = 1; signer_address = "0xc" };
  snapshot = record {
    lane = lane_a;
    lane_address = "0xa";
    chain_id = 1;
    signer_address = "0xc";
    taken_at_ms = pos 0;
    chain = some read;
  };
  regime = record { risk_mode = normal; active_gates = [] };
  deterministic = plan 6000 30000;
  final_plan = plan 5000 20000;
  plan_critic = record { approve = true; reason = "" };
  overlay = record {
    source = llm;
    proposal = none;
    critic = some (record { approve = true; reason = "" });
    tighten = checked [];
    applied = true;
  };
  llm_strings = [];
  tx = some (record { to = "0xa"; data_text = ""; value = 0; selector = "0x916bb025" });
  operator_selectors = "0x916bb025" ∷ [];
  notional_cents = cents (pos 20000);
  limits = record {
    chain_id = 1;
    tick_spacing = pos 10;
    max_action_cents = pos 40000;
    daily_turnover_cents = pos 90000;
    gas_reserve_wei = pos 100;
    max_snapshot_age_ms = pos 3000;
    max_sim_block_age = pos 20;
    deadline_min_ahead_sec = pos 5;
    deadline_max_ahead_sec = pos 60;
    hurdle_multiple = pos 2;
    agent_reranges = record { per_hour = 4; per_day = 20; min_interval_sec = 300 };
  };
  flags = record { armed = true; dry_run = false; hl_mode = paper; hl_armed = false };
  turnover_db_cents_24h = cents (pos 0);
  idempotency = record { db_has_step = false; onchain_used_at = some 0 };
  freshness = λ s. fresh;
  agent_rerange = record {
    last_rerange_at_ms = none;
    count_1h = 0;
    count_24h = 0;
    max_per_hour = 4;
    max_per_day = 20;
    min_interval_ms = 0;
  };
  hurdle = none;
  simulation = some (record {
    is_ok = true;
    has_error = false;
    from_address = "0xc";
    block_number = pos 100;
    latest_block_number = pos 105;
    has_rerange = true;
  });
  estimated_gas_cost_wei = some (pos 10);
  in_flight = cents (pos 0);
  signal_rate = none;
  now_ms = pos 1000;
}

abbrev tightened_step : DeskAction
tightened_step = rerange (move 5000)

-- Every rule passes.
passing : (r : GuardRule) → outcome number texts (input adding tightened_step) r ≡ true
unfolding R.action_none R.critic_approval R.allowlist R.amount_positive L.max_action_usd
    L.daily_turnover L.idempotency_rule L.arm_flag L.snapshot_provenance L.ref_freshness
    L.gas_reserve L.lane_solvency S.regime_gate S.rerange_rate S.cost_hurdle S.tick_validity
    S.fence_precheck S.overlay_tighten_only S.simulation_ok S.signer_binding S.lane_not_paused
    S.single_in_flight S.deadline_sane S.hl_order S.signal_policy lane_of ◌+ℤ◌ ◌-ℤ◌
    usd6_to_cents_floor usd6_to_cents_ceil risk_class_of class_of_ranges is_adding_class adds_risk
    shape_ok is_aligned fence_allows_from fence_allows
passing G.action_none = refl
passing G.critic_approval = refl
passing G.allowlist = refl
passing G.amount_positive = refl
passing G.max_action_usd = refl
passing G.daily_turnover = refl
passing G.idempotency = refl
passing G.arm_flag = refl
passing G.snapshot_provenance = refl
passing G.ref_freshness = refl
passing G.gas_reserve = refl
passing G.lane_solvency = refl
passing G.regime_gate = refl
passing G.rerange_rate = refl
passing G.cost_hurdle = refl
passing G.tick_validity = refl
passing G.fence_precheck = refl
passing G.overlay_tighten_only = refl
passing G.simulation_ok = refl
passing G.signer_binding = refl
passing G.lane_not_paused = refl
passing G.single_in_flight = refl
passing G.deadline_sane = refl
passing G.hl_order = refl
passing G.signal_policy = refl
passing G.dry_run = refl

executes : (check_guard number texts (input adding tightened_step)).decision ≡ execute
executes = (check_guard-execute_iff number texts (input adding tightened_step)).1 (passing, refl)

check_guard-execute_iff_example :
    ((check_guard number texts (input adding tightened_step)).decision ≡ execute) ↔ (
      ((r : GuardRule) → outcome number texts (input adding tightened_step) r ≡ true)
      × (false ≡ false))
check_guard-execute_iff_example = check_guard-execute_iff number texts (input adding tightened_step)

execute-IsCapped_example :
    (n : ℕ) × (c : ChainRead) × IsCapped number texts (input adding tightened_step) n c
unfolding R.is_adding
execute-IsCapped_example =
    execute-IsCapped number texts (input adding tightened_step) executes refl refl

execute-IsPlaced_example :
    (c : ChainRead) × (some read ≡ some c)
    × (pos 850 -ℤ pos 2 ≤ℤ c.pool_tick)
    × (c.pool_tick ≤ℤ pos 850 +ℤ pos 2)
    × All (IsPlaced (pos 10) (move 5000) c) (move 5000).ranges
execute-IsPlaced_example =
    execute-IsPlaced number texts (input adding tightened_step) (move 5000) executes refl refl

execute-origin_example :
    (d : Rerange) × Memᴰ (rerange d) (plan 6000 30000).actions
    × ((shares_of (move 5000).ranges).amount0 ≤ℤ (shares_of d.ranges).amount0)
    × ((shares_of (move 5000).ranges).amount1 ≤ℤ (shares_of d.ranges).amount1)
    × (pos 850 ≡ d.expected_tick)
    × (pos 2 ≤ℤ d.max_tick_delta)
unfolding HasRerangeShares
execute-origin_example =
    execute-origin number texts (input adding tightened_step) (move 5000) executes refl refl
      (((omega arith, omega arith), tt), tt)
