-- ===== src/Guard/Input.antt =====
-- agent/src/types.ts: what the guard is given for one step. A number that the guard tests is an
-- integer or not a number (`Cents`); wei, blocks and seconds are integers; a decision is the digits of
-- its ULID, a decision id its bytes.
use Prim.Native.String.{String}
use deltadesk.Prelude.{ℕ, Bool, Option, List}
use deltadesk.Prelude.Int.{ℤ}
use deltadesk.Prelude.Floats.{Floats}
use deltadesk.Executor.DeskStatus.{RiskClass}
use deltadesk.Gates.{GateName}
use deltadesk.Gates.Modes.{RiskMode}
use deltadesk.Sense.Freshness.{SourceName, Freshness}
use deltadesk.Actions.{Lane, DeskAction}
use deltadesk.Overlay.{Cents, DeskPlan}
use deltadesk.Overlay.Stage.{CriticVerdict, OverlayRecord}
use deltadesk.Guard.{LaneRead}

pub record LaneCaps : Type 0 where
  pub max_deploy_usd6 : ℕ
  pub turnover_usd6_per_day : ℕ
  pub max_tick_delta : ℤ
  pub min_width_ticks : ℤ
  pub max_width_ticks : ℤ
  pub max_deadline_ahead : ℤ
  pub max_ranges : ℕ

pub record LaneBudgets : Type 0 where
  pub turnover_available_usd6 : ℕ
  pub reranges_1h_left : ℕ
  pub reranges_24h_left : ℕ
  pub next_rerange_at : ℤ

pub record RefTick : Type 0 where
  pub tick : ℤ
  pub band_ticks : ℤ
  pub code : ℕ

pub record LaneState : Type 0 where
  pub lane_address : String
  pub owner : String
  pub operator : String
  pub paused : Bool
  pub risk_adding_open : Bool
  pub ref_tick : RefTick
  pub caps : LaneCaps
  pub budgets : LaneBudgets
  pub position0 : ℕ
  pub position1 : ℕ

-- `funds` are the balances, the positions' details and the price rounds of the read.
pub record ChainRead : Type 0 where
  pub pool_tick : ℤ
  pub lane_state : LaneState
  pub funds : LaneRead
  pub operator_eth_wei : ℤ

pub record DeskSnapshot : Type 0 where
  pub lane : Lane
  pub lane_address : String
  pub chain_id : ℕ
  pub signer_address : String
  pub taken_at_ms : ℤ
  pub chain : Option ChainRead

pub record Meta : Type 0 where
  pub decision_id : List ℕ
  pub deadline : ℤ

pub record TxCall : Type 0 where
  pub to : String
  pub data_text : String
  pub value : ℕ
  pub selector : String

pub record Expected : Type 0 where
  pub lane : Lane
  pub lane_address : String
  pub chain_id : ℕ
  pub signer_address : String

pub record AgentReranges : Type 0 where
  pub per_hour : ℕ
  pub per_day : ℕ
  pub min_interval_sec : ℕ

pub record AgentRerangeState : Type 0 where
  pub last_rerange_at_ms : Option ℤ
  pub count_1h : ℕ
  pub count_24h : ℕ
  pub max_per_hour : ℕ
  pub max_per_day : ℕ
  pub min_interval_ms : ℕ

pub data HlMode : Type 0 where
  paper live : HlMode

pub record Flags : Type 0 where
  pub armed : Bool
  pub dry_run : Bool
  pub hl_mode : HlMode
  pub hl_armed : Bool

-- `onchain_used_at` is none when it is unknown.
pub record Idempotency : Type 0 where
  pub db_has_step : Bool
  pub onchain_used_at : Option ℕ

pub record Simulation : Type 0 where
  pub is_ok : Bool
  pub has_error : Bool
  pub from_address : String
  pub block_number : ℤ
  pub latest_block_number : ℤ
  pub has_rerange : Bool

pub record SignalRate : Type 0 where
  pub count_1h : Cents
  pub max_per_hour : ℤ

pub record Regime : Type 0 where
  pub risk_mode : RiskMode
  pub active_gates : List GateName

module _ (F : Floats) where
  pub record Hurdle : Type 0 where
    pub passes : Bool
    pub benefit_usd : F.Float
    pub cost_usd : F.Float

  pub record GuardLimits : Type 0 where
    pub chain_id : ℕ
    pub tick_spacing : ℤ
    pub max_action_cents : ℤ
    pub daily_turnover_cents : ℤ
    pub gas_reserve_wei : ℤ
    pub max_snapshot_age_ms : ℤ
    pub max_sim_block_age : ℤ
    pub deadline_min_ahead_sec : ℤ
    pub deadline_max_ahead_sec : ℤ
    pub hurdle_multiple : F.Float
    pub agent_reranges : AgentReranges

  pub record GuardInput : Type 0 where
    pub decision : List ℕ
    pub step : ℕ
    pub action : DeskAction
    pub risk_class : RiskClass
    pub meta : Option Meta
    pub expected : Expected
    pub snapshot : DeskSnapshot
    pub regime : Regime
    pub deterministic : DeskPlan
    pub final_plan : DeskPlan
    pub plan_critic : CriticVerdict
    pub overlay : OverlayRecord
    pub llm_strings : List String
    pub tx : Option TxCall
    pub operator_selectors : List String
    pub notional_cents : Cents
    pub limits : GuardLimits
    pub flags : Flags
    pub turnover_db_cents_24h : Cents
    pub idempotency : Idempotency
    pub freshness : SourceName → Freshness
    pub agent_rerange : AgentRerangeState
    pub hurdle : Option Hurdle
    pub simulation : Option Simulation
    pub estimated_gas_cost_wei : Option ℤ
    pub in_flight : Cents
    pub signal_rate : Option SignalRate
    pub now_ms : ℤ
