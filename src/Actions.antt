-- ===== src/Actions.antt =====
-- agent/src/types.ts: everything the desk can ask for, with `riskClassOf`, and the equality of two
-- actions, which the source takes of their canonical JSON. A liquidity is a bigint; ticks and shares
-- are integers.
use Prim.Native.String.{String}
use text.Mathlib.Text.{◌==◌ as str_eq}
use deltadesk.Prelude.{ℕ, Bool, true, false, not, ◌&&◌, List, [], ◌∷◌, ◌==◌, if◌then◌else◌}
use deltadesk.Prelude.Int.{ℤ, eqb_ℤ}
use deltadesk.Bands.{RangeSpec}
use deltadesk.Executor.DeskStatus.{RiskClass, adding, reducing, neutral}

pub data Lane : Type 0 where
  lane_a lane_b lane_c : Lane

pub data Tif : Type 0 where
  alo ioc : Tif

pub record Rerange : Type 0 where
  pub lane : Lane
  pub ranges : List RangeSpec
  pub expected_tick : ℤ
  pub max_tick_delta : ℤ

pub record HedgeOrder : Type 0 where
  pub lane : Lane
  pub coin : String
  pub asset : ℕ
  pub is_buy : Bool
  pub sz : String
  pub px : String
  pub tif : Tif
  pub reduce_only : Bool

pub data DeskAction : Type 0 where
  hold : Lane → String → DeskAction
  rerange : Rerange → DeskAction
  reduce : Lane → ℕ → ℤ → DeskAction
  collect exit_all pause : Lane → DeskAction
  signal : Lane → String → DeskAction
  hedge : HedgeOrder → DeskAction

unfoldable pub class_of_ranges : List RangeSpec → RiskClass
class_of_ranges [] = reducing
class_of_ranges (r ∷ rs) = adding

unfoldable pub risk_class_of : DeskAction → RiskClass
unfolding class_of_ranges
risk_class_of (hold lane reason) = neutral
risk_class_of (rerange r) = class_of_ranges r.ranges
risk_class_of (reduce lane slot liquidity) = reducing
risk_class_of (collect lane) = reducing
risk_class_of (exit_all lane) = reducing
risk_class_of (pause lane) = reducing
risk_class_of (signal lane note) = neutral
risk_class_of (hedge o) = if o.reduce_only then reducing else adding

unfoldable pub is_adding_class : RiskClass → Bool
is_adding_class adding = true
is_adding_class _ = false

unfoldable pub adds_risk : DeskAction → Bool
unfolding risk_class_of is_adding_class
adds_risk a = is_adding_class (risk_class_of a)

unfoldable pub lane_of : DeskAction → Lane
lane_of (hold lane reason) = lane
lane_of (rerange r) = r.lane
lane_of (reduce lane slot liquidity) = lane
lane_of (collect lane) = lane
lane_of (exit_all lane) = lane
lane_of (pause lane) = lane
lane_of (signal lane note) = lane
lane_of (hedge o) = o.lane

abbrev pub same_lane : Lane → Lane → Bool
same_lane lane_a lane_a = true
same_lane lane_b lane_b = true
same_lane lane_c lane_c = true
same_lane _ _ = false

abbrev pub same_bool : Bool → Bool → Bool
same_bool true b = b
same_bool false b = not b

abbrev pub same_tif : Tif → Tif → Bool
same_tif alo alo = true
same_tif ioc ioc = true
same_tif _ _ = false

unfoldable pub same_range : RangeSpec → RangeSpec → Bool
same_range r s =
    eqb_ℤ r.range.tick_lower s.range.tick_lower
    && eqb_ℤ r.range.tick_upper s.range.tick_upper
    && eqb_ℤ r.share0_bps s.share0_bps
    && eqb_ℤ r.share1_bps s.share1_bps

unfoldable pub same_ranges : List RangeSpec → List RangeSpec → Bool
unfolding same_range
same_ranges [] [] = true
same_ranges (r ∷ rs) (s ∷ ss) = same_range r s && same_ranges rs ss
same_ranges _ _ = false

-- Two orders but for their sizes.
unfoldable pub same_order : HedgeOrder → HedgeOrder → Bool
same_order o p =
    same_lane o.lane p.lane
    && str_eq o.coin p.coin
    && o.asset == p.asset
    && same_bool o.is_buy p.is_buy
    && str_eq o.px p.px
    && same_tif o.tif p.tif
    && same_bool o.reduce_only p.reduce_only

unfoldable pub same_action : DeskAction → DeskAction → Bool
unfolding same_ranges same_order
same_action (hold l r) (hold m s) = same_lane l m && str_eq r s
same_action (rerange r) (rerange s) =
    same_lane r.lane s.lane
    && same_ranges r.ranges s.ranges
    && eqb_ℤ r.expected_tick s.expected_tick
    && eqb_ℤ r.max_tick_delta s.max_tick_delta
same_action (reduce l i x) (reduce m j y) = same_lane l m && i == j && eqb_ℤ x y
same_action (collect l) (collect m) = same_lane l m
same_action (exit_all l) (exit_all m) = same_lane l m
same_action (pause l) (pause m) = same_lane l m
same_action (signal l r) (signal m s) = same_lane l m && str_eq r s
same_action (hedge o) (hedge p) = same_order o p && str_eq o.sz p.sz
same_action _ _ = false
