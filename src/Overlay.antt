-- ===== src/Overlay.antt =====
-- agent/src/overlay/apply.ts, with the plan and the overlay of agent/src/types.ts: the edits of a
-- language model to a plan, which may only tighten it. A notional is an integer, or not a number;
-- `number` is `Number` of a text; planner and critic are their answers.
pub mod Tighter
pub mod Accepted
pub mod Shares
pub mod Apply
pub mod Applied
pub mod Survivors
pub mod Harmless
pub mod Passes
pub mod Stage
use Prim.Native.String.{String}
use text.Mathlib.Text.{◌==◌ as str_eq}
use deltadesk.Prelude.{
  ℕ, ◌+◌, Bool, true, false, not, ◌&&◌, ◌||◌, Option, none, some, List, [], ◌∷◌, ◌++◌, length,
  filter, leb, if◌then◌else◌,
}
use deltadesk.Prelude.Int.{ℤ, pos, leb_ℤ}
use deltadesk.Prelude.Floats.{Floats}
use deltadesk.Bands.{RangeSpec}
use deltadesk.Actions.{
  Lane, Rerange, HedgeOrder, DeskAction, hold, rerange, reduce, collect, exit_all, pause, hedge,
  lane_of, adds_risk, same_action, same_lane, same_order,
}
use deltadesk.Gates.Modes.{RiskMode, same_mode}

-- A number of cents.
pub data Cents : Type 0 where
  not_a_number : Cents
  cents : ℤ → Cents

pub record DeskPlan : Type 0 where
  pub lane : Lane
  pub lane_address : String
  pub risk_mode : RiskMode
  pub actions : List DeskAction
  pub notional_cents : Cents
  pub pool_tick : Option ℤ
  pub is_initial_mint : Bool

pub data Violation : Type 0 where
  lane_changed address_changed mode_changed notional_grew : Violation
  not_tightened was_removed not_reducing other_lane : Violation

unfoldable pub is_reducing_kind : DeskAction → Bool
is_reducing_kind (reduce lane slot liquidity) = true
is_reducing_kind (collect lane) = true
is_reducing_kind (exit_all lane) = true
is_reducing_kind (pause lane) = true
is_reducing_kind _ = false

unfoldable pub is_hold : DeskAction → Bool
is_hold (hold lane reason) = true
is_hold _ = false

abbrev pub valid_share : ℤ → Bool
valid_share s = leb_ℤ (pos 0) s && leb_ℤ s (pos 10000)

-- A range contains the original, with no greater share.
unfoldable pub range_within : RangeSpec → RangeSpec → Bool
range_within fin det =
    leb_ℤ fin.range.tick_lower det.range.tick_lower
    && leb_ℤ det.range.tick_upper fin.range.tick_upper
    && leb_ℤ fin.share0_bps det.share0_bps
    && leb_ℤ fin.share1_bps det.share1_bps

-- The originals without the first one that the range tightens, or none.
unfoldable pub use_first : RangeSpec → List RangeSpec → Option (List RangeSpec)
unfolding range_within
use_first fin [] = none
use_first fin (d ∷ ds) =
    let rest = use_first fin ds in
    if range_within fin d
    then some ds
    else elim rest as (λ _. Option (List RangeSpec)) [ none ↦ none | some es ↦ some (d ∷ es) ]

unfoldable pub ranges_tighter : List RangeSpec → List RangeSpec → Bool
unfolding use_first
ranges_tighter dets [] = true
ranges_tighter dets (r ∷ rs) =
    valid_share r.share0_bps
    && valid_share r.share1_bps
    && elim (use_first r dets) as (λ _. Bool) [ none ↦ false | some rest ↦ ranges_tighter rest rs ]

unfoldable pub rerange_tighter : Rerange → Rerange → Bool
unfolding ranges_tighter
rerange_tighter det fin =
    same_lane fin.lane det.lane
    && leb_ℤ fin.expected_tick det.expected_tick
    && leb_ℤ det.expected_tick fin.expected_tick
    && leb_ℤ fin.max_tick_delta det.max_tick_delta
    && leb (length fin.ranges) (length det.ranges)
    && ranges_tighter det.ranges fin.ranges

-- The notional of the final plan is a number from 0 to that of the deterministic plan.
unfoldable pub notional_ok : Cents → Cents → Bool
notional_ok (cents d) (cents f) = leb_ℤ (pos 0) f && leb_ℤ f d
notional_ok _ _ = false

-- The rest of a list without the first action that is the same, or none.
unfoldable pub take_same : DeskAction → List DeskAction → Option (List DeskAction)
unfolding same_action
take_same a [] = none
take_same a (x ∷ xs) =
    let rest = take_same a xs in
    if same_action x a
    then some xs
    else elim rest as (λ _. Option (List DeskAction)) [ none ↦ none | some ys ↦ some (x ∷ ys) ]

-- The actions of the deterministic plan that do not add risk are taken from those of the final one.
unfoldable pub take_survivors : List DeskAction → List DeskAction → List Violation × List DeskAction
unfolding take_same is_hold adds_risk
take_survivors [] remaining = ([], remaining)
take_survivors (d ∷ ds) remaining =
    let skipped = take_survivors ds remaining in
    if adds_risk d || is_hold d
    then skipped
    else elim (take_same d remaining) as (λ _. List Violation × List DeskAction) [
      | none ↦ (was_removed ∷ skipped.0, skipped.1)
      | some rest ↦ take_survivors ds rest
    ]

-- What is left in the final plan was added, and may only reduce risk.
unfoldable pub added_violations : Lane → List DeskAction → List Violation
unfolding is_reducing_kind is_hold
added_violations lane [] = []
added_violations lane (a ∷ rest) =
    let later = added_violations lane rest in
    if is_hold a
    then later
    else if not (is_reducing_kind a)
    then not_reducing ∷ later
    else if not (same_lane (lane_of a) lane)
    then other_lane ∷ later
    else later

abbrev pub violation_if : Bool → Violation → List Violation
violation_if bad v = if bad then v ∷ [] else []

module _ (F : Floats) (number : String → F.Float) (lower : String → String) where
  unfoldable pub hedge_tighter : HedgeOrder → HedgeOrder → Bool
  hedge_tighter det fin =
      let d = number det.sz in
      let f = number fin.sz in
      same_order det fin && F.is_finite d && F.is_finite f && F.lt (F.of_ℤ (pos 0)) f && F.le f d

  unfoldable pub action_tighter : DeskAction → DeskAction → Bool
  unfolding rerange_tighter hedge_tighter
  action_tighter (rerange d) (rerange f) = rerange_tighter d f
  action_tighter (hedge d) (hedge f) = hedge_tighter d f
  action_tighter _ _ = false

  -- The cursor goes past the first original that the action tightens, or to the end.
  unfoldable pub advance : DeskAction → List DeskAction → Bool × List DeskAction
  unfolding action_tighter
  advance fa [] = (false, [])
  advance fa (d ∷ ds) = let rest = advance fa ds in if action_tighter d fa then (true, ds) else rest

  unfoldable pub adding_violations : List DeskAction → List DeskAction → List Violation
  unfolding advance
  adding_violations dets [] = []
  adding_violations dets (fa ∷ fas) =
      let (matched, rest) = advance fa dets in
      violation_if (not matched) not_tightened ++ adding_violations rest fas

  unfoldable pub tighten_check : DeskPlan → DeskPlan → List Violation
  unfolding notional_ok adding_violations take_survivors added_violations adds_risk
  tighten_check det fin =
      let (removed, left) =
        take_survivors det.actions (filter (λ a. not (adds_risk a)) fin.actions) in
      violation_if (not (same_lane fin.lane det.lane)) lane_changed
      ++ violation_if (not (str_eq (lower fin.lane_address) (lower det.lane_address)))
          address_changed
      ++ violation_if (not (same_mode fin.risk_mode det.risk_mode)) mode_changed
      ++ violation_if (not (notional_ok det.notional_cents fin.notional_cents)) notional_grew
      ++ adding_violations (filter adds_risk det.actions) (filter adds_risk fin.actions)
      ++ removed
      ++ added_violations det.lane left
