-- ===== src/Overlay/Apply.antt =====
-- agent/src/overlay/apply.ts, `createOverlayApplier`: a proposal of a language model, performed
-- literally. A number of the proposal is its floor, or none when it is not finite; a spacing is a
-- natural number. A plan's rationale is left out.
use Prim.Native.String.{String}
use deltadesk.Prelude.{
  ℕ, zero, suc, ◌+◌, ◌*◌, Bool, true, false, ◌&&◌, ◌||◌, Option, none, some, List, [], ◌∷◌, ◌++◌,
  map, any, min, ◌==◌, if◌then◌else◌,
}
use deltadesk.Prelude.Int.{ℤ, pos, negsuc, pos_part, ◌+ℤ◌, ◌-ℤ◌, leb_ℤ, floor_div}
use deltadesk.Units.Spacing.{neg, floor_to_spacing, ceil_to_spacing}
use deltadesk.Bands.{RangeSpec}
use deltadesk.Actions.{DeskAction, hold, rerange, exit_all, pause, adds_risk}
use deltadesk.Overlay.{DeskPlan, Cents, not_a_number, cents, is_hold}

pub record Proposal : Type 0 where
  pub notional_scale_bps : Option ℤ
  pub widen_ticks : Option ℤ
  pub drop_action_indexes : List ℕ
  pub add_reducing : List DeskAction
  pub rationale : String

unfoldable pub clamp_scale : Option ℤ → ℕ
clamp_scale none = 0
clamp_scale (some s) = min 10000 (pos_part s)

-- `Math.floor(x * scale / 10000)`.
unfoldable pub scale_floor : ℤ → ℕ → ℤ
scale_floor (pos n) scale = floor_div (pos (n * scale)) 10000
scale_floor (negsuc n) scale = floor_div (neg ((n + 1) * scale)) 10000

unfoldable pub scale_share : ℤ → Option ℤ → ℤ
unfolding scale_floor clamp_scale
scale_share bps scale = scale_floor bps (clamp_scale scale)

unfoldable pub widen_of : Option ℤ → ℕ
widen_of none = 0
widen_of (some w) = pos_part w

-- The pool tick is at or above a range, or at or below it.
unfoldable pub is_below : RangeSpec → Option ℤ → Bool
is_below r none = false
is_below r (some tick) = leb_ℤ r.range.tick_upper tick

unfoldable pub is_above : RangeSpec → Option ℤ → Bool
is_above r none = false
is_above r (some tick) = leb_ℤ tick r.range.tick_lower

unfoldable pub widen_range : RangeSpec → ℕ → Option ℤ → ℕ → RangeSpec
unfolding is_below is_above
widen_range r zero pool_tick spacing = r
widen_range r (suc w) pool_tick spacing = record {
  range = record {
    tick_lower =
        if is_above r pool_tick
        then r.range.tick_lower
        else floor_to_spacing (r.range.tick_lower -ℤ pos (suc w)) spacing;
    tick_upper =
        if is_below r pool_tick
        then r.range.tick_upper
        else ceil_to_spacing (r.range.tick_upper +ℤ pos (suc w)) spacing;
  };
  share0_bps = r.share0_bps;
  share1_bps = r.share1_bps;
}

unfoldable pub edit_range : Proposal → Option ℤ → ℕ → RangeSpec → RangeSpec
unfolding widen_range widen_of scale_share
edit_range p pool_tick spacing r =
    let w = widen_range r (widen_of p.widen_ticks) pool_tick spacing in
    record {
      range = w.range;
      share0_bps = scale_share w.share0_bps p.notional_scale_bps;
      share1_bps = scale_share w.share1_bps p.notional_scale_bps;
    }

-- A rerange without a range has none to edit.
unfoldable pub edit_action : Proposal → Option ℤ → ℕ → DeskAction → DeskAction
unfolding edit_range
edit_action p pool_tick spacing (rerange r) = rerange (record {
  lane = r.lane;
  ranges = map (edit_range p pool_tick spacing) r.ranges;
  expected_tick = r.expected_tick;
  max_tick_delta = r.max_tick_delta;
})
edit_action p pool_tick spacing a = a

unfoldable pub is_exiting : DeskAction → Bool
is_exiting (exit_all lane) = true
is_exiting (pause lane) = true
is_exiting _ = false

unfoldable pub is_dropped : Proposal → ℕ → DeskAction → Bool
unfolding is_exiting is_hold adds_risk
is_dropped p i a =
    is_hold a
    || any (λ j. j == i) p.drop_action_indexes
    || (any is_exiting p.add_reducing && adds_risk a)

-- The actions of the plan from index i on.
unfoldable pub kept_actions : Proposal → Option ℤ → ℕ → ℕ → List DeskAction → List DeskAction
unfolding is_dropped edit_action
kept_actions p pool_tick spacing i [] = []
kept_actions p pool_tick spacing i (a ∷ rest) =
    let later = kept_actions p pool_tick spacing (suc i) rest in
    if is_dropped p i a then later else edit_action p pool_tick spacing a ∷ later

-- A hold in place of no action; its reason is an argument.
unfoldable pub or_hold : DeskAction → List DeskAction → List DeskAction
or_hold h [] = h ∷ []
or_hold h (a ∷ rest) = a ∷ rest

unfoldable pub scale_cents : Cents → Option ℤ → Cents
unfolding scale_share
scale_cents not_a_number scale = not_a_number
scale_cents (cents n) scale = cents (scale_share n scale)

unfoldable pub apply : ℕ → DeskPlan → Proposal → DeskPlan
unfolding kept_actions or_hold scale_cents adds_risk
apply spacing plan p =
    let actions = p.add_reducing ++ kept_actions p plan.pool_tick spacing 0 plan.actions in
    record {
      lane = plan.lane;
      lane_address = plan.lane_address;
      risk_mode = plan.risk_mode;
      actions = or_hold (hold plan.lane "overlay dropped every action") actions;
      notional_cents =
          if any adds_risk actions
          then scale_cents plan.notional_cents p.notional_scale_bps
          else cents (pos 0);
      pool_tick = plan.pool_tick;
      is_initial_mint = plan.is_initial_mint;
    }
