-- ===== src/Bands.antt =====
-- agent/src/strategy/bands.ts: the contract's placement fence and the placement of a band, with
-- RangeSpec and BandPlacement of agent/src/types.ts. Ticks, widths, shares and margins are integers,
-- so the tests `Number.isInteger` hold; a failure's text is a `Failure`. The gap is a float.
pub mod Fence
pub mod Placement
pub mod Plan
use mathlib.Core.Option.{get_or}
use deltadesk.Prelude.{
  ℕ, zero, suc, ◌+◌, ◌*◌, Bool, true, false, not, ◌&&◌, ◌||◌, Option, none, some, List, [], ◌∷◌,
  if◌then◌else◌,
}
use deltadesk.Prelude.Int.{ℤ, pos, pos_part, ◌+ℤ◌, ◌-ℤ◌, ltb_ℤ, leb_ℤ, min_ℤ, max_ℤ}
use deltadesk.Prelude.Floats.{Floats}
use deltadesk.Units.TickMath.{min_tick, max_tick}
use deltadesk.Units.Spacing.{floor_to_spacing, ceil_to_spacing, is_aligned, snap_range_outward}

pub record TickRange : Type 0 where
  pub tick_lower : ℤ
  pub tick_upper : ℤ

-- RangeRules.check: neither token is offered more than `band` ticks worse than the reference.
unfoldable pub fence_allows : TickRange → ℤ → ℤ → ℤ → Bool
fence_allows range tc ref_tick band =
    if ltb_ℤ tc tu && ltb_ℤ (max_ℤ tl tc) (ref_tick -ℤ band)
    then false
    else not (leb_ℤ tl tc && ltb_ℤ (ref_tick +ℤ band) (min_ℤ tu tc))
  where
    open range use {tick_lower as tl, tick_upper as tu}

-- The loop of `fenceAllowsAcross` at tick t with so many rounds left.
unfoldable pub fence_allows_from : TickRange → ℤ → ℤ → ℕ → ℤ → Bool
fence_allows_from range ref_tick band zero t = true
fence_allows_from range ref_tick band (suc left) t =
    if fence_allows range t ref_tick band
    then fence_allows_from range ref_tick band left (t +ℤ pos 1)
    else false

-- Over t from tc - margin to tc + margin: no round for a negative margin.
unfoldable pub fence_allows_across : TickRange → ℤ → ℤ → ℤ → ℤ → Bool
fence_allows_across range tc margin ref_tick band =
    fence_allows_from range ref_tick band
      (if ltb_ℤ margin (pos 0) then 0 else 2 * pos_part margin + 1) (tc -ℤ margin)

-- RangeRules.shapeOk.
unfoldable pub shape_ok : TickRange → ℤ → ℤ → ℤ → Bool
shape_ok range spacing min_width max_width =
    if leb_ℤ tu tl || leb_ℤ spacing (pos 0)
    then false
    else if ltb_ℤ tl min_tick || ltb_ℤ max_tick tu
    then false
    else if not (is_aligned tl (pos_part spacing)) || not (is_aligned tu (pos_part spacing))
    then false
    else leb_ℤ min_width (tu -ℤ tl) && leb_ℤ (tu -ℤ tl) max_width
  where
    open range use {tick_lower as tl, tick_upper as tu}

pub record Needs : Type 0 where
  pub token0 : Bool
  pub token1 : Bool

-- Which tokens a range holds with the pool at tc.
unfoldable pub range_needs : TickRange → ℤ → Needs
range_needs range tc = record {
  token0 = ltb_ℤ tc range.tick_upper;
  token1 = leb_ℤ range.tick_lower tc;
}

pub record RangeSpec : Type 0 where
  pub range : TickRange
  pub share0_bps : ℤ
  pub share1_bps : ℤ

pub data Shape : Type 0 where
  straddle single_sided_token0 single_sided_token1 : Shape

pub data Failure : Type 0 where
  invalid_input no_inventory pool_outside_straddle no_token1 no_token0 not_single_sided : Failure
  bad_shape outside_fence : Failure

pub data BandPlacement : Type 0 where
  placed : Shape → List RangeSpec → BandPlacement
  failed : Failure → BandPlacement

-- F is the type of the floats.
pub record BandPlacementInput (F : Type 0) : Type 0 where
  pub pool_tick : ℤ
  pub f_tick : ℤ
  pub gap_bps : F
  pub ref_tick : ℤ
  pub band_ticks : ℤ
  pub tick_spacing : ℤ
  pub half_width_ticks : ℤ
  pub straddle_max_gap_bps : F
  pub min_width_ticks : ℤ
  pub max_width_ticks : ℤ
  pub balance0 : ℤ
  pub balance1 : ℤ
  pub execution_tick_margin : Option ℤ

unfoldable pub valid_input : (fl : Floats) → BandPlacementInput fl.Float → ℤ → Bool
valid_input fl i margin =
    fl.is_finite i.gap_bps
    && not (
        leb_ℤ i.tick_spacing (pos 0)
        || leb_ℤ i.half_width_ticks (pos 0)
        || ltb_ℤ i.band_ticks (pos 0)
        || ltb_ℤ margin (pos 0))
    && not (ltb_ℤ i.balance0 (pos 0) || ltb_ℤ i.balance1 (pos 0))

-- What placing needs of the input: `check` is `planBands`'s local function.
pub record Limits : Type 0 where
  pub pool_tick : ℤ
  pub margin : ℤ
  pub ref_tick : ℤ
  pub band : ℤ
  pub spacing : ℤ
  pub min_width : ℤ
  pub max_width : ℤ

unfoldable pub check : Limits → Shape → RangeSpec → BandPlacement
check l shape r =
    if not (shape_ok r.range l.spacing l.min_width l.max_width)
    then failed bad_shape
    else if not (fence_allows_across r.range l.pool_tick l.margin l.ref_tick l.band)
    then failed outside_fence
    else placed shape (r ∷ [])

-- Both tokens around F.
unfoldable pub straddle_spec : Limits → ℤ → ℤ → RangeSpec
unfolding snap_range_outward
straddle_spec l f_tick w =
    let (tl, tu) = snap_range_outward (f_tick -ℤ w) (f_tick +ℤ w) (pos_part l.spacing) in
    record {
      range = record { tick_lower = tl; tick_upper = tu };
      share0_bps = pos 10000;
      share1_bps = pos 10000;
    }

-- The asks: token1 at ticks below F and the pool.
unfoldable pub asks_spec : Limits → ℤ → ℤ → RangeSpec
asks_spec l f_tick w =
    let s = pos_part l.spacing in
    let near = floor_to_spacing (min_ℤ f_tick (l.pool_tick -ℤ l.margin)) s in
    let tu = min_ℤ near (floor_to_spacing (l.ref_tick +ℤ l.band) s) in
    record {
      range = record { tick_lower = tu -ℤ ceil_to_spacing (w +ℤ w) s; tick_upper = tu };
      share0_bps = pos 0;
      share1_bps = pos 10000;
    }

-- The bids: token0 at ticks above F and the pool.
unfoldable pub bids_spec : Limits → ℤ → ℤ → RangeSpec
bids_spec l f_tick w =
    let s = pos_part l.spacing in
    let near = ceil_to_spacing (max_ℤ f_tick (l.pool_tick +ℤ l.margin +ℤ pos 1)) s in
    let tl = max_ℤ near (ceil_to_spacing (l.ref_tick -ℤ l.band) s) in
    record {
      range = record { tick_lower = tl; tick_upper = tl +ℤ ceil_to_spacing (w +ℤ w) s };
      share0_bps = pos 10000;
      share1_bps = pos 0;
    }

unfoldable pub place_straddle : Limits → RangeSpec → BandPlacement
place_straddle l r =
    if not (
      ltb_ℤ r.range.tick_lower (l.pool_tick -ℤ l.margin)
      && ltb_ℤ (l.pool_tick +ℤ l.margin) r.range.tick_upper)
    then failed pool_outside_straddle
    else check l straddle r

unfoldable pub place_token1 : Limits → RangeSpec → BandPlacement
place_token1 l r =
    let needs = range_needs r.range (l.pool_tick -ℤ l.margin) in
    if needs.token0 || not needs.token1
    then failed not_single_sided
    else check l single_sided_token1 r

unfoldable pub place_token0 : Limits → RangeSpec → BandPlacement
place_token0 l r =
    let needs = range_needs r.range (l.pool_tick +ℤ l.margin) in
    if not needs.token0 || needs.token1
    then failed not_single_sided
    else check l single_sided_token0 r

-- Which token a single-sided range offers: true for token1.
abbrev pub side_is_token1 : Bool → Bool → ℤ → ℤ → Bool
side_is_token1 near_f has0 f_tick pool_tick = if near_f then not has0 else ltb_ℤ f_tick pool_tick

-- The placement once the input is valid.
unfoldable pub place : Limits → Bool → Bool → Bool → ℤ → ℤ → BandPlacement
place l near_f has0 has1 f_tick w =
    if not has0 && not has1
    then failed no_inventory
    else if near_f && has0 && has1
    then place_straddle l (straddle_spec l f_tick w)
    else if side_is_token1 near_f has0 f_tick l.pool_tick
    then (if has1 then place_token1 l (asks_spec l f_tick w) else failed no_token1)
    else if has0
    then place_token0 l (bids_spec l f_tick w)
    else failed no_token0

unfoldable pub plan_bands : (fl : Floats) → BandPlacementInput fl.Float → BandPlacement
unfolding place
plan_bands fl i =
    let m = get_or i.execution_tick_margin (pos 0) in
    if not (valid_input fl i m)
    then failed invalid_input
    else place
        (record {
          pool_tick = i.pool_tick;
          margin = m;
          ref_tick = i.ref_tick;
          band = i.band_ticks;
          spacing = i.tick_spacing;
          min_width = i.min_width_ticks;
          max_width = i.max_width_ticks;
        })
        (fl.le (fl.abs i.gap_bps) i.straddle_max_gap_bps) (ltb_ℤ (pos 0) i.balance0)
        (ltb_ℤ (pos 0) i.balance1) i.f_tick i.half_width_ticks
