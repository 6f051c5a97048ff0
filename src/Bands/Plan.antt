-- ===== src/Bands/Plan.antt =====
-- What `planBands` guarantees: its range may be executed within the margin, and lies beyond F.
use mathlib.Core.Path.{subst}
use mathlib.Core.Option.{get_or}
use deltadesk.Prelude.{◌<◌, ◌≡◌, Bool, List, [], ◌∷◌, arith}
use deltadesk.Prelude.Int.{
  ℤ, pos, pos_part, ltb_ℤ, max_ℤ, min_ℤ, ◌≤ℤ◌, ◌<ℤ◌, ◌+ℤ◌, ◌-ℤ◌, le-max_ℤ, min_ℤ-le, int_laws,
}
use deltadesk.Prelude.Floats.{Floats}
use deltadesk.Units.Spacing.{
  floor_to_spacing, ceil_to_spacing, floor_to_spacing_lem, ceil_to_spacing_lem,
}
use deltadesk.Bands.{
  TickRange, RangeSpec, Shape, straddle, single_sided_token0, single_sided_token1, placed,
  BandPlacementInput, Limits, straddle_spec, asks_spec, bids_spec, place, valid_input, plan_bands,
}
use deltadesk.Bands.Placement.{IsExecutable, spec_of, Placed, place-Placed}

-- The limits that `planBands` passes on.
abbrev pub limits_of : {F : Type 0} → BandPlacementInput F → Limits
limits_of i = record {
  pool_tick = i.pool_tick;
  margin = get_or i.execution_tick_margin (pos 0);
  ref_tick = i.ref_tick;
  band = i.band_ticks;
  spacing = i.tick_spacing;
  min_width = i.min_width_ticks;
  max_width = i.max_width_ticks;
}

-- Of a valid input with a positive spacing and half-width.
plan_bands-placed :
    (fl : Floats) (i : BandPlacementInput fl.Float) (s : Shape) (rs : List RangeSpec)
    → plan_bands fl i ≡ placed s rs
    → (pos 0 <ℤ i.tick_spacing)
      × (pos 0 <ℤ i.half_width_ticks)
      × ((near_f has0 has1 : Bool) × (place
              (limits_of i)
              near_f
              has0
              has1
              i.f_tick
              i.half_width_ticks
            ≡ placed s rs))
unfolding plan_bands valid_input
plan_bands-placed fl i s rs e = (
  ground arith,
  ground arith,
  (
    fl.le (fl.abs i.gap_bps) i.straddle_max_gap_bps,
    ltb_ℤ (pos 0) i.balance0,
    ltb_ℤ (pos 0) i.balance1,
    ground arith,
  ),
)

plan_bands-Placed :
    (fl : Floats) (i : BandPlacementInput fl.Float)
    → Placed (limits_of i) i.f_tick i.half_width_ticks (plan_bands fl i)
plan_bands-Placed fl i s rs e =
    let (_, _, (near_f, has0, has1, q)) = plan_bands-placed fl i s rs e in
    place-Placed (limits_of i) i.f_tick i.half_width_ticks near_f has0 has1 s rs q

-- Every placement is one range, which keeps the contract's rules and the tokens of its shape at
-- every tick within the execution margin of the pool tick.
pub plan_bands-IsExecutable :
    (fl : Floats) (i : BandPlacementInput fl.Float) (s : Shape) (rs : List RangeSpec)
    → plan_bands fl i ≡ placed s rs
    → (r : RangeSpec) × (rs ≡ r ∷ []) × IsExecutable (limits_of i) s r
plan_bands-IsExecutable fl i s rs e = let (one, x) = plan_bands-Placed fl i s rs e in (_, one, x)

-- Where a range lies: a straddle covers F by the half-width on both sides, bids start at F or
-- above it, and asks end at F or below it, at least twice the half-width wide.
abbrev pub LiesRight : Shape → ℤ → ℤ → TickRange → Type 0
LiesRight straddle f w r = (r.tick_lower ≤ℤ f -ℤ w) × (f +ℤ w ≤ℤ r.tick_upper)
LiesRight single_sided_token0 f w r =
    (f ≤ℤ r.tick_lower) × (r.tick_lower +ℤ (w +ℤ w) ≤ℤ r.tick_upper)
LiesRight single_sided_token1 f w r =
    (r.tick_upper ≤ℤ f) × (r.tick_lower +ℤ (w +ℤ w) ≤ℤ r.tick_upper)

spec_of-LiesRight :
    (s : Shape) (l : Limits) (f w : ℤ)
    → 0 < pos_part l.spacing
    → LiesRight s f w (spec_of s l f w).range
unfolding straddle_spec asks_spec bids_spec
spec_of-LiesRight straddle l f w h =
    ((floor_to_spacing_lem (f -ℤ w) _ h).0, (ceil_to_spacing_lem (f +ℤ w) _ h).0)
spec_of-LiesRight single_sided_token0 l f w h = (
  omega (
    int_laws,
    le-max_ℤ f (l.pool_tick +ℤ l.margin +ℤ pos 1),
    ceil_to_spacing_lem (max_ℤ f (l.pool_tick +ℤ l.margin +ℤ pos 1)) _ h,
    le-max_ℤ (ceil_to_spacing (max_ℤ f (l.pool_tick +ℤ l.margin +ℤ pos 1)) (pos_part l.spacing))
        (ceil_to_spacing (l.ref_tick -ℤ l.band) (pos_part l.spacing)),
  ),
  omega (int_laws, ceil_to_spacing_lem (w +ℤ w) _ h),
)
spec_of-LiesRight single_sided_token1 l f w h = (
  omega (
    int_laws,
    min_ℤ-le f (l.pool_tick -ℤ l.margin),
    floor_to_spacing_lem (min_ℤ f (l.pool_tick -ℤ l.margin)) _ h,
    min_ℤ-le (floor_to_spacing (min_ℤ f (l.pool_tick -ℤ l.margin)) (pos_part l.spacing))
        (floor_to_spacing (l.ref_tick +ℤ l.band) (pos_part l.spacing)),
  ),
  omega (int_laws, ceil_to_spacing_lem (w +ℤ w) _ h),
)

one_range : (r q : RangeSpec) → r ∷ [] ≡ q ∷ [] → q ≡ r
one_range r q e = ground arith

-- The one range of a placement lies on the right side of F.
pub plan_bands-LiesRight :
    (fl : Floats) (i : BandPlacementInput fl.Float) (s : Shape) (r : RangeSpec)
    → plan_bands fl i ≡ placed s (r ∷ [])
    → LiesRight s i.f_tick i.half_width_ticks r.range
plan_bands-LiesRight fl i s r e =
    let (spacing_pos, _, _) = plan_bands-placed fl i s (r ∷ []) e in
    let (one, _) = plan_bands-Placed fl i s (r ∷ []) e in
    subst {A = RangeSpec} (λ q. LiesRight s i.f_tick i.half_width_ticks q.range) (one_range r _ one)
      (spec_of-LiesRight s (limits_of i) i.f_tick i.half_width_ticks (omega arith))
