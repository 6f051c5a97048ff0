-- ===== src/Examples/Bands.antt =====
-- agent/src/strategy/bands.ts at a concrete placement: the pool at tick 1000, F at tick 950.
use deltadesk.Prelude.{◌≡◌, refl, ◌↔◌, true, some, [], ◌∷◌}
use deltadesk.Prelude.Int.{ℤ, pos, ◌≤ℤ◌, ◌+ℤ◌, ◌-ℤ◌, leb_ℤ, ltb_ℤ, abs}
use deltadesk.Prelude.Floats.{Floats}
use deltadesk.Units.Spacing.{floor_to_spacing, ceil_to_spacing, is_aligned}
use deltadesk.Bands.{
  fence_allows, fence_allows_across, fence_allows_from, shape_ok, range_needs, RangeSpec,
  single_sided_token1, placed, BandPlacementInput, asks_spec, place_token1, check, valid_input,
  place, plan_bands,
}
use deltadesk.Bands.Fence.{fence_allows_across_iff}
use deltadesk.Bands.Placement.{IsExecutable}
use deltadesk.Bands.Plan.{limits_of, LiesRight, plan_bands-IsExecutable, plan_bands-LiesRight}

-- Integers in the place of the floats.
abbrev integers : Floats
integers = record {
  Float = ℤ;
  of_ℤ = λ z. z;
  add = ◌+ℤ◌;
  sub = ◌-ℤ◌;
  mul = λ a b. a;
  div = λ a b. a;
  abs = λ a. pos (abs a);
  is_finite = λ a. true;
  lt = ltb_ℤ;
  le = leb_ℤ;
}

abbrev input : BandPlacementInput ℤ
input = record {
  pool_tick = pos 1000;
  f_tick = pos 950;
  gap_bps = pos 50;
  ref_tick = pos 960;
  band_ticks = pos 100;
  tick_spacing = pos 10;
  half_width_ticks = pos 100;
  straddle_max_gap_bps = pos 10;
  min_width_ticks = pos 100;
  max_width_ticks = pos 1000;
  balance0 = pos 5;
  balance1 = pos 7;
  execution_tick_margin = some (pos 5);
}

abbrev asks : RangeSpec
asks = record {
  range = record { tick_lower = pos 750; tick_upper = pos 950 };
  share0_bps = pos 0;
  share1_bps = pos 10000;
}

places : plan_bands integers input ≡ placed single_sided_token1 (asks ∷ [])
unfolding plan_bands valid_input place place_token1 asks_spec check shape_ok fence_allows_across
    fence_allows_from fence_allows range_needs floor_to_spacing ceil_to_spacing is_aligned ◌+ℤ◌ ◌-ℤ◌
places = refl

plan_bands-IsExecutable_example :
    (r : RangeSpec) × (asks ∷ [] ≡ r ∷ []) × IsExecutable (limits_of input) single_sided_token1 r
plan_bands-IsExecutable_example =
    plan_bands-IsExecutable integers input single_sided_token1 (asks ∷ []) places

plan_bands-LiesRight_example : LiesRight single_sided_token1 (pos 950) (pos 100) asks.range
plan_bands-LiesRight_example = plan_bands-LiesRight integers input single_sided_token1 asks places

fence_allows_across_iff_example :
    (fence_allows_across asks.range (pos 1000) (pos 5) (pos 960) (pos 100) ≡ true) ↔ (
      (u : ℤ)
      → pos 1000 -ℤ pos 5 ≤ℤ u
      → u ≤ℤ pos 1000 +ℤ pos 5
      → fence_allows asks.range u (pos 960) (pos 100) ≡ true)
fence_allows_across_iff_example =
    fence_allows_across_iff asks.range (pos 960) (pos 100) (pos 1000) (pos 5)
