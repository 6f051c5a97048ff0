-- ===== src/Examples/Units.antt =====
-- agent/src/units.ts at concrete amounts, ratios and ticks.
use deltadesk.Prelude.{◌+◌, ◌*◌, ◌<◌, ◌↔◌, ◌^◌, ◌≤◌, ◌≡◌, refl, ℕ, arith}
use deltadesk.Prelude.Int.{pos, negsuc, ◌≤ℤ◌, ◌<ℤ◌}
use deltadesk.Prelude.Result.{ok}
use deltadesk.Units.FullMath.{mul_div, Accepts, IsFloor, mul_div-IsFloor}
use deltadesk.Units.TickMath.{get_sqrt_ratio_at_tick}
use deltadesk.Units.TickMath.Range.{get_sqrt_ratio_at_tick_range}
use deltadesk.Units.Spacing.{snap_range_outward}
use deltadesk.Units.Liquidity.{
  Amounts, get_liquidity_for_amount0, get_liquidity_for_amount1, get_liquidity_for_amounts,
  liquidity_between, get_amounts_for_liquidity, to_uint128,
}
use deltadesk.Units.Liquidity.Bounds.{get_amounts_for_liquidity-le}

snaps : snap_range_outward (negsuc 14) (pos 15) 10 ≡ (negsuc 19, pos 20)
unfolding snap_range_outward
snaps = refl

abbrev low_ratio : ℕ
low_ratio = 2 ^ 96

abbrev high_ratio : ℕ
high_ratio = 2 ^ 97

mints :
    get_liquidity_for_amounts (low_ratio + 2 ^ 95) low_ratio high_ratio 1000000 1000000 ≡ ok 2000000
unfolding get_liquidity_for_amounts liquidity_between get_liquidity_for_amount0
    get_liquidity_for_amount1 mul_div to_uint128
mints = refl

get_amounts_for_liquidity-le_example :
    (t : Amounts) × (get_amounts_for_liquidity (low_ratio + 2 ^ 95) low_ratio high_ratio 2000000
      ≡ ok t)
    × (t.amount0 ≤ 1000000)
    × (t.amount1 ≤ 1000000)
get_amounts_for_liquidity-le_example =
    get_amounts_for_liquidity-le (low_ratio + 2 ^ 95) low_ratio high_ratio 1000000 1000000 2000000
      (omega arith) (omega arith) (omega arith) mints

mul_div-IsFloor_example :
    (mul_div (pos 7) (pos 5) (pos 3) ≡ ok 11)
    ↔ (Accepts (pos 7) (pos 5) (pos 3) × IsFloor (7 * 5) 3 11)
mul_div-IsFloor_example = mul_div-IsFloor (pos 7) (pos 5) (pos 3) 11

get_sqrt_ratio_at_tick_range_example :
    (r : ℕ) × (get_sqrt_ratio_at_tick (pos 850) ≡ ok r)
    × (0 < r)
    × (pos 850 ≤ℤ pos 0 → r ≤ 2 ^ 96)
    × (pos 0 <ℤ pos 850 → 2 ^ 96 ≤ r)
get_sqrt_ratio_at_tick_range_example =
    get_sqrt_ratio_at_tick_range (pos 850) (omega arith, omega arith)
