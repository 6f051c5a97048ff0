-- ===== src/Units/Liquidity.antt =====
-- agent/src/units.ts, LiquidityAmounts and SqrtPriceMath. The arguments are on-chain unsigned
-- integers, so they are natural numbers here, and what is passed on to `mulDiv` is never negative.
pub mod Bounds
use deltadesk.Prelude.{ℕ, ◌-◌, ◌*◌, ◌/◌, ◌^◌, Bool, false, ltb, leb, ◌==◌, if◌then◌else◌}
use deltadesk.Prelude.Int.{pos}
use deltadesk.Prelude.Result.{Result, ok, err, range_error, ◌>>=◌}
use deltadesk.Units.FullMath.{mul_div, mul_div_rounding_up, div_rounding_up}

abbrev pub q96 : ℕ
q96 = 2 ^ 96

abbrev pub max_uint128 : ℕ
max_uint128 = 2 ^ 128 - 1

abbrev pub sort_ratios : ℕ → ℕ → ℕ × ℕ
sort_ratios a b = if ltb b a then (b, a) else (a, b)

unfoldable pub to_uint128 : ℕ → Result ℕ
to_uint128 x = if ltb max_uint128 x then err range_error else ok x

unfoldable pub get_liquidity_for_amount0 : ℕ → ℕ → ℕ → Result ℕ
get_liquidity_for_amount0 sqrt_a sqrt_b amount0 =
    let (lo, hi) = sort_ratios sqrt_a sqrt_b in
    if lo == hi then ok 0 else do
      intermediate ← mul_div (pos lo) (pos hi) (pos q96)
      l ← mul_div (pos amount0) (pos intermediate) (pos (hi - lo))
      to_uint128 l

unfoldable pub get_liquidity_for_amount1 : ℕ → ℕ → ℕ → Result ℕ
get_liquidity_for_amount1 sqrt_a sqrt_b amount1 =
    let (lo, hi) = sort_ratios sqrt_a sqrt_b in
    if lo == hi then ok 0 else do l ← mul_div (pos amount1) (pos q96) (pos (hi - lo)); to_uint128 l

-- `getLiquidityForAmounts` once its ratios are sorted.
unfoldable pub liquidity_between : ℕ → ℕ → ℕ → ℕ → ℕ → Result ℕ
liquidity_between sqrt_p lo hi amount0 amount1 =
    if leb sqrt_p lo
    then get_liquidity_for_amount0 lo hi amount0
    else if ltb sqrt_p hi
    then (do
      l0 ← get_liquidity_for_amount0 sqrt_p hi amount0
      l1 ← get_liquidity_for_amount1 lo sqrt_p amount1
      ok (if ltb l0 l1 then l0 else l1))
    else get_liquidity_for_amount1 lo hi amount1

unfoldable pub get_liquidity_for_amounts : ℕ → ℕ → ℕ → ℕ → ℕ → Result ℕ
get_liquidity_for_amounts sqrt_p sqrt_a sqrt_b amount0 amount1 =
    let (lo, hi) = sort_ratios sqrt_a sqrt_b in liquidity_between sqrt_p lo hi amount0 amount1

-- `round_up` takes the rounding division at both places. `liquidity << 96n` is a product.
unfoldable pub get_amount0_delta : ℕ → ℕ → ℕ → Bool → Result ℕ
get_amount0_delta sqrt_a sqrt_b liquidity round_up =
    let (lo, hi) = sort_ratios sqrt_a sqrt_b in
    if lo == 0
    then err range_error
    else if round_up
    then (do
      q ← mul_div_rounding_up (pos (liquidity * q96)) (pos (hi - lo)) (pos hi)
      div_rounding_up (pos q) (pos lo))
    else do q ← mul_div (pos (liquidity * q96)) (pos (hi - lo)) (pos hi); ok (q / lo)

unfoldable pub get_amount1_delta : ℕ → ℕ → ℕ → Bool → Result ℕ
get_amount1_delta sqrt_a sqrt_b liquidity round_up =
    let (lo, hi) = sort_ratios sqrt_a sqrt_b in
    if round_up
    then mul_div_rounding_up (pos liquidity) (pos (hi - lo)) (pos q96)
    else mul_div (pos liquidity) (pos (hi - lo)) (pos q96)

pub record Amounts : Type 0 where
  pub amount0 : ℕ
  pub amount1 : ℕ

-- `getAmountsForLiquidity` once its ratios are sorted.
unfoldable pub amounts_between : ℕ → ℕ → ℕ → ℕ → Result Amounts
amounts_between sqrt_p lo hi liquidity =
    if leb sqrt_p lo
    then (do
      a0 ← get_amount0_delta lo hi liquidity false
      ok (record { amount0 = a0; amount1 = 0 }))
    else if ltb sqrt_p hi
    then (do
      a0 ← get_amount0_delta sqrt_p hi liquidity false
      a1 ← get_amount1_delta lo sqrt_p liquidity false
      ok (record { amount0 = a0; amount1 = a1 }))
    else do a1 ← get_amount1_delta lo hi liquidity false; ok (record { amount0 = 0; amount1 = a1 })

unfoldable pub get_amounts_for_liquidity : ℕ → ℕ → ℕ → ℕ → Result Amounts
get_amounts_for_liquidity sqrt_p sqrt_a sqrt_b liquidity =
    let (lo, hi) = sort_ratios sqrt_a sqrt_b in amounts_between sqrt_p lo hi liquidity
