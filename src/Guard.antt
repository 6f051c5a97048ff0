-- ===== src/Guard.antt =====
-- agent/src/guard/risk.ts: the notional of an action. A price, an
-- amount and a liquidity are bigints: ℤ where the source allows a sign, ℕ for unsigned integers of
-- the chain. The cents of a hedge order, whose size and price are texts, are an argument; a notional
-- that is not a number is `none`.
pub mod Input
pub mod Rules
pub mod Check
pub mod Authority
pub mod Promises
pub mod Placed
pub mod Origin
use mathlib.Core.Option.{get_or}
use Prim.Native.String.{String}
use deltadesk.Prelude.{
  ℕ, ◌+◌, ◌*◌, ◌/◌, ◌^◌, ◌≡◌, Bool, true, false, not, ◌||◌, Option, none, some, List, [], ◌∷◌, ltb,
  ◌==◌, if◌then◌else◌,
}
use deltadesk.Prelude.Int.{ℤ, pos, negsuc, ◌+ℤ◌, ◌-ℤ◌, pos_part, leb_ℤ, ltb_ℤ}
use deltadesk.Prelude.Result.{Result, ok, err, ◌>>=◌}
use deltadesk.Bands.{RangeSpec}
use deltadesk.Units.Liquidity.{Amounts, get_amounts_for_liquidity}
use deltadesk.Units.TickMath.{get_sqrt_ratio_at_tick}
use deltadesk.Units.Money.{usd6_to_cents_ceil, value_usd6}
use deltadesk.Actions.{DeskAction, rerange, hedge, adds_risk}

pub record ChainlinkRound : Type 0 where
  pub answer : ℤ
  pub decimals : ℤ

pub record NpmPosition : Type 0 where
  pub tick_lower : ℤ
  pub tick_upper : ℤ
  pub liquidity : ℕ
  pub tokens_owed0 : ℕ
  pub tokens_owed1 : ℕ

pub record LaneRead : Type 0 where
  pub sqrt_price : ℕ
  pub position_details : List (Option NpmPosition)
  pub balance0 : ℕ
  pub balance1 : ℕ
  pub nvda : Option ChainlinkRound
  pub usdg : Option ChainlinkRound

pub record Prices : Type 0 where
  pub p0 : ℤ
  pub p1 : ℤ

pub record SignedAmounts : Type 0 where
  pub amount0 : ℤ
  pub amount1 : ℤ

unfoldable pub fence_price_e18 : Option ChainlinkRound → Option ℤ
fence_price_e18 none = none
fence_price_e18 (some round) =
    if leb_ℤ round.answer (pos 0) || ltb_ℤ round.decimals (pos 0)
    then none
    else some (pos (pos_part round.answer * 10 ^ 18 / 10 ^ pos_part round.decimals))

unfoldable pub both_prices : Option ℤ → Option ℤ → Option Prices
both_prices (some p0) (some p1) = some (record { p0 = p0; p1 = p1 })
both_prices _ _ = none

unfoldable pub fence_prices : Option LaneRead → Option Prices
unfolding fence_price_e18 both_prices
fence_prices none = none
fence_prices (some c) = both_prices (fence_price_e18 c.usdg) (fence_price_e18 c.nvda)

-- A position's amounts and the tokens owed to it.
unfoldable pub amounts_of_position : ℕ → NpmPosition → Result Amounts
amounts_of_position sqrt_price p =
    if p.liquidity == 0
    then ok (record { amount0 = p.tokens_owed0; amount1 = p.tokens_owed1 })
    else do
      lower ← get_sqrt_ratio_at_tick p.tick_lower
      upper ← get_sqrt_ratio_at_tick p.tick_upper
      a ← get_amounts_for_liquidity sqrt_price lower upper p.liquidity
      ok (record { amount0 = a.amount0 + p.tokens_owed0; amount1 = a.amount1 + p.tokens_owed1 })

-- The loop of `positionAmounts`, with the sums so far.
unfoldable pub position_amounts : ℕ → List (Option NpmPosition) → Amounts → Result Amounts
unfolding amounts_of_position
position_amounts sqrt_price [] sums = ok sums
position_amounts sqrt_price (none ∷ rest) sums = position_amounts sqrt_price rest sums
position_amounts sqrt_price (some p ∷ rest) sums = amounts_of_position sqrt_price p >>= λ a.
    position_amounts sqrt_price rest
      (record { amount0 = sums.amount0 + a.amount0; amount1 = sums.amount1 + a.amount1 })

unfoldable pub post_unwind_balances : LaneRead → Result Amounts
unfolding position_amounts
post_unwind_balances c = do
  a ← position_amounts c.sqrt_price c.position_details (record { amount0 = 0; amount1 = 0 })
  ok (record { amount0 = c.balance0 + a.amount0; amount1 = c.balance1 + a.amount1 })

-- The sums of the shares of each token.
unfoldable pub shares_of : List RangeSpec → SignedAmounts
shares_of [] = record { amount0 = pos 0; amount1 = pos 0 }
shares_of (r ∷ rs) =
    let rest = shares_of rs in
    record { amount0 = r.share0_bps +ℤ rest.amount0; amount1 = r.share1_bps +ℤ rest.amount1 }

-- `balance * share / 10000`, rounded toward zero.
unfoldable pub share_of_balance : ℕ → ℤ → ℤ
share_of_balance balance (pos share) = pos (balance * share / 10000)
share_of_balance balance (negsuc n) = pos 0 -ℤ pos (balance * (n + 1) / 10000)

unfoldable pub rerange_upper_amounts : List RangeSpec → Amounts → SignedAmounts
unfolding shares_of share_of_balance
rerange_upper_amounts ranges balances =
    let shares = shares_of ranges in
    record {
      amount0 = share_of_balance balances.amount0 shares.amount0;
      amount1 = share_of_balance balances.amount1 shares.amount1;
    }

-- The decimals of USDG and NVDA.
unfoldable pub notional_usd6 : SignedAmounts → Prices → Result ℕ
notional_usd6 a p = do
  v0 ← value_usd6 a.amount0 6 p.p0 true
  v1 ← value_usd6 a.amount1 18 p.p1 true
  ok (v0 + v1)

-- The amounts an adding rerange is valued by: those of its simulation, or else the upper bound.
unfoldable pub rerange_amounts :
    List RangeSpec → LaneRead → Option SignedAmounts → Result SignedAmounts
unfolding rerange_upper_amounts post_unwind_balances
rerange_amounts ranges c (some simulated) = ok simulated
rerange_amounts ranges c none = do
  balances ← post_unwind_balances c
  ok (rerange_upper_amounts ranges balances)

-- With the prices, if there are any.
unfoldable pub cents_at :
    Option Prices → List RangeSpec → LaneRead → Option SignedAmounts → Result (Option ℕ)
unfolding rerange_amounts notional_usd6
cents_at none ranges c simulated = ok none
cents_at (some prices) ranges c simulated = do
  a ← rerange_amounts ranges c simulated
  usd6 ← notional_usd6 a prices
  cents ← usd6_to_cents_ceil (pos usd6)
  ok (some cents)

unfoldable pub rerange_cents :
    List RangeSpec → Option LaneRead → Option SignedAmounts → Result (Option ℕ)
unfolding fence_prices cents_at
rerange_cents ranges none simulated = ok none
rerange_cents ranges (some c) simulated = cents_at (fence_prices (some c)) ranges c simulated

-- `hedge_cents` is `hedgeNotionalCents`.
unfoldable pub adding_cents :
    (hedge_cents : String → String → Option ℕ)
    → DeskAction
    → Option LaneRead
    → Option SignedAmounts
    → Result (Option ℕ)
unfolding rerange_cents
adding_cents hedge_cents (rerange r) chain simulated = rerange_cents r.ranges chain simulated
adding_cents hedge_cents (hedge o) chain simulated = ok (hedge_cents o.sz o.px)
adding_cents hedge_cents _ chain simulated = ok none

unfoldable pub notional_cents :
    (hedge_cents : String → String → Option ℕ)
    → DeskAction
    → Option LaneRead
    → Option SignedAmounts
    → Result (Option ℕ)
unfolding adding_cents adds_risk
notional_cents hedge_cents action chain simulated =
    if adds_risk action then adding_cents hedge_cents action chain simulated else ok (some 0)
