-- ===== src/Replay.antt =====
-- agent/src/replay/lane.ts: the lane of a replay, its balances and positions. The values in dollars are
-- floats, and are left out; so are the fees of a position, which are 0. A balance may in principle
-- be negative; a share of one that is negative throws here when it is offered, and in the source when
-- the range takes that token.
pub mod Conserved
pub mod Solvent
use deltadesk.Prelude.{
  ℕ, suc, ◌+◌, ◌-◌, ◌*◌, Bool, true, false, Option, none, some, List, [], ◌∷◌, ◌++◌, ◌==◌, filter,
  length, if◌then◌else◌,
}
use deltadesk.Prelude.Int.{ℤ, pos, negsuc, ◌+ℤ◌, ◌-ℤ◌, ltb_ℤ, floor_div}
use deltadesk.Prelude.Result.{Result, ok, err, range_error, ◌>>=◌}
use deltadesk.Bands.{TickRange, RangeSpec}
use deltadesk.Units.Liquidity.{Amounts, get_liquidity_for_amounts, get_amounts_for_liquidity}
use deltadesk.Units.TickMath.{get_sqrt_ratio_at_tick}
use deltadesk.Guard.{share_of_balance}
use deltadesk.Guard.Input.{LaneBudgets, AgentRerangeState}

pub record SimPosition : Type 0 where
  pub token_id : ℕ
  pub range : TickRange
  pub liquidity : ℕ

pub record SimRerange : Type 0 where
  pub at_ms : ℤ
  pub notional_cents : ℕ

pub record SimLane : Type 0 where
  pub positions : List SimPosition
  pub balance0 : ℤ
  pub balance1 : ℤ
  pub reranges : List SimRerange
  pub next_token_id : ℕ

pub record SimCaps : Type 0 where
  pub turnover_usd6_per_day : ℕ
  pub reranges_1h : ℕ
  pub reranges_24h : ℕ
  pub min_rerange_interval : ℕ

unfoldable pub amounts_in : ℕ → TickRange → ℕ → Result Amounts
amounts_in sqrt_price range liquidity = do
  lower ← get_sqrt_ratio_at_tick range.tick_lower
  upper ← get_sqrt_ratio_at_tick range.tick_upper
  get_amounts_for_liquidity sqrt_price lower upper liquidity

abbrev pub add_amounts : Amounts → Amounts → Amounts
add_amounts a b = record { amount0 = a.amount0 + b.amount0; amount1 = a.amount1 + b.amount1 }

unfoldable pub position_amounts : List SimPosition → ℕ → Result Amounts
unfolding amounts_in
position_amounts [] sqrt_price = ok (record { amount0 = 0; amount1 = 0 })
position_amounts (p ∷ rest) sqrt_price = amounts_in sqrt_price p.range p.liquidity >>= λ a.
    position_amounts rest sqrt_price >>= λ b. ok (add_amounts a b)

abbrev pub unwound_by : SimLane → Amounts → SimLane
unwound_by lane a = record lane {
  positions = [];
  balance0 = lane.balance0 +ℤ pos a.amount0;
  balance1 = lane.balance1 +ℤ pos a.amount1;
}

unfoldable pub unwound : SimLane → ℕ → Result SimLane
unfolding position_amounts
unwound lane sqrt_price = position_amounts lane.positions sqrt_price >>= λ a. ok (unwound_by lane a)

unfoldable pub apply_exit_all : SimLane → ℕ → Result SimLane
unfolding unwound
apply_exit_all lane sqrt_price = unwound lane sqrt_price

-- `balance * share / 10000`, rounded toward zero.
unfoldable pub wanted : ℤ → ℤ → ℤ
unfolding share_of_balance
wanted (pos balance) share = share_of_balance balance share
wanted (negsuc n) share = pos 0 -ℤ share_of_balance (suc n) share

unfoldable pub to_amount : ℤ → Result ℕ
to_amount (pos n) = ok n
to_amount (negsuc n) = err range_error

-- The liquidity that the shares of two balances give in a range.
unfoldable pub liquidity_of : ℕ → ℤ → ℤ → RangeSpec → Result ℕ
unfolding wanted to_amount
liquidity_of sqrt_price balance0 balance1 r = do
  want0 ← to_amount (wanted balance0 r.share0_bps)
  want1 ← to_amount (wanted balance1 r.share1_bps)
  lower ← get_sqrt_ratio_at_tick r.range.tick_lower
  upper ← get_sqrt_ratio_at_tick r.range.tick_upper
  get_liquidity_for_amounts sqrt_price lower upper want0 want1

-- What the ranges of a rerange leave: the positions, the balances, and the next id.
pub record Minted : Type 0 where
  pub positions : List SimPosition
  pub balance0 : ℤ
  pub balance1 : ℤ
  pub next_token_id : ℕ

unfoldable pub add_position : ℕ → RangeSpec → ℕ → Minted → Minted
add_position id r liquidity rest = record rest {
  positions = record { token_id = id; range = r.range; liquidity = liquidity } ∷ rest.positions;
}

module _ (sqrt_price : ℕ) (all0 all1 : ℤ) where
  -- The loop: the shares are of the balances `all0` and `all1`, and `b0` and `b1` are left.
  unfoldable pub mint_ranges : List RangeSpec → ℕ → ℤ → ℤ → Result Minted
  unfolding liquidity_of amounts_in add_position
  mint_ranges [] id b0 b1 =
      ok (record { positions = []; balance0 = b0; balance1 = b1; next_token_id = id })
  mint_ranges (r ∷ rest) id b0 b1 = liquidity_of sqrt_price all0 all1 r >>= λ liquidity.
      elim (liquidity == 0) as (λ _. Result Minted) [
        | true ↦ mint_ranges rest id b0 b1
        | false ↦ amounts_in sqrt_price r.range liquidity >>= λ used.
            mint_ranges rest (suc id) (b0 -ℤ pos used.amount0) (b1 -ℤ pos used.amount1) >>= λ m.
            ok (add_position id r liquidity m)
      ]

unfoldable pub apply_rerange : SimLane → List RangeSpec → ℕ → ℤ → ℕ → Result SimLane
unfolding unwound mint_ranges
apply_rerange lane ranges sqrt_price now_ms notional_cents = unwound lane sqrt_price >>= λ u.
    mint_ranges sqrt_price u.balance0 u.balance1 ranges u.next_token_id u.balance0 u.balance1
    >>= λ m. ok (record {
      positions = m.positions;
      balance0 = m.balance0;
      balance1 = m.balance1;
      reranges = lane.reranges ++ record { at_ms = now_ms; notional_cents = notional_cents } ∷ [];
      next_token_id = m.next_token_id;
    })

abbrev pub hour_ms : ℕ
hour_ms = 3600000

abbrev pub day_ms : ℕ
day_ms = 24 * hour_ms

abbrev pub within : ℕ → ℤ → List SimRerange → List SimRerange
within window now_ms rows = filter (λ r. ltb_ℤ (now_ms -ℤ r.at_ms) (pos window)) rows

unfoldable pub spent_cents : List SimRerange → ℕ
spent_cents [] = 0
spent_cents (r ∷ rest) = r.notional_cents + spent_cents rest

unfoldable pub last_rerange : List SimRerange → Option SimRerange
last_rerange [] = none
last_rerange (r ∷ []) = some r
last_rerange (r ∷ s ∷ rest) = last_rerange (s ∷ rest)

-- The subtractions stop at 0, as the clamps of the source do.
unfoldable pub budgets_at : SimLane → ℤ → SimCaps → LaneBudgets
unfolding spent_cents last_rerange
budgets_at lane now_ms caps =
    let day = within day_ms now_ms lane.reranges in
    record {
      turnover_available_usd6 = caps.turnover_usd6_per_day - spent_cents day * 10000;
      reranges_1h_left = caps.reranges_1h - length (within hour_ms now_ms lane.reranges);
      reranges_24h_left = caps.reranges_24h - length day;
      next_rerange_at = elim (last_rerange lane.reranges) as (λ _. ℤ) [
        | none ↦ pos 0
        | some r ↦ floor_div r.at_ms 1000 +ℤ pos caps.min_rerange_interval
      ];
    }

unfoldable pub agent_rerange_at : SimLane → ℤ → AgentRerangeState
unfolding last_rerange
agent_rerange_at lane now_ms = record {
  last_rerange_at_ms = elim (last_rerange lane.reranges) as (λ _. Option ℤ) [
    | none ↦ none
    | some r ↦ some r.at_ms
  ];
  count_1h = length (within hour_ms now_ms lane.reranges);
  count_24h = length (within day_ms now_ms lane.reranges);
  max_per_hour = 4;
  max_per_day = 24;
  min_interval_ms = 300000;
}
