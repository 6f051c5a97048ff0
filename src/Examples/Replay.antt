-- ===== src/Examples/Replay.antt =====
-- The theorems on the lane of a replay at a funded, empty lane.
use deltadesk.Prelude.{ℕ, ◌≡◌, refl, List, [], ◌∷◌, arith}
use deltadesk.Prelude.Int.{pos, negsuc, ◌+ℤ◌, ◌-ℤ◌}
use deltadesk.Prelude.Result.{ok}
use deltadesk.Bands.{RangeSpec}
use deltadesk.Units.FullMath.{mul_div}
use deltadesk.Units.TickMath.{get_sqrt_ratio_at_tick, ratio_of}
use deltadesk.Units.Liquidity.{
  get_liquidity_for_amounts, liquidity_between, get_liquidity_for_amount0, to_uint128,
  get_liquidity_for_amount1, get_amounts_for_liquidity, amounts_between, get_amount0_delta,
  get_amount1_delta,
}
use deltadesk.Replay.{SimLane, unwound, apply_rerange}
use deltadesk.Replay.Conserved.{unwound-apply_rerange}
use deltadesk.Replay.Solvent.{IsSolvent, total_share0, total_share1, apply_rerange-IsSolvent}

abbrev funded : SimLane
funded = record {
  positions = [];
  balance0 = pos 1000000;
  balance1 = pos 2000000;
  reranges = [];
  next_token_id = 1;
}

abbrev one_range : List RangeSpec
one_range =
    record {
      range = record { tick_lower = negsuc 9; tick_upper = pos 10 };
      share0_bps = pos 10000;
      share1_bps = pos 5000;
    }
    ∷ []

abbrev price : ℕ
price = 79228162514264337593543950336

abbrev after : SimLane
after = record {
  positions =
      record {
        token_id = 1;
        range = record { tick_lower = negsuc 9; tick_upper = pos 10 };
        liquidity = 2000600039;
      }
      ∷ [];
  balance0 = pos 1;
  balance1 = pos 1000001;
  reranges = record { at_ms = pos 0; notional_cents = 100 } ∷ [];
  next_token_id = 2;
}

placed : apply_rerange funded one_range price (pos 0) 100 ≡ ok after
unfolding apply_rerange ◌+ℤ◌ ◌-ℤ◌ get_sqrt_ratio_at_tick ratio_of get_liquidity_for_amounts
    liquidity_between get_liquidity_for_amount0 mul_div to_uint128 get_liquidity_for_amount1
    get_amounts_for_liquidity amounts_between get_amount0_delta get_amount1_delta
placed = refl

unwound_first : unwound funded price ≡ ok funded
unfolding unwound ◌+ℤ◌
unwound_first = refl

unwound-apply_rerange_example :
    (v : SimLane) × (unwound after price ≡ ok v)
    × (v.balance0 ≡ pos 1000000)
    × (v.balance1 ≡ pos 2000000)
unwound-apply_rerange_example =
    unwound-apply_rerange funded funded after one_range price (pos 0) 100 unwound_first placed

apply_rerange-IsSolvent_example : IsSolvent (pos 1) (pos 1000001)
unfolding total_share0 total_share1
apply_rerange-IsSolvent_example =
    apply_rerange-IsSolvent funded funded after one_range price (pos 0) 1000000 2000000 100
      ((omega arith, omega arith), tt) (omega arith) (omega arith) unwound_first refl refl placed
