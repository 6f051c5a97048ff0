-- ===== src/Examples/Guard.antt =====
-- agent/src/guard/risk.ts at a lane of two tokens of NVDA at $150.
use Prim.Native.String.{String}
use deltadesk.Prelude.{ℕ, ◌*◌, ◌^◌, Option, none, some, [], ◌∷◌}
use deltadesk.Prelude.Int.{pos}
use deltadesk.Bands.{RangeSpec}
use deltadesk.Actions.{Rerange, lane_a}
use deltadesk.Guard.{LaneRead, SignedAmounts}

abbrev lane : LaneRead
lane = record {
  sqrt_price = 2 ^ 96;
  position_details = none ∷ [];
  balance0 = 0;
  balance1 = 2 * 10 ^ 18;
  nvda = some (record { answer = pos (150 * 10 ^ 8); decimals = pos 8 });
  usdg = some (record { answer = pos (10 ^ 8); decimals = pos 8 });
}

abbrev asks : RangeSpec
asks = record {
  range = record { tick_lower = pos 750; tick_upper = pos 950 };
  share0_bps = pos 0;
  share1_bps = pos 10000;
}

abbrev upper : SignedAmounts
upper = record { amount0 = pos 0; amount1 = pos (2 * 10 ^ 18) }

abbrev minted : SignedAmounts
minted = record { amount0 = pos 0; amount1 = pos (10 ^ 18) }

-- A stand-in for the value of a hedge order.
abbrev unvalued : String → String → Option ℕ
unvalued sz px = none

abbrev move : Rerange
move = record {
  lane = lane_a;
  ranges = asks ∷ [];
  expected_tick = pos 850;
  max_tick_delta = pos 10;
}
