-- ===== src/Units/Money.antt =====
-- agent/src/units.ts, money: on-chain usd6 amounts and integer cents, and the notional formula.
-- Cents below 2 ^ 53 are exact as a JavaScript number, and are natural numbers here.
pub mod Rounding
use deltadesk.Prelude.{ℕ, zero, suc, ◌+◌, ◌*◌, ◌/◌, ◌^◌, Bool, true, false, if◌then◌else◌}
use deltadesk.Prelude.Int.{ℤ, pos, negsuc}
use deltadesk.Prelude.Result.{Result, ok, err, range_error, ◌>>=◌}
use deltadesk.Units.FullMath.{assert_uint, mul_div, mul_div_rounding_up, div_rounding_up}

unfoldable pub usd6_to_cents_floor : ℤ → Result ℕ
unfolding assert_uint
usd6_to_cents_floor usd6 = do n ← assert_uint usd6; ok (n / 10000)

unfoldable pub usd6_to_cents_ceil : ℤ → Result ℕ
unfolding assert_uint div_rounding_up
usd6_to_cents_ceil usd6 = do n ← assert_uint usd6; div_rounding_up (pos n) (pos 10000)

unfoldable pub cents_to_usd6 : ℤ → Result ℕ
cents_to_usd6 (pos cents) = ok (cents * 10000)
cents_to_usd6 (negsuc cents) = err range_error

-- usd6 = amount · priceE18 / (10 ^ decimals · 1e12).
unfoldable pub value_usd6 : ℤ → ℕ → ℤ → Bool → Result ℕ
value_usd6 amount decimals price_e18 round_up =
    let denominator = pos (10 ^ decimals * 10 ^ 12) in
    if round_up
    then mul_div_rounding_up amount price_e18 denominator
    else mul_div amount price_e18 denominator
