-- ===== src/Units/TickMath.antt =====
-- agent/src/units.ts, TickMath: the ratio of a tick, a port of Uniswap's getSqrtRatioAtTick over
-- bigints. A tick is an integer; a shift to the right by k is a division by 2 ^ k.
pub mod Range
use Prim.Native.Nat.{bit_and}
use deltadesk.Prelude.{
  ℕ, ◌+◌, ◌-◌, ◌*◌, ◌/◌, ◌%◌, ◌^◌, ◌≡◌, refl, not, ◌||◌, List, [], ◌∷◌, ◌==◌, if◌then◌else◌,
}
use deltadesk.Prelude.Int.{ℤ, pos, negsuc, ltb_ℤ, abs}
use deltadesk.Prelude.Result.{Result, ok, err, range_error, ◌>>=◌, ◌>>◌, guard}

abbrev pub min_tick : ℤ
min_tick = negsuc 887271

abbrev pub max_tick : ℤ
max_tick = pos 887272

abbrev pub q128 : ℕ
q128 = 2 ^ 128

abbrev pub max_uint256 : ℕ
max_uint256 = 2 ^ 256 - 1

-- A bit of the tick's absolute value, and the factor that it stands for.
abbrev pub tick_factors : List (ℕ × ℕ)
tick_factors =
    (0x2, 0xfff97272373d413259a46990580e213a)
    ∷ (0x4, 0xfff2e50f5f656932ef12357cf3c7fdcc)
    ∷ (0x8, 0xffe5caca7e10e4e61c3624eaa0941cd0)
    ∷ (0x10, 0xffcb9843d60f6159c9db58835c926644)
    ∷ (0x20, 0xff973b41fa98c081472e6896dfb254c0)
    ∷ (0x40, 0xff2ea16466c96a3843ec78b326b52861)
    ∷ (0x80, 0xfe5dee046a99a2a811c461f1969c3053)
    ∷ (0x100, 0xfcbe86c7900a88aedcffc83b479aa3a4)
    ∷ (0x200, 0xf987a7253ac413176f2b074cf7815e54)
    ∷ (0x400, 0xf3392b0822b70005940c7a398e4b70f3)
    ∷ (0x800, 0xe7159475a2c29b7443b29c7fa6e889d9)
    ∷ (0x1000, 0xd097f3bdfd2022b8845ad8f792aa5825)
    ∷ (0x2000, 0xa9f746462d870fdf8a65dc1f90e061e5)
    ∷ (0x4000, 0x70d869a156d2a1b890bb3df62baf32f7)
    ∷ (0x8000, 0x31be135f97d08fd981231505542fcfa6)
    ∷ (0x10000, 0x9aa508b5b7a84e1c677de54f3e99bc9)
    ∷ (0x20000, 0x5d6af8dedb81196699c329225ee604)
    ∷ (0x40000, 0x2216e584f5fa1ea926041bedfe98)
    ∷ (0x80000, 0x48a170391f7dc42444e8fa2)
    ∷ []

abbrev pub first_factor : ℕ
first_factor = 0xfffcb933bd6fad37aa2d162d1a594001

unfoldable pub assert_tick : ℤ → Result (Unit {0})
assert_tick tick = guard (not (ltb_ℤ tick min_tick || ltb_ℤ max_tick tick)) range_error

-- The loop over `TICK_FACTORS`.
unfoldable pub apply_factors : ℕ → List (ℕ × ℕ) → ℕ → ℕ
apply_factors abs_tick [] ratio = ratio
apply_factors abs_tick ((bit, factor) ∷ rest) ratio =
    apply_factors abs_tick rest
      (if bit_and abs_tick bit == 0 then ratio else ratio * factor / 2 ^ 128)

-- A bigint division by zero is a `RangeError`.
unfoldable pub invert : ℕ → Result ℕ
invert ratio = if ratio == 0 then err range_error else ok (max_uint256 / ratio)

unfoldable pub ratio_of : ℕ → ℕ
unfolding apply_factors
ratio_of abs_tick =
    apply_factors abs_tick tick_factors (if bit_and abs_tick 0x1 == 0 then q128 else first_factor)

unfoldable pub get_sqrt_ratio_at_tick : ℤ → Result ℕ
unfolding assert_tick invert
get_sqrt_ratio_at_tick tick = do
  assert_tick tick
  ratio ← if ltb_ℤ (pos 0) tick then invert (ratio_of (abs tick)) else ok (ratio_of (abs tick))
  ok (ratio / 2 ^ 32 + (if ratio % 2 ^ 32 == 0 then 0 else 1))

-- The constants MIN_SQRT_RATIO and MAX_SQRT_RATIO are the ratios of the extreme ticks.
min_sqrt_ratio_run : get_sqrt_ratio_at_tick min_tick ≡ ok 4295128739
unfolding get_sqrt_ratio_at_tick ratio_of
min_sqrt_ratio_run = refl

max_sqrt_ratio_run :
    get_sqrt_ratio_at_tick max_tick ≡ ok 1461446703485210103287273052203988822378723970342
unfolding get_sqrt_ratio_at_tick ratio_of
max_sqrt_ratio_run = refl
