-- ===== src/Units/Liquidity/Bounds.antt =====
-- What a mint of the computed liquidity takes is at most what was offered.
use native.Mathlib.Decide.{dec_le, dec_lt}
use native.Mathlib.Nat.{le_refl, le_trans, mul-le-mul_left, div-le_of_le-mul, mul-div-le}
use deltadesk.Prelude.{ℕ, ◌-◌, ◌*◌, ◌/◌, ◌≤◌, ◌<◌, ◌≡◌, ◌≢◌, false, arith, ltb, if◌then◌else◌}
use deltadesk.Prelude.Int.{pos}
use deltadesk.Prelude.Result.{Result, ok, ◌>>=◌, >>=-eq_ok}
use deltadesk.Units.FullMath.{mul_div, div-IsFloor, mul_div-IsFloor}
use deltadesk.Units.Liquidity.{
  Amounts, q96, sort_ratios, max_uint128, liquidity_between, amounts_between,
  get_liquidity_for_amounts, get_amounts_for_liquidity, to_uint128, get_liquidity_for_amount0,
  get_liquidity_for_amount1, get_amount0_delta, get_amount1_delta,
}

-- A positive denominator always gives the floor.
pub mul_div-pos : (a b d : ℕ) → 0 < d → mul_div (pos a) (pos b) (pos d) ≡ ok (a * b / d)
mul_div-pos a b d h =
    (mul_div-IsFloor (pos a) (pos b) (pos d) _).1 (omega arith, div-IsFloor (a * b) d h)

-- The arithmetic of the two directions of token0, at any fixed-point scale.
amount0-arith :
    (scale lo hi d a k : ℕ)
    → 0 < scale
    → 0 < d
    → k ≤ a * (lo * hi / scale) / d
    → k * scale * d / hi / lo ≤ a
amount0-arith scale lo hi d a k scale_pos d_pos h = div-le_of_le-mul lo (
    div-le_of_le-mul hi (
      omega (
        arith,
        mul-le-mul_left scale (le_trans (mul-le-mul_left d h) (mul-div-le (a * inner) d)),
        mul-le-mul_left a (mul-div-le (lo * hi) scale),
      )))
  where
    inner : ℕ
    inner = lo * hi / scale

amount1-arith : (scale d a k : ℕ) → 0 < scale → 0 < d → k ≤ a * scale / d → k * d / scale ≤ a
amount1-arith scale d a k scale_pos d_pos h =
    div-le_of_le-mul scale
      (omega (arith, le_trans (mul-le-mul_left d h) (mul-div-le (a * scale) d)))

liquidity0-eq :
    (lo hi a : ℕ)
    → lo < hi
    → get_liquidity_for_amount0 lo hi a ≡ to_uint128 (a * (lo * hi / q96) / (hi - lo))
unfolding get_liquidity_for_amount0
liquidity0-eq lo hi a lt = ground (
  arith,
  mul_div-pos lo hi q96 (omega arith),
  mul_div-pos a (lo * hi / q96) (hi - lo) (omega arith),
)

amount0-eq :
    (lo hi k : ℕ)
    → 0 < lo
    → lo < hi
    → get_amount0_delta lo hi k false ≡ ok (k * q96 * (hi - lo) / hi / lo)
unfolding get_amount0_delta
amount0-eq lo hi k lo_pos lt = ground (arith, mul_div-pos (k * q96) (hi - lo) hi (omega arith))

liquidity1-eq :
    (lo hi a : ℕ) → lo < hi → get_liquidity_for_amount1 lo hi a ≡ to_uint128 (a * q96 / (hi - lo))
unfolding get_liquidity_for_amount1
liquidity1-eq lo hi a lt = ground (arith, mul_div-pos a q96 (hi - lo) (omega arith))

amount1-eq : (lo hi k : ℕ) → lo < hi → get_amount1_delta lo hi k false ≡ ok (k * (hi - lo) / q96)
unfolding get_amount1_delta
amount1-eq lo hi k lt = ground (arith, mul_div-pos k (hi - lo) q96 (omega arith))

-- `toUint128` passes its argument on or throws.
to_uint128-ok : (x l : ℕ) → to_uint128 x ≡ ok l → (l ≡ x) × (l ≤ max_uint128)
unfolding to_uint128
to_uint128-ok x l h = ground arith

-- Liquidity computed for an amount of token0, or any less, takes at most that amount again.
pub amount0-liquidity0 :
    (lo hi a l k : ℕ)
    → 0 < lo
    → lo < hi
    → get_liquidity_for_amount0 lo hi a ≡ ok l
    → k ≤ l
    → (t : ℕ) × (get_amount0_delta lo hi k false ≡ ok t) × (t ≤ a)
amount0-liquidity0 lo hi a l k lo_pos lt e le = (
  _,
  amount0-eq lo hi k lo_pos lt,
  amount0-arith q96 lo hi (hi - lo) a k (omega arith) (omega arith)
      (omega (arith, (to_uint128-ok _ l (rw (liquidity0-eq lo hi a lt) at e)).0)),
)

-- The same for token1.
pub amount1-liquidity1 :
    (lo hi a l k : ℕ)
    → lo < hi
    → get_liquidity_for_amount1 lo hi a ≡ ok l
    → k ≤ l
    → (t : ℕ) × (get_amount1_delta lo hi k false ≡ ok t) × (t ≤ a)
amount1-liquidity1 lo hi a l k lt e le = (
  _,
  amount1-eq lo hi k lt,
  amount1-arith q96 (hi - lo) a k (omega arith) (omega arith)
      (omega (arith, (to_uint128-ok _ l (rw (liquidity1-eq lo hi a lt) at e)).0)),
)

least-le : (l0 l1 l : ℕ) → ok (if ltb l0 l1 then l0 else l1) ≡ ok l → (l ≤ l0) × (l ≤ l1)
least-le l0 l1 l e = ground arith

amounts_between-inside :
    (p lo hi l t0 t1 : ℕ)
    → lo < p
    → p < hi
    → get_amount0_delta p hi l false ≡ ok t0
    → get_amount1_delta lo p l false ≡ ok t1
    → amounts_between p lo hi l ≡ ok (record { amount0 = t0; amount1 = t1 })
unfolding amounts_between
amounts_between-inside p lo hi l t0 t1 h k e0 e1 = ground arith

-- What a position of the liquidity holds is computed, and is at most what was offered.
abbrev Fits : Result Amounts → ℕ → ℕ → Type 0
Fits r amount0 amount1 = (t : Amounts) × (r ≡ ok t) × (t.amount0 ≤ amount0) × (t.amount1 ≤ amount1)

module _ (p lo hi x y l : ℕ) (lo_pos : 0 < lo) (lt : lo < hi)
    (e : liquidity_between p lo hi x y ≡ ok l) where
  below-Fits : p ≤ lo → Fits (amounts_between p lo hi l) x y
  unfolding liquidity_between amounts_between
  below-Fits h =
      let (t, q, le) = amount0-liquidity0 lo hi x l l lo_pos lt (ground arith) (le_refl l) in
      (record { amount0 = t; amount1 = 0 }, ground arith, le, omega arith)

  above-Fits : hi ≤ p → Fits (amounts_between p lo hi l) x y
  unfolding liquidity_between amounts_between
  above-Fits h =
      let (t, q, le) = amount1-liquidity1 lo hi y l l lt (ground arith) (le_refl l) in
      (record { amount0 = 0; amount1 = t }, ground arith, omega arith, le)

  inside-Fits : lo < p → p < hi → Fits (amounts_between p lo hi l) x y
  unfolding liquidity_between amounts_between
  inside-Fits h k =
      let (l0, e0, rest) = >>=-eq_ok (get_liquidity_for_amount0 p hi x) _ parts in
      let (l1, e1, least) = >>=-eq_ok (get_liquidity_for_amount1 lo p y) _ rest in
      let (l-le0, l-le1) = least-le l0 l1 l least in
      let (t0, q0, le0) = amount0-liquidity0 p hi x l0 l (omega arith) k e0 l-le0 in
      let (t1, q1, le1) = amount1-liquidity1 lo p y l1 l h e1 l-le1 in
      (_, amounts_between-inside p lo hi l t0 t1 h k q0 q1, le0, le1)
    where
      parts :
          (get_liquidity_for_amount0 p hi x >>= λ l0.
          get_liquidity_for_amount1 lo p y >>= λ l1. ok (if ltb l0 l1 then l0 else l1))
          ≡ ok l
      parts = ground arith

between-Fits :
    (p lo hi x y l : ℕ)
    → 0 < lo
    → lo < hi
    → liquidity_between p lo hi x y ≡ ok l
    → Fits (amounts_between p lo hi l) x y
between-Fits p lo hi x y l lo_pos lt e = elim (dec_le p lo) [
  | yes h ↦ below-Fits p lo hi x y l lo_pos lt e h
  | no h ↦ elim (dec_le hi p) [
    | yes k ↦ above-Fits p lo hi x y l lo_pos lt e k
    | no k ↦ inside-Fits p lo hi x y l lo_pos lt e (omega arith) (omega arith)
  ]
]

-- For two different positive ratios: if the liquidity for the offered amounts does not overflow
-- uint128, then the amounts that a position of that liquidity holds at the same price are computed
-- without an exception, and neither is more than what was offered.
pub get_amounts_for_liquidity-le :
    (p a b x y l : ℕ)
    → 0 < a
    → 0 < b
    → a ≢ b
    → get_liquidity_for_amounts p a b x y ≡ ok l
    → Fits (get_amounts_for_liquidity p a b l) x y
unfolding get_liquidity_for_amounts get_amounts_for_liquidity
get_amounts_for_liquidity-le p a b x y l a_pos b_pos ne e = elim (dec_lt b a) [
  | yes h ↦ rw (swapped h) (between-Fits p b a x y l b_pos h (rw (swapped h) at e))
  | no h ↦ rw (kept h) (between-Fits p a b x y l a_pos (omega arith) (rw (kept h) at e))
]
  where
    swapped : b < a → sort_ratios a b ≡ (b, a)
    swapped h = ground arith

    kept : ¬ (b < a) → sort_ratios a b ≡ (a, b)
    kept h = ground arith
