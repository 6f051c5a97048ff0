-- ===== src/Units/TickMath/Range.antt =====
-- Every tick in range has a ratio, on the right side of the ratio of tick 0.
use Prim.Native.Nat.{bit_and}
use native.Mathlib.Nat.{
  le_trans, le_refl, le-div_iff_mul-le, mul-le-mul_right, div-le_of_le-mul, mul-le-mul_left,
}
use deltadesk.Prelude.{
  ℕ, zero, suc, ◌+◌, ◌-◌, ◌*◌, ◌/◌, ◌%◌, ◌^◌, ◌≤◌, ◌<◌, ◌≡◌, refl, List, [], ◌∷◌, ◌==◌,
  if◌then◌else◌, All, arith, inl, inr, ◌&&◌, subst, Bool-cases,
}
use deltadesk.Prelude.Int.{ℤ, pos, negsuc, leb_ℤ, abs, ◌≤ℤ◌, ◌<ℤ◌}
use deltadesk.Prelude.Result.{ok, err, range_error}
use deltadesk.Units.FullMath.{div-IsFloor}
use deltadesk.Units.TickMath.{
  min_tick, max_tick, q128, max_uint256, tick_factors, first_factor, apply_factors, ratio_of,
  get_sqrt_ratio_at_tick,
}

-- Every factor applied, whatever the bits.
apply_all : List (ℕ × ℕ) → ℕ → ℕ
apply_all [] ratio = ratio
apply_all ((bit, factor) ∷ rest) ratio = apply_all rest (ratio * factor / 2 ^ 128)

abbrev AtMostOne : List (ℕ × ℕ) → Type 0
AtMostOne = All (λ f. f.1 ≤ q128)

-- One factor makes a ratio no greater, and a greater ratio gives a greater result.
step_le : (s r f : ℕ) → 0 < s → f ≤ s → r * f / s ≤ r
step_le s r f h le = div-le_of_le-mul s (omega (arith, mul-le-mul_left r le))

step_mono : (s q r f : ℕ) → 0 < s → q ≤ r → q * f / s ≤ r * f / s
step_mono s q r f h le =
    (le-div_iff_mul-le h).1 (le_trans (div-IsFloor (q * f) s h).0 (mul-le-mul_right f le))

-- One round of the loop, and its bounds.
abbrev round : ℕ → ℕ → ℕ → ℕ → ℕ
round n bit f r = if bit_and n bit == 0 then r else r * f / 2 ^ 128

round-le : (n bit f r : ℕ) → f ≤ q128 → round n bit f r ≤ r
round-le n bit f r h = ground (arith, step_le (2 ^ 128) r f (omega arith) h)

le-round : (n bit f q r : ℕ) → f ≤ q128 → q ≤ r → q * f / 2 ^ 128 ≤ round n bit f r
le-round n bit f q r h le =
    ground
      (arith, step_le (2 ^ 128) q f (omega arith) h, step_mono (2 ^ 128) q r f (omega arith) le)

apply_factors-le : (n : ℕ) (fs : List (ℕ × ℕ)) (r : ℕ) → AtMostOne fs → apply_factors n fs r ≤ r
unfolding apply_factors
apply_factors-le n [] r h = le_refl r
apply_factors-le n ((bit, f) ∷ fs) r h =
    le_trans (apply_factors-le n fs (round n bit f r) h.1) (round-le n bit f r h.0)

apply_all-le :
    (n : ℕ) (fs : List (ℕ × ℕ)) (q r : ℕ)
    → AtMostOne fs
    → q ≤ r
    → apply_all fs q ≤ apply_factors n fs r
unfolding apply_factors apply_all
apply_all-le n [] q r h le = le
apply_all-le n ((bit, f) ∷ fs) q r h le =
    apply_all-le n fs (q * f / 2 ^ 128) (round n bit f r) h.1 (le-round n bit f q r h.0 le)

-- The ratio before the inversion is positive, and at most 1 in Q128.
all_applied : 0 < apply_all tick_factors first_factor
unfolding apply_all
all_applied = omega arith

ratio_of_bounds : (n : ℕ) → (0 < ratio_of n) × (ratio_of n ≤ q128)
unfolding ratio_of
ratio_of_bounds n = (
  le_trans all_applied
      (apply_all-le n tick_factors first_factor start (omega arith) (ground arith)),
  le_trans (apply_factors-le n tick_factors start (omega arith)) (ground arith),
)
  where
    start : ℕ
    start = if bit_and n 0x1 == 0 then q128 else first_factor

-- The last shift, rounded up, from 128 fractional bits to 96.
abbrev shift_up : ℕ → ℕ
shift_up ratio = ratio / 2 ^ 32 + (if ratio % 2 ^ 32 == 0 then 0 else 1)

shift_up_bounds :
    (ratio : ℕ)
    → 0 < ratio
    → (0 < shift_up ratio)
      × (ratio ≤ q128 → shift_up ratio ≤ 2 ^ 96)
      × (q128 - 1 ≤ ratio → 2 ^ 96 ≤ shift_up ratio)
shift_up_bounds ratio h = (ground arith, λ le. ground arith, λ le. ground arith)

inverse-le : (ratio : ℕ) → 0 < ratio → ratio ≤ q128 → q128 - 1 ≤ max_uint256 / ratio
inverse-le ratio h le =
    (le-div_iff_mul-le h).1 (le_trans (mul-le-mul_left (q128 - 1) le) (omega arith))

abbrev InRange : ℤ → Type 0
InRange t = (min_tick ≤ℤ t) × (t ≤ℤ max_tick)

-- What a tick in range gives, by its sign.
abbrev Ratio : ℤ → Type 0
Ratio t =
    (r : ℕ) × (get_sqrt_ratio_at_tick t ≡ ok r)
    × (0 < r)
    × (t ≤ℤ pos 0 → r ≤ 2 ^ 96)
    × (pos 0 <ℤ t → 2 ^ 96 ≤ r)

low_tick :
    (t : ℤ) → t ≤ℤ pos 0 → get_sqrt_ratio_at_tick t ≡ ok (shift_up (ratio_of (abs t))) → Ratio t
low_tick t le e =
    let (positive, below, above) = shift_up_bounds (ratio_of (abs t)) (ratio_of_bounds _).0 in
    (_, e, positive, λ _. below (ratio_of_bounds _).1, λ lt. absurd (omega arith))

high_tick :
    (t : ℤ)
    → pos 0 <ℤ t
    → get_sqrt_ratio_at_tick t ≡ ok (shift_up (max_uint256 / ratio_of (abs t)))
    → Ratio t
high_tick t lt e =
    let least = inverse-le (ratio_of (abs t)) (ratio_of_bounds _).0 (ratio_of_bounds _).1 in
    let (positive, below, above) = shift_up_bounds (max_uint256 / ratio_of (abs t)) (omega arith) in
    (_, e, positive, λ le. absurd (omega arith), λ _. above least)

-- Every tick in range has a positive ratio, without an exception; up to tick 0 it is at most
-- 2 ^ 96, the ratio of tick 0, and above tick 0 at least that.
pub get_sqrt_ratio_at_tick_range :
    (t : ℤ)
    → InRange t
    → (r : ℕ) × (get_sqrt_ratio_at_tick t ≡ ok r)
      × (0 < r)
      × (t ≤ℤ pos 0 → r ≤ 2 ^ 96)
      × (pos 0 <ℤ t → 2 ^ 96 ≤ r)
unfolding get_sqrt_ratio_at_tick
get_sqrt_ratio_at_tick_range (pos zero) h = low_tick (pos 0) (omega arith) refl
get_sqrt_ratio_at_tick_range (pos (suc n)) h =
    high_tick (pos (suc n)) (omega arith) (ground (arith, ratio_of_bounds (suc n + 0)))
get_sqrt_ratio_at_tick_range (negsuc n) h = low_tick (negsuc n) (omega arith) (ground arith)

-- A tick outside the range throws.
pub get_sqrt_ratio_at_tick-rejects :
    (t : ℤ) → ¬ InRange t → get_sqrt_ratio_at_tick t ≡ err range_error
unfolding get_sqrt_ratio_at_tick
get_sqrt_ratio_at_tick-rejects (pos n) h = ground arith
get_sqrt_ratio_at_tick-rejects (negsuc n) h = ground arith

-- A ratio that is given is positive.
pub get_sqrt_ratio_at_tick-pos : (t : ℤ) (a : ℕ) → get_sqrt_ratio_at_tick t ≡ ok a → 0 < a
get_sqrt_ratio_at_tick-pos t a e = elim (Bool-cases (leb_ℤ min_tick t && leb_ℤ t max_tick)) [
  | inl inside ↦
      let (r, q, positive, below, above) = get_sqrt_ratio_at_tick_range t (ground arith) in
      let same : r ≡ a = ground arith in subst (λ x. 0 < x) same positive
  | inr outside ↦
      let rejected = get_sqrt_ratio_at_tick-rejects t (λ h. ground arith) in absurd (ground arith)
]
