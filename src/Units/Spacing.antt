-- ===== src/Units/Spacing.antt =====
-- agent/src/units.ts, tick spacing and ranges. Ticks and spacings are integers; `Math.floor` of a
-- quotient is the floor for both signs of the tick. A spacing that is not positive, for which the
-- code divides by zero or reverses the grid, is outside the model: it is a natural number here.
use native.Mathlib.Nat.{add-zero, zero-add, zero-mul, mul-mod_left}
use deltadesk.Prelude.{ℕ, zero, suc, ◌+◌, ◌*◌, ◌/◌, ◌%◌, ◌≤◌, ◌<◌, ◌≡◌, Bool, true, arith, ◌==◌}
use deltadesk.Prelude.Int.{ℤ, pos, negsuc, pos_part, neg_part, ◌≤ℤ◌, ◌<ℤ◌, ◌+ℤ◌, int_laws}
use deltadesk.Units.FullMath.{div-IsFloor}

-- The integer of a negated number.
abbrev pub neg : ℕ → ℤ
neg zero = pos 0
neg (suc n) = negsuc n

unfoldable pub floor_to_spacing : ℤ → ℕ → ℤ
floor_to_spacing (pos n) spacing = pos (n / spacing * spacing)
floor_to_spacing (negsuc n) spacing = neg ((n / spacing + 1) * spacing)

unfoldable pub ceil_to_spacing : ℤ → ℕ → ℤ
ceil_to_spacing (pos zero) spacing = pos 0
ceil_to_spacing (pos (suc n)) spacing = pos ((n / spacing + 1) * spacing)
ceil_to_spacing (negsuc n) spacing = neg ((n + 1) / spacing * spacing)

-- `tick % spacing === 0`: the sign of a remainder does not matter here.
unfoldable pub is_aligned : ℤ → ℕ → Bool
is_aligned tick spacing = (pos_part tick + neg_part tick) % spacing == 0

unfoldable pub snap_range_outward : ℤ → ℤ → ℕ → ℤ × ℤ
unfolding floor_to_spacing ceil_to_spacing
snap_range_outward lower upper spacing =
    (floor_to_spacing lower spacing, ceil_to_spacing upper spacing)

neg_parts : (n : ℕ) → (pos_part (neg n) ≡ 0) × (neg_part (neg n) ≡ n)
neg_parts zero = omega arith
neg_parts (suc n) = omega arith

module _ (n s : ℕ) (h : 0 < s) where
  multiple_below : n / s * s ≤ n
  multiple_below = (div-IsFloor n s h).0

  multiple_above : n < n / s * s + s
  multiple_above = omega (arith, (div-IsFloor n s h).1)

pos-is_aligned : (k s : ℕ) → is_aligned (pos (k * s)) s ≡ true
unfolding is_aligned
pos-is_aligned k s = rw (add-zero, mul-mod_left k s)

neg-is_aligned : (k s : ℕ) → is_aligned (neg (k * s)) s ≡ true
unfolding is_aligned
neg-is_aligned k s = rw ((neg_parts (k * s)).0, (neg_parts (k * s)).1, zero-add, mul-mod_left k s)

-- The greatest point of the grid at or below the tick.
pub floor_to_spacing_lem :
    (t : ℤ) (s : ℕ)
    → 0 < s
    → (floor_to_spacing t s ≤ℤ t)
      × (t <ℤ floor_to_spacing t s +ℤ pos s)
      × (is_aligned (floor_to_spacing t s) s ≡ true)
unfolding floor_to_spacing
floor_to_spacing_lem (pos n) s h = (
  omega (arith, multiple_below n s h),
  omega (int_laws, multiple_above n s h),
  pos-is_aligned (n / s) s,
)
floor_to_spacing_lem (negsuc n) s h = (
  omega (arith, multiple_above n s h, neg_parts ((n / s + 1) * s)),
  omega (int_laws, multiple_below n s h, neg_parts ((n / s + 1) * s)),
  neg-is_aligned (n / s + 1) s,
)

-- The least point of the grid at or above the tick.
pub ceil_to_spacing_lem :
    (t : ℤ) (s : ℕ)
    → 0 < s
    → (t ≤ℤ ceil_to_spacing t s)
      × (ceil_to_spacing t s <ℤ t +ℤ pos s)
      × (is_aligned (ceil_to_spacing t s) s ≡ true)
unfolding ceil_to_spacing
ceil_to_spacing_lem (pos zero) s h =
    (omega arith, omega int_laws, rw zero-mul at (pos-is_aligned 0 s))
ceil_to_spacing_lem (pos (suc n)) s h = (
  omega (arith, multiple_above n s h),
  omega (int_laws, multiple_below n s h),
  pos-is_aligned (n / s + 1) s,
)
ceil_to_spacing_lem (negsuc n) s h = (
  omega (arith, multiple_below (n + 1) s h, neg_parts ((n + 1) / s * s)),
  omega (int_laws, multiple_above (n + 1) s h, neg_parts ((n + 1) / s * s)),
  neg-is_aligned ((n + 1) / s) s,
)

-- Snapping never narrows a range, puts both ends on the grid, and moves each by less than one
-- spacing.
pub snap_range_outward_lem :
    (lower upper : ℤ) (s : ℕ)
    → 0 < s
    → let (tl, tu) = snap_range_outward lower upper s in
      (tl ≤ℤ lower)
      × (upper ≤ℤ tu)
      × (lower <ℤ tl +ℤ pos s)
      × (tu <ℤ upper +ℤ pos s)
      × (is_aligned tl s ≡ true)
      × (is_aligned tu s ≡ true)
unfolding snap_range_outward
snap_range_outward_lem lower upper s h =
    let (f_le, f_lt, f_on) = floor_to_spacing_lem lower s h in
    let (c_le, c_lt, c_on) = ceil_to_spacing_lem upper s h in (f_le, c_le, f_lt, c_lt, f_on, c_on)
