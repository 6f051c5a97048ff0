-- ===== src/Units/FullMath.antt =====
-- agent/src/units.ts, FullMath: products and quotients of bigints that throw on a negative argument
-- and on a denominator that is not positive. A bigint is an integer.
use native.Mathlib.Nat.{div-add-mod, mod-lt, lt_of_mul-lt-mul_right}
use mathlib.Core.Path.{subst}
use deltadesk.Prelude.{
  ℕ, zero, suc, ◌+◌, ◌*◌, ◌/◌, ◌%◌, ◌≤◌, ◌<◌, ◌≡◌, ◌↔◌, arith, ◌==◌, if◌then◌else◌, ap,
}
use deltadesk.Prelude.Int.{ℤ, pos, negsuc, pos_part, ◌≤ℤ◌, ◌<ℤ◌}
use deltadesk.Prelude.Result.{Result, ok, err, range_error, ◌>>=◌}

-- The value that passed the test.
unfoldable pub assert_uint : ℤ → Result ℕ
assert_uint (pos n) = ok n
assert_uint (negsuc n) = err range_error

-- `if (denominator <= 0n) throw …`.
unfoldable pub assert_positive : ℤ → Result ℕ
assert_positive (pos zero) = err range_error
assert_positive (pos (suc n)) = ok (suc n)
assert_positive (negsuc n) = err range_error

unfoldable pub mul_div : ℤ → ℤ → ℤ → Result ℕ
unfolding assert_uint assert_positive
mul_div a b denominator = do
  a' ← assert_uint a
  b' ← assert_uint b
  d ← assert_positive denominator
  ok (a' * b' / d)

-- The second division and the remainder run only where `mulDiv` has not thrown.
unfoldable pub mul_div_rounding_up : ℤ → ℤ → ℤ → Result ℕ
unfolding mul_div
mul_div_rounding_up a b denominator = do
  q ← mul_div a b denominator
  a' ← assert_uint a
  b' ← assert_uint b
  d ← assert_positive denominator
  ok (if a' * b' % d == 0 then q else q + 1)

unfoldable pub div_rounding_up : ℤ → ℤ → Result ℕ
unfolding assert_uint assert_positive
div_rounding_up a b = do
  a' ← assert_uint a
  b' ← assert_positive b
  ok (a' / b' + (if a' % b' == 0 then 0 else 1))

-- The greatest number whose product with the denominator is at most a · b.
abbrev pub IsFloor : ℕ → ℕ → ℕ → Type 0
IsFloor n d q = (q * d ≤ n) × (n < (q + 1) * d)

-- The least number whose product with the denominator is at least a · b.
abbrev pub IsCeiling : ℕ → ℕ → ℕ → Type 0
IsCeiling n d q = (n ≤ q * d) × (q * d < n + d)

pub div-IsFloor : (n d : ℕ) → 0 < d → IsFloor n d (n / d)
div-IsFloor n d h = (grind arith, grind arith)

pub ceil-IsCeiling : (n d : ℕ) → 0 < d → IsCeiling n d (n / d + (if n % d == 0 then 0 else 1))
ceil-IsCeiling n d h = ground (arith, div-add-mod n d, mod-lt n h)

-- Both determine their number.
pub below_next : (d q r : ℕ) → q * d < (r + 1) * d → q ≤ r
below_next d q r h = let lt = lt_of_mul-lt-mul_right d {m = q} {n = r + 1} h in omega arith

IsFloor-unique : (n d q r : ℕ) → IsFloor n d q → IsFloor n d r → q ≡ r
IsFloor-unique n d q r h k =
    omega (arith, below_next d q r (omega arith), below_next d r q (omega arith))

IsCeiling-unique : (n d q r : ℕ) → IsCeiling n d q → IsCeiling n d r → q ≡ r
IsCeiling-unique n d q r h k =
    omega (arith, below_next d q r (omega arith), below_next d r q (omega arith))

-- The arguments that are accepted: no negative factor, and a positive denominator.
abbrev pub Accepts : ℤ → ℤ → ℤ → Type 0
Accepts a b d = (pos 0 ≤ℤ a) × (pos 0 ≤ℤ b) × (pos 0 <ℤ d)

-- A result with the only value of a property is returned exactly where the property holds.
ok_iff : (P : ℕ → Type 0) (v q : ℕ) → P v → ((r : ℕ) → P r → v ≡ r) → (ok v ≡ ok q) ↔ P q
ok_iff P v q h only = (λ e. subst P (ground arith) h, λ k. ap ok (only q k))

err_iff : (P : Type 0) (q : ℕ) → ¬ P → (err range_error ≡ ok q) ↔ P
err_iff P q no_p = (λ e. absurd (ground arith), λ h. absurd (no_p h))

-- `mulDiv` returns q exactly when it accepts the arguments and q is floor(a · b / denominator).
pub mul_div-IsFloor :
    (a b d : ℤ) (q : ℕ)
    → (mul_div a b d ≡ ok q) ↔ (Accepts a b d × IsFloor (pos_part a * pos_part b) (pos_part d) q)
unfolding mul_div
mul_div-IsFloor (pos a) (pos b) (pos (suc d)) q =
    ok_iff (λ r. Accepts (pos a) (pos b) (pos (suc d)) × IsFloor (a * b) (suc d) r) (a * b / suc d)
      q (omega arith, div-IsFloor (a * b) (suc d) (omega arith))
      (λ r h. IsFloor-unique (a * b) (suc d) _ r (div-IsFloor (a * b) (suc d) (omega arith)) h.1)
mul_div-IsFloor a b d q = err_iff _ q (λ h. omega arith)

-- `mulDivRoundingUp` returns q exactly when it accepts the arguments and q is the ceiling.
pub mul_div_rounding_up-IsCeiling :
    (a b d : ℤ) (q : ℕ)
    → (mul_div_rounding_up a b d ≡ ok q)
      ↔ (Accepts a b d × IsCeiling (pos_part a * pos_part b) (pos_part d) q)
unfolding mul_div_rounding_up
mul_div_rounding_up-IsCeiling (pos a) (pos b) (pos (suc d)) q =
    ok_iff (λ r. Accepts (pos a) (pos b) (pos (suc d)) × IsCeiling (a * b) (suc d) r) _ q
      (omega arith, found) (λ r h. IsCeiling-unique (a * b) (suc d) _ r found h.1)
  where
    found :
        IsCeiling (a * b) (suc d) (if a * b % suc d == 0 then a * b / suc d else a * b / suc d + 1)
    found = ground (arith, ceil-IsCeiling (a * b) (suc d))
mul_div_rounding_up-IsCeiling a b d q = err_iff _ q (λ h. omega arith)

-- `divRoundingUp` returns q exactly when the dividend is not negative, the divisor is positive and q
-- is the ceiling of their quotient.
pub div_rounding_up-IsCeiling :
    (a b : ℤ) (q : ℕ)
    → (div_rounding_up a b ≡ ok q)
      ↔ ((pos 0 ≤ℤ a) × (pos 0 <ℤ b) × IsCeiling (pos_part a) (pos_part b) q)
unfolding div_rounding_up
div_rounding_up-IsCeiling (pos a) (pos (suc b)) q =
    ok_iff (λ r. (pos 0 ≤ℤ pos a) × (pos 0 <ℤ pos (suc b)) × IsCeiling a (suc b) r) _ q
      (omega arith, omega arith, found) (λ r h. IsCeiling-unique a (suc b) _ r found h.2)
  where
    found : IsCeiling a (suc b) (a / suc b + (if a % suc b == 0 then 0 else 1))
    found = ceil-IsCeiling a (suc b) (omega arith)
div_rounding_up-IsCeiling a b q = err_iff _ q (λ h. omega arith)
