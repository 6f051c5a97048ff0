-- ===== src/Bands/Fence.antt =====
-- The loop over the execution ticks decides the fence at each of them.
use mathlib.Core.Path.{subst}
use native.Mathlib.Decide.{dec_le}
use deltadesk.Prelude.{
  ℕ, zero, suc, ◌+◌, ◌*◌, ◌%◌, ◌≡◌, refl, ◌↔◌, true, arith, Bool-cases, inl, inr,
}
use deltadesk.Prelude.Int.{
  ℤ, pos, negsuc, pos_part, neg_part, ◌≤ℤ◌, ◌<ℤ◌, ◌+ℤ◌, ◌-ℤ◌, abs, min_ℤ, max_ℤ, eq_of_parts,
  int_laws,
}
use deltadesk.Units.TickMath.{min_tick, max_tick}
use deltadesk.Units.Spacing.{is_aligned}
use deltadesk.Bands.{TickRange, shape_ok, fence_allows, fence_allows_from, fence_allows_across}

module _ (r : TickRange) (ref band : ℤ) where
  -- The fence holds at every tick from t on, n of them.
  AllowsAll : ℤ → ℕ → Type 0
  AllowsAll t n = (u : ℤ) → t ≤ℤ u → u <ℤ t +ℤ pos n → fence_allows r u ref band ≡ true

  from-AllowsAll : (n : ℕ) (t : ℤ) → fence_allows_from r ref band n t ≡ true → AllowsAll t n
  unfolding fence_allows_from AllowsAll
  from-AllowsAll zero t e u lo hi = absurd (omega int_laws)
  from-AllowsAll (suc n) t e u lo hi = elim (Bool-cases (fence_allows r t ref band)) [
    | inl here ↦ elim (dec_le (pos_part u + neg_part t) (pos_part t + neg_part u)) [
      | yes le ↦ subst (λ v. fence_allows r v ref band ≡ true) (eq_of_parts t u (omega arith)) here
      | no gt ↦ from-AllowsAll n (t +ℤ pos 1) (ground arith) u (omega int_laws) (omega int_laws)
    ]
    | inr not_here ↦ absurd (ground arith)
  ]

  AllowsAll-from : (n : ℕ) (t : ℤ) → AllowsAll t n → fence_allows_from r ref band n t ≡ true
  unfolding fence_allows_from AllowsAll
  AllowsAll-from zero t h = refl
  AllowsAll-from (suc n) t h =
      rw (h t (omega arith) (omega int_laws))
        (AllowsAll-from n (t +ℤ pos 1) (λ u lo hi. h u (omega int_laws) (omega int_laws)))

  across-pos :
      (tc : ℤ) (k : ℕ)
      → fence_allows_across r tc (pos k) ref band
        ≡ fence_allows_from r ref band (2 * k + 1) (tc -ℤ pos k)
  unfolding fence_allows_across
  across-pos tc k = ground arith

  across-negsuc : (tc : ℤ) (k : ℕ) → fence_allows_across r tc (negsuc k) ref band ≡ true
  unfolding fence_allows_across fence_allows_from
  across-negsuc tc k = ground arith

  -- The check passes exactly when the fence holds at every execution tick within the margin.
  pub fence_allows_across_iff :
      (tc m : ℤ)
      → (fence_allows_across r tc m ref band ≡ true)
        ↔ ((u : ℤ) → tc -ℤ m ≤ℤ u → u ≤ℤ tc +ℤ m → fence_allows r u ref band ≡ true)
  unfolding AllowsAll
  fence_allows_across_iff tc (pos k) = (
    λ e u lo hi.
        from-AllowsAll (2 * k + 1) (tc -ℤ pos k) (rw (across-pos tc k) at e) u lo (omega int_laws),
    λ h.
        rw (across-pos tc k)
          (AllowsAll-from (2 * k + 1) (tc -ℤ pos k) (λ u lo hi. h u lo (omega int_laws))),
  )
  fence_allows_across_iff tc (negsuc k) =
      (λ e u lo hi. absurd (omega int_laws), λ h. across-negsuc tc k)

-- At a pool tick the range offers neither token more than `band` ticks worse than the reference: a
-- range that holds token0 offers it from the greater of its lower end and the pool on, and one that
-- holds token1 offers it up to the lesser of its upper end and the pool.
pub record IsFenced (r : TickRange) (tc ref band : ℤ) : Type 0 where
  pub asks : tc <ℤ r.tick_upper → ref -ℤ band ≤ℤ max_ℤ r.tick_lower tc
  pub bids : r.tick_lower ≤ℤ tc → min_ℤ r.tick_upper tc ≤ℤ ref +ℤ band

pub fence_allows-IsFenced :
    (r : TickRange) (tc ref band : ℤ) → (fence_allows r tc ref band ≡ true) ↔ IsFenced r tc ref band
unfolding fence_allows
fence_allows-IsFenced r tc ref band =
    (λ e. record { asks = λ h. ground arith; bids = λ h. ground arith }, λ f. ground arith)

-- The contract's rules of a range: in order, in bounds, on the grid, and of a legal width.
pub record IsLegal (r : TickRange) (spacing min_width max_width : ℤ) : Type 0 where
  pub ordered : r.tick_lower <ℤ r.tick_upper
  pub spaced : pos 0 <ℤ spacing
  pub lower_bound : min_tick ≤ℤ r.tick_lower
  pub upper_bound : r.tick_upper ≤ℤ max_tick
  pub lower_on_grid : abs r.tick_lower % pos_part spacing ≡ 0
  pub upper_on_grid : abs r.tick_upper % pos_part spacing ≡ 0
  pub wide : min_width ≤ℤ r.tick_upper -ℤ r.tick_lower
  pub narrow : r.tick_upper -ℤ r.tick_lower ≤ℤ max_width

pub shape_ok-IsLegal :
    (r : TickRange) (spacing min_width max_width : ℤ)
    → (shape_ok r spacing min_width max_width ≡ true) ↔ IsLegal r spacing min_width max_width
unfolding shape_ok is_aligned
shape_ok-IsLegal r spacing min_width max_width = (
  λ e. record {
    ordered = ground arith;
    spaced = ground arith;
    lower_bound = ground arith;
    upper_bound = ground arith;
    lower_on_grid = ground arith;
    upper_on_grid = ground arith;
    wide = ground arith;
    narrow = ground arith;
  },
  λ l. ground arith,
)
