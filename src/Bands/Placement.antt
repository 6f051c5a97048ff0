-- ===== src/Bands/Placement.antt =====
-- What a placement guarantees when it is executed anywhere within the margin of the pool tick.
use deltadesk.Prelude.{◌≡◌, sym, ap, Bool, true, false, List, [], ◌∷◌, arith, if◌then◌else◌}
use mathlib.Core.Path.{subst}
use deltadesk.Prelude.Int.{ℤ, ltb_ℤ, ◌≤ℤ◌, ◌<ℤ◌, ◌+ℤ◌, ◌-ℤ◌}
use deltadesk.Bands.{
  TickRange, Needs, range_needs, RangeSpec, Shape, straddle, single_sided_token0,
  single_sided_token1, BandPlacement, placed, Failure, failed, no_inventory, no_token0, no_token1,
  Limits, straddle_spec, asks_spec, bids_spec, check, place_straddle, place_token0, place_token1,
  place,
}
use deltadesk.Bands.Fence.{
  fence_allows_across_iff, IsFenced, fence_allows-IsFenced, IsLegal, shape_ok-IsLegal,
}

-- The tokens that a shape is meant to hold.
abbrev pub needs_of : Shape → Needs
needs_of straddle = record { token0 = true; token1 = true }
needs_of single_sided_token0 = record { token0 = true; token1 = false }
needs_of single_sided_token1 = record { token0 = false; token1 = true }

-- A range may be executed at every tick within the margin: it has a legal shape, and at each such
-- tick the fence allows it and it holds the tokens of its shape.
pub record IsExecutable (l : Limits) (shape : Shape) (r : RangeSpec) : Type 0 where
  pub legal : IsLegal r.range l.spacing l.min_width l.max_width
  pub fenced :
      (u : ℤ)
      → l.pool_tick -ℤ l.margin ≤ℤ u
      → u ≤ℤ l.pool_tick +ℤ l.margin
      → IsFenced r.range u l.ref_tick l.band
  pub holds :
      (u : ℤ)
      → l.pool_tick -ℤ l.margin ≤ℤ u
      → u ≤ℤ l.pool_tick +ℤ l.margin
      → range_needs r.range u ≡ needs_of shape

check-IsExecutable :
    (l : Limits) (shape s : Shape) (r : RangeSpec) {rs : List RangeSpec}
    → check l shape r ≡ placed s rs
    → ((u : ℤ)
        → l.pool_tick -ℤ l.margin ≤ℤ u
        → u ≤ℤ l.pool_tick +ℤ l.margin
        → range_needs r.range u ≡ needs_of shape)
    → (s ≡ shape) × (rs ≡ r ∷ []) × IsExecutable l shape r
unfolding check
check-IsExecutable l shape s r e h = (
  ground arith,
  ground arith,
  record {
    legal = (shape_ok-IsLegal r.range l.spacing l.min_width l.max_width).0 (ground arith);
    fenced = λ u lo hi. (fence_allows-IsFenced r.range u l.ref_tick l.band).0 (
        (fence_allows_across_iff r.range l.ref_tick l.band l.pool_tick l.margin).0 (ground arith) u
          lo hi);
    holds = h;
  },
)

-- At each tick of a window a range needs what it needs at the window's ends.
module _ (r : TickRange) (lo hi u : ℤ) (above : lo ≤ℤ u) (below : u ≤ℤ hi) where
  needs-straddle : r.tick_lower <ℤ lo → hi <ℤ r.tick_upper → range_needs r u ≡ needs_of straddle
  unfolding range_needs
  needs-straddle p q = ground arith

  needs-token1 :
      range_needs r lo ≡ needs_of single_sided_token1
      → range_needs r u ≡ needs_of single_sided_token1
  unfolding range_needs
  needs-token1 e = ground (arith, ap (λ n. n.token0) e, ap (λ n. n.token1) e)

  needs-token0 :
      range_needs r hi ≡ needs_of single_sided_token0
      → range_needs r u ≡ needs_of single_sided_token0
  unfolding range_needs
  needs-token0 e = ground (arith, ap (λ n. n.token0) e, ap (λ n. n.token1) e)

-- The answer of a placement, if it is no failure: the shape, and the one range.
abbrev Good : Limits → Shape → RangeSpec → BandPlacement → Type 0
Good l shape r p =
    (s : Shape) (rs : List RangeSpec)
    → p ≡ placed s rs
    → (s ≡ shape) × (rs ≡ r ∷ []) × IsExecutable l shape r

place_straddle-placed :
    (l : Limits) (r : RangeSpec) (s : Shape) (rs : List RangeSpec)
    → place_straddle l r ≡ placed s rs
    → (r.range.tick_lower <ℤ l.pool_tick -ℤ l.margin)
      × (l.pool_tick +ℤ l.margin <ℤ r.range.tick_upper)
      × (check l straddle r ≡ placed s rs)
unfolding place_straddle
place_straddle-placed l r s rs e = ground arith

place_token1-placed :
    (l : Limits) (r : RangeSpec) (s : Shape) (rs : List RangeSpec)
    → place_token1 l r ≡ placed s rs
    → (range_needs r.range (l.pool_tick -ℤ l.margin) ≡ needs_of single_sided_token1)
      × (check l single_sided_token1 r ≡ placed s rs)
unfolding place_token1
place_token1-placed l r s rs e = ground arith

place_token0-placed :
    (l : Limits) (r : RangeSpec) (s : Shape) (rs : List RangeSpec)
    → place_token0 l r ≡ placed s rs
    → (range_needs r.range (l.pool_tick +ℤ l.margin) ≡ needs_of single_sided_token0)
      × (check l single_sided_token0 r ≡ placed s rs)
unfolding place_token0
place_token0-placed l r s rs e = ground arith

place_straddle-Good : (l : Limits) (r : RangeSpec) → Good l straddle r (place_straddle l r)
place_straddle-Good l r s rs e =
    let (p, q, c) = place_straddle-placed l r s rs e in
    check-IsExecutable l straddle s r c (λ u lo hi. needs-straddle r.range _ _ u lo hi p q)

place_token1-Good : (l : Limits) (r : RangeSpec) → Good l single_sided_token1 r (place_token1 l r)
place_token1-Good l r s rs e =
    let (n, c) = place_token1-placed l r s rs e in
    check-IsExecutable l single_sided_token1 s r c
      (λ u lo hi. needs-token1 r.range _ (l.pool_tick +ℤ l.margin) u lo hi n)

place_token0-Good : (l : Limits) (r : RangeSpec) → Good l single_sided_token0 r (place_token0 l r)
place_token0-Good l r s rs e =
    let (n, c) = place_token0-placed l r s rs e in
    check-IsExecutable l single_sided_token0 s r c
      (λ u lo hi. needs-token0 r.range (l.pool_tick -ℤ l.margin) _ u lo hi n)

-- The shape's own range, and what the answer says of the ranges placed.
abbrev pub spec_of : Shape → Limits → ℤ → ℤ → RangeSpec
spec_of straddle = straddle_spec
spec_of single_sided_token0 = bids_spec
spec_of single_sided_token1 = asks_spec

-- What a placement answers: a failure, or one executable range, the one of its shape.
abbrev pub Placed : Limits → ℤ → ℤ → BandPlacement → Type 0
Placed l f w p =
    (s : Shape) (rs : List RangeSpec)
    → p ≡ placed s rs
    → (rs ≡ spec_of s l f w ∷ []) × IsExecutable l s (spec_of s l f w)

Good-Placed :
    (l : Limits) (f w : ℤ) (shape : Shape) (p : BandPlacement)
    → Good l shape (spec_of shape l f w) p
    → Placed l f w p
Good-Placed l f w shape p g s rs e =
    let (same, one, x) = g s rs e in
    subst (λ t. (rs ≡ spec_of t l f w ∷ []) × IsExecutable l t (spec_of t l f w)) (sym same)
      (one, x)

failed-Placed : (l : Limits) (f w : ℤ) (why : Failure) → Placed l f w (failed why)
failed-Placed l f w why s rs e = absurd (ground arith)

module _ (l : Limits) (f w : ℤ) where
  if-Placed :
      (b : Bool) {p q : BandPlacement}
      → Placed l f w p
      → Placed l f w q
      → Placed l f w (if b then p else q)
  if-Placed true p q = p
  if-Placed false p q = q

  straddle-Placed : Placed l f w (place_straddle l (straddle_spec l f w))
  straddle-Placed = Good-Placed l f w straddle _ (place_straddle-Good l (straddle_spec l f w))

  asks-Placed : Placed l f w (place_token1 l (asks_spec l f w))
  asks-Placed = Good-Placed l f w single_sided_token1 _ (place_token1-Good l (asks_spec l f w))

  bids-Placed : Placed l f w (place_token0 l (bids_spec l f w))
  bids-Placed = Good-Placed l f w single_sided_token0 _ (place_token0-Good l (bids_spec l f w))

  pub place-Placed : (near_f has0 has1 : Bool) → Placed l f w (place l near_f has0 has1 f w)
  unfolding place
  place-Placed near_f false false = failed-Placed l f w no_inventory
  place-Placed true true true = straddle-Placed
  place-Placed true true false = bids-Placed
  place-Placed true false true = asks-Placed
  place-Placed false false true =
      if-Placed (ltb_ℤ f l.pool_tick) asks-Placed (failed-Placed l f w no_token0)
  place-Placed false true true = if-Placed (ltb_ℤ f l.pool_tick) asks-Placed bids-Placed
  place-Placed false true false =
      if-Placed (ltb_ℤ f l.pool_tick) (failed-Placed l f w no_token1) bids-Placed
