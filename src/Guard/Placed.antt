-- ===== src/Guard/Placed.antt =====
-- agent/src/guard/guard.ts, the tick and fence rules: where a rerange that the guard lets through may
-- place its ranges.
use Prim.Native.String.{String}
use deltadesk.Prelude.{
  ◌≡◌, Bool, true, some, List, [], ◌∷◌, All, every, arith, inl, inr, Option-cases,
}
use deltadesk.Prelude.Int.{ℤ, pos, ◌≤ℤ◌, ◌+ℤ◌, ◌-ℤ◌, leb_ℤ, int_laws, abs}
use deltadesk.Prelude.Floats.{Floats}
use deltadesk.Bands.{RangeSpec, fence_allows_across}
use deltadesk.Bands.Fence.{
  IsFenced, fence_allows-IsFenced, fence_allows_across_iff, IsLegal, shape_ok-IsLegal,
}
use deltadesk.Actions.{Rerange, rerange}
use deltadesk.Guard.Input.{GuardInput, ChainRead}
use deltadesk.Guard.Rules.{Texts, is_adding_rerange}
use deltadesk.Guard.Rules.Steps.{
  range_ok, ticks_ok, fence_ok, fence_precheck, tick_validity, on_rerange,
}
use deltadesk.Guard.Check.{execute, check_guard}
use deltadesk.Guard.Check as G
use deltadesk.Guard.Authority.{check_guard-execute_iff}

-- A range that the contract accepts: legal, and inside the fence at every tick that the rerange allows.
unfoldable pub IsPlaced : ℤ → Rerange → ChainRead → RangeSpec → Type 0
IsPlaced spacing r c s =
    IsLegal s.range spacing c.lane_state.caps.min_width_ticks c.lane_state.caps.max_width_ticks
    × ((u : ℤ)
        → r.expected_tick -ℤ r.max_tick_delta ≤ℤ u
        → u ≤ℤ r.expected_tick +ℤ r.max_tick_delta
        → IsFenced s.range u c.lane_state.ref_tick.tick c.lane_state.ref_tick.band_ticks)

within_abs :
    (expected tick delta : ℤ)
    → leb_ℤ (pos (abs (expected -ℤ tick))) delta ≡ true
    → (expected -ℤ delta ≤ℤ tick) × (tick ≤ℤ expected +ℤ delta)
within_abs expected tick delta h =
    let near : pos (abs (expected -ℤ tick)) ≤ℤ delta = ground arith in
    (omega (int_laws, near), omega (int_laws, near))

every-both :
    (p q : RangeSpec → Bool) (P : RangeSpec → Type 0) (rs : List RangeSpec)
    → ((s : RangeSpec) → p s ≡ true → q s ≡ true → P s)
    → every p rs ≡ true
    → every q rs ≡ true
    → All P rs
every-both p q P [] f hp hq = tt
every-both p q P (s ∷ rs) f hp hq =
    (f s (ground arith) (ground arith), every-both p q P rs f (ground arith) (ground arith))

range_ok-IsPlaced :
    (spacing : ℤ) (r : Rerange) (c : ChainRead) (s : RangeSpec)
    → range_ok spacing c.lane_state.caps s ≡ true
    → fence_allows_across s.range r.expected_tick r.max_tick_delta c.lane_state.ref_tick.tick
        c.lane_state.ref_tick.band_ticks
      ≡ true
    → IsPlaced spacing r c s
unfolding range_ok IsPlaced
range_ok-IsPlaced spacing r c s shape fence =
    let ref = c.lane_state.ref_tick.tick in
    let band = c.lane_state.ref_tick.band_ticks in
    let caps = c.lane_state.caps in
    let inside =
      (fence_allows_across_iff s.range ref band r.expected_tick r.max_tick_delta).0 fence in
    (
      (shape_ok-IsLegal s.range spacing caps.min_width_ticks caps.max_width_ticks).0 (ground arith),
      λ u lo hi. (fence_allows-IsFenced s.range u ref band).0 (inside u lo hi),
    )

ranges-IsPlaced :
    (spacing : ℤ) (r : Rerange) (c : ChainRead)
    → ticks_ok spacing r c ≡ true
    → fence_ok r c.lane_state ≡ true
    → (r.expected_tick -ℤ r.max_tick_delta ≤ℤ c.pool_tick)
      × (c.pool_tick ≤ℤ r.expected_tick +ℤ r.max_tick_delta)
      × All (IsPlaced spacing r c) r.ranges
unfolding ticks_ok fence_ok
ranges-IsPlaced spacing r c ticks fence =
    let near : leb_ℤ (pos (abs (r.expected_tick -ℤ c.pool_tick))) r.max_tick_delta ≡ true =
      ground arith in
    let (low, high) = within_abs r.expected_tick c.pool_tick r.max_tick_delta near in
    (
      low,
      high,
      every-both (range_ok spacing c.lane_state.caps)
          (λ s.
            fence_allows_across s.range r.expected_tick r.max_tick_delta c.lane_state.ref_tick.tick
              c.lane_state.ref_tick.band_ticks)
          (IsPlaced spacing r c) r.ranges (range_ok-IsPlaced spacing r c) (ground arith)
          (ground arith),
    )

module _ {F : Floats} (number : String → F.Float) (T : Texts) (i : GuardInput F) where
  on_rerange-some :
      (test : Rerange → ChainRead → Bool) (r : Rerange) (c : ChainRead)
      → i.action ≡ rerange r
      → is_adding_rerange i.action ≡ true
      → i.snapshot.chain ≡ some c
      → on_rerange number T i test ≡ true
      → test r c ≡ true
  unfolding on_rerange
  on_rerange-some test r c e a f h = ground arith

  on_rerange-read :
      (test : Rerange → ChainRead → Bool) (r : Rerange)
      → i.action ≡ rerange r
      → is_adding_rerange i.action ≡ true
      → on_rerange number T i test ≡ true
      → (c : ChainRead) × (i.snapshot.chain ≡ some c)
  unfolding on_rerange
  on_rerange-read test r e a h = elim (Option-cases i.snapshot.chain) [
    | inl f ↦ absurd (ground arith)
    | inr (c, f) ↦ (c, f)
  ]

  -- A rerange with a range that the guard lets through: the pool tick that was read is within the
  -- allowed distance of the expected one, and each range is legal for the lane and inside its fence at every tick
  -- within that distance.
  pub execute-IsPlaced :
      (r : Rerange)
      → (check_guard number T i).decision ≡ execute
      → i.action ≡ rerange r
      → is_adding_rerange i.action ≡ true
      → (c : ChainRead) × (i.snapshot.chain ≡ some c)
        × (r.expected_tick -ℤ r.max_tick_delta ≤ℤ c.pool_tick)
        × (c.pool_tick ≤ℤ r.expected_tick +ℤ r.max_tick_delta)
        × All (IsPlaced i.limits.tick_spacing r c) r.ranges
  execute-IsPlaced r e same a =
      let rules = ((check_guard-execute_iff number T i).0 e).0 in
      let inside : Rerange → ChainRead → Bool = λ r c. fence_ok r c.lane_state in
      let fence : on_rerange number T i inside ≡ true =
        unfold fence_precheck in rules G.fence_precheck in
      let ticks : on_rerange number T i (ticks_ok i.limits.tick_spacing) ≡ true =
        unfold tick_validity in rules G.tick_validity in
      let (c, f) = on_rerange-read (ticks_ok i.limits.tick_spacing) r same a ticks in
      let (low, high, placed) =
        ranges-IsPlaced i.limits.tick_spacing r c
          (on_rerange-some (ticks_ok i.limits.tick_spacing) r c same a f ticks)
          (on_rerange-some inside r c same a f fence) in
      (c, f, low, high, placed)
