-- ===== src/Overlay/Shares.antt =====
-- agent/src/overlay/apply.ts, `rerangeTighter`: a tighter rerange takes no greater shares of the balances.
use deltadesk.Prelude.{
  ◌≡◌, sym, subst, ◌⊎◌, inl, inr, true, List, [], ◌∷◌, All, arith, Bool-cases, some, Option-cases,
}
use deltadesk.Prelude.Int.{ℤ, pos, ◌+ℤ◌, ◌≤ℤ◌, int_laws, eq_of_parts}
use deltadesk.Bands.{RangeSpec}
use deltadesk.Guard.{shares_of}
use deltadesk.Actions.{Rerange}
use deltadesk.Overlay.{range_within, use_first, ranges_tighter, rerange_tighter}

-- Shares that are not negative.
abbrev pub HasShares : RangeSpec → Type 0
HasShares r = (pos 0 ≤ℤ r.share0_bps) × (pos 0 ≤ℤ r.share1_bps)

-- The sums of the shares.
share0 : List RangeSpec → ℤ
share0 rs = (shares_of rs).amount0

share1 : List RangeSpec → ℤ
share1 rs = (shares_of rs).amount1

use_first-cases :
    (r d : RangeSpec) (ds es : List RangeSpec)
    → use_first r (d ∷ ds) ≡ some es
    → ((range_within r d ≡ true) × (es ≡ ds))
      ⊎ ((fs : List RangeSpec) × (use_first r ds ≡ some fs) × (es ≡ d ∷ fs))
unfolding use_first
use_first-cases r d ds es e = elim (Bool-cases (range_within r d)) [
  | inl h ↦ inl (h, ground arith)
  | inr h ↦ elim (Option-cases (use_first r ds)) [
    | inl n ↦ absurd (ground arith)
    | inr (fs, f) ↦ inr (fs, f, ground arith)
  ]
]

-- What is left of the originals when a range has used one up.
Leaves : RangeSpec → List RangeSpec → List RangeSpec → Type 0
Leaves r ds es =
    All HasShares es
    × (r.share0_bps +ℤ share0 es ≤ℤ share0 ds)
    × (r.share1_bps +ℤ share1 es ≤ℤ share1 ds)

Leaves-hit :
    (r d : RangeSpec) (ds : List RangeSpec)
    → range_within r d ≡ true
    → All HasShares (d ∷ ds)
    → Leaves r (d ∷ ds) ds
unfolding Leaves share0 share1 shares_of range_within
Leaves-hit r d ds e h =
    let below : (r.share0_bps ≤ℤ d.share0_bps) × (r.share1_bps ≤ℤ d.share1_bps) = ground arith in
    (h.1, omega int_laws, omega int_laws)

Leaves-miss :
    (r d : RangeSpec) (ds fs : List RangeSpec)
    → HasShares d
    → Leaves r ds fs
    → Leaves r (d ∷ ds) (d ∷ fs)
unfolding Leaves share0 share1 shares_of
Leaves-miss r d ds fs h (kept, le0, le1) = ((h, kept), omega int_laws, omega int_laws)

use_first-Leaves :
    (r : RangeSpec) (ds es : List RangeSpec)
    → use_first r ds ≡ some es
    → All HasShares ds
    → Leaves r ds es
use_first-Leaves r [] es e h = absurd (unfold use_first in ground arith)
use_first-Leaves r (d ∷ ds) es e h = elim (use_first-cases r d ds es e) [
  | inl (within, same) ↦ subst (Leaves r (d ∷ ds)) (sym same) (Leaves-hit r d ds within h)
  | inr (fs, f, same) ↦
      subst (Leaves r (d ∷ ds)) (sym same)
        (Leaves-miss r d ds fs h.0 (use_first-Leaves r ds fs f h.1))
]

rest_shares :
    (dets : List RangeSpec) → All HasShares dets → (pos 0 ≤ℤ share0 dets) × (pos 0 ≤ℤ share1 dets)
unfolding share0 share1 shares_of
rest_shares [] h = (omega arith, omega arith)
rest_shares (d ∷ ds) (h, hs) =
    let (le0, le1) = rest_shares ds hs in (omega int_laws, omega int_laws)

ranges_tighter-cons :
    (dets rs : List RangeSpec) (r : RangeSpec)
    → ranges_tighter dets (r ∷ rs) ≡ true
    → (es : List RangeSpec) × (use_first r dets ≡ some es) × (ranges_tighter es rs ≡ true)
unfolding ranges_tighter
ranges_tighter-cons dets rs r e = elim (Option-cases (use_first r dets)) [
  | inl n ↦ absurd (ground arith)
  | inr (es, f) ↦ (es, f, ground arith)
]

ranges_tighter-shares :
    (dets fins : List RangeSpec)
    → ranges_tighter dets fins ≡ true
    → All HasShares dets
    → (share0 fins ≤ℤ share0 dets) × (share1 fins ≤ℤ share1 dets)
unfolding share0 share1 shares_of Leaves
ranges_tighter-shares dets [] e h = rest_shares dets h
ranges_tighter-shares dets (r ∷ rs) e h =
    let (es, f, later) = ranges_tighter-cons dets rs r e in
    let (kept, le0, le1) = use_first-Leaves r dets es f h in
    let (below0, below1) = ranges_tighter-shares es rs later kept in
    (omega int_laws, omega int_laws)

-- A rerange that is tighter than one whose shares are not negative mints from no greater a share of
-- either balance, keeps its expected tick and allows the pool tick to move no further.
pub rerange_tighter-shares :
    (det fin : Rerange)
    → rerange_tighter det fin ≡ true
    → All HasShares det.ranges
    → ((shares_of fin.ranges).amount0 ≤ℤ (shares_of det.ranges).amount0)
      × ((shares_of fin.ranges).amount1 ≤ℤ (shares_of det.ranges).amount1)
      × (fin.expected_tick ≡ det.expected_tick)
      × (fin.max_tick_delta ≤ℤ det.max_tick_delta)
unfolding rerange_tighter share0 share1
rerange_tighter-shares det fin e h =
    let (le0, le1) = ranges_tighter-shares det.ranges fin.ranges (ground arith) h in
    (le0, le1, eq_of_parts fin.expected_tick det.expected_tick (ground arith), ground arith)
