-- ===== src/Overlay/Applied.antt =====
-- agent/src/overlay/apply.ts: a proposal performed literally passes the tighten check.
use native.Mathlib.Nat.{mul-le-mul_left, div-le_of_le-mul}
use deltadesk.Prelude.{
  ℕ, zero, suc, ◌*◌, ◌/◌, ◌≤◌, ◌<◌, ◌≡◌, refl, sym, ap, subst, Bool, true, false, not, ◌&&◌, List,
  [], ◌∷◌, All, filter, map, length, arith, Option, none, some, if◌then◌else◌,
}
use deltadesk.Prelude.Int.{ℤ, pos, negsuc, ◌≤ℤ◌, ◌+ℤ◌, ◌-ℤ◌, int_laws}
use deltadesk.Prelude.Floats.{Floats}
use deltadesk.Units.Spacing.{
  floor_to_spacing, floor_to_spacing_lem, ceil_to_spacing, ceil_to_spacing_lem,
}
use deltadesk.Bands.{RangeSpec}
use Prim.Native.String.{String}
use deltadesk.Actions.{
  DeskAction, hold, rerange, reduce, collect, exit_all, pause, signal, hedge, adds_risk,
  is_adding_class, risk_class_of, class_of_ranges,
}
use deltadesk.Overlay.Survivors.{same_lane_refl}
use deltadesk.Overlay.Tighter.{Tightened, done, skip, keep}
use deltadesk.Overlay.{
  range_within, use_first, ranges_tighter, rerange_tighter, valid_share, hedge_tighter,
  action_tighter,
}
use deltadesk.Overlay.Apply.{
  Proposal, clamp_scale, scale_share, scale_floor, widen_of, widen_range, edit_range, edit_action,
  kept_actions, is_dropped,
}

clamp_scale-le : (s : Option ℤ) → clamp_scale s ≤ 10000
unfolding clamp_scale
clamp_scale-le none = omega arith
clamp_scale-le (some s) = ground arith

-- A scaled number is no greater.
pub scale_share-le :
    (s : ℤ) (scale : Option ℤ)
    → pos 0 ≤ℤ s
    → (pos 0 ≤ℤ scale_share s scale) × (scale_share s scale ≤ℤ s)
unfolding scale_share scale_floor
scale_share-le (pos n) scale h =
    let below : n * clamp_scale scale / 10000 ≤ n =
      div-le_of_le-mul 10000 (omega (arith, mul-le-mul_left n (clamp_scale-le scale))) in
    (omega arith, omega (arith, below))
scale_share-le (negsuc n) scale h = absurd (omega arith)

widen_range-contains :
    (r : RangeSpec) (w : ℕ) (tick : Option ℤ) (spacing : ℕ)
    → 0 < spacing
    → ((widen_range r w tick spacing).range.tick_lower ≤ℤ r.range.tick_lower)
      × (r.range.tick_upper ≤ℤ (widen_range r w tick spacing).range.tick_upper)
unfolding widen_range
widen_range-contains r zero tick spacing h = (omega arith, omega arith)
widen_range-contains r (suc w) tick spacing h =
    let low = r.range.tick_lower -ℤ pos (suc w) in
    let high = r.range.tick_upper +ℤ pos (suc w) in
    let (below, u0, u1) = floor_to_spacing_lem low spacing h in
    let (above, v0, v1) = ceil_to_spacing_lem high spacing h in
    let lower : floor_to_spacing low spacing ≤ℤ r.range.tick_lower = omega (int_laws, below) in
    let upper : r.range.tick_upper ≤ℤ ceil_to_spacing high spacing = omega (int_laws, above) in
    (ground arith, ground arith)

-- Shares from 0 to 10000.
unfoldable pub ValidRange : RangeSpec → Type 0
ValidRange r = (valid_share r.share0_bps ≡ true) × (valid_share r.share1_bps ≡ true)

valid_share-scale :
    (s t : ℤ) (scale : Option ℤ)
    → s ≡ t
    → valid_share t ≡ true
    → (valid_share (scale_share s scale) ≡ true) × (scale_share s scale ≤ℤ t)
valid_share-scale s t scale e h =
    let valid = subst (λ u. valid_share u ≡ true) (sym e) h in
    let (low, below) = scale_share-le s scale (ground arith) in
    let bound : s ≤ℤ pos 10000 = ground arith in
    (ground arith, subst (λ u. scale_share s scale ≤ℤ u) e below)

module _ (F : Floats) (number : String → F.Float) (lower : String → String) where
  -- The shares of a rerange are from 0 to 10000, and the size of a hedge is at most itself.
  unfoldable pub ValidAction : DeskAction → Type 0
  ValidAction (rerange r) = All ValidRange r.ranges
  ValidAction (hedge o) = hedge_tighter F number lower o o ≡ true
  ValidAction _ = Unit

module _ (p : Proposal) (tick : Option ℤ) (spacing : ℕ) (positive : 0 < spacing) where
  widen_range-shares :
      (r : RangeSpec) (w : ℕ)
      → ((widen_range r w tick spacing).share0_bps ≡ r.share0_bps)
        × ((widen_range r w tick spacing).share1_bps ≡ r.share1_bps)
  unfolding widen_range
  widen_range-shares r zero = (refl, refl)
  widen_range-shares r (suc w) = (refl, refl)

  edit_range-within :
      (r : RangeSpec)
      → ValidRange r
      → ValidRange (edit_range p tick spacing r)
        × (range_within (edit_range p tick spacing r) r ≡ true)
  unfolding edit_range range_within ValidRange
  edit_range-within r (v0, v1) =
      let (low, high) = widen_range-contains r (widen_of p.widen_ticks) tick spacing positive in
      let (same0, same1) = widen_range-shares r (widen_of p.widen_ticks) in
      let w = widen_range r (widen_of p.widen_ticks) tick spacing in
      let (w0, le0) = valid_share-scale w.share0_bps r.share0_bps p.notional_scale_bps same0 v0 in
      let (w1, le1) = valid_share-scale w.share1_bps r.share1_bps p.notional_scale_bps same1 v1 in
      ((w0, w1), ground arith)

  ranges_tighter-edit :
      (rs : List RangeSpec)
      → All ValidRange rs
      → ranges_tighter rs (map (edit_range p tick spacing) rs) ≡ true
  unfolding ranges_tighter use_first ValidRange
  ranges_tighter-edit [] h = refl
  ranges_tighter-edit (r ∷ rs) (valid, later) =
      let ((v0, v1), within) = edit_range-within r valid in
      let rest = ranges_tighter-edit rs later in ground arith

  length-edit : (rs : List RangeSpec) → length (map (edit_range p tick spacing) rs) ≡ length rs
  length-edit [] = refl
  length-edit (r ∷ rs) = ap suc (length-edit rs)

  class-edit :
      (rs : List RangeSpec)
      → class_of_ranges (map (edit_range p tick spacing) rs) ≡ class_of_ranges rs
  unfolding class_of_ranges
  class-edit [] = refl
  class-edit (r ∷ rs) = refl

  pub adds_risk-edit : (a : DeskAction) → adds_risk (edit_action p tick spacing a) ≡ adds_risk a
  unfolding adds_risk risk_class_of edit_action
  adds_risk-edit (rerange r) = ap is_adding_class (class-edit r.ranges)
  adds_risk-edit (hold _ _) = refl
  adds_risk-edit (reduce _ _ _) = refl
  adds_risk-edit (collect _) = refl
  adds_risk-edit (exit_all _) = refl
  adds_risk-edit (pause _) = refl
  adds_risk-edit (signal _ _) = refl
  adds_risk-edit (hedge _) = refl

  module _ (F : Floats) (number : String → F.Float) (lower : String → String) where
    action_tighter-edit :
        (a : DeskAction)
        → adds_risk a ≡ true
        → ValidAction F number lower a
        → action_tighter F number lower a (edit_action p tick spacing a) ≡ true
    unfolding action_tighter edit_action rerange_tighter ValidAction adds_risk risk_class_of
        is_adding_class
    action_tighter-edit (rerange r) e h =
        let lanes = same_lane_refl r.lane in
        let lengths = length-edit r.ranges in
        let ranges = ranges_tighter-edit r.ranges h in ground arith
    action_tighter-edit (hedge o) e h = h
    action_tighter-edit (hold _ _) e h = absurd (ground arith)
    action_tighter-edit (reduce _ _ _) e h = absurd (ground arith)
    action_tighter-edit (collect _) e h = absurd (ground arith)
    action_tighter-edit (exit_all _) e h = absurd (ground arith)
    action_tighter-edit (pause _) e h = absurd (ground arith)
    action_tighter-edit (signal _ _) e h = absurd (ground arith)

    -- An action of the plan, and what is kept of it.
    kept_by : Bool → DeskAction → List DeskAction → List DeskAction
    kept_by dropped d ks = if dropped then ks else edit_action p tick spacing d ∷ ks

    filter-kept_by :
        (dropped : Bool) (d : DeskAction) (ks : List DeskAction)
        → filter adds_risk (kept_by dropped d ks) ≡ (
            if not dropped && adds_risk d
            then edit_action p tick spacing d ∷ filter adds_risk ks
            else filter adds_risk ks)
    unfolding kept_by
    filter-kept_by true d ks = refl
    filter-kept_by false d ks = let same = adds_risk-edit d in ground arith

    kept_by-Tightened :
        (dropped : Bool) (d : DeskAction) (ds ks : List DeskAction)
        → ValidAction F number lower d
        → Tightened F number lower (filter adds_risk ds) (filter adds_risk ks)
        → Tightened F number lower
            (filter adds_risk (d ∷ ds))
            (filter adds_risk (kept_by dropped d ks))
    kept_by-Tightened dropped d ds ks valid t =
        subst (Tightened F number lower (filter adds_risk (d ∷ ds)))
          (sym (filter-kept_by dropped d ks)) (split (adds_risk d) refl dropped)
      where
        split :
            (adding : Bool)
            → adding ≡ adds_risk d
            → (dropped : Bool)
            → Tightened F number lower
                (elim adding as (λ _. List DeskAction) [
                  | true ↦ d ∷ filter adds_risk ds
                  | false ↦ filter adds_risk ds
                ])
                (if not dropped && adding
                  then edit_action p tick spacing d ∷ filter adds_risk ks
                  else filter adds_risk ks)
        split true e true = skip t
        split true e false = keep (action_tighter-edit d (sym e) valid) t
        split false e true = t
        split false e false = t

    -- The kept actions that add risk are a tightened subsequence of the plan's.
    pub kept_actions-Tightened :
        (i : ℕ) (ds : List DeskAction)
        → All (ValidAction F number lower) ds
        → Tightened F number lower
            (filter adds_risk ds)
            (filter adds_risk (kept_actions p tick spacing i ds))
    unfolding kept_actions kept_by
    kept_actions-Tightened i [] h = done
    kept_actions-Tightened i (d ∷ ds) (valid, later) =
        kept_by-Tightened (is_dropped p i d) d ds (kept_actions p tick spacing (suc i) ds) valid
          (kept_actions-Tightened (suc i) ds later)
