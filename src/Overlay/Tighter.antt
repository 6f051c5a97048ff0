-- ===== src/Overlay/Tighter.antt =====
-- agent/src/overlay/apply.ts, `tightenCheck`: the greedy match of the adding actions against a relation on
-- lists, and the parts of the check.
use Prim.Native.String.{String}
use text.Mathlib.Text.{◌==◌ as str_eq}
use deltadesk.Prelude.{
  ◌≡◌, refl, sym, subst, ◌↔◌, inl, inr, Bool, true, false, not, List, [], ◌∷◌, ◌++◌, filter, arith,
  Bool-cases,
}
use deltadesk.Prelude.Floats.{Floats}
use deltadesk.Actions.{Lane, lane_a, lane_b, lane_c, same_lane, adds_risk, DeskAction}
use deltadesk.Gates.Modes.{RiskMode, normal, reduce_only, flat, same_mode}
use deltadesk.Overlay.{
  DeskPlan, Violation, not_tightened, violation_if, action_tighter, advance, adding_violations,
  tighten_check, notional_ok, take_survivors, added_violations, lane_changed, address_changed,
  mode_changed, notional_grew,
}

violation_if-none :
    (found : Bool) (vs : List Violation)
    → (violation_if (not found) not_tightened ++ vs ≡ []) ↔ ((found ≡ true) × (vs ≡ []))
violation_if-none found vs = (λ e. ground arith, λ e. ground arith)

pub same_lane-eq : (l m : Lane) → same_lane l m ≡ true → l ≡ m
same_lane-eq lane_a lane_a e = refl
same_lane-eq lane_b lane_b e = refl
same_lane-eq lane_c lane_c e = refl
same_lane-eq lane_a lane_b e = absurd (ground arith)
same_lane-eq lane_a lane_c e = absurd (ground arith)
same_lane-eq lane_b lane_a e = absurd (ground arith)
same_lane-eq lane_b lane_c e = absurd (ground arith)
same_lane-eq lane_c lane_a e = absurd (ground arith)
same_lane-eq lane_c lane_b e = absurd (ground arith)

same_mode-eq : (m n : RiskMode) → same_mode m n ≡ true → m ≡ n
same_mode-eq normal normal e = refl
same_mode-eq reduce_only reduce_only e = refl
same_mode-eq flat flat e = refl
same_mode-eq normal reduce_only e = absurd (ground arith)
same_mode-eq normal flat e = absurd (ground arith)
same_mode-eq reduce_only normal e = absurd (ground arith)
same_mode-eq reduce_only flat e = absurd (ground arith)
same_mode-eq flat normal e = absurd (ground arith)
same_mode-eq flat reduce_only e = absurd (ground arith)

module _ (F : Floats) (number : String → F.Float) (lower : String → String) where
  -- The adding actions of the final plan are a subsequence of the originals, each one tightened.
  pub data Tightened : List DeskAction → List DeskAction → Type 0 where
    done : {ds : List DeskAction} → Tightened ds []
    skip : {d : DeskAction} {ds fs : List DeskAction} → Tightened ds fs → Tightened (d ∷ ds) fs
    keep :
        {d f : DeskAction} {ds fs : List DeskAction}
        → action_tighter F number lower d f ≡ true
        → Tightened ds fs
        → Tightened (d ∷ ds) (f ∷ fs)

  -- Fewer actions are tightened too.
  tail_Tightened :
      (ds : List DeskAction) (f : DeskAction) (fs : List DeskAction)
      → Tightened ds (f ∷ fs)
      → Tightened ds fs
  tail_Tightened [] f fs t = elim t [ ]
  tail_Tightened (d ∷ ds) f fs (skip t) = skip (tail_Tightened ds f fs t)
  tail_Tightened (d ∷ ds) f fs (keep e t) = skip t

  advance_hit :
      (d f : DeskAction) (ds : List DeskAction)
      → action_tighter F number lower d f ≡ true
      → advance F number lower f (d ∷ ds) ≡ (true, ds)
  unfolding advance
  advance_hit d f ds e = ground arith

  advance_miss :
      (d f : DeskAction) (ds : List DeskAction)
      → action_tighter F number lower d f ≡ false
      → advance F number lower f (d ∷ ds) ≡ advance F number lower f ds
  unfolding advance
  advance_miss d f ds e = ground arith

  -- What the cursor leaves when it has found an original.
  Found : List DeskAction → Bool × List DeskAction → Type 0
  Found fs p = (p.0 ≡ true) × Tightened p.1 fs

  -- The cursor finds an original when there is a match, and leaves one for the rest.
  advance-Found :
      (ds : List DeskAction) (f : DeskAction) (fs : List DeskAction)
      → Tightened ds (f ∷ fs)
      → Found fs (advance F number lower f ds)
  unfolding Found
  advance-Found [] f fs t = elim t [ ]
  advance-Found (d ∷ ds) f fs (keep e t) = subst (Found fs) (sym (advance_hit d f ds e)) (refl, t)
  advance-Found (d ∷ ds) f fs (skip t) = elim (Bool-cases (action_tighter F number lower d f)) [
    | inl e ↦ subst (Found fs) (sym (advance_hit d f ds e)) (refl, tail_Tightened ds f fs t)
    | inr e ↦ subst (Found fs) (sym (advance_miss d f ds e)) (advance-Found ds f fs t)
  ]

  Found-Tightened :
      (ds : List DeskAction) (f : DeskAction) (fs : List DeskAction)
      → Found fs (advance F number lower f ds)
      → Tightened ds (f ∷ fs)
  unfolding Found
  Found-Tightened [] f fs h = absurd (unfold advance in ground arith)
  Found-Tightened (d ∷ ds) f fs h = elim (Bool-cases (action_tighter F number lower d f)) [
    | inl e ↦ keep e (subst (Found fs) (advance_hit d f ds e) h).1
    | inr e ↦ skip (Found-Tightened ds f fs (subst (Found fs) (advance_miss d f ds e) h))
  ]

  -- The greedy match reports nothing just when the adding actions of the final plan are a subsequence
  -- of the originals, each one tightened.
  pub adding_violations-Tightened_iff :
      (ds fs : List DeskAction) → (adding_violations F number lower ds fs ≡ []) ↔ Tightened ds fs
  unfolding adding_violations Found
  adding_violations-Tightened_iff ds [] = (λ e. done, λ t. refl)
  adding_violations-Tightened_iff ds (f ∷ fs) =
      let found = (advance F number lower f ds).0 in
      let rest = (advance F number lower f ds).1 in
      let split = violation_if-none found (adding_violations F number lower rest fs) in
      let later = adding_violations-Tightened_iff rest fs in
      (
        λ e. let (m, v) = split.0 e in Found-Tightened ds f fs (m, later.0 v),
        λ t. let (m, u) = advance-Found ds f fs t in split.1 (m, later.1 u),
      )

  -- A check that found nothing found nothing in each of its parts.
  ++_none : (us vs : List Violation) → us ++ vs ≡ [] → (us ≡ []) × (vs ≡ [])
  ++_none [] vs e = (refl, e)
  ++_none (u ∷ us) vs e = absurd (ground arith)

  parts_none :
      (b c d e : Bool) (us vs ws : List Violation)
      → violation_if b lane_changed
          ++ violation_if c address_changed
          ++ violation_if d mode_changed
          ++ violation_if e notional_grew
          ++ us
          ++ vs
          ++ ws
        ≡ []
      → (b ≡ false) × (c ≡ false) × (d ≡ false) × (e ≡ false) × (us ≡ []) × (vs ≡ []) × (ws ≡ [])
  parts_none true c d e us vs ws h = absurd (ground arith)
  parts_none false true d e us vs ws h = absurd (ground arith)
  parts_none false false true e us vs ws h = absurd (ground arith)
  parts_none false false false true us vs ws h = absurd (ground arith)
  parts_none false false false false us vs ws h =
      let (front, last) = ++_none (us ++ vs) ws h in
      let (us_none, vs_none) = ++_none us vs front in
      (refl, refl, refl, refl, us_none, vs_none, last)

  -- A check that found nothing, by its parts.
  pub tighten_check-parts :
      (det fin : DeskPlan)
      → tighten_check F number lower det fin ≡ []
      → (fin.lane ≡ det.lane)
        × (fin.risk_mode ≡ det.risk_mode)
        × (notional_ok det.notional_cents fin.notional_cents ≡ true)
        × Tightened (filter adds_risk det.actions) (filter adds_risk fin.actions)
        × ((take_survivors det.actions (filter (λ a. not (adds_risk a)) fin.actions)).0 ≡ [])
        × (added_violations det.lane
              (take_survivors det.actions (filter (λ a. not (adds_risk a)) fin.actions)).1
            ≡ [])
        × (str_eq (lower fin.lane_address) (lower det.lane_address) ≡ true)
  unfolding tighten_check
  tighten_check-parts det fin e =
      let left = take_survivors det.actions (filter (λ a. not (adds_risk a)) fin.actions) in
      let (lanes, addresses, modes, notional, matched, found, added) =
        parts_none (not (same_lane fin.lane det.lane))
          (not (str_eq (lower fin.lane_address) (lower det.lane_address)))
          (not (same_mode fin.risk_mode det.risk_mode))
          (not (notional_ok det.notional_cents fin.notional_cents))
          (adding_violations F number lower (filter adds_risk det.actions)
            (filter adds_risk fin.actions))
          left.0 (added_violations det.lane left.1) e in
      (
        same_lane-eq fin.lane det.lane (ground arith),
        same_mode-eq fin.risk_mode det.risk_mode (ground arith),
        ground arith,
        (adding_violations-Tightened_iff (filter adds_risk det.actions)
              (filter adds_risk fin.actions)).0
            matched,
        found,
        added,
        ground arith,
      )
