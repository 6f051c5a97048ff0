-- ===== src/Overlay/Passes.antt =====
-- agent/src/overlay/apply.ts: a proposal that drops only actions that add risk passes the tighten
-- check of the plan it edits.
use Prim.Native.String.{String}
use text.Mathlib.TextPositions.{eq_refl}
use deltadesk.Prelude.{
  ℕ, suc, ◌<◌, ◌≡◌, refl, sym, ◌∙◌, subst, ◌⊎◌, inl, inr, Bool, true, false, ◌&&◌, List, [], ◌∷◌,
  ◌++◌, All, filter, any, arith, Bool-cases, Option, ◌==◌, if◌then◌else◌,
}
use deltadesk.Prelude.Int.{ℤ, pos}
use deltadesk.Prelude.Floats.{Floats}
use deltadesk.Gates.Modes.{RiskMode, normal, reduce_only, flat, same_mode}
use deltadesk.Actions.{Lane, DeskAction, hold, adds_risk, risk_class_of, is_adding_class}
use deltadesk.Overlay.{DeskPlan, cents, is_hold, take_survivors, tighten_check, notional_ok}
use deltadesk.Overlay.Tighter.{Tightened, adding_violations-Tightened_iff}
use deltadesk.Overlay.Apply.{
  Proposal, apply, kept_actions, is_dropped, edit_action, or_hold, scale_cents,
}
use deltadesk.Overlay.Applied.{adds_risk-edit, ValidAction, kept_actions-Tightened, scale_share-le}
use deltadesk.Overlay.Survivors.{empty, pass, take_survivors-Survived, same_lane_refl, filter_skip}
use deltadesk.Overlay.Harmless.{
  keeps_risk, IsHarmless, harmless-keeps_risk, harmless-edit, added_violations-none, DropsAdding,
  Keeps, Keeps-miss, Keeps-add, Keeps-both, Keeps-front,
}

module _ (p : Proposal) (tick : Option ℤ) (spacing : ℕ) (positive : 0 < spacing) (lane : Lane) where
  is_dropped-harmless :
      (i : ℕ) (d : DeskAction)
      → IsHarmless lane d
      → any (λ j. j == i) p.drop_action_indexes && keeps_risk d ≡ false
      → is_dropped p i d ≡ is_hold d
  unfolding is_dropped
  is_dropped-harmless i d q k = let safe = harmless-keeps_risk lane d q in ground arith

  kept_actions-Keeps :
      (i : ℕ) (ds : List DeskAction)
      → All (λ a. (adds_risk a ≡ true) ⊎ IsHarmless lane a) ds
      → DropsAdding p.drop_action_indexes i ds
      → Keeps lane ds (kept_actions p tick spacing i ds)
  unfolding kept_actions DropsAdding
  kept_actions-Keeps i [] h k = unfold Keeps in (empty, tt)
  kept_actions-Keeps i (d ∷ ds) (inl e, h) (k, ks) =
      let later =
        Keeps-miss lane d ds (kept_actions p tick spacing (suc i) ds) (ground arith)
          (kept_actions-Keeps (suc i) ds h ks) in
      elim (Bool-cases (is_dropped p i d)) [
        | inl gone ↦ rw gone later
        | inr stays ↦ rw stays (
            Keeps-add lane (edit_action p tick spacing d) (d ∷ ds)
              (kept_actions p tick spacing (suc i) ds)
              (adds_risk-edit p tick spacing positive d ∙ e) later)
      ]
  kept_actions-Keeps i (d ∷ ds) (inr q, h) (k, ks) =
      let later = kept_actions-Keeps (suc i) ds h ks in
      let kept = kept_actions p tick spacing (suc i) ds in
      let dropped = is_dropped-harmless i d q k in
      let safe = harmless-keeps_risk lane d q in
      elim (Bool-cases (is_hold d)) [
        | inl holds ↦ rw (dropped ∙ holds) (Keeps-miss lane d ds kept (ground arith) later)
        | inr stays ↦
            rw (dropped ∙ stays, harmless-edit lane d p tick spacing q)
              (Keeps-both lane d ds kept (ground arith) q later)
      ]

-- A harmless front adds no risk.
filter-front :
    (lane : Lane) (adds ks : List DeskAction)
    → All (IsHarmless lane) adds
    → filter adds_risk (adds ++ ks) ≡ filter adds_risk ks
filter-front lane [] ks h = refl
filter-front lane (a ∷ adds) ks (q, h) =
    filter_skip adds_risk a (adds ++ ks) (harmless-keeps_risk lane a q)
    ∙ filter-front lane adds ks h

same_mode_refl : (m : RiskMode) → same_mode m m ≡ true
same_mode_refl normal = refl
same_mode_refl reduce_only = refl
same_mode_refl flat = refl

-- The fallback hold adds no risk and is harmless.
filter-or_hold :
    (l : Lane) (reason : String) (ks : List DeskAction)
    → filter adds_risk (or_hold (hold l reason) ks) ≡ filter adds_risk ks
unfolding or_hold adds_risk risk_class_of is_adding_class
filter-or_hold l reason [] = refl
filter-or_hold l reason (a ∷ ks) = refl

Keeps-or_hold :
    (lane : Lane) (reason : String) (ds ks : List DeskAction)
    → Keeps lane ds ks
    → Keeps lane ds (or_hold (hold lane reason) ks)
unfolding Keeps or_hold IsHarmless is_hold adds_risk risk_class_of is_adding_class
Keeps-or_hold lane reason ds [] (w, h) = (pass w, (refl, tt))
Keeps-or_hold lane reason ds (k ∷ ks) kept = kept

notional-apply :
    (n : ℕ) (scale : Option ℤ) (adding : Bool)
    → notional_ok
        (cents (pos n))
        (if adding then scale_cents (cents (pos n)) scale else cents (pos 0))
      ≡ true
unfolding notional_ok scale_cents
notional-apply n scale true =
    let (low, below) = scale_share-le (pos n) scale (omega arith) in ground arith
notional-apply n scale false = ground arith

module _ (F : Floats) (number : String → F.Float) (lower : String → String) where
  -- A plan whose actions are adding ones of valid shares and sizes, or harmless on its lane, whose
  -- notional is an integer that is not negative, and a proposal that adds only harmless actions and drops
  -- only adding ones: performed literally, the proposal always passes the tighten check.
  pub apply-passes :
      (spacing : ℕ) (plan : DeskPlan) (p : Proposal) (n : ℕ)
      → 0 < spacing
      → plan.notional_cents ≡ cents (pos n)
      → All (ValidAction F number lower) plan.actions
      → All (λ a. (adds_risk a ≡ true) ⊎ IsHarmless plan.lane a) plan.actions
      → All (IsHarmless plan.lane) p.add_reducing
      → DropsAdding p.drop_action_indexes 0 plan.actions
      → tighten_check F number lower plan (apply spacing plan p) ≡ []
  unfolding tighten_check apply Keeps
  apply-passes spacing plan p n positive priced valid sorted harmless drops =
      let det = plan.actions in
      let kept = kept_actions p plan.pool_tick spacing 0 det in
      let reason : String = "overlay dropped every action" in
      let fin = or_hold (hold plan.lane reason) (p.add_reducing ++ kept) in
      let (w, safe) = Keeps-or_hold plan.lane reason det (p.add_reducing ++ kept) (
        Keeps-front plan.lane p.add_reducing det kept harmless
          (kept_actions-Keeps p plan.pool_tick spacing positive plan.lane 0 det sorted drops)) in
      let (found, left) =
        take_survivors-Survived (IsHarmless plan.lane) det (filter keeps_risk fin) w safe in
      let same =
        filter-or_hold plan.lane reason (p.add_reducing ++ kept)
        ∙ filter-front plan.lane p.add_reducing kept harmless in
      let matched =
        (adding_violations-Tightened_iff F number lower (filter adds_risk det)
            (filter adds_risk fin)).1
          (subst (Tightened F number lower (filter adds_risk det)) (sym same) (
            kept_actions-Tightened p plan.pool_tick spacing positive F number lower 0 det valid)) in
      let fits = notional-apply n p.notional_scale_bps (any adds_risk (p.add_reducing ++ kept)) in
      let none_added =
        added_violations-none plan.lane (take_survivors det (filter keeps_risk fin)).1 left in
      rw (
        same_lane_refl plan.lane,
        eq_refl (lower plan.lane_address),
        same_mode_refl plan.risk_mode,
        priced,
        fits,
        matched,
        found,
        none_added,
      )
