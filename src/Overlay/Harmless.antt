-- ===== src/Overlay/Harmless.antt =====
-- agent/src/overlay/apply.ts: actions that hold or reduce risk on the lane, and how a proposal keeps them.
use deltadesk.Prelude.{
  ℕ, suc, ◌≡◌, refl, sym, ap, subst, Bool, true, false, not, ◌&&◌, ◌||◌, List, [], ◌∷◌, ◌++◌, All,
  filter, any, arith, Option, ◌==◌,
}
use deltadesk.Prelude.Int.{ℤ}
use deltadesk.Actions.{
  Lane, DeskAction, hold, rerange, reduce, collect, exit_all, pause, signal, hedge, adds_risk,
  lane_of, same_lane, risk_class_of, is_adding_class,
}
use deltadesk.Overlay.{is_hold, is_reducing_kind, added_violations}
use deltadesk.Overlay.Apply.{Proposal, edit_action}
use deltadesk.Overlay.Survivors.{Within, pass, both, must_survive, filter_take, filter_skip}

abbrev pub keeps_risk : DeskAction → Bool
keeps_risk a = not (adds_risk a)

-- A hold, or a reduction of risk on the lane.
unfoldable pub IsHarmless : Lane → DeskAction → Type 0
IsHarmless lane a = (is_hold a || is_reducing_kind a && same_lane (lane_of a) lane) ≡ true

pub harmless-keeps_risk : (lane : Lane) (a : DeskAction) → IsHarmless lane a → adds_risk a ≡ false
unfolding IsHarmless adds_risk risk_class_of is_adding_class is_reducing_kind is_hold
harmless-keeps_risk lane (hold _ _) h = refl
harmless-keeps_risk lane (rerange _) h = absurd (ground arith)
harmless-keeps_risk lane (reduce _ _ _) h = refl
harmless-keeps_risk lane (collect _) h = refl
harmless-keeps_risk lane (exit_all _) h = refl
harmless-keeps_risk lane (pause _) h = refl
harmless-keeps_risk lane (signal _ _) h = absurd (ground arith)
harmless-keeps_risk lane (hedge _) h = absurd (ground arith)

pub harmless-edit :
    (lane : Lane) (a : DeskAction) (p : Proposal) (tick : Option ℤ) (spacing : ℕ)
    → IsHarmless lane a
    → edit_action p tick spacing a ≡ a
unfolding IsHarmless edit_action is_reducing_kind is_hold
harmless-edit lane (hold _ _) p tick spacing h = refl
harmless-edit lane (rerange _) p tick spacing h = absurd (ground arith)
harmless-edit lane (reduce _ _ _) p tick spacing h = refl
harmless-edit lane (collect _) p tick spacing h = refl
harmless-edit lane (exit_all _) p tick spacing h = refl
harmless-edit lane (pause _) p tick spacing h = refl
harmless-edit lane (signal _ _) p tick spacing h = refl
harmless-edit lane (hedge _) p tick spacing h = refl

pub added_violations-none :
    (lane : Lane) (left : List DeskAction)
    → All (IsHarmless lane) left
    → added_violations lane left ≡ []
unfolding added_violations IsHarmless
added_violations-none lane [] h = refl
added_violations-none lane (a ∷ rest) (q, h) =
    let later = added_violations-none lane rest h in ground arith

-- The indexes from i on that the proposal drops are of actions that add risk.
unfoldable pub DropsAdding : List ℕ → ℕ → List DeskAction → Type 0
DropsAdding drop i [] = Unit
DropsAdding drop i (a ∷ rest) =
    (any (λ j. j == i) drop && keeps_risk a ≡ false) × DropsAdding drop (suc i) rest

-- What does not add risk in the plan is within what does not add risk in the kept actions, all of it
-- harmless.
unfoldable pub Keeps : Lane → List DeskAction → List DeskAction → Type 0
Keeps lane ds ks =
    Within (filter must_survive ds) (filter keeps_risk ks)
    × All (IsHarmless lane) (filter keeps_risk ks)

pub Keeps-miss :
    (lane : Lane) (d : DeskAction) (ds ks : List DeskAction)
    → must_survive d ≡ false
    → Keeps lane ds ks
    → Keeps lane (d ∷ ds) ks
unfolding Keeps
Keeps-miss lane d ds ks e (w, h) =
    (subst (λ l. Within l (filter keeps_risk ks)) (sym (filter_skip must_survive d ds e)) w, h)

pub Keeps-add :
    (lane : Lane) (a : DeskAction) (ds ks : List DeskAction)
    → adds_risk a ≡ true
    → Keeps lane ds ks
    → Keeps lane ds (a ∷ ks)
unfolding Keeps
Keeps-add lane a ds ks e k =
    subst (λ l. Within (filter must_survive ds) l × All (IsHarmless lane) l)
      (sym (filter_skip keeps_risk a ks (ap not e))) k

pub Keeps-both :
    (lane : Lane) (d : DeskAction) (ds ks : List DeskAction)
    → must_survive d ≡ true
    → IsHarmless lane d
    → Keeps lane ds ks
    → Keeps lane (d ∷ ds) (d ∷ ks)
unfolding Keeps
Keeps-both lane d ds ks e q (w, h) =
    let kept : keeps_risk d ≡ true = ground arith in
    let both_kept : Within (d ∷ filter must_survive ds) (d ∷ filter keeps_risk ks) = both w in
    subst (λ l. Within (filter must_survive (d ∷ ds)) l × All (IsHarmless lane) l)
      (sym (filter_take keeps_risk d ks kept))
      (
        subst (λ l. Within l (d ∷ filter keeps_risk ks)) (sym (filter_take must_survive d ds e))
            both_kept,
        (q, h),
      )

-- Harmless actions in front change nothing.
pub Keeps-front :
    (lane : Lane) (adds ds ks : List DeskAction)
    → All (IsHarmless lane) adds
    → Keeps lane ds ks
    → Keeps lane ds (adds ++ ks)
unfolding Keeps
Keeps-front lane [] ds ks h k = k
Keeps-front lane (a ∷ adds) ds ks (q, h) k =
    let (w, all) = Keeps-front lane adds ds ks h k in
    let kept = filter_take keeps_risk a (adds ++ ks) (ap not (harmless-keeps_risk lane a q)) in
    subst (λ l. Within (filter must_survive ds) l × All (IsHarmless lane) l) (sym kept)
      (pass w, (q, all))
