-- ===== src/Guard/Origin.antt =====
-- agent/src/guard/guard.ts with agent/src/overlay/apply.ts: where a rerange that the guard lets through
-- comes from.
use Prim.Native.String.{String}
use mathlib.Core.List.Memᴰ
use mathlib.Core.List.{Memᴰ}
use deltadesk.Prelude.{
  ◌≡◌, refl, ap, sym, subst, ◌∙◌, inl, inr, Bool, true, false, List, [], ◌∷◌, All, any, filter,
  arith, Bool-cases,
}
use deltadesk.Prelude.Int.{◌≤ℤ◌, eq_of_parts}
use deltadesk.Prelude.Floats.{Floats}
use deltadesk.Bands.{RangeSpec}
use deltadesk.Actions.{
  DeskAction, Rerange, hold, rerange, reduce, collect, exit_all, pause, signal, hedge, adds_risk,
  same_action, same_ranges, same_range, risk_class_of, class_of_ranges, is_adding_class,
}
use deltadesk.Overlay.{action_tighter, tighten_check, rerange_tighter, Violation}
use deltadesk.Overlay.Tighter.{Tightened, done, skip, keep, tighten_check-parts}
use deltadesk.Overlay.Shares.{HasShares, rerange_tighter-shares}
use deltadesk.Overlay.Survivors.{filter_take, filter_skip}
use deltadesk.Guard.{shares_of}
use deltadesk.Guard.Input.{GuardInput}
use deltadesk.Guard.Rules.{Texts, is_adding_rerange}
use deltadesk.Guard.Rules.Steps.{overlay_tighten_only}
use deltadesk.Guard.Check.{execute, check_guard}
use deltadesk.Guard.Check as G
use deltadesk.Guard.Authority.{check_guard-execute_iff}

-- An element that a test finds.
any-found :
    (f : DeskAction → Bool) (xs : List DeskAction)
    → any f xs ≡ true
    → (a : DeskAction) × Memᴰ a xs × (f a ≡ true)
any-found f [] e = absurd (ground arith)
any-found f (a ∷ rest) e = elim (Bool-cases (f a)) [
  | inl h ↦ (a, Memᴰ.head refl, h)
  | inr h ↦ let (b, m, g) = any-found f rest (ground arith) in (b, Memᴰ.tail m, g)
]

-- What passes a test stands in the filtered list, and only what stands in the list does.
into_filter :
    (f : DeskAction → Bool) (a : DeskAction) (xs : List DeskAction)
    → Memᴰ a xs
    → f a ≡ true
    → Memᴰ a (filter f xs)
into_filter f a [] m h = elim m [ ]
into_filter f a (x ∷ xs) (Memᴰ.head e) h =
    let here : Memᴰ a (x ∷ filter f xs) = Memᴰ.head e in
    subst (Memᴰ a) (sym (filter_take f x xs (ap f (sym e) ∙ h))) here
into_filter f a (x ∷ xs) (Memᴰ.tail m) h = elim (Bool-cases (f x)) [
  | inl e ↦
      let later : Memᴰ a (x ∷ filter f xs) = Memᴰ.tail (into_filter f a xs m h) in
      subst (Memᴰ a) (sym (filter_take f x xs e)) later
  | inr e ↦ subst (Memᴰ a) (sym (filter_skip f x xs e)) (into_filter f a xs m h)
]

out_of_filter :
    (f : DeskAction → Bool) (a : DeskAction) (xs : List DeskAction)
    → Memᴰ a (filter f xs)
    → Memᴰ a xs
out_of_filter f a [] m = m
out_of_filter f a (x ∷ xs) m = elim (Bool-cases (f x)) [
  | inl e ↦ elim (Memᴰ.cases_cons (subst (Memᴰ a) (filter_take f x xs e) m)) [
    | inl same ↦ Memᴰ.head same
    | inr later ↦ Memᴰ.tail (out_of_filter f a xs later)
  ]
  | inr e ↦ Memᴰ.tail (out_of_filter f a xs (subst (Memᴰ a) (filter_skip f x xs e) m))
]

-- The same reranges have the same shares.
same_ranges-shares :
    (rs ss : List RangeSpec) → same_ranges rs ss ≡ true → shares_of rs ≡ shares_of ss
unfolding same_ranges same_range shares_of
same_ranges-shares [] [] e = refl
same_ranges-shares [] (s ∷ ss) e = absurd (ground arith)
same_ranges-shares (r ∷ rs) [] e = absurd (ground arith)
same_ranges-shares (r ∷ rs) (s ∷ ss) e =
    let later = same_ranges-shares rs ss (ground arith) in
    let same0 = eq_of_parts r.share0_bps s.share0_bps (ground arith) in
    let same1 = eq_of_parts r.share1_bps s.share1_bps (ground arith) in ground arith

same_action-rerange :
    (a : DeskAction) (r : Rerange)
    → same_action a (rerange r) ≡ true
    → (s : Rerange) × (a ≡ rerange s)
      × (same_ranges s.ranges r.ranges ≡ true)
      × (shares_of s.ranges ≡ shares_of r.ranges)
      × (s.expected_tick ≡ r.expected_tick)
      × (s.max_tick_delta ≡ r.max_tick_delta)
unfolding same_action
same_action-rerange (rerange s) r e = (
  s,
  refl,
  ground arith,
  same_ranges-shares s.ranges r.ranges (ground arith),
  eq_of_parts s.expected_tick r.expected_tick (ground arith),
  eq_of_parts s.max_tick_delta r.max_tick_delta (ground arith),
)
same_action-rerange (hold _ _) r e = absurd (ground arith)
same_action-rerange (reduce _ _ _) r e = absurd (ground arith)
same_action-rerange (collect _) r e = absurd (ground arith)
same_action-rerange (exit_all _) r e = absurd (ground arith)
same_action-rerange (pause _) r e = absurd (ground arith)
same_action-rerange (signal _ _) r e = absurd (ground arith)
same_action-rerange (hedge _) r e = absurd (ground arith)

same_ranges-adds :
    (s r : Rerange)
    → same_ranges s.ranges r.ranges ≡ true
    → is_adding_rerange (rerange r) ≡ true
    → adds_risk (rerange s) ≡ true
unfolding adds_risk risk_class_of same_ranges class_of_ranges is_adding_class
same_ranges-adds s r e h = both_ranges s.ranges r.ranges e h
  where
    both_ranges :
        (ss rs : List RangeSpec)
        → same_ranges ss rs ≡ true
        → elim rs as (λ _. Bool) [ [] ↦ false | x ∷ xs ↦ true ] ≡ true
        → is_adding_class (class_of_ranges ss) ≡ true
    both_ranges [] [] e h = absurd (ground arith)
    both_ranges [] (r ∷ rs) e h = absurd (ground arith)
    both_ranges (s ∷ ss) rs e h = refl

module _ (F : Floats) (number : String → F.Float) (lower : String → String) where
  Tightened-origin :
      (ds fs : List DeskAction) (f : DeskAction)
      → Tightened F number lower ds fs
      → Memᴰ f fs
      → (d : DeskAction) × Memᴰ d ds × (action_tighter F number lower d f ≡ true)
  Tightened-origin ds [] f done m = absurd (Memᴰ.not-nil m)
  Tightened-origin (d ∷ ds) fs f (skip t) m =
      let (e, n, h) = Tightened-origin ds fs f t m in (e, Memᴰ.tail n, h)
  Tightened-origin (d ∷ ds) (g ∷ fs) f (keep h t) m = elim (Memᴰ.cases_cons m) [
    | inl e ↦ (d, Memᴰ.head refl, subst (λ x. action_tighter F number lower d x ≡ true) (sym e) h)
    | inr n ↦ let (e, k, j) = Tightened-origin ds fs f t n in (e, Memᴰ.tail k, j)
  ]

  action_tighter-rerange :
      (d : DeskAction) (s : Rerange)
      → action_tighter F number lower d (rerange s) ≡ true
      → (r : Rerange) × (d ≡ rerange r) × (rerange_tighter r s ≡ true)
  unfolding action_tighter
  action_tighter-rerange (rerange r) s e = (r, refl, e)
  action_tighter-rerange (hold _ _) s e = absurd (ground arith)
  action_tighter-rerange (reduce _ _ _) s e = absurd (ground arith)
  action_tighter-rerange (collect _) s e = absurd (ground arith)
  action_tighter-rerange (exit_all _) s e = absurd (ground arith)
  action_tighter-rerange (pause _) s e = absurd (ground arith)
  action_tighter-rerange (signal _ _) s e = absurd (ground arith)
  action_tighter-rerange (hedge _) s e = absurd (ground arith)

-- No share of a rerange is negative.
unfoldable pub HasRerangeShares : DeskAction → Type 0
HasRerangeShares (rerange r) = All HasShares r.ranges
HasRerangeShares _ = Unit

All-Mem :
    (P : DeskAction → Type 0) (a : DeskAction) (xs : List DeskAction) → All P xs → Memᴰ a xs → P a
All-Mem P a [] h m = absurd (Memᴰ.not-nil m)
All-Mem P a (x ∷ xs) (p, h) m = elim (Memᴰ.cases_cons m) [
  | inl e ↦ subst P (sym e) p
  | inr n ↦ All-Mem P a xs h n
]

module _ {F : Floats} (number : String → F.Float) (T : Texts) (i : GuardInput F) where
  overlay_rule :
      overlay_tighten_only number T i ≡ true
      → (tighten_check F number T.lower i.deterministic i.final_plan ≡ [])
        × (any (λ a. same_action a i.action) i.final_plan.actions ≡ true)
  unfolding overlay_tighten_only
  overlay_rule e = (
    no_violations (tighten_check F number T.lower i.deterministic i.final_plan) (ground arith),
    ground arith,
  )
    where
      no_violations :
          (vs : List Violation)
          → elim vs as (λ _. Bool) [ [] ↦ true | v ∷ ws ↦ false ] ≡ true
          → vs ≡ []
      no_violations [] e = refl
      no_violations (v ∷ vs) e = absurd (ground arith)

  -- A rerange of a range that the guard lets through comes from a rerange of the deterministic plan: it mints
  -- from no greater share of either balance, expects the same tick and lets the pool tick move no further, provided
  -- that no share of the deterministic plan is negative.
  pub execute-origin :
      (r : Rerange)
      → (check_guard number T i).decision ≡ execute
      → i.action ≡ rerange r
      → is_adding_rerange i.action ≡ true
      → All HasRerangeShares i.deterministic.actions
      → (d : Rerange) × Memᴰ (rerange d) i.deterministic.actions
        × ((shares_of r.ranges).amount0 ≤ℤ (shares_of d.ranges).amount0)
        × ((shares_of r.ranges).amount1 ≤ℤ (shares_of d.ranges).amount1)
        × (r.expected_tick ≡ d.expected_tick)
        × (r.max_tick_delta ≤ℤ d.max_tick_delta)
  execute-origin r e is_rerange adding shares =
      let (clean, found) =
        overlay_rule (((check_guard-execute_iff number T i).0 e).0 G.overlay_tighten_only) in
      let (a, member, same) = any-found (λ a. same_action a i.action) i.final_plan.actions found in
      let (s, same_s, same_rs, share, tick, delta) =
        same_action-rerange a r (subst (λ b. same_action a b ≡ true) is_rerange same) in
      let adds : adds_risk a ≡ true =
        subst (λ x. adds_risk x ≡ true) (sym same_s)
          (same_ranges-adds s r same_rs
            (subst (λ x. is_adding_rerange x ≡ true) is_rerange adding)) in
      let (lanes, modes, notional, checks, kept, added, addresses) =
        tighten_check-parts F number T.lower i.deterministic i.final_plan clean in
      let (b, origin, tighter) =
        Tightened-origin F number T.lower (filter adds_risk i.deterministic.actions)
          (filter adds_risk i.final_plan.actions) a checks
          (into_filter adds_risk a i.final_plan.actions member adds) in
      let (d, same_d, within) =
        action_tighter-rerange F number T.lower b s
          (subst (λ x. action_tighter F number T.lower b x ≡ true) same_s tighter) in
      let original =
        subst (λ x. Memᴰ x i.deterministic.actions) same_d
          (out_of_filter adds_risk b i.deterministic.actions origin) in
      let positive = All-Mem HasRerangeShares (rerange d) i.deterministic.actions shares original in
      let (le0, le1, same_tick, less_delta) =
        rerange_tighter-shares d s within (unfold HasRerangeShares in positive) in
      (
        d,
        original,
        subst (λ x. x.amount0 ≤ℤ (shares_of d.ranges).amount0) share le0,
        subst (λ x. x.amount1 ≤ℤ (shares_of d.ranges).amount1) share le1,
        sym tick ∙ same_tick,
        subst (λ x. x ≤ℤ d.max_tick_delta) delta less_delta,
      )
