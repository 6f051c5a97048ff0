-- ===== src/Overlay/Survivors.antt =====
-- agent/src/overlay/apply.ts, `tightenCheck`: the actions of a plan that do not add risk survive a
-- proposal that does not drop them.
use text.Mathlib.TextPositions.{eq_refl}
use deltadesk.Prelude.{
  ℕ, ◌≡◌, refl, sym, subst, inl, inr, Bool, true, false, not, ◌||◌, List, [], ◌∷◌, All, filter,
  arith, Bool-cases, some, ◌==◌,
}
use deltadesk.Bands.{RangeSpec}
use deltadesk.Actions.{
  Lane, lane_a, lane_b, lane_c, Tif, alo, ioc, DeskAction, hold, rerange, reduce, collect, exit_all,
  pause, signal, hedge, same_lane, same_tif, same_bool, same_range, same_ranges, same_order,
  same_action, adds_risk,
}
use deltadesk.Overlay.{is_hold, take_same, take_survivors}

pub same_lane_refl : (l : Lane) → same_lane l l ≡ true
same_lane_refl lane_a = refl
same_lane_refl lane_b = refl
same_lane_refl lane_c = refl

same_tif_refl : (t : Tif) → same_tif t t ≡ true
same_tif_refl alo = refl
same_tif_refl ioc = refl

same_bool_refl : (b : Bool) → same_bool b b ≡ true
same_bool_refl true = refl
same_bool_refl false = refl

==_refl : (n : ℕ) → (n == n) ≡ true
==_refl n = ground arith

same_ranges_refl : (rs : List RangeSpec) → same_ranges rs rs ≡ true
unfolding same_ranges same_range
same_ranges_refl [] = refl
same_ranges_refl (r ∷ rs) = let later = same_ranges_refl rs in ground arith

same_action_refl : (a : DeskAction) → same_action a a ≡ true
unfolding same_action same_order
same_action_refl (hold l r) = simp (same_lane_refl, eq_refl)
same_action_refl (rerange r) = simp (same_lane_refl, same_ranges_refl, ==_refl)
same_action_refl (reduce l i x) = simp (same_lane_refl, ==_refl)
same_action_refl (collect l) = same_lane_refl l
same_action_refl (exit_all l) = same_lane_refl l
same_action_refl (pause l) = same_lane_refl l
same_action_refl (signal l r) = simp (same_lane_refl, eq_refl)
same_action_refl (hedge o) = simp (same_lane_refl, eq_refl, ==_refl, same_bool_refl, same_tif_refl)

-- The first list is a subsequence of the second.
pub data Within : List DeskAction → List DeskAction → Type 0 where
  empty : {xs : List DeskAction} → Within [] xs
  pass : {x : DeskAction} {ds xs : List DeskAction} → Within ds xs → Within ds (x ∷ xs)
  both : {d : DeskAction} {ds xs : List DeskAction} → Within ds xs → Within (d ∷ ds) (d ∷ xs)

Within-tail : (d : DeskAction) (ds xs : List DeskAction) → Within (d ∷ ds) xs → Within ds xs
Within-tail d ds [] w = elim w [ ]
Within-tail d ds (x ∷ xs) (pass w) = pass (Within-tail d ds xs w)
Within-tail d ds (x ∷ xs) (both w) = pass w

take_same_hit :
    (a x : DeskAction) (xs : List DeskAction)
    → same_action x a ≡ true
    → take_same a (x ∷ xs) ≡ some xs
unfolding take_same
take_same_hit a x xs e = ground arith

take_same_miss :
    (a x : DeskAction) (xs ys : List DeskAction)
    → same_action x a ≡ false
    → take_same a xs ≡ some ys
    → take_same a (x ∷ xs) ≡ some (x ∷ ys)
unfolding take_same
take_same_miss a x xs ys e f = ground arith

-- The search finds an action of a subsequence, and leaves the rest of it; what is left has every
-- property that the actions had.
take_same-Within :
    (Q : DeskAction → Type 0) (d : DeskAction) (ds xs : List DeskAction)
    → Within (d ∷ ds) xs
    → All Q xs
    → (ys : List DeskAction) × (take_same d xs ≡ some ys) × Within ds ys × All Q ys
take_same-Within Q d ds [] w h = elim w [ ]
take_same-Within Q d ds (x ∷ xs) (both w) (q, h) =
    (xs, take_same_hit d d xs (same_action_refl d), w, h)
take_same-Within Q d ds (x ∷ xs) (pass w) (q, h) = elim (Bool-cases (same_action x d)) [
  | inl e ↦ (xs, take_same_hit d x xs e, Within-tail d ds xs w, h)
  | inr e ↦
      let (ys, f, v, k) = take_same-Within Q d ds xs w h in
      (x ∷ ys, take_same_miss d x xs ys e f, pass v, (q, k))
]

-- The actions that have to survive.
abbrev pub must_survive : DeskAction → Bool
must_survive d = not (adds_risk d || is_hold d)

take_survivors_skip :
    (d : DeskAction) (ds xs : List DeskAction)
    → must_survive d ≡ false
    → take_survivors (d ∷ ds) xs ≡ take_survivors ds xs
unfolding take_survivors
take_survivors_skip d ds xs e = ground arith

take_survivors_take :
    (d : DeskAction) (ds xs ys : List DeskAction)
    → must_survive d ≡ true
    → take_same d xs ≡ some ys
    → take_survivors (d ∷ ds) xs ≡ take_survivors ds ys
unfolding take_survivors
take_survivors_take d ds xs ys e f = ground arith

pub filter_skip :
    (q : DeskAction → Bool) (d : DeskAction) (ds : List DeskAction)
    → q d ≡ false
    → filter q (d ∷ ds) ≡ filter q ds
filter_skip q d ds e = ground arith

pub filter_take :
    (q : DeskAction → Bool) (d : DeskAction) (ds : List DeskAction)
    → q d ≡ true
    → filter q (d ∷ ds) ≡ d ∷ filter q ds
filter_take q d ds e = ground arith

-- No action is missed, and what is left over has every property that the actions had.
pub take_survivors-Survived :
    (Q : DeskAction → Type 0) (ds xs : List DeskAction)
    → Within (filter must_survive ds) xs
    → All Q xs
    → ((take_survivors ds xs).0 ≡ []) × All Q (take_survivors ds xs).1
unfolding take_survivors
take_survivors-Survived Q [] xs w h = (refl, h)
take_survivors-Survived Q (d ∷ ds) xs w h = elim (Bool-cases (must_survive d)) [
  | inl e ↦
      let from = subst (λ l. Within l xs) (filter_take must_survive d ds e) w in
      let (ys, f, v, k) = take_same-Within Q d (filter must_survive ds) xs from h in
      subst (λ r. (r.0 ≡ []) × All Q r.1) (sym (take_survivors_take d ds xs ys e f))
        (take_survivors-Survived Q ds ys v k)
  | inr e ↦
      let from = subst (λ l. Within l xs) (filter_skip must_survive d ds e) w in
      subst (λ r. (r.0 ≡ []) × All Q r.1) (sym (take_survivors_skip d ds xs e))
        (take_survivors-Survived Q ds xs from h)
]
