-- ===== src/Overlay/Accepted.antt =====
-- agent/src/overlay/apply.ts, `tightenCheck`: what a plan that passes it may not exceed, lose or add.
use Prim.Native.String.{String}
use text.Mathlib.Text.{◌==◌ as str_eq}
use deltadesk.Prelude.{
  ◌≡◌, refl, subst, ◌⊎◌, inl, inr, true, not, ◌||◌, some, List, [], ◌∷◌, filter, All, arith,
  Bool-cases, Option-cases,
}
use deltadesk.Prelude.Int.{ℤ, pos, ◌≤ℤ◌}
use deltadesk.Prelude.Floats.{Floats}
use deltadesk.Actions.{Lane, same_lane, adds_risk, DeskAction}
use deltadesk.Overlay.{
  DeskPlan, Cents, cents, not_a_number, tighten_check, notional_ok, take_same, take_survivors,
  added_violations, same_action, is_hold, is_reducing_kind, lane_of,
}
use deltadesk.Overlay.Tighter.{Tightened, tighten_check-parts, same_lane-eq}

-- A list without one action that is the same.
pub data Without (a : DeskAction) : List DeskAction → List DeskAction → Type 0 where
  first : {x : DeskAction} {xs : List DeskAction} → same_action x a ≡ true → Without a (x ∷ xs) xs
  later : {x : DeskAction} {xs ys : List DeskAction} → Without a xs ys → Without a (x ∷ xs) (x ∷ ys)

-- Every action that neither adds risk nor holds has its own among the others, which leaves a rest.
pub data Survive : List DeskAction → List DeskAction → List DeskAction → Type 0 where
  nothing_more : {xs : List DeskAction} → Survive [] xs xs
  of_no_account :
      {d : DeskAction} {ds xs rest : List DeskAction}
      → (adds_risk d || is_hold d) ≡ true
      → Survive ds xs rest
      → Survive (d ∷ ds) xs rest
  survives :
      {d : DeskAction} {ds xs ys rest : List DeskAction}
      → Without d xs ys
      → Survive ds ys rest
      → Survive (d ∷ ds) xs rest

-- An action that may be new: it holds, or reduces risk on the plan's lane.
abbrev pub MayBeNew : Lane → DeskAction → Type 0
MayBeNew lane a = (is_hold a ≡ true) ⊎ ((is_reducing_kind a ≡ true) × (lane_of a ≡ lane))

take_same-Without :
    (a : DeskAction) (xs ys : List DeskAction) → take_same a xs ≡ some ys → Without a xs ys
unfolding take_same
take_same-Without a [] ys e = absurd (ground arith)
take_same-Without a (x ∷ xs) ys e = elim (Bool-cases (same_action x a)) [
  | inl h ↦ let same : xs ≡ ys = ground arith in subst (Without a (x ∷ xs)) same (first h)
  | inr h ↦ elim (Option-cases (take_same a xs)) [
    | inl n ↦ absurd (ground arith)
    | inr (zs, n) ↦
        let same : x ∷ zs ≡ ys = ground arith in
        subst (Without a (x ∷ xs)) same (later (take_same-Without a xs zs n))
  ]
]

take_survivors-Survive :
    (ds xs : List DeskAction)
    → (take_survivors ds xs).0 ≡ []
    → Survive ds xs (take_survivors ds xs).1
unfolding take_survivors
take_survivors-Survive [] xs e = nothing_more
take_survivors-Survive (d ∷ ds) xs e = elim (Bool-cases (adds_risk d || is_hold d)) [
  | inl h ↦ rw h (of_no_account h (take_survivors-Survive ds xs (rw h at e)))
  | inr h ↦ elim (Option-cases (take_same d xs)) [
    | inl n ↦ absurd (ground arith)
    | inr (ys, n) ↦
        rw (h, n)
          (survives (take_same-Without d xs ys n) (take_survivors-Survive ds ys (rw (h, n) at e)))
  ]
]

added_violations-MayBeNew :
    (lane : Lane) (xs : List DeskAction) → added_violations lane xs ≡ [] → All (MayBeNew lane) xs
unfolding added_violations
added_violations-MayBeNew lane [] e = tt
added_violations-MayBeNew lane (a ∷ rest) e = elim (Bool-cases (is_hold a)) [
  | inl h ↦ (inl h, added_violations-MayBeNew lane rest (rw h at e))
  | inr h ↦ elim (Bool-cases (is_reducing_kind a)) [
    | inr r ↦ absurd (ground arith)
    | inl r ↦ elim (Bool-cases (same_lane (lane_of a) lane)) [
      | inr l ↦ absurd (ground arith)
      | inl l ↦ (
        inr (r, same_lane-eq (lane_of a) lane l),
        added_violations-MayBeNew lane rest (rw (h, r, l) at e),
      )
    ]
  ]
]

-- A notional of whole cents that is not negative and no greater than the original.
pub record IsNoGreater (before after : Cents) : Type 0 where
  pub was : ℤ
  pub is : ℤ
  pub is_before : before ≡ cents was
  pub is_after : after ≡ cents is
  pub not_negative : pos 0 ≤ℤ is
  pub no_greater : is ≤ℤ was

notional_ok-IsNoGreater :
    (before after : Cents) → notional_ok before after ≡ true → IsNoGreater before after
unfolding notional_ok
notional_ok-IsNoGreater (cents d) (cents f) e = record {
  was = d;
  is = f;
  is_before = refl;
  is_after = refl;
  not_negative = ground arith;
  no_greater = ground arith;
}
notional_ok-IsNoGreater (cents d) not_a_number e = absurd (ground arith)
notional_ok-IsNoGreater not_a_number after e = absurd (ground arith)

module _ (F : Floats) (number : String → F.Float) (lower : String → String) where
  -- What a final plan may be, against the deterministic one.
  pub record IsAccepted (det fin : DeskPlan) : Type 0 where
    pub same_lane : fin.lane ≡ det.lane
    pub same_address : str_eq (lower fin.lane_address) (lower det.lane_address) ≡ true
    pub same_mode : fin.risk_mode ≡ det.risk_mode
    pub notional : IsNoGreater det.notional_cents fin.notional_cents
    pub adding :
        Tightened F number lower (filter adds_risk det.actions) (filter adds_risk fin.actions)
    pub new : List DeskAction
    pub survivors : Survive det.actions (filter (λ a. not (adds_risk a)) fin.actions) new
    pub new_ones : All (MayBeNew det.lane) new

  -- A final plan that the check accepts is on the same lane and address and in the same mode, for a
  -- notional of whole cents that is not negative and no greater; its adding actions are a subsequence of
  -- the originals, each one tightened; each original action that neither adds risk nor holds has its own
  -- among the final ones that add none; and what is left of those holds, or reduces risk on the plan's lane.
  pub tighten_check-IsAccepted :
      (det fin : DeskPlan) → tighten_check F number lower det fin ≡ [] → IsAccepted det fin
  tighten_check-IsAccepted det fin e =
      let (lanes, modes, notionals, adding, found, added, addresses) =
        tighten_check-parts F number lower det fin e in
      let left = filter (λ a. not (adds_risk a)) fin.actions in
      record {
        same_lane = lanes;
        same_address = addresses;
        same_mode = modes;
        notional = notional_ok-IsNoGreater det.notional_cents fin.notional_cents notionals;
        adding = adding;
        new = (take_survivors det.actions left).1;
        survivors = take_survivors-Survive det.actions left found;
        new_ones = added_violations-MayBeNew det.lane _ added;
      }
