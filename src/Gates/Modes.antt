-- ===== src/Gates/Modes.antt =====
-- agent/src/guard/risk.ts (`riskModeOf`, `stricterRiskMode`): the risk mode the active gates imply.
use deltadesk.Prelude.{
  Bool, true, false, ℕ, ◌≡◌, refl, List, [], ◌∷◌, ◌++◌, sym, subst, leb, not, if◌then◌else◌,
}
use deltadesk.Gates.{
  GateName, GateEffect, closed, halt, corp_action, stale_ref, reopen_guard, bound_pinned,
  wrapper_premium, event, gate_effect, gate_implemented,
}

pub data RiskMode : Type 0 where
  normal reduce_only flat : RiskMode

abbrev pub same_mode : RiskMode → RiskMode → Bool
same_mode RiskMode.normal RiskMode.normal = true
same_mode RiskMode.reduce_only RiskMode.reduce_only = true
same_mode RiskMode.flat RiskMode.flat = true
same_mode _ _ = false

-- The loop of `riskModeOf`, with the mode so far.
unfoldable pub risk_mode_from : RiskMode → List GateName → RiskMode
risk_mode_from mode [] = mode
risk_mode_from mode (gate ∷ rest) =
    let later = risk_mode_from mode rest in
    let reduced = risk_mode_from RiskMode.reduce_only rest in
    if not (gate_implemented gate) then later else elim (gate_effect gate) [
      | GateEffect.flat ↦ RiskMode.flat
      | GateEffect.reduce_only ↦ reduced
      | _ ↦ later
    ]

unfoldable pub risk_mode_of : List GateName → RiskMode
unfolding risk_mode_from
risk_mode_of active = risk_mode_from RiskMode.normal active

unfoldable pub rank : RiskMode → ℕ
rank RiskMode.normal = 0
rank RiskMode.reduce_only = 1
rank RiskMode.flat = 2

unfoldable pub stricter_risk_mode : RiskMode → RiskMode → RiskMode
unfolding rank
stricter_risk_mode a b = if leb (rank b) (rank a) then a else b

stricter_normal : (m : RiskMode) → m ≡ stricter_risk_mode RiskMode.normal m
unfolding stricter_risk_mode rank
stricter_normal RiskMode.normal = refl
stricter_normal RiskMode.reduce_only = refl
stricter_normal RiskMode.flat = refl

stricter_idempotent :
    (m : RiskMode)
    → stricter_risk_mode RiskMode.reduce_only m
      ≡ stricter_risk_mode RiskMode.reduce_only (stricter_risk_mode RiskMode.reduce_only m)
unfolding stricter_risk_mode rank
stricter_idempotent RiskMode.normal = refl
stricter_idempotent RiskMode.reduce_only = refl
stricter_idempotent RiskMode.flat = refl

stricter_flat : (m : RiskMode) → RiskMode.flat ≡ stricter_risk_mode RiskMode.flat m
unfolding stricter_risk_mode rank
stricter_flat RiskMode.normal = refl
stricter_flat RiskMode.reduce_only = refl
stricter_flat RiskMode.flat = refl

at_least :
    (ys : List GateName)
    → risk_mode_from RiskMode.reduce_only ys
      ≡ stricter_risk_mode RiskMode.reduce_only (risk_mode_from RiskMode.normal ys)
    → risk_mode_from RiskMode.reduce_only ys
      ≡ stricter_risk_mode RiskMode.reduce_only (risk_mode_from RiskMode.reduce_only ys)
at_least ys e =
    subst (λ u. u ≡ stricter_risk_mode RiskMode.reduce_only u) (sym e)
      (stricter_idempotent (risk_mode_from RiskMode.normal ys))

-- A loop that starts at `reduce_only` ends at least there.
risk_mode_from-reduce_only :
    (ys : List GateName)
    → risk_mode_from RiskMode.reduce_only ys
      ≡ stricter_risk_mode RiskMode.reduce_only (risk_mode_from RiskMode.normal ys)
unfolding risk_mode_from stricter_risk_mode rank
risk_mode_from-reduce_only [] = refl
risk_mode_from-reduce_only (closed ∷ ys) = at_least ys (risk_mode_from-reduce_only ys)
risk_mode_from-reduce_only (halt ∷ ys) = refl
risk_mode_from-reduce_only (corp_action ∷ ys) = at_least ys (risk_mode_from-reduce_only ys)
risk_mode_from-reduce_only (stale_ref ∷ ys) = at_least ys (risk_mode_from-reduce_only ys)
risk_mode_from-reduce_only (reopen_guard ∷ ys) = at_least ys (risk_mode_from-reduce_only ys)
risk_mode_from-reduce_only (bound_pinned ∷ ys) = risk_mode_from-reduce_only ys
risk_mode_from-reduce_only (wrapper_premium ∷ ys) = risk_mode_from-reduce_only ys
risk_mode_from-reduce_only (event ∷ ys) = risk_mode_from-reduce_only ys

Joins : RiskMode → List GateName → List GateName → Type 0
Joins m xs ys =
    risk_mode_from m (xs ++ ys)
    ≡ stricter_risk_mode (risk_mode_from m xs) (risk_mode_from RiskMode.normal ys)

risk_mode_from-++ :
    (xs ys : List GateName) → Joins RiskMode.reduce_only xs ys × Joins RiskMode.normal xs ys
unfolding risk_mode_from Joins
risk_mode_from-++ [] ys =
    (risk_mode_from-reduce_only ys, stricter_normal (risk_mode_from RiskMode.normal ys))
risk_mode_from-++ (closed ∷ xs) ys = let e = (risk_mode_from-++ xs ys).0 in (e, e)
risk_mode_from-++ (halt ∷ xs) ys =
    let e = stricter_flat (risk_mode_from RiskMode.normal ys) in (e, e)
risk_mode_from-++ (corp_action ∷ xs) ys = let e = (risk_mode_from-++ xs ys).0 in (e, e)
risk_mode_from-++ (stale_ref ∷ xs) ys = let e = (risk_mode_from-++ xs ys).0 in (e, e)
risk_mode_from-++ (reopen_guard ∷ xs) ys = let e = (risk_mode_from-++ xs ys).0 in (e, e)
risk_mode_from-++ (bound_pinned ∷ xs) ys = risk_mode_from-++ xs ys
risk_mode_from-++ (wrapper_premium ∷ xs) ys = risk_mode_from-++ xs ys
risk_mode_from-++ (event ∷ xs) ys = risk_mode_from-++ xs ys

-- Joining two lists of gates gives the stricter of their two modes.
pub risk_mode_of-++ :
    (xs ys : List GateName)
    → risk_mode_of (xs ++ ys) ≡ stricter_risk_mode (risk_mode_of xs) (risk_mode_of ys)
unfolding risk_mode_of Joins
risk_mode_of-++ xs ys = (risk_mode_from-++ xs ys).1
