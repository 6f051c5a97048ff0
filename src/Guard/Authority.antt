-- ===== src/Guard/Authority.antt =====
-- agent/src/guard/guard.ts: what a step that the guard lets through has passed, and what a step that
-- adds no risk bypasses.
use Prim.Native.String.{String}
use deltadesk.Prelude.{
  ◌≡◌, refl, ◌↔◌, inl, inr, Bool, true, false, not, List, [], ◌∷◌, All, filter, arith, Bool-cases,
}
use deltadesk.Prelude.Floats.{Floats}
use deltadesk.Guard.Input.{GuardInput}
use deltadesk.Guard.Rules.{Texts}
use deltadesk.Guard.Check.{
  GuardRule, execute, evaluated, outcome, check_guard, decide, action_none, critic_approval,
  allowlist, amount_positive, max_action_usd, daily_turnover, idempotency, arm_flag,
  snapshot_provenance, ref_freshness, gas_reserve, lane_solvency, regime_gate, rerange_rate,
  cost_hurdle, tick_validity, fence_precheck, overlay_tighten_only, simulation_ok, signer_binding,
  lane_not_paused, single_in_flight, deadline_sane, hl_order, signal_policy, dry_run,
}

-- No element fails a test just when each passes it.
no_failure_iff :
    (f : GuardRule → Bool) (rs : List GuardRule)
    → (filter (λ r. not (f r)) rs ≡ []) ↔ All (λ r. f r ≡ true) rs
no_failure_iff f [] = (λ e. tt, λ h. refl)
no_failure_iff f (r ∷ rs) =
    let later = no_failure_iff f rs in
    elim (Bool-cases (f r)) [
      | inl e ↦ (λ h. (e, later.0 (ground arith)), λ h. let rest = later.1 h.1 in ground arith)
      | inr e ↦ (λ h. absurd (ground arith), λ h. absurd (ground arith))
    ]

decide-execute_iff :
    (vs : List GuardRule) (dry : Bool) → (decide vs dry ≡ execute) ↔ ((vs ≡ []) × (dry ≡ false))
unfolding decide
decide-execute_iff (v ∷ vs) dry = (λ e. ground arith, λ h. ground arith)
decide-execute_iff [] true = (λ e. ground arith, λ h. ground arith)
decide-execute_iff [] false = (λ e. (refl, refl), λ h. refl)

module _ {F : Floats} (number : String → F.Float) (T : Texts) (i : GuardInput F) where
  rule_of_all :
      (r : GuardRule)
      → All (λ r. outcome number T i r ≡ true) evaluated
      → outcome number T i r ≡ true
  rule_of_all action_none h = h.0
  rule_of_all critic_approval h = h.1.0
  rule_of_all allowlist h = h.1.1.0
  rule_of_all amount_positive h = h.1.1.1.0
  rule_of_all max_action_usd h = h.1.1.1.1.0
  rule_of_all daily_turnover h = h.1.1.1.1.1.0
  rule_of_all idempotency h = h.1.1.1.1.1.1.0
  rule_of_all arm_flag h = h.1.1.1.1.1.1.1.0
  rule_of_all snapshot_provenance h = h.1.1.1.1.1.1.1.1.0
  rule_of_all ref_freshness h = h.1.1.1.1.1.1.1.1.1.0
  rule_of_all gas_reserve h = h.1.1.1.1.1.1.1.1.1.1.0
  rule_of_all lane_solvency h = h.1.1.1.1.1.1.1.1.1.1.1.0
  rule_of_all regime_gate h = h.1.1.1.1.1.1.1.1.1.1.1.1.0
  rule_of_all rerange_rate h = h.1.1.1.1.1.1.1.1.1.1.1.1.1.0
  rule_of_all cost_hurdle h = h.1.1.1.1.1.1.1.1.1.1.1.1.1.1.0
  rule_of_all tick_validity h = h.1.1.1.1.1.1.1.1.1.1.1.1.1.1.1.0
  rule_of_all fence_precheck h = h.1.1.1.1.1.1.1.1.1.1.1.1.1.1.1.1.0
  rule_of_all overlay_tighten_only h = h.1.1.1.1.1.1.1.1.1.1.1.1.1.1.1.1.1.0
  rule_of_all simulation_ok h = h.1.1.1.1.1.1.1.1.1.1.1.1.1.1.1.1.1.1.0
  rule_of_all signer_binding h = h.1.1.1.1.1.1.1.1.1.1.1.1.1.1.1.1.1.1.1.0
  rule_of_all lane_not_paused h = h.1.1.1.1.1.1.1.1.1.1.1.1.1.1.1.1.1.1.1.1.0
  rule_of_all single_in_flight h = h.1.1.1.1.1.1.1.1.1.1.1.1.1.1.1.1.1.1.1.1.1.0
  rule_of_all deadline_sane h = h.1.1.1.1.1.1.1.1.1.1.1.1.1.1.1.1.1.1.1.1.1.1.0
  rule_of_all hl_order h = h.1.1.1.1.1.1.1.1.1.1.1.1.1.1.1.1.1.1.1.1.1.1.1.0
  rule_of_all signal_policy h = h.1.1.1.1.1.1.1.1.1.1.1.1.1.1.1.1.1.1.1.1.1.1.1.1.0
  rule_of_all dry_run h = refl

  all_of_rule :
      ((r : GuardRule) → outcome number T i r ≡ true)
      → (rs : List GuardRule) → All (λ r. outcome number T i r ≡ true) rs
  all_of_rule h [] = tt
  all_of_rule h (r ∷ rs) = (h r, all_of_rule h rs)

  -- The guard lets a step through just when every rule passes and dry-run is off.
  pub check_guard-execute_iff :
      ((check_guard number T i).decision ≡ execute)
      ↔ (((r : GuardRule) → outcome number T i r ≡ true) × (i.flags.dry_run ≡ false))
  unfolding check_guard
  check_guard-execute_iff =
      let failed = filter (λ r. not (outcome number T i r)) evaluated in
      let decided = decide-execute_iff failed i.flags.dry_run in
      let clean = no_failure_iff (outcome number T i) evaluated in
      (
        λ e. (λ r. rule_of_all r (clean.0 (decided.0 e).0), (decided.0 e).1),
        λ h. decided.1 (clean.1 (all_of_rule h.0 evaluated), h.1),
      )
