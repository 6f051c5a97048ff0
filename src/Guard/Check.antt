-- ===== src/Guard/Check.antt =====
-- agent/src/guard/guard.ts, `checkGuard`: every rule is evaluated, in the order of GUARD_RULES of
-- agent/src/types.ts; the dry-run flag decides only when none failed. Details and reasons are texts
-- and are left out.
use Prim.Native.String.{String}
use deltadesk.Prelude.{Bool, true, false, not, List, [], ◌∷◌, ◌++◌, map, filter}
use deltadesk.Prelude.Floats.{Floats}
use deltadesk.Guard.Input.{GuardInput}
use deltadesk.Guard.Rules as R
use deltadesk.Guard.Rules.{Texts}
use deltadesk.Guard.Rules.Limits as L
use deltadesk.Guard.Rules.Steps as S

pub data GuardRule : Type 0 where
  action_none critic_approval allowlist amount_positive : GuardRule
  max_action_usd daily_turnover idempotency arm_flag : GuardRule
  snapshot_provenance ref_freshness gas_reserve lane_solvency : GuardRule
  regime_gate rerange_rate cost_hurdle tick_validity : GuardRule
  fence_precheck overlay_tighten_only simulation_ok signer_binding : GuardRule
  lane_not_paused single_in_flight deadline_sane hl_order : GuardRule
  signal_policy dry_run : GuardRule

-- The rules before dry-run.
abbrev pub evaluated : List GuardRule
evaluated =
    action_none ∷ critic_approval ∷ allowlist ∷ amount_positive ∷ max_action_usd ∷ daily_turnover
    ∷ idempotency ∷ arm_flag ∷ snapshot_provenance ∷ ref_freshness ∷ gas_reserve ∷ lane_solvency
    ∷ regime_gate ∷ rerange_rate ∷ cost_hurdle ∷ tick_validity ∷ fence_precheck
    ∷ overlay_tighten_only ∷ simulation_ok ∷ signer_binding ∷ lane_not_paused ∷ single_in_flight
    ∷ deadline_sane ∷ hl_order ∷ signal_policy ∷ []

pub data GuardDecision : Type 0 where
  execute held blocked : GuardDecision

pub record GuardCheck : Type 0 where
  pub rule : GuardRule
  pub passed : Bool

pub record GuardResult : Type 0 where
  pub decision : GuardDecision
  pub violations : List GuardRule
  pub checks : List GuardCheck

unfoldable pub decide : List GuardRule → Bool → GuardDecision
decide (v ∷ vs) dry = blocked
decide [] true = held
decide [] false = execute

module _ {F : Floats} (number : String → F.Float) (T : Texts) (i : GuardInput F) where
  abbrev pub outcome : GuardRule → Bool
  outcome action_none = R.action_none number T i
  outcome critic_approval = R.critic_approval number T i
  outcome allowlist = R.allowlist number T i
  outcome amount_positive = R.amount_positive number T i
  outcome max_action_usd = L.max_action_usd number T i
  outcome daily_turnover = L.daily_turnover number T i
  outcome idempotency = L.idempotency_rule number T i
  outcome arm_flag = L.arm_flag number T i
  outcome snapshot_provenance = L.snapshot_provenance number T i
  outcome ref_freshness = L.ref_freshness number T i
  outcome gas_reserve = L.gas_reserve number T i
  outcome lane_solvency = L.lane_solvency number T i
  outcome regime_gate = S.regime_gate number T i
  outcome rerange_rate = S.rerange_rate number T i
  outcome cost_hurdle = S.cost_hurdle number T i
  outcome tick_validity = S.tick_validity number T i
  outcome fence_precheck = S.fence_precheck number T i
  outcome overlay_tighten_only = S.overlay_tighten_only number T i
  outcome simulation_ok = S.simulation_ok number T i
  outcome signer_binding = S.signer_binding number T i
  outcome lane_not_paused = S.lane_not_paused number T i
  outcome single_in_flight = S.single_in_flight number T i
  outcome deadline_sane = S.deadline_sane number T i
  outcome hl_order = S.hl_order number T i
  outcome signal_policy = S.signal_policy number T i
  outcome dry_run = true

  unfoldable pub check_guard : GuardResult
  unfolding decide
  check_guard =
      let failed = filter (λ r. not (outcome r)) evaluated in
      record {
        decision = decide failed i.flags.dry_run;
        violations = failed;
        checks = map (λ r. record { rule = r; passed = outcome r }) (evaluated ++ dry_run ∷ []);
      }
