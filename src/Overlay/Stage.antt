-- ===== src/Overlay/Stage.antt =====
-- agent/src/overlay/apply.ts, `identityOverlay` and `resolveOverlay`: one overlay stage. The answers of
-- planner and critic and the applier are arguments, each of which may fail; `none` is an agent that is
-- not there. The texts of errors and the record's id are left out.
use Prim.Native.String.{String}
use deltadesk.Prelude.{
  ◌≡◌, refl, inl, inr, Bool, true, false, ◌&&◌, Option, none, some, List, [], ◌∷◌, any,
  if◌then◌else◌, Bool-cases,
}
use deltadesk.Prelude.Floats.{Floats}
use deltadesk.Actions.{adds_risk}
use deltadesk.Overlay.{DeskPlan, Violation, tighten_check}
use deltadesk.Overlay.Apply.{Proposal}

-- An answer of a language model, or an error, with whether it says that the credits are exhausted.
pub data Answer (A : Type 0) : Type 0 where
  failed : Bool → Answer A
  answered : A → Answer A

pub record CriticVerdict : Type 0 where
  pub approve : Bool
  pub reason : String

pub data Source : Type 0 where
  identity llm : Source

-- The outcome of a check, or that the applier failed.
pub data Tighten : Type 0 where
  apply_failed : Tighten
  checked : List Violation → Tighten

pub record OverlayRecord : Type 0 where
  pub source : Source
  pub proposal : Option Proposal
  pub critic : Option CriticVerdict
  pub tighten : Tighten
  pub applied : Bool

pub record OverlayOutcome : Type 0 where
  pub overlay : OverlayRecord
  pub final_plan : DeskPlan
  pub credits_exhausted : Bool
  pub llm_strings : List String

unfoldable pub identity_overlay : DeskPlan → Bool → OverlayOutcome
identity_overlay plan exhausted = record {
  overlay = record {
    source = identity;
    proposal = none;
    critic = none;
    tighten = checked [];
    applied = false;
  };
  final_plan = plan;
  credits_exhausted = exhausted;
  llm_strings = [];
}

-- A failed critic rejects.
unfoldable pub verdict_of : Answer CriticVerdict → CriticVerdict
verdict_of (failed exhausted) = record { approve = false; reason = "critic failed (fail-closed)" }
verdict_of (answered v) = v

unfoldable pub exhausted_by : Answer CriticVerdict → Bool
exhausted_by (failed exhausted) = exhausted
exhausted_by (answered v) = false

-- The proposal is not applied.
unfoldable pub dropped : DeskPlan → Proposal → CriticVerdict → Bool → Tighten → OverlayOutcome
dropped plan p v exhausted tighten = record {
  overlay = record {
    source = llm;
    proposal = some p;
    critic = some v;
    tighten = tighten;
    applied = false;
  };
  final_plan = plan;
  credits_exhausted = exhausted;
  llm_strings = [];
}

unfoldable pub applied : DeskPlan → Proposal → CriticVerdict → Bool → OverlayOutcome
applied candidate p v exhausted = record {
  overlay = record {
    source = llm;
    proposal = some p;
    critic = some v;
    tighten = checked [];
    applied = true;
  };
  final_plan = candidate;
  credits_exhausted = exhausted;
  llm_strings = p.rationale ∷ v.reason ∷ [];
}

module _ (F : Floats) (number : String → F.Float) (lower : String → String) where
  unfoldable pub settle :
      DeskPlan → Proposal → CriticVerdict → Bool → DeskPlan → List Violation → OverlayOutcome
  unfolding dropped applied
  settle plan p v exhausted candidate [] = applied candidate p v exhausted
  settle plan p v exhausted candidate (x ∷ xs) = dropped plan p v exhausted (checked (x ∷ xs))

  unfoldable pub try_candidate :
      DeskPlan → Proposal → CriticVerdict → Bool → Option DeskPlan → OverlayOutcome
  unfolding settle dropped tighten_check
  try_candidate plan p v exhausted none = dropped plan p v exhausted apply_failed
  try_candidate plan p v exhausted (some candidate) =
      settle plan p v exhausted candidate (tighten_check F number lower plan candidate)

  unfoldable pub judge :
      (apply : DeskPlan → Proposal → Option DeskPlan)
      → DeskPlan
      → Proposal
      → Answer CriticVerdict
      → OverlayOutcome
  unfolding try_candidate verdict_of exhausted_by dropped
  judge apply plan p answer =
      let v = verdict_of answer in
      if v.approve
      then try_candidate plan p v (exhausted_by answer) (apply plan p)
      else dropped plan p v (exhausted_by answer) (checked [])

  -- The agents' answers, from an enabled planner.
  unfoldable pub consult :
      (apply : DeskPlan → Proposal → Option DeskPlan)
      → (critic : Proposal → Answer CriticVerdict) → DeskPlan
      → Answer Proposal
      → OverlayOutcome
  unfolding judge identity_overlay
  consult apply critic plan (failed exhausted) = identity_overlay plan exhausted
  consult apply critic plan (answered p) = judge apply plan p (critic p)

  unfoldable pub resolve_overlay :
      (enabled : Bool)
      → (planner : Option (Answer Proposal)) → (critic : Option (Proposal → Answer CriticVerdict))
      → (apply : DeskPlan → Proposal → Option DeskPlan) → DeskPlan
      → OverlayOutcome
  unfolding consult identity_overlay adds_risk
  resolve_overlay enabled (some planner) (some critic) apply plan =
      if enabled && any adds_risk plan.actions
      then consult apply critic plan planner
      else identity_overlay plan false
  resolve_overlay enabled _ _ apply plan = identity_overlay plan false

  -- A proposal was applied: the enabled planner made it, the critic answered it with an approval, the
  -- applier turned the plan by it into the final plan, which passes the tighten check.
  pub record IsTightened (enabled : Bool) (planner : Option (Answer Proposal))
      (critic : Option (Proposal → Answer CriticVerdict))
      (apply : DeskPlan → Proposal → Option DeskPlan) (plan : DeskPlan) (o : OverlayOutcome)
      : Type 0 where
    pub is_enabled : enabled ≡ true
    pub proposal : Proposal
    pub is_proposed : planner ≡ some (answered proposal)
    pub judges : Proposal → Answer CriticVerdict
    pub is_critic : critic ≡ some judges
    pub verdict : CriticVerdict
    pub is_answer : judges proposal ≡ answered verdict
    pub is_approved : verdict.approve ≡ true
    pub is_applied : apply plan proposal ≡ some o.final_plan
    pub passes_check : tighten_check F number lower plan o.final_plan ≡ []
    pub record_applied : o.overlay.applied ≡ true
    pub record_source : o.overlay.source ≡ llm
    pub record_proposal : o.overlay.proposal ≡ some proposal
    pub record_critic : o.overlay.critic ≡ some verdict
    pub record_tighten : o.overlay.tighten ≡ checked []

  -- What the stage may do to a plan.
  pub data Permitted (enabled : Bool) (planner : Option (Answer Proposal))
      (critic : Option (Proposal → Answer CriticVerdict))
      (apply : DeskPlan → Proposal → Option DeskPlan) (plan : DeskPlan) (o : OverlayOutcome)
      : Type 0 where
    unchanged :
        o.final_plan ≡ plan
        → o.overlay.applied ≡ false
        → o.llm_strings ≡ []
        → Permitted enabled planner critic apply plan o
    tightened :
        IsTightened enabled planner critic apply plan o
        → Permitted enabled planner critic apply plan o

  module _ (critic : Proposal → Answer CriticVerdict)
      (apply : DeskPlan → Proposal → Option DeskPlan) (plan : DeskPlan) (p : Proposal) where
    -- What is permitted once the planner has made a proposal.
    abbrev Judged : OverlayOutcome → Type 0
    Judged = Permitted true (some (answered p)) (some critic) apply plan

    settle-Permitted :
        (candidate : DeskPlan) (v : CriticVerdict) (exhausted : Bool) (vs : List Violation)
        → critic p ≡ answered v
        → v.approve ≡ true
        → apply plan p ≡ some candidate
        → tighten_check F number lower plan candidate ≡ vs
        → Judged (settle plan p v exhausted candidate vs)
    unfolding settle dropped applied
    settle-Permitted candidate v exhausted [] c a f e = tightened (record {
      is_enabled = refl;
      proposal = p;
      is_proposed = refl;
      judges = critic;
      is_critic = refl;
      verdict = v;
      is_answer = c;
      is_approved = a;
      is_applied = f;
      passes_check = e;
      record_applied = refl;
      record_source = refl;
      record_proposal = refl;
      record_critic = refl;
      record_tighten = refl;
    })
    settle-Permitted candidate v exhausted (x ∷ xs) c a f e = unchanged refl refl refl

    try_candidate-Permitted :
        (v : CriticVerdict) (exhausted : Bool) (made : Option DeskPlan)
        → critic p ≡ answered v
        → v.approve ≡ true
        → apply plan p ≡ made
        → Judged (try_candidate plan p v exhausted made)
    unfolding try_candidate dropped
    try_candidate-Permitted v exhausted none c a f = unchanged refl refl refl
    try_candidate-Permitted v exhausted (some made) c a f =
        settle-Permitted made v exhausted _ c a f refl

    decided-Permitted :
        (v : CriticVerdict) (exhausted approve : Bool)
        → critic p ≡ answered v
        → v.approve ≡ approve
        → Judged (
            if approve
            then try_candidate plan p v exhausted (apply plan p)
            else dropped plan p v exhausted (checked []))
    unfolding dropped
    decided-Permitted v exhausted true c a =
        try_candidate-Permitted v exhausted (apply plan p) c a refl
    decided-Permitted v exhausted false c a = unchanged refl refl refl

    judge-Permitted :
        (answer : Answer CriticVerdict) → critic p ≡ answer → Judged (judge apply plan p answer)
    unfolding judge verdict_of dropped
    judge-Permitted (failed exhausted) c = unchanged refl refl refl
    judge-Permitted (answered v) c = decided-Permitted v _ v.approve c refl

  consult-Permitted :
      (apply : DeskPlan → Proposal → Option DeskPlan) (critic : Proposal → Answer CriticVerdict)
      (plan : DeskPlan) (answer : Answer Proposal)
      → Permitted true (some answer) (some critic) apply plan (consult apply critic plan answer)
  unfolding consult identity_overlay
  consult-Permitted apply critic plan (failed exhausted) = unchanged refl refl refl
  consult-Permitted apply critic plan (answered p) =
      judge-Permitted critic apply plan p (critic p) refl

  -- Whatever planner, critic and applier answer, the stage leaves the plan as it is, or it applies a
  -- proposal that the enabled planner made and that the critic answered with an approval: the final plan is
  -- then what the applier makes of the plan by that proposal, and it passes the tighten check. A critic
  -- that fails or that is not there never approves.
  pub resolve_overlay-Permitted :
      (enabled : Bool) (planner : Option (Answer Proposal))
      (critic : Option (Proposal → Answer CriticVerdict))
      (apply : DeskPlan → Proposal → Option DeskPlan) (plan : DeskPlan)
      → Permitted enabled planner critic apply plan
          (resolve_overlay enabled planner critic apply plan)
  unfolding resolve_overlay identity_overlay
  resolve_overlay-Permitted enabled none critic apply plan = unchanged refl refl refl
  resolve_overlay-Permitted enabled (some a) none apply plan = unchanged refl refl refl
  resolve_overlay-Permitted false (some a) (some critic) apply plan = unchanged refl refl refl
  resolve_overlay-Permitted true (some a) (some critic) apply plan =
      elim (Bool-cases (any adds_risk plan.actions)) [
        | inl e ↦ rw e (consult-Permitted apply critic plan a)
        | inr e ↦ rw e (unchanged refl refl refl)
      ]
