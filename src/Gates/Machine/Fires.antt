-- ===== src/Gates/Machine/Fires.antt =====
-- Which trigger of a tick counts for a gate: the map that `step` builds, against the whole list.
use deltadesk.Prelude.{
  ◌≡◌, refl, ap, ◌∙◌, inl, inr, Bool, true, false, not, ◌&&◌, ◌||◌, Option, none, some, List, [],
  ◌∷◌, any, if◌then◌else◌, Bool-cases, arith,
}
use deltadesk.Gates.{GateName, same_gate, same_gate_iff}
use deltadesk.Gates.Machine.{
  GateTrigger, TriggerMap, set_trigger, wins, by_gate_from, by_gate, or_else, not_evaluated,
}

-- A trigger of the gate, and a positive one.
abbrev pub is_about : GateName → GateTrigger → Bool
is_about name t = same_gate t.gate name

abbrev pub is_positive : GateName → GateTrigger → Bool
is_positive name t = same_gate t.gate name && t.triggered

-- The triggers of a tick fire a gate if one of them is positive, or if none is about the gate.
unfoldable pub fires : List GateTrigger → GateName → Bool
fires ts name = any (is_positive name) ts || not (any (is_about name) ts)

abbrev verdict : Option GateTrigger → Bool
verdict none = true
verdict (some t) = t.triggered

-- What the rest of the triggers makes of what was seen so far.
abbrev combine : Option GateTrigger → List GateTrigger → GateName → Bool
combine none ts name = any (is_positive name) ts || not (any (is_about name) ts)
combine (some seen) ts name = seen.triggered || any (is_positive name) ts

module _ (t : GateTrigger) (ts : List GateTrigger) (name : GateName) where
  combine-same :
      same_gate t.gate name ≡ true
      → (o : Option GateTrigger)
      → combine (if wins o t then some t else o) ts name ≡ combine o (t ∷ ts) name
  combine-same e none = ground arith
  combine-same e (some seen) = ground arith

  combine-other :
      same_gate t.gate name ≡ false
      → (o : Option GateTrigger) → combine o ts name ≡ combine o (t ∷ ts) name
  combine-other e none = ground arith
  combine-other e (some seen) = ground arith

  set-same :
      same_gate t.gate name ≡ true
      → (m : TriggerMap) (w : Bool)
      → (if w then set_trigger m t else m) name ≡ (if w then some t else m name)
  set-same e m true = rw e
  set-same e m false = refl

  set-other :
      same_gate t.gate name ≡ false
      → (m : TriggerMap) (w : Bool) → (if w then set_trigger m t else m) name ≡ m name
  set-other e m true = rw e
  set-other e m false = refl

  combine-cons :
      (m : TriggerMap)
      → combine ((if wins (m t.gate) t then set_trigger m t else m) name) ts name
        ≡ combine (m name) (t ∷ ts) name
  combine-cons m = elim (Bool-cases (same_gate t.gate name)) [
    | inl e ↦
        rw (set-same e m (wins (m t.gate) t), ap m ((same_gate_iff t.gate name).0 e))
          (combine-same e (m name))
    | inr e ↦ rw (set-other e m (wins (m t.gate) t)) (combine-other e (m name))
  ]

no_more : (name : GateName) (o : Option GateTrigger) → verdict o ≡ combine o [] name
no_more name none = refl
no_more name (some t) = ground arith

by_gate_from-verdict :
    (m : TriggerMap) (ts : List GateTrigger) (name : GateName)
    → verdict (by_gate_from m ts name) ≡ combine (m name) ts name
unfolding by_gate_from
by_gate_from-verdict m [] name = no_more name (m name)
by_gate_from-verdict m (t ∷ ts) name =
    by_gate_from-verdict (if wins (m t.gate) t then set_trigger m t else m) ts name
    ∙ combine-cons t ts name m

-- The trigger that a step takes for a gate is positive exactly when the triggers fire it.
unfoldable pub trigger_for : List GateTrigger → GateName → GateTrigger
trigger_for ts name = or_else (by_gate ts name) (not_evaluated name)

pub trigger_for-fires :
    (ts : List GateTrigger) (name : GateName) → (trigger_for ts name).triggered ≡ fires ts name
unfolding trigger_for by_gate fires
trigger_for-fires ts name =
    verdict_lem (by_gate_from (λ n. none) ts name) ∙ by_gate_from-verdict (λ n. none) ts name
  where
    verdict_lem : (o : Option GateTrigger) → (or_else o (not_evaluated name)).triggered ≡ verdict o
    verdict_lem none = refl
    verdict_lem (some t) = refl
