-- ===== src/Gates/Machine/Transitions.antt =====
-- The transitions that a step reports are the changes of the gates.
use Prim.Native.String.{String}
use mathlib.Core.Path.{fun_ext}
use deltadesk.Prelude.{
  ◌≡◌, refl, ap, ◌∙◌, ◌↔◌, Bool, true, false, not, ◌&&◌, ◌||◌, Option, none, some, List, [], ◌∷◌,
  any, if◌then◌else◌, Bool-cases, inl, inr, arith,
}
use deltadesk.Prelude.Int.{ℤ}
use deltadesk.Gates.{GateName, closed, halt, gate_implemented, gate_names, same_gate, same_gate_iff}
use deltadesk.Gates.Machine.{
  GateDwell, GateTrigger, GateState, GateMachineState, GateTransition, by_gate, inactive, step_gate,
  armed_gate, clear_gate, fire_gate, step, transitions_of, append_some,
}
use deltadesk.Gates.Machine.Fires.{trigger_for}
use deltadesk.Gates.Machine.Step.{gate_of, step-armed_gate}

-- A transition to the state, and one about the gate.
abbrev is_to : Bool → GateTransition → Bool
is_to on x = if on then x.active else not x.active

abbrev is_of : GateName → Bool → GateTransition → Bool
is_of name on x = same_gate x.gate name && is_to on x

-- The list reports that the gate turned on, or off.
abbrev pub reports : List GateTransition → GateName → Bool → Bool
reports xs name on = any (is_of name on) xs

-- The same of the transition of one gate, if there is one.
abbrev hit : (GateTransition → Bool) → Option GateTransition → Bool
hit p none = false
hit p (some x) = p x

hit-append_some :
    (p : GateTransition → Bool) (o : Option GateTransition) (xs : List GateTransition)
    → any p (append_some o xs) ≡ hit p o || any p xs
hit-append_some p none xs = refl
hit-append_some p (some x) xs = refl

module _ (f : GateName → GateState × Option GateTransition) where
  any-transitions_of :
      (p : GateTransition → Bool) (names : List GateName)
      → any p (transitions_of f names) ≡ any (λ n. hit p (f n).1) names
  unfolding transitions_of
  any-transitions_of p [] = refl
  any-transitions_of p (n ∷ names) =
      rw (hit-append_some p (f n).1 (transitions_of f names), any-transitions_of p names)

-- Only one name of the list is the gate's.
any-gate_names :
    (q : GateName → Bool) (name : GateName) → any (λ n. same_gate n name && q n) gate_names ≡ q name
any-gate_names q closed = ground arith
any-gate_names q halt = ground arith
any-gate_names q _ = ground arith

hit-is_of :
    (n name : GateName) (on : Bool) (o : Option GateTransition)
    → hit (λ x. not (same_gate x.gate n)) o ≡ false
    → hit (is_of name on) o ≡ same_gate n name && hit (is_to on) o
hit-is_of n name on none h = ground arith
hit-is_of n name on (some x) h =
    ap (λ g. same_gate g name && is_to on x) ((same_gate_iff x.gate n).0 (ground arith))

armed_names :
    (show : ℤ → String) (d : GateDwell) (n : GateName) (before : GateState) (t : GateTrigger)
    (now : ℤ)
    → hit (λ x. not (same_gate x.gate n)) (armed_gate show d n before t now).1 ≡ false
unfolding armed_gate inactive clear_gate fire_gate
armed_names show d n before t now = ground arith

armed_to :
    (show : ℤ → String) (d : GateDwell) (n : GateName) (before : GateState) (t : GateTrigger)
    (now : ℤ) (on : Bool)
    → (hit (is_to on) (armed_gate show d n before t now).1 ≡ true)
      ↔ ((before.active ≡ not on) × ((armed_gate show d n before t now).0.active ≡ on))
unfolding armed_gate inactive clear_gate fire_gate
armed_to show d n before t now true = (λ e. ground arith, λ h. ground arith)
armed_to show d n before t now false = (λ e. ground arith, λ h. ground arith)

stub_names :
    (show : ℤ → String) (dwell : GateName → GateDwell) (prev : GateMachineState)
    (ts : List GateTrigger) (now : ℤ) (n : GateName)
    → hit (λ x. not (same_gate x.gate n)) (step_gate show dwell prev (by_gate ts) now n).1 ≡ false
unfolding step_gate
stub_names show dwell prev ts now n = elim (Bool-cases (gate_implemented n)) [
  | inl armed ↦ rw armed (armed_names show (dwell n) n _ _ now)
  | inr stub ↦ rw stub
]

module _ (show : ℤ → String) (dwell : GateName → GateDwell) (prev : GateMachineState)
    (ts : List GateTrigger) (now : ℤ) (name : GateName) (on : Bool) where
  -- The list reports what the gate's own transition says.
  reports-gate :
      reports (step show dwell prev ts now).1 name on
      ≡ hit (is_to on) (step_gate show dwell prev (by_gate ts) now name).1
  unfolding step
  reports-gate =
      any-transitions_of gate (is_of name on) gate_names
      ∙ ap (λ q. any q gate_names)
          (fun_ext (λ n. hit-is_of n name on (gate n).1 (stub_names show dwell prev ts now n)))
      ∙ any-gate_names (λ n. hit (is_to on) (gate n).1) name
    where
      gate : GateName → GateState × Option GateTransition
      gate = step_gate show dwell prev (by_gate ts) now

  gate-armed :
      gate_implemented name ≡ true
      → (step_gate show dwell prev (by_gate ts) now name).1
        ≡ (armed_gate show (dwell name) name (gate_of prev name) (trigger_for ts name) now).1
  unfolding step_gate trigger_for
  gate-armed armed = rw armed

-- A step reports that an implemented gate turned on (or off) exactly when the gate was off (or on)
-- before the step and is on (or off) after it.
pub step-reports :
    (show : ℤ → String) (dwell : GateName → GateDwell) (prev : GateMachineState)
    (ts : List GateTrigger) (now : ℤ) (name : GateName) (on : Bool)
    → gate_implemented name ≡ true
    → (reports (step show dwell prev ts now).1 name on ≡ true) ↔ (
        ((gate_of prev name).active ≡ not on)
        × ((gate_of (step show dwell prev ts now).0 name).active ≡ on))
step-reports show dwell prev ts now name on armed =
    rw
      (
        reports-gate show dwell prev ts now name on,
        gate-armed show dwell prev ts now name on armed,
        step-armed_gate show dwell prev ts now name armed,
      )
      (armed_to show (dwell name) name (gate_of prev name) (trigger_for ts name) now on)
