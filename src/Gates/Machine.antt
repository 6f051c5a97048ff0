-- ===== src/Gates/Machine.antt =====
-- agent/src/regime/machine.ts: the gate machine, with GateDwell, GateTrigger, GateState,
-- GateMachineState and GateTransition of agent/src/types.ts. Times are integers (milliseconds). A
-- state restored from elsewhere may lack a gate, so `gates` is partial. The iterations of `step`'s
-- loop do not affect one another: `step_gate` is one, and gives the gate's state and its transition.
pub mod Fires
pub mod Step
pub mod Transitions
pub mod History
use Prim.Native.String.{String, ◌++◌}
use deltadesk.Prelude.{
  ℕ, ◌+◌, Bool, true, false, not, ◌&&◌, ◌||◌, Option, none, some, List, [], ◌∷◌, leb, if◌then◌else◌,
}
use deltadesk.Prelude.Int.{ℤ, pos, ◌+ℤ◌, ◌-ℤ◌, leb_ℤ, floor_div}
use deltadesk.Gates.{
  GateName, halt, gate_names, GateEffect, reduce_only, gate_effect, gate_implemented, same_gate,
}

pub record GateDwell : Type 0 where
  pub clear_ticks : ℕ
  pub clear_ms : ℤ

unfoldable pub default_gate_dwell : GateName → GateDwell
default_gate_dwell halt = record { clear_ticks = 3; clear_ms = pos 120000 }
default_gate_dwell _ = record { clear_ticks = 3; clear_ms = pos 0 }

abbrev pub stub_reason : String
stub_reason = "not armed (stub, implemented: false)"

abbrev pub startup_reason : String
startup_reason = "startup: held until the first clear dwell"

pub record GateTrigger : Type 0 where
  pub gate : GateName
  pub triggered : Bool
  pub reason : String

pub record GateState : Type 0 where
  pub name : GateName
  pub implemented : Bool
  pub active : Bool
  pub active_since_ms : Option ℤ
  pub clear_ticks : ℕ
  pub clear_since_ms : Option ℤ
  pub reason : String
  pub effect : GateEffect

pub record GateMachineState : Type 0 where
  pub gates : GateName → Option GateState
  pub updated_at_ms : ℤ

pub record GateTransition : Type 0 where
  pub gate : GateName
  pub active : Bool
  pub at_ms : ℤ
  pub reason : String

unfoldable pub inactive : GateName → String → GateState
inactive name reason = record {
  name = name;
  implemented = gate_implemented name;
  active = false;
  active_since_ms = none;
  clear_ticks = 0;
  clear_since_ms = none;
  reason = reason;
  effect = gate_effect name;
}

-- Whether an active gate of this effect starts active.
abbrev pub is_reduce_only : GateEffect → Bool
is_reduce_only reduce_only = true
is_reduce_only _ = false

unfoldable pub initial_gate : Bool → ℤ → GateName → GateState
unfolding inactive
initial_gate start_active now name =
    if not (gate_implemented name)
    then inactive name stub_reason
    else if start_active && is_reduce_only (gate_effect name)
    then record (inactive name startup_reason) { active = true; active_since_ms = some now }
    else inactive name "clear"

unfoldable pub initial : Bool → ℤ → GateMachineState
unfolding initial_gate
initial start_active now = record {
  gates = λ name. some (initial_gate start_active now name);
  updated_at_ms = now;
}

-- A `Map` from names to triggers, and `Map.set`.
abbrev pub TriggerMap : Type 0
TriggerMap = GateName → Option GateTrigger

abbrev pub set_trigger : TriggerMap → GateTrigger → TriggerMap
set_trigger m t name = if same_gate t.gate name then some t else m name

-- Of two triggers for one gate any positive one wins.
abbrev pub wins : Option GateTrigger → GateTrigger → Bool
wins none t = true
wins (some seen) t = not seen.triggered && t.triggered

unfoldable pub by_gate_from : TriggerMap → List GateTrigger → TriggerMap
by_gate_from m [] = m
by_gate_from m (t ∷ ts) = by_gate_from (if wins (m t.gate) t then set_trigger m t else m) ts

unfoldable pub by_gate : List GateTrigger → TriggerMap
unfolding by_gate_from
by_gate = by_gate_from (λ name. none)

-- `x ?? d`.
abbrev pub or_else {ℓ} : {A : Type ℓ} → Option A → A → A
or_else none d = d
or_else (some x) d = x

abbrev pub reason_of : Option GateTrigger → String
reason_of none = stub_reason
reason_of (some t) = t.reason

abbrev pub not_evaluated : GateName → GateTrigger
not_evaluated name = record {
  gate = name;
  triggered = true;
  reason = "no trigger evaluated (fail-closed)";
}

-- A gate that its trigger fires.
unfoldable pub fire_gate :
    GateName → GateState → GateTrigger → ℤ → GateState × Option GateTransition
fire_gate name before t now = (
  record before {
    active = true;
    active_since_ms = if before.active then before.active_since_ms else some now;
    clear_ticks = 0;
    clear_since_ms = none;
    reason = t.reason;
  },
  if before.active
      then none
      else some (record { gate = name; active = true; at_ms = now; reason = t.reason }),
)

abbrev pub append_some {ℓ} : {A : Type ℓ} → Option A → List A → List A
append_some none xs = xs
append_some (some x) xs = x ∷ xs

-- The transitions of the names, in order.
unfoldable pub transitions_of :
    (GateName → GateState × Option GateTransition) → List GateName → List GateTransition
transitions_of f [] = []
transitions_of f (name ∷ names) = append_some (f name).1 (transitions_of f names)

-- `show` prints a number in a template literal. `Math.round` of a thousandth is the floor of the
-- thousandth of the number moved up by half a thousand.
module _ (show : ℤ → String) where
  unfoldable pub cleared_text : ℕ → ℤ → String
  cleared_text ticks elapsed =
      "cleared after "
      ++ (show (pos ticks)
          ++ (" clear tick(s) and " ++ (show (floor_div (elapsed +ℤ pos 500) 1000) ++ " s")))

  -- A gate that its trigger does not fire.
  unfoldable pub clear_gate :
      GateDwell → GateName → GateState → ℤ → GateState × Option GateTransition
  unfolding inactive
  clear_gate d name before now =
      let clear_ticks = before.clear_ticks + 1 in
      let clear_since = or_else before.clear_since_ms now in
      let elapsed = now -ℤ clear_since in
      if leb d.clear_ticks clear_ticks && leb_ℤ d.clear_ms elapsed && leb_ℤ (pos 0) elapsed
      then (
        inactive name (cleared_text clear_ticks elapsed),
        some (record {
          gate = name;
          active = false;
          at_ms = now;
          reason = cleared_text clear_ticks elapsed;
        }),
      )
      else (record before { clear_ticks = clear_ticks; clear_since_ms = some clear_since }, none)

  -- An implemented gate.
  unfoldable pub armed_gate :
      GateDwell → GateName → GateState → GateTrigger → ℤ → GateState × Option GateTransition
  unfolding inactive clear_gate fire_gate
  armed_gate d name before t now =
      if t.triggered
      then fire_gate name before t now
      else if not before.active
      then (inactive name t.reason, none)
      else clear_gate d name before now

  unfoldable pub step_gate :
      (GateName → GateDwell)
      → GateMachineState
      → TriggerMap
      → ℤ
      → GateName
      → GateState × Option GateTransition
  unfolding inactive
  step_gate dwell prev triggers now name =
      if not (gate_implemented name)
      then (inactive name (reason_of (triggers name)), none)
      else armed_gate (dwell name) name (or_else (prev.gates name) (inactive name "clear"))
          (or_else (triggers name) (not_evaluated name)) now

  unfoldable pub step :
      (GateName → GateDwell)
      → GateMachineState
      → List GateTrigger
      → ℤ
      → GateMachineState × List GateTransition
  unfolding step_gate transitions_of
  step dwell prev triggers now =
      let gate = step_gate dwell prev (by_gate triggers) now in
      (
        record { gates = λ name. some (gate name).0; updated_at_ms = now },
        transitions_of gate gate_names,
      )
