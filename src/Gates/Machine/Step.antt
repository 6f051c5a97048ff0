-- ===== src/Gates/Machine/Step.antt =====
-- One step of the gate machine: when a gate is active after it, and what the transitions report.
use Prim.Native.String.{String}
use deltadesk.Prelude.{
  ◌+◌, ◌≤◌, ◌≡◌, refl, ◌↔◌, ◌⊎◌, inl, inr, true, false, none, List, Bool-cases, arith,
}
use deltadesk.Prelude.Int.{ℤ, pos, ◌-ℤ◌, ◌≤ℤ◌}
use deltadesk.Gates.{GateName, gate_implemented}
use deltadesk.Gates.Machine.{
  GateDwell, GateTrigger, GateState, GateMachineState, or_else, inactive, step_gate, armed_gate,
  clear_gate, fire_gate, step,
}
use deltadesk.Gates.Machine.Fires.{fires, trigger_for, trigger_for-fires}

-- A gate in a state that may lack it.
abbrev pub gate_of : GateMachineState → GateName → GateState
gate_of s name = or_else (s.gates name) (inactive name "clear")

-- Both dwell conditions hold for a gate that is not fired now.
pub record IsDwelt (d : GateDwell) (before : GateState) (now : ℤ) : Type 0 where
  pub ticks : d.clear_ticks ≤ before.clear_ticks + 1
  pub time : d.clear_ms ≤ℤ now -ℤ or_else before.clear_since_ms now
  pub forwards : pos 0 ≤ℤ now -ℤ or_else before.clear_since_ms now

module _ (show : ℤ → String) (d : GateDwell) (name : GateName) (before : GateState)
    (t : GateTrigger) (now : ℤ) where
  -- The three branches of an implemented gate.
  pub armed_fired :
      t.triggered ≡ true → armed_gate show d name before t now ≡ fire_gate name before t now
  unfolding armed_gate
  armed_fired e = rw e

  pub armed_idle :
      t.triggered ≡ false
      → before.active ≡ false
      → armed_gate show d name before t now ≡ (inactive name t.reason, none)
  unfolding armed_gate
  armed_idle e f = rw (e, f)

  pub armed_clear :
      t.triggered ≡ false
      → before.active ≡ true
      → armed_gate show d name before t now ≡ clear_gate show d name before now
  unfolding armed_gate
  armed_clear e f = rw (e, f)

  pub clear-IsDwelt :
      (clear_gate show d name before now).0.active ≡ false
      → before.active ≡ true
      → IsDwelt d before now
  unfolding clear_gate inactive
  clear-IsDwelt e f = record { ticks = ground arith; time = ground arith; forwards = ground arith }

  IsDwelt-clear : IsDwelt d before now → (clear_gate show d name before now).0.active ≡ false
  unfolding clear_gate inactive
  IsDwelt-clear w = ground arith

  pub fired_active : (fire_gate name before t now).0.active ≡ true
  unfolding fire_gate
  fired_active = refl

  idle_active : (inactive name t.reason).active ≡ false
  unfolding inactive
  idle_active = refl

  armed_active_iff :
      ((armed_gate show d name before t now).0.active ≡ true)
      ↔ ((t.triggered ≡ true) ⊎ ((before.active ≡ true) × (¬ IsDwelt d before now)))
  armed_active_iff = (λ e. to e, λ h. from h)
    where
      to :
          (armed_gate show d name before t now).0.active ≡ true
          → (t.triggered ≡ true) ⊎ ((before.active ≡ true) × (¬ IsDwelt d before now))
      to e = elim (Bool-cases t.triggered) [
        | inl fired ↦ inl fired
        | inr quiet ↦ elim (Bool-cases before.active) [
          | inl was ↦
              inr (was, λ w. absurd (ground (arith, IsDwelt-clear w, armed_clear quiet was)))
          | inr idle ↦ absurd (ground (arith, armed_idle quiet idle, idle_active))
        ]
      ]

      from :
          (t.triggered ≡ true) ⊎ ((before.active ≡ true) × (¬ IsDwelt d before now))
          → (armed_gate show d name before t now).0.active ≡ true
      from (inl fired) = rw (armed_fired fired) fired_active
      from (inr (was, not_dwelt)) = elim (Bool-cases t.triggered) [
        | inl fired ↦ rw (armed_fired fired) fired_active
        | inr quiet ↦
            rw (armed_clear quiet was)
              (elim (Bool-cases (clear_gate show d name before now).0.active) [
                | inl on ↦ on
                | inr off ↦ absurd (not_dwelt (clear-IsDwelt off was))
              ])
      ]

module _ (show : ℤ → String) (dwell : GateName → GateDwell) (prev : GateMachineState)
    (ts : List GateTrigger) (now : ℤ) (name : GateName) (armed : gate_implemented name ≡ true) where
  pub step-armed_gate :
      gate_of (step show dwell prev ts now).0 name
      ≡ (armed_gate show (dwell name) name (gate_of prev name) (trigger_for ts name) now).0
  unfolding step trigger_for step_gate
  step-armed_gate = rw armed

  -- An implemented gate is active after a step exactly when the triggers fire it, or when it was
  -- active and its dwell is not over.
  pub step_active_iff : ((gate_of (step show dwell prev ts now).0 name).active ≡ true) ↔ (
      (fires ts name ≡ true)
      ⊎ (((gate_of prev name).active ≡ true) × (¬ IsDwelt (dwell name) (gate_of prev name) now)))
  step_active_iff =
      rw (step-armed_gate, ← trigger_for-fires ts name)
        (armed_active_iff show (dwell name) name (gate_of prev name) (trigger_for ts name) now)
