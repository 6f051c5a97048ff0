-- ===== src/Gates/Machine/History.antt =====
-- The gate machine over a history of ticks: a gate turns off only at the end of a quiet streak.
use Prim.Native.String.{String}
use deltadesk.Prelude.{
  ℕ, zero, suc, ◌≤◌, ◌⊎◌, ◌≡◌, refl, sym, ◌∙◌, inl, inr, Bool, true, false, Option, none, some,
  List, [], ◌∷◌, Bool-cases, arith,
}
use deltadesk.Prelude.Int.{ℤ, pos, ◌-ℤ◌, ◌≤ℤ◌}
use deltadesk.Gates.{GateName, gate_implemented}
use deltadesk.Gates.Machine.{
  GateDwell, GateTrigger, GateState, GateMachineState, or_else, inactive, initial, initial_gate,
  armed_gate, clear_gate, fire_gate, step,
}
use deltadesk.Gates.Machine.Fires.{fires, trigger_for, trigger_for-fires}
use deltadesk.Gates.Machine.Step.{
  gate_of, step-armed_gate, armed_fired, armed_idle, armed_clear, clear-IsDwelt, fired_active,
}

pub record Tick : Type 0 where
  pub triggers : List GateTrigger
  pub at_ms : ℤ

-- The newest n ticks do not fire the gate, and the oldest of them was at `since`.
abbrev pub Streak : GateName → List Tick → ℕ → Option ℤ → Type 0
Streak name h zero since = since ≡ none
Streak name [] (suc n) since = ⊥
Streak name (t ∷ h) (suc zero) since = (fires t.triggers name ≡ false) × (since ≡ some t.at_ms)
Streak name (t ∷ h) (suc (suc n)) since =
    (fires t.triggers name ≡ false) × Streak name h (suc n) since

Streak-none : (name : GateName) (h : List Tick) (n : ℕ) → ¬ Streak name h (suc n) none
Streak-none name [] n s = s
Streak-none name (t ∷ h) zero s = ground arith
Streak-none name (t ∷ h) (suc n) s = Streak-none name h n s.1

Streak-longer :
    (name : GateName) (t : Tick) (h : List Tick) (n : ℕ) (since : Option ℤ)
    → fires t.triggers name ≡ false
    → Streak name h n since
    → Streak name (t ∷ h) (suc n) (some (or_else since t.at_ms))
Streak-longer name t h zero since quiet s = (quiet, rw s)
Streak-longer name t h (suc n) (some x) quiet s = (quiet, s)
Streak-longer name t h (suc n) none quiet s = absurd (Streak-none name h n s)

-- Every gate keeps its streak: of an inactive gate, and of one that was just fired, it is empty.
abbrev Keeps : GateName → List Tick → GateState → Type 0
Keeps name h g = Streak name h g.clear_ticks g.clear_since_ms

Streak-of :
    (name : GateName) (h : List Tick) (n : ℕ) (x : Option ℤ) {m : ℕ} {y : Option ℤ}
    → m ≡ n
    → y ≡ x
    → Streak name h n x
    → Streak name h m y
Streak-of name h n x e f s = rw (e, f) s

initial_gate-Keeps :
    (start_active : Bool) (at : ℤ) (name : GateName)
    → Keeps name [] (initial_gate start_active at name)
unfolding initial_gate inactive
initial_gate-Keeps start_active at name =
    Streak-of name [] zero none (ground arith) (ground arith) refl

module _ (show : ℤ → String) (d : GateDwell) (name : GateName) (t : Tick) (h : List Tick) where
  clear_gate-cases :
      (g : GateState)
      → let after = (clear_gate show d name g t.at_ms).0 in
        ((after.clear_ticks ≡ 0) × (after.clear_since_ms ≡ none))
        ⊎ ((after.clear_ticks ≡ suc g.clear_ticks)
            × (after.clear_since_ms ≡ some (or_else g.clear_since_ms t.at_ms)))
  unfolding clear_gate inactive
  clear_gate-cases g = ground arith

  clear_gate-Keeps :
      (g : GateState)
      → fires t.triggers name ≡ false
      → Keeps name h g
      → Keeps name (t ∷ h) (clear_gate show d name g t.at_ms).0
  clear_gate-Keeps g quiet s = elim (clear_gate-cases g) [
    | inl (e, f) ↦ Streak-of name (t ∷ h) zero none e f refl
    | inr (e, f) ↦
        Streak-of name (t ∷ h) (suc g.clear_ticks) (some (or_else g.clear_since_ms t.at_ms)) e f
          (Streak-longer name t h g.clear_ticks g.clear_since_ms quiet s)
  ]

  armed_gate-Keeps :
      (g : GateState)
      → Keeps name h g
      → Keeps name (t ∷ h) (armed_gate show d name g (trigger_for t.triggers name) t.at_ms).0
  armed_gate-Keeps g s = elim (Bool-cases (trigger_for t.triggers name).triggered) [
    | inl fired ↦
        rw (armed_fired show d name g (trigger_for t.triggers name) t.at_ms fired)
          (unfold fire_gate in refl)
    | inr quiet ↦ elim (Bool-cases g.active) [
      | inl was ↦
          rw (armed_clear show d name g (trigger_for t.triggers name) t.at_ms quiet was)
            (clear_gate-Keeps g (sym (trigger_for-fires t.triggers name) ∙ quiet) s)
      | inr idle ↦
          rw (armed_idle show d name g (trigger_for t.triggers name) t.at_ms quiet idle)
            (unfold inactive in refl)
    ]
  ]

module _ (show : ℤ → String) (dwell : GateName → GateDwell) where
  -- The state after a history, its newest tick first.
  unfoldable pub run : GateMachineState → List Tick → GateMachineState
  unfolding step
  run s [] = s
  run s (t ∷ h) = (step show dwell (run s h) t.triggers t.at_ms).0

on_and_off : {b : Bool} → b ≡ true → b ≡ false → ⊥
on_and_off e f = ground arith

module _ (show : ℤ → String) (dwell : GateName → GateDwell) (start_active : Bool) (t0 : ℤ)
    (name : GateName) (armed : gate_implemented name ≡ true) where
  -- The gate after a history of a machine that starts at t0.
  abbrev gate_after : List Tick → GateState
  gate_after h = gate_of (run show dwell (initial start_active t0) h) name

  gate_after-step :
      (t : Tick) (h : List Tick)
      → gate_after (t ∷ h)
        ≡ (armed_gate show (dwell name) name (gate_after h) (trigger_for t.triggers name) t.at_ms).0
  unfolding run
  gate_after-step t h =
      step-armed_gate show dwell (run show dwell (initial start_active t0) h) t.triggers t.at_ms
        name armed

  gate_after-Keeps : (h : List Tick) → Keeps name h (gate_after h)
  unfolding run initial
  gate_after-Keeps [] = initial_gate-Keeps start_active t0 name
  gate_after-Keeps (t ∷ h) =
      rw (gate_after-step t h)
        (armed_gate-Keeps show (dwell name) name t h (gate_after h) (gate_after-Keeps h))

  -- From its start an implemented gate turns off only when at least `clearTicks` ticks in a row,
  -- the last one among them, have not fired it, and the oldest of them is at least `clearMs`, and
  -- not a negative time, ago.
  pub run-Streak :
      (t : Tick) (h : List Tick)
      → (gate_after h).active ≡ true
      → (gate_after (t ∷ h)).active ≡ false
      → (n : ℕ) × (since : ℤ) × ((dwell name).clear_ticks ≤ n)
        × Streak name (t ∷ h) n (some since)
        × ((dwell name).clear_ms ≤ℤ t.at_ms -ℤ since)
        × (pos 0 ≤ℤ t.at_ms -ℤ since)
  run-Streak t h was off = elim (Bool-cases trigger.triggered) [
    | inl fired ↦ absurd (on_and_off (fired_on fired) here)
    | inr quiet ↦
        let dwelt = clear-IsDwelt show d name g trigger t.at_ms (cleared quiet) was in
        (
          suc g.clear_ticks,
          or_else g.clear_since_ms t.at_ms,
          omega (arith, dwelt.ticks),
          Streak-longer name t h g.clear_ticks g.clear_since_ms
              (sym (trigger_for-fires t.triggers name) ∙ quiet) (gate_after-Keeps h),
          dwelt.time,
          dwelt.forwards,
        )
  ]
    where
      d : GateDwell
      d = dwell name

      g : GateState
      g = gate_after h

      trigger : GateTrigger
      trigger = trigger_for t.triggers name

      here : (armed_gate show d name g trigger t.at_ms).0.active ≡ false
      here = rw (gate_after-step t h) at off

      fired_on :
          trigger.triggered ≡ true → (armed_gate show d name g trigger t.at_ms).0.active ≡ true
      fired_on e =
          rw (armed_fired show d name g trigger t.at_ms e)
            (fired_active show d name g trigger t.at_ms)

      cleared : trigger.triggered ≡ false → (clear_gate show d name g t.at_ms).0.active ≡ false
      cleared e = rw (armed_clear show d name g trigger t.at_ms e was) at here
