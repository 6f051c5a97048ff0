-- ===== src/Examples/Gates.antt =====
-- agent/src/regime/machine.ts at a short history of the HALT gate.
use Prim.Native.String.{String}
use deltadesk.Prelude.{not, ℕ, ◌≤◌, ◌≡◌, refl, ◌↔◌, ◌⊎◌, true, false, some, List, [], ◌∷◌}
use deltadesk.Prelude.Int.{ℤ, pos, ◌≤ℤ◌, ◌-ℤ◌}
use deltadesk.Gates.{closed}
use deltadesk.Gates.Machine.{
  GateTrigger, GateMachineState, default_gate_dwell, initial, step, by_gate, armed_gate,
}
use deltadesk.Gates.Machine.Fires.{fires}
use deltadesk.Gates.Machine.Step.{gate_of, IsDwelt, step_active_iff}
use deltadesk.Gates.Machine.Transitions.{reports, step-reports}
use deltadesk.Gates.Machine.History.{Tick, Streak, run, run-Streak}

-- A stand-in for the printing of numbers.
abbrev show : ℤ → String
show z = "n"

abbrev start : GateMachineState
start = initial true (pos 0)

abbrev quiet : List GateTrigger
quiet = record { gate = closed; triggered = false; reason = "open" } ∷ []

abbrev at : ℤ → Tick
at t = record { triggers = quiet; at_ms = t }

-- CLOSED starts active, and its third quiet tick turns it off.
abbrev two_ticks : List Tick
two_ticks = at (pos 2000) ∷ at (pos 1000) ∷ []

step_active_iff_example :
    ((gate_of (step show default_gate_dwell start quiet (pos 1000)).0 closed).active ≡ true) ↔ (
      (fires quiet closed ≡ true)
      ⊎ (((gate_of start closed).active ≡ true)
          × (¬ IsDwelt (default_gate_dwell closed) (gate_of start closed) (pos 1000))))
step_active_iff_example = step_active_iff show default_gate_dwell start quiet (pos 1000) closed refl

run-Streak_example :
    (n : ℕ) × (since : ℤ) × ((default_gate_dwell closed).clear_ticks ≤ n)
    × Streak closed (at (pos 3000) ∷ two_ticks) n (some since)
    × ((default_gate_dwell closed).clear_ms ≤ℤ pos 3000 -ℤ since)
    × (pos 0 ≤ℤ pos 3000 -ℤ since)
unfolding run step initial by_gate armed_gate default_gate_dwell ◌-ℤ◌
run-Streak_example =
    run-Streak show default_gate_dwell true (pos 0) closed refl (at (pos 3000)) two_ticks refl refl

step-reports_example :
    (reports (step show default_gate_dwell start quiet (pos 1000)).1 closed true ≡ true) ↔ (
      ((gate_of start closed).active ≡ not true)
      × ((gate_of (step show default_gate_dwell start quiet (pos 1000)).0 closed).active ≡ true))
step-reports_example = step-reports show default_gate_dwell start quiet (pos 1000) closed true refl
