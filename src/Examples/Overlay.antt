-- ===== src/Examples/Overlay.antt =====
-- The theorems on overlays at concrete plans.
use Prim.Native.String.{String}
use deltadesk.Prelude.{ℕ, ◌≡◌, refl, ◌↔◌, true, false, inl, [], ◌∷◌, some, arith}
use deltadesk.Prelude.Int.{ℤ, pos, ◌+ℤ◌, ◌-ℤ◌, leb_ℤ, ltb_ℤ, abs}
use deltadesk.Prelude.Floats.{Floats}
use deltadesk.Bands.{RangeSpec}
use deltadesk.Gates.Modes.{normal}
use deltadesk.Actions.{
  lane_a, Rerange, rerange, adds_risk, risk_class_of, class_of_ranges, is_adding_class,
}
use deltadesk.Overlay.{
  DeskPlan, cents, tighten_check, adding_violations, rerange_tighter, take_survivors, notional_ok,
}
use deltadesk.Overlay.Tighter.{Tightened, adding_violations-Tightened_iff}
use deltadesk.Overlay.Accepted.{IsAccepted, tighten_check-IsAccepted}
use deltadesk.Overlay.Apply.{Proposal, apply}
use deltadesk.Overlay.Passes.{apply-passes}
use deltadesk.Overlay.Harmless.{IsHarmless, DropsAdding}
use deltadesk.Overlay.Applied.{ValidAction, ValidRange}
use deltadesk.Overlay.Stage.{
  Answer, answered, Permitted, CriticVerdict, resolve_overlay, resolve_overlay-Permitted,
}

-- Integers in the place of the floats, and a text that is no number.
abbrev integers : Floats
integers = record {
  Float = ℤ;
  of_ℤ = λ z. z;
  add = ◌+ℤ◌;
  sub = ◌-ℤ◌;
  mul = λ a b. a;
  div = λ a b. a;
  abs = λ a. pos (abs a);
  is_finite = λ a. true;
  lt = ltb_ℤ;
  le = leb_ℤ;
}

abbrev number : String → ℤ
number s = pos 0

abbrev lower : String → String
lower s = s

abbrev asks : ℕ → RangeSpec
asks share = record {
  range = record { tick_lower = pos 860; tick_upper = pos 960 };
  share0_bps = pos share;
  share1_bps = pos 0;
}

abbrev move : ℕ → Rerange
move share = record {
  lane = lane_a;
  ranges = asks share ∷ [];
  expected_tick = pos 850;
  max_tick_delta = pos 10;
}

abbrev plan : ℕ → ℕ → DeskPlan
plan share notional = record {
  lane = lane_a;
  lane_address = "0xa";
  risk_mode = normal;
  actions = rerange (move share) ∷ [];
  notional_cents = cents (pos notional);
  pool_tick = some (pos 850);
  is_initial_mint = false;
}

abbrev halved : Proposal
halved = record {
  notional_scale_bps = some (pos 5000);
  widen_ticks = some (pos 20);
  drop_action_indexes = [];
  add_reducing = [];
  rationale = "half";
}

adding_violations-Tightened_iff_example :
    (adding_violations integers number lower (rerange (move 6000) ∷ []) (rerange (move 5000) ∷ [])
      ≡ [])
    ↔ Tightened integers number lower (rerange (move 6000) ∷ []) (rerange (move 5000) ∷ [])
adding_violations-Tightened_iff_example =
    adding_violations-Tightened_iff integers number lower (rerange (move 6000) ∷ [])
      (rerange (move 5000) ∷ [])

tighten_check-IsAccepted_example :
    IsAccepted integers number lower (plan 6000 30000) (plan 5000 20000)
unfolding tighten_check adding_violations rerange_tighter take_survivors adds_risk risk_class_of
    class_of_ranges is_adding_class notional_ok
tighten_check-IsAccepted_example =
    tighten_check-IsAccepted integers number lower (plan 6000 30000) (plan 5000 20000) refl

apply-passes_example :
    tighten_check integers number lower (plan 6000 30000) (apply 10 (plan 6000 30000) halved) ≡ []
unfolding ValidAction ValidRange IsHarmless DropsAdding adds_risk risk_class_of class_of_ranges
    is_adding_class
apply-passes_example =
    apply-passes integers number lower 10 (plan 6000 30000) halved 30000 (omega arith) refl
      (((refl, refl), tt), tt) (inl refl, tt) tt (refl, tt)

abbrev approves : Proposal → Answer CriticVerdict
approves p = answered (record { approve = true; reason = "tighter" })

resolve_overlay-Permitted_example :
    Permitted integers number lower true
      (some (answered halved))
      (some approves)
      (λ p q. some (apply 10 p q))
      (plan 6000 30000)
      (resolve_overlay integers number lower true
        (some (answered halved))
        (some approves)
        (λ p q. some (apply 10 p q))
        (plan 6000 30000))
resolve_overlay-Permitted_example =
    resolve_overlay-Permitted integers number lower true (some (answered halved)) (some approves)
      (λ p q. some (apply 10 p q)) (plan 6000 30000)
