-- ===== src/Guard/Rules.antt =====
-- agent/src/guard/guard.ts: the rules 1 to 4 of `checkGuard`, each as a test of its input. A rule that
-- throws fails. JavaScript's operations on texts are a record; a problem's text is left out.
pub mod Limits
pub mod Steps
use Prim.Native.String.{String}
use text.Mathlib.Text.{◌==◌ as str_eq}
use deltadesk.Prelude.{
  ℕ, ◌+◌, ◌-◌, ◌*◌, ◌≡◌, Bool, true, false, not, ◌&&◌, ◌||◌, Option, none, some, List, [], ◌∷◌,
  ◌++◌, any, every, max, ltb, leb, ◌==◌, if◌then◌else◌,
}
use deltadesk.Prelude.Int.{ℤ, pos, pos_part, ◌+ℤ◌, ◌-ℤ◌, ltb_ℤ, leb_ℤ}
use deltadesk.Prelude.Floats.{Floats}
use deltadesk.Prelude.Result.{Result, ok, err, ◌>>=◌}
use deltadesk.Units.Money.{usd6_to_cents_floor, usd6_to_cents_ceil}
use deltadesk.Units.Liquidity.{Amounts}
use deltadesk.Bands.{RangeSpec}
use deltadesk.Executor.DeskStatus.{RiskClass, adding, reducing, neutral}
use deltadesk.Executor.DecisionId.{decode_decision_id}
use deltadesk.Sense.Freshness.{SourceName, Freshness, fresh}
use deltadesk.Actions.{
  Lane, lane_b, DeskAction, hold, rerange, reduce, collect, exit_all, pause, signal, hedge, lane_of,
  risk_class_of, is_adding_class, same_lane, same_action,
}
use deltadesk.Overlay.{Cents, not_a_number, cents, DeskPlan}
use deltadesk.Overlay.Stage.{Source, identity, llm, OverlayRecord, Tighten, apply_failed, checked}
use deltadesk.Guard.{NpmPosition, shares_of, post_unwind_balances}
use deltadesk.Guard.Input.{GuardInput, ChainRead, LaneState, TxCall, Meta, DeskSnapshot}

-- `toLowerCase`, `length`, `startsWith` and the tests of two regular expressions.
pub record Texts : Type 0 where
  pub lower : String → String
  pub units : String → ℕ
  pub starts_with : String → String → Bool
  pub has_raw_address : String → Bool
  pub is_decimal : String → Bool

-- A rule that throws fails.
abbrev pub passes : Result Bool → Bool
passes (err e) = false
passes (ok b) = b

abbrev pub same_class : RiskClass → RiskClass → Bool
same_class adding adding = true
same_class reducing reducing = true
same_class neutral neutral = true
same_class _ _ = false

unfoldable pub same_actions : List DeskAction → List DeskAction → Bool
unfolding same_action
same_actions [] [] = true
same_actions (a ∷ rest) (b ∷ others) = same_action a b && same_actions rest others
same_actions _ _ = false

abbrev pub is_hedge : DeskAction → Bool
is_hedge (hedge o) = true
is_hedge _ = false

abbrev pub is_signal : DeskAction → Bool
is_signal (signal lane note) = true
is_signal _ = false

abbrev pub is_pause : DeskAction → Bool
is_pause (pause lane) = true
is_pause _ = false

-- Neither a hedge nor a hold.
abbrev pub on_chain : DeskAction → Bool
on_chain (hedge o) = false
on_chain (hold lane reason) = false
on_chain _ = true

abbrev pub ranges_of : DeskAction → List RangeSpec
ranges_of (rerange r) = r.ranges
ranges_of _ = []

abbrev pub is_adding_rerange : DeskAction → Bool
is_adding_rerange (rerange r) = elim r.ranges as (λ _. Bool) [ [] ↦ false | x ∷ xs ↦ true ]
is_adding_rerange _ = false

-- OPERATOR_SELECTORS of agent/src/executor/abi/DeskLane.ts; a hold and a hedge have none.
unfoldable pub operator_selector : DeskAction → String
operator_selector (rerange r) = "0x916bb025"
operator_selector (reduce lane slot liquidity) = "0xa0b3b716"
operator_selector (collect lane) = "0xa64dfc1f"
operator_selector (exit_all lane) = "0x605dcf24"
operator_selector (signal lane note) = "0xb34b20a9"
operator_selector (pause lane) = "0x8456cb59"
operator_selector _ = ""

unfoldable pub action_strings : DeskAction → List String
action_strings (hold lane reason) = reason ∷ []
action_strings (signal lane note) = note ∷ []
action_strings _ = []

-- Integer cents that are not negative.
unfoldable pub valid_cents : Cents → Option ℕ
valid_cents not_a_number = none
valid_cents (cents n) = if leb_ℤ (pos 0) n then some (pos_part n) else none

abbrev pub is_approved : OverlayRecord → Bool
is_approved o = elim o.critic as (λ _. Bool) [ none ↦ false | some v ↦ v.approve ]

abbrev pub is_tightened : Tighten → Bool
is_tightened apply_failed = false
is_tightened (checked []) = true
is_tightened (checked (v ∷ vs)) = false

module _ {F : Floats} (number : String → F.Float) (T : Texts) (i : GuardInput F) where
  -- Adding, if either the declared or the derived class says so.
  unfoldable pub is_adding : Bool
  unfolding is_adding_class risk_class_of
  is_adding = is_adding_class i.risk_class || is_adding_class (risk_class_of i.action)

  abbrev pub same_text : String → String → Bool
  same_text a b = str_eq (T.lower a) (T.lower b)

  unfoldable pub action_none : Bool
  action_none = elim i.action as (λ _. Bool) [ hold lane reason ↦ false | _ ↦ true ]

  unfoldable pub overlay_ok : Bool
  unfolding same_actions
  overlay_ok =
      if i.overlay.applied && elim i.overlay.source as (λ _. Bool) [ llm ↦ true | identity ↦ false ]
      then is_approved i.overlay && is_tightened i.overlay.tighten
      else same_actions i.final_plan.actions i.deterministic.actions

  unfoldable pub critic_approval : Bool
  unfolding overlay_ok
  critic_approval = i.plan_critic.approve && overlay_ok

  unfoldable pub call_allowed : TxCall → Bool
  unfolding operator_selector
  call_allowed tx =
      same_text tx.to i.expected.lane_address
      && tx.value == 0
      && (any (str_eq tx.selector) i.operator_selectors
          || any (λ s. same_text s tx.selector) i.operator_selectors)
      && same_text tx.selector (operator_selector i.action)
      && T.starts_with (T.lower tx.data_text) (T.lower tx.selector)
      && T.units (T.lower tx.selector) == 10

  -- What the step calls: one allowed call on the chain, or none.
  unfoldable pub call_ok : Bool
  unfolding call_allowed
  call_ok = elim i.action as (λ _. Bool) [
    | hold lane reason ↦ true
    | hedge o ↦
        elim i.tx as (λ _. Bool) [ none ↦ true | some tx ↦ false ]
        && str_eq o.coin "xyz:NVDA"
        && o.asset == 110002
        && same_lane o.lane lane_b
    | _ ↦ elim i.tx as (λ _. Bool) [ none ↦ false | some tx ↦ call_allowed tx ]
  ]

  unfoldable pub allowlist : Bool
  unfolding call_ok risk_class_of action_strings
  allowlist =
      same_class i.risk_class (risk_class_of i.action)
      && same_lane (lane_of i.action) i.expected.lane
      && call_ok
      && not (any T.has_raw_address (i.llm_strings ++ action_strings i.action))

  unfoldable pub amount_positive : Bool
  unfolding is_adding valid_cents
  amount_positive =
      let notional_positive = elim (valid_cents i.notional_cents) as (λ _. Bool) [
        | none ↦ false
        | some n ↦ ltb 0 n
      ] in
      elim i.action as (λ _. Bool) [
        | reduce lane slot liquidity ↦ ltb_ℤ (pos 0) liquidity
        | hedge o ↦ F.is_finite (number o.sz) && F.lt (F.of_ℤ (pos 0)) (number o.sz)
        | _ ↦
            not is_adding
            || (notional_positive
                && not (
                    is_adding_rerange i.action
                    && every (λ r. leb_ℤ r.share0_bps (pos 0) && leb_ℤ r.share1_bps (pos 0))
                        (ranges_of i.action)))
      ]
