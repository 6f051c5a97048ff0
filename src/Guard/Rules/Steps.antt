-- ===== src/Guard/Rules/Steps.antt =====
-- agent/src/guard/guard.ts: the rules 13 to 25 of `checkGuard`: the regime, rates, hurdle, ticks, fence,
-- overlay, simulation, signer, deadline, hedge orders and signals.
use Prim.Native.String.{String}
use deltadesk.Prelude.{
  ◌*◌, Bool, true, false, not, ◌&&◌, ◌||◌, none, some, List, [], ◌∷◌, length, any, every, min, max,
  ltb, leb, ◌==◌,
}
use deltadesk.Prelude.Int.{ℤ, pos, ◌+ℤ◌, ◌-ℤ◌, ltb_ℤ, leb_ℤ, eqb_ℤ, min_ℤ, abs, floor_div}
use deltadesk.Prelude.Floats.{Floats}
use deltadesk.Bands.{RangeSpec, shape_ok, fence_allows_across}
use deltadesk.Gates.Modes.{normal, same_mode, stricter_risk_mode, risk_mode_of}
use deltadesk.Actions.{Rerange, rerange, signal, hedge, same_action}
use deltadesk.Overlay.{not_a_number, cents, tighten_check, valid_share}
use deltadesk.Overlay.Stage.{identity, llm}
use deltadesk.Guard.Input.{
  GuardInput, ChainRead, LaneState, LaneCaps, LaneBudgets, Simulation, Hurdle, SignalRate, paper,
  live,
}
use deltadesk.Guard.Rules.{
  Texts, is_hedge, is_pause, on_chain, is_adding_rerange, is_tightened, is_adding, same_text,
  valid_cents,
}

abbrev pub same_ticks : RangeSpec → RangeSpec → Bool
same_ticks r s =
    eqb_ℤ r.range.tick_lower s.range.tick_lower && eqb_ℤ r.range.tick_upper s.range.tick_upper

-- No range has the ticks of one before it.
unfoldable pub are_distinct : List RangeSpec → List RangeSpec → Bool
are_distinct seen [] = true
are_distinct seen (r ∷ rs) = not (any (same_ticks r) seen) && are_distinct (r ∷ seen) rs

unfoldable pub range_ok : ℤ → LaneCaps → RangeSpec → Bool
range_ok spacing caps r =
    shape_ok r.range spacing caps.min_width_ticks caps.max_width_ticks
    && valid_share r.share0_bps
    && valid_share r.share1_bps

unfoldable pub ticks_ok : ℤ → Rerange → ChainRead → Bool
unfolding are_distinct range_ok
ticks_ok spacing r c =
    let caps = c.lane_state.caps in
    leb (length r.ranges) caps.max_ranges
    && every (range_ok spacing caps) r.ranges
    && are_distinct [] r.ranges
    && leb_ℤ (pos 0) r.max_tick_delta
    && leb_ℤ r.max_tick_delta caps.max_tick_delta
    && leb_ℤ (pos (abs (r.expected_tick -ℤ c.pool_tick))) r.max_tick_delta

unfoldable pub fence_ok : Rerange → LaneState → Bool
unfolding fence_allows_across
fence_ok r lane =
    lane.ref_tick.code == 0
    && lane.risk_adding_open
    && every
        (λ s.
          fence_allows_across s.range r.expected_tick r.max_tick_delta lane.ref_tick.tick
            lane.ref_tick.band_ticks)
        r.ranges

unfoldable pub budgets_ok : ℤ → LaneBudgets → Bool
budgets_ok now_sec b =
    leb_ℤ b.next_rerange_at now_sec && leb 1 b.reranges_1h_left && leb 1 b.reranges_24h_left

module _ {F : Floats} (number : String → F.Float) (T : Texts) (i : GuardInput F) where
  abbrev pub now_sec : ℤ
  now_sec = floor_div i.now_ms 1000

  unfoldable pub regime_gate : Bool
  unfolding is_adding stricter_risk_mode risk_mode_of
  regime_gate =
      not (is_adding number T i)
      || same_mode (stricter_risk_mode i.regime.risk_mode (risk_mode_of i.regime.active_gates))
          normal

  unfoldable pub agent_rate_ok : Bool
  agent_rate_ok =
      let state = i.agent_rerange in
      let limit = i.limits.agent_reranges in
      let wait = max (limit.min_interval_sec * 1000) state.min_interval_ms in
      elim state.last_rerange_at_ms as (λ _. Bool) [
        | none ↦ true
        | some last ↦ leb_ℤ (pos wait) (i.now_ms -ℤ last)
      ]
      && ltb state.count_1h (min limit.per_hour state.max_per_hour)
      && ltb state.count_24h (min limit.per_day state.max_per_day)

  unfoldable pub rerange_rate : Bool
  unfolding agent_rate_ok budgets_ok
  rerange_rate = not (is_adding_rerange i.action) || elim i.snapshot.chain as (λ _. Bool) [
    | none ↦ false
    | some c ↦ agent_rate_ok && budgets_ok now_sec c.lane_state.budgets
  ]

  -- The first mint of an empty lane needs no hurdle.
  unfoldable pub is_waived : Bool
  is_waived = i.deterministic.is_initial_mint && elim i.snapshot.chain as (λ _. Bool) [
    | none ↦ false
    | some c ↦ c.lane_state.position0 == 0 && c.lane_state.position1 == 0
  ]

  unfoldable pub hurdle_ok : Hurdle F → Bool
  hurdle_ok h =
      h.passes
      && F.is_finite h.benefit_usd
      && F.is_finite h.cost_usd
      && F.lt (F.of_ℤ (pos 0)) h.cost_usd
      && F.le (F.mul i.limits.hurdle_multiple h.cost_usd) h.benefit_usd

  unfoldable pub cost_hurdle : Bool
  unfolding is_adding is_waived hurdle_ok
  cost_hurdle =
      not (is_adding number T i)
      || is_hedge i.action
      || is_waived
      || elim i.hurdle as (λ _. Bool) [ none ↦ false | some h ↦ hurdle_ok h ]

  -- A test of a rerange with a range, on the chain that was read.
  unfoldable pub on_rerange : (Rerange → ChainRead → Bool) → Bool
  on_rerange test = elim i.action as (λ _. Bool) [
    | rerange r ↦
        not (is_adding_rerange i.action)
        || elim i.snapshot.chain as (λ _. Bool) [ none ↦ false | some c ↦ test r c ]
    | _ ↦ true
  ]

  unfoldable pub tick_validity : Bool
  unfolding on_rerange ticks_ok
  tick_validity = on_rerange (ticks_ok i.limits.tick_spacing)

  unfoldable pub fence_precheck : Bool
  unfolding on_rerange fence_ok
  fence_precheck = on_rerange (λ r c. fence_ok r c.lane_state)

  unfoldable pub overlay_tighten_only : Bool
  unfolding tighten_check same_action
  overlay_tighten_only =
      elim (tighten_check F number T.lower i.deterministic i.final_plan) as (λ _. Bool) [
        | [] ↦ true
        | v ∷ vs ↦ false
      ]
      && elim i.overlay.source as (λ _. Bool) [
        | llm ↦ not i.overlay.applied || is_tightened i.overlay.tighten
        | identity ↦ true
      ]
      && any (λ a. same_action a i.action) i.final_plan.actions

  unfoldable pub simulated : Simulation → Bool
  simulated s =
      let age = s.latest_block_number -ℤ s.block_number in
      s.is_ok
      && not s.has_error
      && same_text number T i s.from_address i.expected.signer_address
      && leb_ℤ (pos 0) age
      && leb_ℤ age i.limits.max_sim_block_age
      && not (is_adding_rerange i.action && not s.has_rerange)

  unfoldable pub simulation_ok : Bool
  unfolding simulated
  simulation_ok =
      not (on_chain i.action)
      || elim i.simulation as (λ _. Bool) [ none ↦ false | some s ↦ simulated s ]

  unfoldable pub signer_binding : Bool
  signer_binding = not (on_chain i.action) || elim i.snapshot.chain as (λ _. Bool) [
    | none ↦ false
    | some c ↦
        same_text number T i c.lane_state.operator i.expected.signer_address
        && not (same_text number T i c.lane_state.owner i.expected.signer_address)
        && same_text number T i i.snapshot.signer_address i.expected.signer_address
  ]

  unfoldable pub lane_not_paused : Bool
  unfolding is_adding
  lane_not_paused =
      not (is_adding number T i)
      || is_hedge i.action
      || elim i.snapshot.chain as (λ _. Bool) [ none ↦ false | some c ↦ not c.lane_state.paused ]

  unfoldable pub single_in_flight : Bool
  single_in_flight =
      not (on_chain i.action)
      || elim i.in_flight as (λ _. Bool) [ not_a_number ↦ false | cents n ↦ eqb_ℤ n (pos 0) ]

  unfoldable pub max_ahead : ℤ
  max_ahead = elim i.snapshot.chain as (λ _. ℤ) [
    | none ↦ i.limits.deadline_max_ahead_sec
    | some c ↦ min_ℤ i.limits.deadline_max_ahead_sec c.lane_state.caps.max_deadline_ahead
  ]

  unfoldable pub deadline_sane : Bool
  unfolding max_ahead
  deadline_sane = not (on_chain i.action) || is_pause i.action || elim i.meta as (λ _. Bool) [
    | none ↦ false
    | some m ↦
        leb_ℤ (now_sec +ℤ i.limits.deadline_min_ahead_sec) m.deadline
        && leb_ℤ m.deadline (now_sec +ℤ max_ahead)
  ]

  unfoldable pub hl_order : Bool
  hl_order = elim i.action as (λ _. Bool) [
    | hedge o ↦ T.is_decimal o.px && T.is_decimal o.sz && elim i.flags.hl_mode as (λ _. Bool) [
      | live ↦ i.flags.hl_armed && i.flags.armed
      | paper ↦ true
    ]
    | _ ↦ true
  ]

  unfoldable pub signal_rate_ok : SignalRate → Bool
  unfolding valid_cents
  signal_rate_ok s = elim (valid_cents s.count_1h) as (λ _. Bool) [
    | none ↦ false
    | some n ↦ ltb_ℤ (pos n) s.max_per_hour
  ]

  unfoldable pub signal_policy : Bool
  unfolding signal_rate_ok
  signal_policy = elim i.action as (λ _. Bool) [
    | signal lane note ↦
        elim i.snapshot.chain as (λ _. Bool) [ none ↦ false | some c ↦ not c.lane_state.paused ]
        && elim i.signal_rate as (λ _. Bool) [ none ↦ false | some s ↦ signal_rate_ok s ]
        && ltb 0 (T.units note)
        && leb (T.units note) 280
    | _ ↦ true
  ]
