-- ===== src/Guard/Rules/Limits.antt =====
-- agent/src/guard/guard.ts: the rules 5 to 12 of `checkGuard`: caps, turnover, idempotency, the arm
-- flag, provenance, freshness, gas and solvency.
use Prim.Native.String.{String}
use deltadesk.Prelude.{
  ℕ, ◌+◌, ◌-◌, Bool, true, false, not, ◌&&◌, ◌||◌, Option, none, some, List, [], ◌∷◌, max, ltb, leb,
  ◌==◌, if◌then◌else◌,
}
use deltadesk.Prelude.Int.{ℤ, pos, negsuc, ◌-ℤ◌, ltb_ℤ, leb_ℤ}
use deltadesk.Prelude.Floats.{Floats}
use deltadesk.Prelude.Result.{Result, ok, err, ◌>>=◌}
use deltadesk.Units.Money.{usd6_to_cents_floor, usd6_to_cents_ceil}
use deltadesk.Bands.{RangeSpec}
use deltadesk.Executor.DecisionId.{Decoded, decode_decision_id}
use deltadesk.Sense.Freshness.{chain, hl, rh, k, Freshness, fresh}
use deltadesk.Actions.{reduce, same_lane}
use deltadesk.Overlay.{DeskPlan}
use deltadesk.Guard.{NpmPosition, shares_of, post_unwind_balances}
use deltadesk.Guard.Input.{GuardInput, ChainRead, LaneState}
use deltadesk.Guard.Rules.{
  Texts, passes, is_hedge, is_signal, is_pause, on_chain, ranges_of, is_adding_rerange, valid_cents,
  is_adding, same_text,
}

abbrev pub is_fresh : Freshness → Bool
is_fresh fresh = true
is_fresh _ = false

abbrev same_digits : List ℕ → List ℕ → Bool
same_digits [] [] = true
same_digits (d ∷ ds) (e ∷ es) = d == e && same_digits ds es
same_digits _ _ = false

-- The cap of the configuration holds, and is not above that of the chain.
unfoldable pub below_cap : ℤ → ℕ → ℕ → Result Bool
below_cap cap notional max_deploy = do
  onchain ← usd6_to_cents_floor (pos max_deploy)
  ok (leb_ℤ cap (pos onchain) && leb_ℤ (pos notional) cap)

-- The turnover so far is the greater of the database's and the chain's.
unfoldable pub below_turnover : ℤ → ℕ → ℕ → ℕ → ℕ → Result Bool
below_turnover limit db notional cap available = do
  used ← usd6_to_cents_ceil (pos (if ltb available cap then cap - available else 0))
  left ← usd6_to_cents_floor (pos available)
  ok (leb notional left && leb_ℤ (pos (max db used + notional)) limit)

unfoldable pub names_step : List ℕ → ℕ → Result Decoded → Bool
names_step decision step (err e) = false
names_step decision step (ok id) = same_digits id.ulid decision && id.step == step

abbrev pub details_at : ℕ → List (Option NpmPosition) → Option NpmPosition
details_at n [] = none
details_at n (p ∷ ps) = if n == 0 then p else details_at (n - 1) ps

-- The token id in a slot.
abbrev pub position_at : ℕ → LaneState → ℕ
position_at slot lane = if slot == 0 then lane.position0 else lane.position1

unfoldable pub funds_shares : ChainRead → List RangeSpec → Result Bool
unfolding shares_of post_unwind_balances
funds_shares c ranges = do
  b ← post_unwind_balances c.funds
  let s = shares_of ranges in
      ok (
        leb_ℤ s.amount0 (pos 10000)
        && leb_ℤ s.amount1 (pos 10000)
        && not (ltb_ℤ (pos 0) s.amount0 && b.amount0 == 0)
        && not (ltb_ℤ (pos 0) s.amount1 && b.amount1 == 0))

module _ {F : Floats} (number : String → F.Float) (T : Texts) (i : GuardInput F) where
  unfoldable pub chain_within_cap : Option ChainRead → ℕ → Bool
  unfolding below_cap
  chain_within_cap none notional = false
  chain_within_cap (some c) notional =
      passes (below_cap i.limits.max_action_cents notional c.lane_state.caps.max_deploy_usd6)

  unfoldable pub within_cap : Option ℕ → Bool
  unfolding chain_within_cap
  within_cap none = false
  within_cap (some notional) =
      if is_hedge i.action
      then leb_ℤ (pos notional) i.limits.max_action_cents
      else chain_within_cap i.snapshot.chain notional

  unfoldable pub max_action_usd : Bool
  unfolding is_adding valid_cents within_cap
  max_action_usd = not (is_adding number T i) || within_cap (valid_cents i.notional_cents)

  unfoldable pub chain_within_turnover : Option ChainRead → ℕ → ℕ → Bool
  unfolding below_turnover
  chain_within_turnover none db notional = false
  chain_within_turnover (some c) db notional = passes (
      below_turnover i.limits.daily_turnover_cents db notional
        c.lane_state.caps.turnover_usd6_per_day c.lane_state.budgets.turnover_available_usd6)

  unfoldable pub within_turnover : Option ℕ → Option ℕ → Bool
  unfolding chain_within_turnover
  within_turnover (some db) (some notional) =
      if is_hedge i.action
      then leb_ℤ (pos (db + notional)) i.limits.daily_turnover_cents
      else chain_within_turnover i.snapshot.chain db notional
  within_turnover _ _ = false

  unfoldable pub daily_turnover : Bool
  unfolding is_adding valid_cents within_turnover
  daily_turnover =
      not (is_adding number T i)
      || within_turnover (valid_cents i.turnover_db_cents_24h) (valid_cents i.notional_cents)

  unfoldable pub idempotency_rule : Bool
  unfolding decode_decision_id names_step
  idempotency_rule =
      not i.idempotency.db_has_step
      && (not (on_chain i.action)
          || is_pause i.action
          || (elim i.meta as (λ _. Bool) [
            | none ↦ false
            | some m ↦ names_step i.decision i.step (decode_decision_id m.decision_id)
          ]
              && elim i.idempotency.onchain_used_at as (λ _. Bool) [
                | none ↦ false
                | some at ↦ at == 0
              ]))

  unfoldable pub arm_flag : Bool
  arm_flag = not (i.limits.chain_id == 4663 || i.expected.chain_id == 4663) || i.flags.armed

  abbrev pub of_lane : DeskPlan → Bool
  of_lane p =
      same_lane p.lane i.expected.lane
      && same_text number T i p.lane_address i.expected.lane_address

  unfoldable pub snapshot_provenance : Bool
  unfolding is_adding
  snapshot_provenance =
      let age = i.now_ms -ℤ i.snapshot.taken_at_ms in
      same_lane i.snapshot.lane i.expected.lane
      && same_text number T i i.snapshot.lane_address i.expected.lane_address
      && i.snapshot.chain_id == i.expected.chain_id
      && i.expected.chain_id == i.limits.chain_id
      && same_text number T i i.snapshot.signer_address i.expected.signer_address
      && (not (on_chain i.action) || elim i.snapshot.chain as (λ _. Bool) [
        | none ↦ false
        | some c ↦ same_text number T i c.lane_state.lane_address i.expected.lane_address
      ])
      && of_lane i.deterministic
      && of_lane i.final_plan
      && leb_ℤ (negsuc 999) age
      && not (is_adding number T i && ltb_ℤ i.limits.max_snapshot_age_ms age)

  unfoldable pub ref_freshness : Bool
  unfolding is_adding
  ref_freshness =
      not (is_adding number T i)
      || (is_fresh (i.freshness chain)
          && is_fresh (i.freshness hl)
          && (is_hedge i.action || (is_fresh (i.freshness k) && is_fresh (i.freshness rh))))

  -- With the operator's wei. Adding steps and signals keep the reserve.
  unfoldable pub gas_covered : ℤ → Option ℤ → Bool
  unfolding is_adding
  gas_covered eth none = not (is_adding number T i || is_signal i.action) && ltb_ℤ (pos 0) eth
  gas_covered eth (some cost) =
      if is_adding number T i || is_signal i.action
      then ltb_ℤ (pos 0) cost && leb_ℤ i.limits.gas_reserve_wei (eth -ℤ cost)
      else leb_ℤ cost eth

  unfoldable pub gas_reserve : Bool
  unfolding gas_covered
  gas_reserve = is_hedge i.action || elim i.snapshot.chain as (λ _. Bool) [
    | none ↦ false
    | some c ↦ gas_covered c.operator_eth_wei i.estimated_gas_cost_wei
  ]

  -- A reduction is of a position of at least that liquidity.
  unfoldable pub holds_liquidity : ℕ → ℤ → ChainRead → Bool
  holds_liquidity slot liquidity c =
      not (position_at slot c.lane_state == 0)
      && elim (details_at slot c.funds.position_details) as (λ _. Bool) [
        | none ↦ false
        | some p ↦ leb_ℤ liquidity (pos p.liquidity)
      ]

  unfoldable pub lane_solvency : Bool
  unfolding holds_liquidity funds_shares
  lane_solvency = elim i.action as (λ _. Bool) [
    | reduce lane slot liquidity ↦ elim i.snapshot.chain as (λ _. Bool) [
      | none ↦ false
      | some c ↦ holds_liquidity slot liquidity c
    ]
    | _ ↦ not (is_adding_rerange i.action) || elim i.snapshot.chain as (λ _. Bool) [
      | none ↦ false
      | some c ↦ passes (funds_shares c (ranges_of i.action))
    ]
  ]
