-- ===== src/Executor/Fees.antt =====
-- agent/src/executor/fees.ts: the fee of a transaction, its bump, and the gas limit. Amounts of wei
-- are natural numbers; a missing base fee counts as 0.
use mathlib.Core.Option.{get_or}
use deltadesk.Prelude.{
  ℕ, ◌+◌, ◌*◌, ◌/◌, ◌≤◌, ◌<◌, ◌≡◌, ◌↔◌, ◌⊎◌, Option, ltb, leb, ◌==◌, ◌&&◌, ◌||◌, if◌then◌else◌,
  arith,
}
use deltadesk.Prelude.Result.{Result, ok, err, range_error, gas_cap, ◌>>=◌}

pub record FeePolicyOptions : Type 0 where
  pub floor_wei : ℕ
  pub cap_wei : ℕ

pub record FeeQuote : Type 0 where
  pub max_fee_per_gas : ℕ
  pub max_priority_fee_per_gas : ℕ

-- The checks of `createFeePolicy`.
unfoldable pub create_fee_policy : FeePolicyOptions → Result FeePolicyOptions
create_fee_policy opts =
    if opts.floor_wei == 0 || ltb opts.cap_wei opts.floor_wei then err range_error else ok opts

unfoldable pub quote : FeePolicyOptions → Option ℕ → Result FeeQuote
quote opts base_fee =
    let base = get_or base_fee 0 in
    let target = if ltb opts.floor_wei (2 * base) then 2 * base else opts.floor_wei in
    if ltb opts.cap_wei base
    then err gas_cap
    else ok (record {
      max_fee_per_gas = if ltb opts.cap_wei target then opts.cap_wei else target;
      max_priority_fee_per_gas = 0;
    })

-- The greater of a new quote and 125% of the previous fee, unless both fees are at the cap.
unfoldable pub bump : FeePolicyOptions → Option ℕ → ℕ → Result FeeQuote
unfolding quote
bump opts base_fee previous_max_fee = do
  q ← quote opts base_fee
  let bumped = (previous_max_fee * 125 + 99) / 100
  let next = if ltb bumped q.max_fee_per_gas then q.max_fee_per_gas else bumped
  if ltb opts.cap_wei next && leb opts.cap_wei previous_max_fee
      then err gas_cap
      else ok (record {
        max_fee_per_gas = if ltb opts.cap_wei next then opts.cap_wei else next;
        max_priority_fee_per_gas = 0;
      })

unfoldable pub gas_limit_for : ℕ → ℕ
gas_limit_for estimate = (estimate * 125 + 99) / 100

-- A policy that was created fails to quote just when the base fee is above the cap. Every quote it
-- gives covers the base fee and the floor, is at most the cap, and has no tip.
pub quote_bounds :
    (opts : FeePolicyOptions) (base_fee : Option ℕ)
    → create_fee_policy opts ≡ ok opts
    → ((quote opts base_fee ≡ err gas_cap) ↔ (opts.cap_wei < get_or base_fee 0))
      × ((q : FeeQuote)
          → quote opts base_fee ≡ ok q
          → (get_or base_fee 0 ≤ q.max_fee_per_gas)
            × (opts.floor_wei ≤ q.max_fee_per_gas)
            × (q.max_fee_per_gas ≤ opts.cap_wei)
            × (q.max_priority_fee_per_gas ≡ 0))
unfolding create_fee_policy quote
quote_bounds opts base_fee h = (ground arith, λ q e. ground arith)

-- A bump never lowers the fee: it raises a positive one, by a quarter at least or to the cap, and
-- stays within the cap.
pub bump_raises :
    (opts : FeePolicyOptions) (base_fee : Option ℕ) (previous : ℕ) (q : FeeQuote)
    → bump opts base_fee previous ≡ ok q
    → (previous ≤ q.max_fee_per_gas)
      × (0 < previous → previous < q.max_fee_per_gas)
      × (q.max_fee_per_gas ≤ opts.cap_wei)
      × ((125 * previous ≤ 100 * q.max_fee_per_gas) ⊎ (q.max_fee_per_gas ≡ opts.cap_wei))
unfolding bump
bump_raises opts base_fee previous q e = ground arith

-- The limit is the estimate and a quarter, rounded up.
pub gas_limit_for_bounds :
    (e : ℕ) → (125 * e ≤ 100 * gas_limit_for e) × (100 * gas_limit_for e < 125 * e + 100)
unfolding gas_limit_for
gas_limit_for_bounds e = omega arith
