-- ===== src/Guard/Promises.antt =====
-- agent/src/guard/guard.ts: what the caps of the guard bound.
use Prim.Native.String.{String}
use deltadesk.Prelude.{
  ℕ, ◌+◌, ◌*◌, ◌-◌, ◌/◌, ◌%◌, ◌==◌, ltb, ◌≤◌, ◌≡◌, refl, inl, inr, Bool, true, false, Option, none,
  some, max, arith, Option-cases, if◌then◌else◌,
}
use deltadesk.Prelude.Int.{ℤ, pos, negsuc, ◌≤ℤ◌}
use deltadesk.Prelude.Result.{Result, ok, err, ◌>>=◌}
use deltadesk.Prelude.Floats.{Floats}
use deltadesk.Units.Money.{usd6_to_cents_floor, usd6_to_cents_ceil}
use deltadesk.Units.FullMath.{assert_uint, assert_positive, div_rounding_up}
use deltadesk.Overlay.{Cents, cents, not_a_number}
use deltadesk.Guard.Input.{GuardInput, ChainRead}
use deltadesk.Guard.Rules.{Texts, passes, is_adding, is_hedge, valid_cents}
use deltadesk.Guard.Rules.Limits.{
  below_cap, below_turnover, within_cap, chain_within_cap, max_action_usd, within_turnover,
  chain_within_turnover, daily_turnover,
}
use deltadesk.Guard.Check.{execute, outcome, check_guard}
use deltadesk.Guard.Check as G
use deltadesk.Guard.Authority.{check_guard-execute_iff}

valid_cents-some : (c : Cents) (n : ℕ) → valid_cents c ≡ some n → c ≡ cents (pos n)
unfolding valid_cents
valid_cents-some not_a_number n e = absurd (ground arith)
valid_cents-some (cents (pos m)) n e = ground arith
valid_cents-some (cents (negsuc m)) n e = absurd (ground arith)

usd6_floor-le : (n usd6 : ℕ) → n ≤ usd6 / 10000 → n * 10000 ≤ usd6
usd6_floor-le n usd6 h = omega arith

below_cap-le :
    (cap : ℤ) (n deploy : ℕ)
    → passes (below_cap cap n deploy) ≡ true
    → (pos n ≤ℤ cap) × (n * 10000 ≤ deploy)
unfolding below_cap usd6_to_cents_floor assert_uint
below_cap-le cap n deploy h = (ground arith, usd6_floor-le n deploy (ground arith))

passes->>= :
    {A : Type 0} (first : Result A) (rest : A → Result Bool)
    → passes (first >>= rest) ≡ true
    → (a : A) × (first ≡ ok a) × (passes (rest a) ≡ true)
passes->>= (err e) rest h = absurd (ground arith)
passes->>= (ok a) rest h = (a, refl, h)

usd6_to_cents_ceil-le : (m used : ℕ) → usd6_to_cents_ceil (pos m) ≡ ok used → m ≤ used * 10000
unfolding usd6_to_cents_ceil assert_uint div_rounding_up assert_positive
usd6_to_cents_ceil-le m used h =
    let same : (m / 10000 + (if m % 10000 == 0 then 0 else 1)) ≡ used = ground arith in
    ground (arith, same)

-- What the turnover rule bounds: what the database counts, and what the chain has used of its cap,
-- in whole cents rounded up, each leave room for a notional.
pub record HasRoom (limit : ℤ) (db n cap available : ℕ) : Type 0 where
  pub within_db : pos (db + n) ≤ℤ limit
  pub used : ℕ
  pub covers_used : cap - available ≤ used * 10000
  pub within_used : pos (used + n) ≤ℤ limit
  pub within_bucket : n * 10000 ≤ available

below_turnover-HasRoom :
    (limit : ℤ) (db n cap available : ℕ)
    → passes (below_turnover limit db n cap available) ≡ true
    → HasRoom limit db n cap available
unfolding below_turnover usd6_to_cents_floor assert_uint
below_turnover-HasRoom limit db n cap available h =
    let spent = if ltb available cap then cap - available else 0 in
    let (used, e, rest) = passes->>= (usd6_to_cents_ceil (pos spent)) _ h in
    let most : pos (max db used + n) ≤ℤ limit = ground arith in
    let covered : spent ≤ used * 10000 = usd6_to_cents_ceil-le spent used e in
    record {
      within_db = omega (arith, most);
      used = used;
      covers_used = ground (arith, covered);
      within_used = omega (arith, most);
      within_bucket = usd6_floor-le n available (ground arith);
    }

module _ {F : Floats} (number : String → F.Float) (T : Texts) (i : GuardInput F) where
  -- What the caps bound: a notional, with the lane's state that was read.
  pub record IsCapped (n : ℕ) (c : ChainRead) : Type 0 where
    pub is_notional : i.notional_cents ≡ cents (pos n)
    pub is_read : i.snapshot.chain ≡ some c
    pub below_action_cap : pos n ≤ℤ i.limits.max_action_cents
    pub below_deploy_cap : n * 10000 ≤ c.lane_state.caps.max_deploy_usd6
    pub turnover : ℕ
    pub is_turnover : i.turnover_db_cents_24h ≡ cents (pos turnover)
    pub room :
        HasRoom i.limits.daily_turnover_cents turnover n c.lane_state.caps.turnover_usd6_per_day
          c.lane_state.budgets.turnover_available_usd6

  within_cap-some :
      (n : Option ℕ)
      → is_hedge i.action ≡ false
      → within_cap number T i n ≡ true
      → (m : ℕ) × (c : ChainRead) × (n ≡ some m)
        × (i.snapshot.chain ≡ some c)
        × (passes (below_cap i.limits.max_action_cents m c.lane_state.caps.max_deploy_usd6) ≡ true)
  unfolding within_cap chain_within_cap
  within_cap-some none e h = absurd (ground arith)
  within_cap-some (some m) e h = elim (Option-cases i.snapshot.chain) [
    | inl f ↦ absurd (ground arith)
    | inr (c, f) ↦ (m, c, refl, f, ground arith)
  ]

  within_turnover-some :
      (db : Option ℕ) (m : ℕ) (c : ChainRead)
      → is_hedge i.action ≡ false
      → i.snapshot.chain ≡ some c
      → within_turnover number T i db (some m) ≡ true
      → (used : ℕ) × (db ≡ some used)
        × (passes (
              below_turnover i.limits.daily_turnover_cents used m
                c.lane_state.caps.turnover_usd6_per_day
                c.lane_state.budgets.turnover_available_usd6)
            ≡ true)
  unfolding within_turnover chain_within_turnover
  within_turnover-some none m c e f h = absurd (ground arith)
  within_turnover-some (some used) m c e f h = (used, refl, ground arith)

  -- A step on the chain that adds risk and that the guard lets through has a notional of whole cents
  -- within the configured cap and within the deployment cap of the lane it was read for. With the turnover
  -- of the last day that the database counts it stays within the daily limit, and so it does with what
  -- the lane has used of its own daily turnover, in whole cents rounded up; and it fits in what the lane has left of that.
  pub execute-IsCapped :
      (check_guard number T i).decision ≡ execute
      → is_adding number T i ≡ true
      → is_hedge i.action ≡ false
      → (n : ℕ) × (c : ChainRead) × IsCapped n c
  execute-IsCapped e a h =
      let rules = ((check_guard-execute_iff number T i).0 e).0 in
      let capped : max_action_usd number T i ≡ true = rules G.max_action_usd in
      let turned : daily_turnover number T i ≡ true = rules G.daily_turnover in
      let (n, c, valid, f, cap) =
        within_cap-some (valid_cents i.notional_cents) h (unfold max_action_usd in ground arith) in
      let fits : within_turnover number T i (valid_cents i.turnover_db_cents_24h) (some n) ≡ true =
        unfold daily_turnover in ground arith in
      let (db, counted, turnover) =
        within_turnover-some (valid_cents i.turnover_db_cents_24h) n c h f fits in
      let (action_cap, deploy_cap) =
        below_cap-le i.limits.max_action_cents n c.lane_state.caps.max_deploy_usd6 cap in
      (
        n,
        c,
        record {
          is_notional = valid_cents-some i.notional_cents n valid;
          is_read = f;
          below_action_cap = action_cap;
          below_deploy_cap = deploy_cap;
          turnover = db;
          is_turnover = valid_cents-some i.turnover_db_cents_24h db counted;
          room =
              below_turnover-HasRoom i.limits.daily_turnover_cents db n
                c.lane_state.caps.turnover_usd6_per_day c.lane_state.budgets.turnover_available_usd6
                turnover;
        },
      )
