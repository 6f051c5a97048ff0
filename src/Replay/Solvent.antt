-- ===== src/Replay/Solvent.antt =====
-- agent/src/replay/lane.ts: the balances that a rerange leaves.
use native.Mathlib.Nat.{mul-le-mul_left, mul-div-le}
use deltadesk.Prelude.{
  ℕ, suc, ◌+◌, ◌-◌, ◌*◌, ◌/◌, ◌≤◌, ◌≡◌, ◌≢◌, subst, inl, inr, List, [], ◌∷◌, ◌==◌, All, arith,
  Bool-cases,
}
use deltadesk.Prelude.Int.{ℤ, pos, negsuc, ◌-ℤ◌, ◌≤ℤ◌, pos_part, int_laws}
use deltadesk.Prelude.Result.{ok, >>=-eq_ok}
use deltadesk.Bands.{RangeSpec}
use deltadesk.Units.Liquidity.{
  Amounts, get_liquidity_for_amounts, liquidity_between, get_liquidity_for_amount0,
  get_liquidity_for_amount1, get_amounts_for_liquidity,
}
use deltadesk.Units.Liquidity.Bounds.{get_amounts_for_liquidity-le}
use deltadesk.Units.TickMath.{get_sqrt_ratio_at_tick}
use deltadesk.Units.TickMath.Range.{get_sqrt_ratio_at_tick-pos}
use deltadesk.Guard.{share_of_balance}
use deltadesk.Replay.{
  SimLane, Minted, amounts_in, wanted, to_amount, liquidity_of, add_position, unwound, mint_ranges,
  apply_rerange,
}

same_ratio : (p a x y l : ℕ) → get_liquidity_for_amounts p a a x y ≡ ok l → l ≡ 0
unfolding get_liquidity_for_amounts liquidity_between get_liquidity_for_amount0
    get_liquidity_for_amount1
same_ratio p a x y l e = ground arith

wanted-eq :
    (balance want : ℕ) (share : ℤ)
    → pos 0 ≤ℤ share
    → to_amount (wanted (pos balance) share) ≡ ok want
    → want ≡ balance * pos_part share / 10000
unfolding wanted to_amount share_of_balance
wanted-eq balance want (pos s) h e = ground arith
wanted-eq balance want (negsuc n) h e = absurd (omega arith)

-- What a range takes of a token, against its share of a balance.
abbrev Covers : ℕ → ℤ → ℕ → Type 0
Covers balance share used = used * 10000 ≤ balance * pos_part share

covers :
    (balance want used : ℕ) (share : ℤ)
    → want ≡ balance * pos_part share / 10000
    → used ≤ want
    → Covers balance share used
covers balance want used share e h = omega (arith, mul-div-le (balance * pos_part share) 10000)

module _ (sqrt_price balance0 balance1 : ℕ) where
  amounts-Covers :
      (r : RangeSpec) (l : ℕ) (used : Amounts)
      → pos 0 ≤ℤ r.share0_bps
      → pos 0 ≤ℤ r.share1_bps
      → liquidity_of sqrt_price (pos balance0) (pos balance1) r ≡ ok l
      → l ≢ 0
      → amounts_in sqrt_price r.range l ≡ ok used
      → Covers balance0 r.share0_bps used.amount0 × Covers balance1 r.share1_bps used.amount1
  unfolding liquidity_of amounts_in
  amounts-Covers r l used h0 h1 e ne u =
      let (x, x_eq, e1) = >>=-eq_ok (to_amount (wanted (pos balance0) r.share0_bps)) _ e in
      let (y, y_eq, e2) = >>=-eq_ok (to_amount (wanted (pos balance1) r.share1_bps)) _ e1 in
      let (a, a_eq, e3) = >>=-eq_ok (get_sqrt_ratio_at_tick r.range.tick_lower) _ e2 in
      let (b, b_eq, e4) = >>=-eq_ok (get_sqrt_ratio_at_tick r.range.tick_upper) _ e3 in
      let (t, t_eq, le0, le1) =
        get_amounts_for_liquidity-le sqrt_price a b x y l (get_sqrt_ratio_at_tick-pos _ a a_eq)
          (get_sqrt_ratio_at_tick-pos _ b b_eq)
          (λ same. ne (
            same_ratio sqrt_price b x y l
              (subst (λ c. get_liquidity_for_amounts sqrt_price c b x y ≡ ok l) same e4)))
          e4 in
      let computed : get_amounts_for_liquidity sqrt_price a b l ≡ ok used = rw (a_eq, b_eq) at u in
      let same_amounts : t ≡ used = ground arith in
      (
        covers balance0 x used.amount0 r.share0_bps (wanted-eq balance0 x _ h0 x_eq)
            (subst (λ (c : Amounts). c.amount0 ≤ x) same_amounts le0),
        covers balance1 y used.amount1 r.share1_bps (wanted-eq balance1 y _ h1 y_eq)
            (subst (λ (c : Amounts). c.amount1 ≤ y) same_amounts le1),
      )

-- The sums of the shares.
unfoldable pub total_share0 : List RangeSpec → ℕ
total_share0 [] = 0
total_share0 (r ∷ rest) = pos_part r.share0_bps + total_share0 rest

unfoldable pub total_share1 : List RangeSpec → ℕ
total_share1 [] = 0
total_share1 (r ∷ rest) = pos_part r.share1_bps + total_share1 rest

-- No share is negative.
abbrev pub HasShares : RangeSpec → Type 0
HasShares r = (pos 0 ≤ℤ r.share0_bps) × (pos 0 ≤ℤ r.share1_bps)

abbrev pub IsSolvent : ℤ → ℤ → Type 0
IsSolvent b0 b1 = (pos 0 ≤ℤ b0) × (pos 0 ≤ℤ b1)

spend : (b x : ℕ) → x ≤ b → pos b -ℤ pos x ≡ pos (b - x)
spend b x h = omega int_laws

-- What is left after one range still covers the others.
left_over :
    (balance b used rest : ℕ) (share : ℤ)
    → Covers balance share used
    → balance * (pos_part share + rest) ≤ b * 10000
    → (used ≤ b) × (balance * rest ≤ (b - used) * 10000)
left_over balance b used rest share h e = (omega arith, omega arith)

module _ (sqrt_price balance0 balance1 : ℕ) where
  mint_ranges-IsSolvent :
      (ranges : List RangeSpec) (id b0 b1 : ℕ) (m : Minted)
      → All HasShares ranges
      → balance0 * total_share0 ranges ≤ b0 * 10000
      → balance1 * total_share1 ranges ≤ b1 * 10000
      → mint_ranges sqrt_price (pos balance0) (pos balance1) ranges id (pos b0) (pos b1) ≡ ok m
      → IsSolvent m.balance0 m.balance1
  unfolding mint_ranges add_position total_share0 total_share1
  mint_ranges-IsSolvent [] id b0 b1 m h le0 le1 e =
      let same0 : pos b0 ≡ m.balance0 = ground arith in
      let same1 : pos b1 ≡ m.balance1 = ground arith in
      (subst (λ b. pos 0 ≤ℤ b) same0 (omega arith), subst (λ b. pos 0 ≤ℤ b) same1 (omega arith))
  mint_ranges-IsSolvent (r ∷ rest) id b0 b1 m ((h0, h1), h) le0 le1 e =
      let (l, l_eq, after) =
        >>=-eq_ok (liquidity_of sqrt_price (pos balance0) (pos balance1) r) _ e in
      elim (Bool-cases (l == 0)) [
        | inl z ↦
            mint_ranges-IsSolvent rest id b0 b1 m h (omega arith) (omega arith) (rw z at after)
        | inr z ↦
            let (used, used_eq, minted) =
              >>=-eq_ok (amounts_in sqrt_price r.range l) _ (rw z at after) in
            let (c0, c1) =
              amounts-Covers sqrt_price balance0 balance1 r l used h0 h1 l_eq
                (λ zero_l. ground arith) used_eq in
            let (fits0, more0) =
              left_over balance0 b0 used.amount0 (total_share0 rest) r.share0_bps c0 le0 in
            let (fits1, more1) =
              left_over balance1 b1 used.amount1 (total_share1 rest) r.share1_bps c1 le1 in
            let (n, n_eq, same) =
              >>=-eq_ok
                (mint_ranges sqrt_price (pos balance0) (pos balance1) rest (suc id)
                  (pos b0 -ℤ pos used.amount0) (pos b1 -ℤ pos used.amount1))
                _ minted in
            let same0 : n.balance0 ≡ m.balance0 = ground arith in
            let same1 : n.balance1 ≡ m.balance1 = ground arith in
            let (n0, n1) =
              mint_ranges-IsSolvent rest (suc id) (b0 - used.amount0) (b1 - used.amount1) n h more0
                more1 (rw (spend b0 used.amount0 fits0, spend b1 used.amount1 fits1) at n_eq) in
            (subst (λ b. pos 0 ≤ℤ b) same0 n0, subst (λ b. pos 0 ≤ℤ b) same1 n1)
      ]

-- A rerange whose shares are not negative and add up to 10000 basis points of each token at most leaves
-- no balance below zero, when the balances after the unwinding are not below zero.
pub apply_rerange-IsSolvent :
    (lane u after : SimLane) (ranges : List RangeSpec) (sqrt_price : ℕ) (now_ms : ℤ)
    (balance0 balance1 cents : ℕ)
    → All HasShares ranges
    → total_share0 ranges ≤ 10000
    → total_share1 ranges ≤ 10000
    → unwound lane sqrt_price ≡ ok u
    → u.balance0 ≡ pos balance0
    → u.balance1 ≡ pos balance1
    → apply_rerange lane ranges sqrt_price now_ms cents ≡ ok after
    → IsSolvent after.balance0 after.balance1
unfolding apply_rerange
apply_rerange-IsSolvent lane u after ranges sqrt_price now_ms balance0 balance1 cents h le0 le1 un
      q0 q1 e =
    let (m, minted, same) =
      >>=-eq_ok
        (mint_ranges sqrt_price u.balance0 u.balance1 ranges u.next_token_id u.balance0 u.balance1)
        _ (rw un at e) in
    let (m0, m1) =
      mint_ranges-IsSolvent sqrt_price balance0 balance1 ranges u.next_token_id balance0 balance1 m
        h (mul-le-mul_left balance0 le0) (mul-le-mul_left balance1 le1) (rw (q0, q1) at minted) in
    let left0 : m.balance0 ≡ after.balance0 = ground arith in
    let left1 : m.balance1 ≡ after.balance1 = ground arith in
    (subst (λ b. pos 0 ≤ℤ b) left0 m0, subst (λ b. pos 0 ≤ℤ b) left1 m1)
