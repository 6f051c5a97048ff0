-- ===== src/Replay/Conserved.antt =====
-- agent/src/replay/lane.ts: the tokens of a rerange, in balances and positions.
use deltadesk.Prelude.{
  ℕ, suc, ◌+◌, ◌≡◌, refl, ap, subst, sym, ◌∙◌, inl, inr, List, [], ◌∷◌, ◌==◌, arith, Bool-cases,
}
use deltadesk.Prelude.Int.{ℤ, pos, ◌+ℤ◌, ◌-ℤ◌, pos_part, neg_part, int_laws}
use deltadesk.Prelude.Result.{ok, >>=-eq_ok}
use deltadesk.Bands.{RangeSpec}
use deltadesk.Units.Liquidity.{Amounts}
use deltadesk.Replay.{
  SimLane, Minted, amounts_in, add_amounts, position_amounts, unwound_by, unwound, liquidity_of,
  add_position, mint_ranges, apply_rerange,
}

-- What the new positions hold, with what is left, is what there was.
pub record IsConserved (sqrt_price : ℕ) (b0 b1 : ℤ) (m : Minted) : Type 0 where
  pub amounts : Amounts
  pub held : position_amounts m.positions sqrt_price ≡ ok amounts
  pub same0 : m.balance0 +ℤ pos amounts.amount0 ≡ b0
  pub same1 : m.balance1 +ℤ pos amounts.amount1 ≡ b1

module _ (sqrt_price : ℕ) (all0 all1 : ℤ) where
  take_back : (a b : ℤ) (x y : ℕ) → a +ℤ pos y ≡ b -ℤ pos x → a +ℤ pos (x + y) ≡ b
  unfolding ◌+ℤ◌ ◌-ℤ◌
  take_back a b x y h = grind (int_laws, ap pos_part h, ap neg_part h)

  none_left : (a : ℤ) → a +ℤ pos 0 ≡ a
  none_left a = omega int_laws

  added :
      (id : ℕ) (r : RangeSpec) (l : ℕ) (used : Amounts) (b0 b1 : ℤ) (n : Minted)
      → amounts_in sqrt_price r.range l ≡ ok used
      → IsConserved sqrt_price (b0 -ℤ pos used.amount0) (b1 -ℤ pos used.amount1) n
      → IsConserved sqrt_price b0 b1 (add_position id r l n)
  unfolding add_position position_amounts
  added id r l used b0 b1 n e c = record {
    amounts = add_amounts used c.amounts;
    held = rw (e, c.held) refl;
    same0 = take_back n.balance0 b0 used.amount0 c.amounts.amount0 c.same0;
    same1 = take_back n.balance1 b1 used.amount1 c.amounts.amount1 c.same1;
  }

  pub mint_ranges-IsConserved :
      (ranges : List RangeSpec) (id : ℕ) (b0 b1 : ℤ) (m : Minted)
      → mint_ranges sqrt_price all0 all1 ranges id b0 b1 ≡ ok m
      → IsConserved sqrt_price b0 b1 m
  unfolding mint_ranges position_amounts
  mint_ranges-IsConserved [] id b0 b1 m e =
      let left : Minted = record {
        positions = [];
        balance0 = b0;
        balance1 = b1;
        next_token_id = id;
      } in
      let same : left ≡ m = ground arith in
      subst (IsConserved sqrt_price b0 b1) same (record {
        amounts = record { amount0 = 0; amount1 = 0 };
        held = refl;
        same0 = none_left b0;
        same1 = none_left b1;
      })
  mint_ranges-IsConserved (r ∷ rest) id b0 b1 m e =
      let (l, l_eq, after) = >>=-eq_ok (liquidity_of sqrt_price all0 all1 r) _ e in
      elim (Bool-cases (l == 0)) [
        | inl z ↦ mint_ranges-IsConserved rest id b0 b1 m (rw z at after)
        | inr z ↦
            let (used, used_eq, minted) =
              >>=-eq_ok (amounts_in sqrt_price r.range l) _ (rw z at after) in
            let (n, n_eq, same) =
              >>=-eq_ok
                (mint_ranges sqrt_price all0 all1 rest (suc id) (b0 -ℤ pos used.amount0)
                  (b1 -ℤ pos used.amount1))
                _ minted in
            let c = mint_ranges-IsConserved rest (suc id) _ _ n n_eq in
            let same_m : add_position id r l n ≡ m = ground arith in
            subst (IsConserved sqrt_price b0 b1) same_m (added id r l used b0 b1 n used_eq c)
      ]

unwound-held :
    (lane : SimLane) (sqrt_price : ℕ) (a : Amounts)
    → position_amounts lane.positions sqrt_price ≡ ok a
    → unwound lane sqrt_price ≡ ok (unwound_by lane a)
unfolding unwound
unwound-held lane sqrt_price a e = rw e refl

-- A rerange makes and loses no token: when it and the unwinding before it throw nothing, unwinding its
-- result at the same price throws nothing and gives both balances that unwinding the lane gives.
pub unwound-apply_rerange :
    (lane u after : SimLane) (ranges : List RangeSpec) (sqrt_price : ℕ) (now_ms : ℤ) (cents : ℕ)
    → unwound lane sqrt_price ≡ ok u
    → apply_rerange lane ranges sqrt_price now_ms cents ≡ ok after
    → (v : SimLane) × (unwound after sqrt_price ≡ ok v)
      × (v.balance0 ≡ u.balance0)
      × (v.balance1 ≡ u.balance1)
unfolding apply_rerange
unwound-apply_rerange lane u after ranges sqrt_price now_ms cents h e =
    let (m, minted, same) =
      >>=-eq_ok
        (mint_ranges sqrt_price u.balance0 u.balance1 ranges u.next_token_id u.balance0 u.balance1)
        _ (rw h at e) in
    let c =
      mint_ranges-IsConserved sqrt_price u.balance0 u.balance1 ranges u.next_token_id u.balance0
        u.balance1 m minted in
    let positions : m.positions ≡ after.positions = ground arith in
    let left0 : m.balance0 ≡ after.balance0 = ground arith in
    let left1 : m.balance1 ≡ after.balance1 = ground arith in
    (
      unwound_by after c.amounts,
      unwound-held after sqrt_price c.amounts
          (ap (λ l. position_amounts l sqrt_price) (sym positions) ∙ c.held),
      ap (λ b. b +ℤ pos c.amounts.amount0) (sym left0) ∙ c.same0,
      ap (λ b. b +ℤ pos c.amounts.amount1) (sym left1) ∙ c.same1,
    )
