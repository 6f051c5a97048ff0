-- ===== src/Units/Money/Rounding.antt =====
-- A cap never grows by rounding and a spend never shrinks.
use deltadesk.Prelude.{ℕ, ◌+◌, ◌*◌, ◌≤◌, ◌≡◌, arith}
use deltadesk.Prelude.Int.{pos}
use deltadesk.Prelude.Result.{ok}
use deltadesk.Units.Money.{usd6_to_cents_floor, usd6_to_cents_ceil, cents_to_usd6}

-- Whole cents survive the trip to usd6 and back, whichever way the conversion rounds.
pub cents_roundtrip :
    (c u : ℕ)
    → cents_to_usd6 (pos c) ≡ ok u
    → (usd6_to_cents_floor (pos u) ≡ ok c) × (usd6_to_cents_ceil (pos u) ≡ ok c)
unfolding cents_to_usd6 usd6_to_cents_floor usd6_to_cents_ceil
cents_roundtrip c u h = ground arith

-- The rounded-down cap is worth at most the amount, the rounded-up spend at least, and they differ
-- by at most a cent.
pub cents_bracket :
    (u f c : ℕ)
    → usd6_to_cents_floor (pos u) ≡ ok f
    → usd6_to_cents_ceil (pos u) ≡ ok c
    → (f * 10000 ≤ u) × (u ≤ c * 10000) × (f ≤ c) × (c ≤ f + 1)
unfolding usd6_to_cents_floor usd6_to_cents_ceil
cents_bracket u f c hf hc = ground arith
