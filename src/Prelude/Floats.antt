-- ===== src/Prelude/Floats.antt =====
-- What the modelled code uses of JavaScript's floating-point numbers: a type and its operations,
-- with no law. It is a parameter wherever a float reaches a decision.
use mathlib.Core.Bool.{Bool}
use deltadesk.Prelude.Int.{ℤ}

pub record Floats : Type 1 where
  pub Float : Type 0
  pub of_ℤ : ℤ → Float
  pub add : Float → Float → Float
  pub sub : Float → Float → Float
  pub mul : Float → Float → Float
  pub div : Float → Float → Float
  pub abs : Float → Float
  pub is_finite : Float → Bool
  pub lt : Float → Float → Bool
  pub le : Float → Float → Bool
