-- ===== src/Prelude/Result.antt =====
-- Results of code that may throw. An `Error` is the class of the exception that the source throws,
-- without its message.
use mathlib.Core.Path.{◌≡◌, refl}
use mathlib.Core.Bool.{Bool, true, false}
use native.Mathlib.Omega.{arith}

-- `RangeError`, and the codes of `ExecError` that the modelled code throws.
pub data Error : Type 0 where
  range_error gas_cap unknown_attempt : Error

pub data Result {ℓ} (A : Type ℓ) : Type ℓ where
  err : Error → Result A
  ok : A → Result A

-- `if (!test) throw e`.
abbrev pub guard : Bool → Error → Result (Unit {0})
guard false e = err e
guard true e = ok tt

infixl 5 ◌>>=◌ ◌>>◌
-- The rest of the code after a call that may throw.
abbrev pub ◌>>=◌ {ℓ κ} :
    {B : Type κ} {A : Type ℓ} (first : Result A) (rest : A → Result B) → Result B
err e >>= rest = err e
ok a >>= rest = rest a

abbrev pub ◌>>◌ {κ} : {B : Type κ} (first : Result (Unit {0})) (rest : Result B) → Result B
err e >> rest = err e
ok done >> rest = rest

-- What a run that threw nothing went through.
pub >>=-eq_ok {ℓ κ} :
    {B : Type κ} {b : B} {A : Type ℓ} (first : Result A) (rest : A → Result B)
    → (first >>= rest) ≡ ok b
    → (a : A) × (first ≡ ok a) × (rest a ≡ ok b)
>>=-eq_ok (err e) rest h = ground arith
>>=-eq_ok (ok a) rest h = (a, refl, h)
