-- ===== src/Executor/DecisionId/RoundTrip.antt =====
-- agent/src/executor/decision-id.ts: a decision id decodes to the ULID and the step it was made of.
use native.Mathlib.Nat.{
  mul-add-div_right, mul-add-mod_self_right, div-eq_of_lt, mod-eq_of_lt, mul-le-mul_left, pow-suc,
  div-add-mod', div-lt_iff_lt-mul, mul-one, pow-zero, le_trans, mul-le-mul_right,
}
use deltadesk.Prelude.{
  ℕ, zero, suc, ◌+◌, ◌*◌, ◌/◌, ◌%◌, ◌^◌, ◌≤◌, ◌<◌, ◌≡◌, refl, ap, subst, ◌∙◌, true, false, List, [],
  ◌∷◌, ◌++◌, length, every, arith, ltb,
}
use deltadesk.Prelude.Result.{ok, ◌>>=◌, >>=-eq_ok}
use deltadesk.Executor.DecisionId.{
  from_digits, to_digits, is_ulid, first_at_most, ulid_to_bytes, bytes_to_ulid, tail,
  encode_decision_id, decode_decision_id, decode_parts, front_of, rest_of,
}

length-to_digits : (base n v : ℕ) (out : List ℕ) → length (to_digits base n v out) ≡ n + length out
unfolding to_digits
length-to_digits base zero v out = omega arith
length-to_digits base (suc n) v out =
    omega (arith, length-to_digits base n (v / base) (v % base ∷ out))

-- Dividing what a digit was added to gives back both.
module _ (base v d : ℕ) (h : d < base) where
  divides : (v * base + d) / base ≡ v
  divides = mul-add-div_right (omega arith) v d ∙ ap (λ q. v + q) (div-eq_of_lt h) ∙ omega arith

  remains : (v * base + d) % base ≡ d
  remains = mul-add-mod_self_right v base d ∙ mod-eq_of_lt h

to_digits_digit :
    (base k v d : ℕ) (out : List ℕ)
    → d < base
    → to_digits base (suc k) (v * base + d) out ≡ to_digits base k v (d ∷ out)
unfolding to_digits
to_digits_digit base k v d out h = rw (divides base v d h, remains base v d h)

to_digits-from_digits :
    (base k v : ℕ) (ds out : List ℕ)
    → every (λ d. ltb d base) ds ≡ true
    → to_digits base (length ds + k) (from_digits base v ds) out ≡ to_digits base k v (ds ++ out)
unfolding from_digits
to_digits-from_digits base k v [] out h = ap (λ m. to_digits base m v out) (omega arith)
to_digits-from_digits base k v (d ∷ ds) out h =
    let small : d < base = ground arith in
    ap (λ m. to_digits base m (from_digits base (v * base + d) ds) out) (omega arith)
    ∙ to_digits-from_digits base (suc k) (v * base + d) ds out (ground arith)
    ∙ to_digits_digit base k v d (ds ++ out) small

scaled_by_one : (a base : ℕ) → a * base ^ 0 ≡ a
scaled_by_one a base = ap (λ m. a * m) (pow-zero base) ∙ mul-one a

from_digits-to_digits :
    (base n a v : ℕ) (out : List ℕ)
    → 0 < base
    → v < base ^ n
    → from_digits base a (to_digits base n v out) ≡ from_digits base (a * base ^ n + v) out
unfolding to_digits from_digits
from_digits-to_digits base zero a v out positive h =
    ap (λ m. from_digits base m out) (omega (arith, pow-zero base, scaled_by_one a base))
from_digits-to_digits base (suc n) a v out positive h =
    from_digits-to_digits base n a (v / base) (v % base ∷ out) positive
      ((div-lt_iff_lt-mul positive).1 (subst (λ m. v < m) (pow-suc base n) h))
    ∙ ap (λ m. from_digits base m out) joined
  where
    joined : (a * base ^ n + v / base) * base + v % base ≡ a * base ^ suc n + v
    joined = grind (arith, pow-suc base n, div-add-mod' v base)

from_digits-lt :
    (base v : ℕ) (ds : List ℕ)
    → every (λ d. ltb d base) ds ≡ true
    → from_digits base v ds < (v + 1) * base ^ length ds
unfolding from_digits
from_digits-lt base v [] h = omega (arith, scaled_by_one (v + 1) base)
from_digits-lt base v (d ∷ ds) h =
    let small : d < base = ground arith in
    let below = from_digits-lt base (v * base + d) ds (ground arith) in
    let scaled =
      mul-le-mul_left {m = v * base + d + 1} {n = (v + 1) * base} (base ^ length ds)
        (omega arith) in
    let n = length ds in
    let assoc : (v + 1) * base ^ suc n ≡ base ^ n * ((v + 1) * base) =
      grind (arith, pow-suc base n) in
    omega (arith, assoc, below, scaled)

front_of-++ : (xs ys : List ℕ) → front_of (length xs) (xs ++ ys) ≡ xs
unfolding front_of
front_of-++ [] ys = refl
front_of-++ (x ∷ xs) ys = ap (λ l. x ∷ l) (front_of-++ xs ys)

rest_of-++ : (xs ys : List ℕ) → rest_of (length xs) (xs ++ ys) ≡ ys
unfolding rest_of
rest_of-++ [] ys = refl
rest_of-++ (x ∷ xs) ys = rest_of-++ xs ys

length-++ : (xs ys : List ℕ) → length (xs ++ ys) ≡ length xs + length ys
length-++ [] ys = omega arith
length-++ (x ∷ xs) ys = omega (arith, length-++ xs ys)

++_nil : (xs : List ℕ) → xs ++ [] ≡ xs
++_nil [] = refl
++_nil (x ∷ xs) = ap (λ l. x ∷ l) (++_nil xs)

-- The number of a ULID has 128 bits.
from_ulid-lt : (ds : List ℕ) → is_ulid ds ≡ true → from_digits 32 0 ds < 256 ^ 16
unfolding is_ulid from_digits first_at_most
from_ulid-lt [] h = absurd (ground arith)
from_ulid-lt (d ∷ ds) h =
    let first : d ≤ 7 = ground arith in
    let count : length ds ≡ 25 = ground arith in
    let v = 0 * 32 + d in
    let below = from_digits-lt 32 v ds (ground arith) in
    let small : from_digits 32 v ds < (v + 1) * 32 ^ 25 =
      subst (λ n. from_digits 32 v ds < (v + 1) * 32 ^ n) count below in
    le_trans small (mul-le-mul_right {m = v + 1} {n = 8} (32 ^ 25) (omega arith))

ulid_digits : (ds : List ℕ) → is_ulid ds ≡ true → every (λ d. ltb d 32) ds ≡ true
unfolding is_ulid
ulid_digits ds h = ground arith

ulid_length : (ds : List ℕ) → is_ulid ds ≡ true → length ds ≡ 26
unfolding is_ulid
ulid_length ds h = ground arith

from_digits-nil : (v : ℕ) → from_digits 256 v [] ≡ v
unfolding from_digits
from_digits-nil v = refl

bytes_to_ulid_lem :
    (bytes : List ℕ)
    → length bytes ≡ 16
    → bytes_to_ulid bytes ≡ ok (to_digits 32 26 (from_digits 256 0 bytes) [])
unfolding bytes_to_ulid
bytes_to_ulid_lem bytes h = ground arith

-- The bytes of a ULID give it back.
pub bytes_to_ulid-ulid_to_bytes :
    (ulid bytes : List ℕ)
    → ulid_to_bytes ulid ≡ ok bytes
    → (length bytes ≡ 16) × (bytes_to_ulid bytes ≡ ok ulid)
unfolding ulid_to_bytes
bytes_to_ulid-ulid_to_bytes ulid bytes h =
    let valid : is_ulid ulid ≡ true = ground arith in
    let v = from_digits 32 0 ulid in
    let same : to_digits 256 16 v [] ≡ bytes = ground arith in
    let count : length (to_digits 256 16 v []) ≡ 16 = length-to_digits 256 16 v [] in
    let value : from_digits 256 0 (to_digits 256 16 v []) ≡ v =
      from_digits-to_digits 256 16 0 v [] (omega arith) (from_ulid-lt ulid valid)
      ∙ from_digits-nil (0 * 256 ^ 16 + v)
      ∙ omega arith in
    let count_digits : 26 ≡ length ulid + 0 = omega (arith, ulid_length ulid valid) in
    let digits : to_digits 32 26 v [] ≡ ulid =
      ap (λ n. to_digits 32 n v []) count_digits
      ∙ to_digits-from_digits 32 0 0 ulid [] (ulid_digits ulid valid)
      ∙ ++_nil ulid in
    subst (λ b. (length b ≡ 16) × (bytes_to_ulid b ≡ ok ulid)) same
      (
        count,
        bytes_to_ulid_lem (to_digits 256 16 v []) count
            ∙ ap (λ x. ok (to_digits 32 26 x [])) value
            ∙ ap ok digits,
      )

decode_decision_id_lem :
    (bytes : List ℕ) (step : ℕ)
    → length bytes ≡ 16
    → (length (bytes ++ 1 ∷ step ∷ tail) ≡ 32)
      × (decode_decision_id (bytes ++ 1 ∷ step ∷ tail) ≡ decode_parts bytes (1 ∷ step ∷ tail))
unfolding decode_decision_id
decode_decision_id_lem bytes step h =
    let all = length-++ bytes (1 ∷ step ∷ tail) in
    let count : length (bytes ++ 1 ∷ step ∷ tail) ≡ 32 = omega (arith, all, h) in
    let front : front_of 16 (bytes ++ 1 ∷ step ∷ tail) ≡ bytes =
      subst (λ n. front_of n (bytes ++ 1 ∷ step ∷ tail) ≡ bytes) h
        (front_of-++ bytes (1 ∷ step ∷ tail)) in
    let rest : rest_of 16 (bytes ++ 1 ∷ step ∷ tail) ≡ 1 ∷ step ∷ tail =
      subst (λ n. rest_of n (bytes ++ 1 ∷ step ∷ tail) ≡ 1 ∷ step ∷ tail) h
        (rest_of-++ bytes (1 ∷ step ∷ tail)) in
    (count, rw (count, front, rest))

decode_parts_lem :
    (bytes ulid : List ℕ) (step : ℕ)
    → bytes_to_ulid bytes ≡ ok ulid
    → decode_parts bytes (1 ∷ step ∷ tail) ≡ ok (record { ulid = ulid; version = 1; step = step })
unfolding decode_parts
decode_parts_lem bytes ulid step h = rw h

decoded-encode_decision_id :
    (ulid : List ℕ) (step : ℕ) (id : List ℕ)
    → encode_decision_id ulid step ≡ ok id
    → (length id ≡ 32)
      × (decode_decision_id id ≡ ok (record { ulid = ulid; version = 1; step = step }))
unfolding encode_decision_id
decoded-encode_decision_id ulid step id h =
    let made : (ulid_to_bytes ulid >>= λ bytes. ok (bytes ++ 1 ∷ step ∷ tail)) ≡ ok id =
      ground arith in
    let (bytes, from_ulid, rest) = >>=-eq_ok (ulid_to_bytes ulid) _ made in
    let same : bytes ++ 1 ∷ step ∷ tail ≡ id = ground arith in
    let (count, back) = bytes_to_ulid-ulid_to_bytes ulid bytes from_ulid in
    let (all, parts) = decode_decision_id_lem bytes step count in
    subst
      (λ i.
        (length i ≡ 32)
        × (decode_decision_id i ≡ ok (record { ulid = ulid; version = 1; step = step })))
      same (all, parts ∙ decode_parts_lem bytes ulid step back)

-- A ULID and a step of at most 255 make a decision id of 32 bytes, which decodes to both.
pub decode-encode_decision_id :
    (ulid : List ℕ) (step : ℕ)
    → is_ulid ulid ≡ true
    → step ≤ 255
    → (id : List ℕ) × (encode_decision_id ulid step ≡ ok id)
      × (length id ≡ 32)
      × (decode_decision_id id ≡ ok (record { ulid = ulid; version = 1; step = step }))
unfolding encode_decision_id ulid_to_bytes
decode-encode_decision_id ulid step valid small =
    let id = to_digits 256 16 (from_digits 32 0 ulid) [] ++ 1 ∷ step ∷ tail in
    let fits : ltb 255 step ≡ false = ground arith in
    let made : encode_decision_id ulid step ≡ ok id = rw (fits, valid) in
    let (count, decoded) = decoded-encode_decision_id ulid step id made in
    (id, made, count, decoded)
