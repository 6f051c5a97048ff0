-- ===== src/Executor/DecisionId.antt =====
-- agent/src/executor/decision-id.ts: a ULID as its 26 digits of base 32, an on-chain decision id as its 32
-- bytes. Digits are the indexes of a ULID's letters; the texts and their regular expressions are left
-- out.
pub mod RoundTrip
use deltadesk.Prelude.{
  ℕ, zero, suc, ◌+◌, ◌*◌, ◌/◌, ◌%◌, ◌^◌, ◌≤◌, ◌<◌, ◌≡◌, refl, sym, ap, subst, ◌∙◌, Bool, true,
  false, not, ◌&&◌, List, [], ◌∷◌, ◌++◌, length, every, arith, ltb, leb, ◌==◌, if◌then◌else◌,
}
use deltadesk.Prelude.Result.{Result, ok, err, range_error, ◌>>=◌}

-- The number of big-endian digits, after the digits so far.
unfoldable pub from_digits : ℕ → ℕ → List ℕ → ℕ
from_digits base v [] = v
from_digits base v (d ∷ ds) = from_digits base (v * base + d) ds

-- So many big-endian digits of a number, in front of those so far.
unfoldable pub to_digits : ℕ → ℕ → ℕ → List ℕ → List ℕ
to_digits base zero v out = out
to_digits base (suc left) v out = to_digits base left (v / base) (v % base ∷ out)

unfoldable pub first_at_most : ℕ → List ℕ → Bool
first_at_most n [] = false
first_at_most n (d ∷ ds) = leb d n

-- 26 digits, the first of them at most 7.
unfoldable pub is_ulid : List ℕ → Bool
unfolding first_at_most
is_ulid ds = length ds == 26 && first_at_most 7 ds && every (λ d. ltb d 32) ds

unfoldable pub ulid_to_bytes : List ℕ → Result (List ℕ)
unfolding is_ulid from_digits to_digits
ulid_to_bytes ulid =
    if not (is_ulid ulid) then err range_error else ok (to_digits 256 16 (from_digits 32 0 ulid) [])

unfoldable pub bytes_to_ulid : List ℕ → Result (List ℕ)
unfolding from_digits to_digits
bytes_to_ulid bytes =
    if not (length bytes == 16)
    then err range_error
    else ok (to_digits 32 26 (from_digits 256 0 bytes) [])

pub record Decoded : Type 0 where
  pub ulid : List ℕ
  pub version : ℕ
  pub step : ℕ

-- The 14 bytes after the step.
abbrev pub tail : List ℕ
tail = 0 ∷ 0 ∷ 0 ∷ 0 ∷ 0 ∷ 0 ∷ 0 ∷ 0 ∷ 0 ∷ 0 ∷ 0 ∷ 0 ∷ 0 ∷ 0 ∷ []

unfoldable pub encode_decision_id : List ℕ → ℕ → Result (List ℕ)
unfolding ulid_to_bytes
encode_decision_id ulid step =
    if ltb 255 step
    then err range_error
    else do bytes ← ulid_to_bytes ulid; ok (bytes ++ 1 ∷ step ∷ tail)

-- `subarray(0, n)`, and what follows it.
unfoldable pub front_of : ℕ → List ℕ → List ℕ
front_of zero bytes = []
front_of (suc n) [] = []
front_of (suc n) (b ∷ bytes) = b ∷ front_of n bytes

unfoldable pub rest_of : ℕ → List ℕ → List ℕ
rest_of zero bytes = bytes
rest_of (suc n) [] = []
rest_of (suc n) (b ∷ bytes) = rest_of n bytes

unfoldable pub decode_parts : List ℕ → List ℕ → Result Decoded
unfolding bytes_to_ulid
decode_parts front (version ∷ step ∷ zeros) =
    if not (version == 1)
    then err range_error
    else if not (every (λ b. b == 0) zeros)
    then err range_error
    else do ulid ← bytes_to_ulid front; ok (record { ulid = ulid; version = version; step = step })
decode_parts front _ = err range_error

unfoldable pub decode_decision_id : List ℕ → Result Decoded
unfolding decode_parts front_of rest_of
decode_decision_id id =
    if not (length id == 32) then err range_error else decode_parts (front_of 16 id) (rest_of 16 id)
