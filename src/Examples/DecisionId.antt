-- ===== src/Examples/DecisionId.antt =====
-- The theorems on decision ids at concrete inputs.
use deltadesk.Prelude.{ℕ, ◌≡◌, refl, List, [], ◌∷◌, ◌++◌, length, arith}
use deltadesk.Prelude.Result.{ok}
use deltadesk.Executor.DecisionId.{is_ulid, first_at_most, encode_decision_id, decode_decision_id}
use deltadesk.Executor.DecisionId.RoundTrip.{decode-encode_decision_id}

abbrev ten : List ℕ
ten = 1 ∷ 2 ∷ 3 ∷ 4 ∷ 5 ∷ 6 ∷ 7 ∷ 8 ∷ 9 ∷ 31 ∷ []

abbrev ulid : List ℕ
ulid = 7 ∷ 0 ∷ 30 ∷ 29 ∷ 1 ∷ 2 ∷ ten ++ ten

decode-encode_decision_id_example :
    (id : List ℕ) × (encode_decision_id ulid 3 ≡ ok id)
    × (length id ≡ 32)
    × (decode_decision_id id ≡ ok (record { ulid = ulid; version = 1; step = 3 }))
unfolding is_ulid first_at_most
decode-encode_decision_id_example = decode-encode_decision_id ulid 3 refl (omega arith)
