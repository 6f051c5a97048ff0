-- ===== src/Executor/Receipt.antt =====
-- agent/src/executor/broadcaster.ts, `waitForReceipt`: the poll for the receipt of one transaction. What
-- the chain answers a poll, and the time since the start when it has answered, are functions of the
-- number of the poll. The loop runs on fuel.
use native.Mathlib.Decide.{dec_le}
use deltadesk.Prelude.{
  ℕ, zero, suc, ◌+◌, ◌≤◌, ◌<◌, ◌≡◌, inl, inr, Bool, true, false, Option, none, some, leb, arith,
  subst, Option-cases, if◌then◌else◌,
}
use deltadesk.Executor.Signing.{Answer, thrown, given}

pub data ReceiptOutcome : Type 0 where
  confirmed reverted timeout : ReceiptOutcome

unfoldable pub outcome_of_receipt : Bool → ReceiptOutcome
outcome_of_receipt true = confirmed
outcome_of_receipt false = reverted

-- The receipt that a poll finds, with whether it is a success; an error of the chain finds none.
unfoldable pub receipt_in : Answer (Option Bool) → Option Bool
receipt_in (thrown code) = none
receipt_in (given r) = r

module _ (polled : ℕ → Answer (Option Bool)) (elapsed_ms : ℕ → ℕ) (timeout_ms : ℕ) where
  unfoldable pub wait_from : ℕ → ℕ → Option ReceiptOutcome
  unfolding receipt_in outcome_of_receipt
  wait_from zero n = none
  wait_from (suc fuel) n =
      let later = wait_from fuel (suc n) in
      elim (receipt_in (polled n)) as (λ _. Option ReceiptOutcome) [
        | some success ↦ some (outcome_of_receipt success)
        | none ↦ if leb timeout_ms (elapsed_ms n) then some timeout else later
      ]

  -- Each poll but the last takes a millisecond at least.
  unfoldable pub wait_for_receipt : Option ReceiptOutcome
  unfolding wait_from
  wait_for_receipt = wait_from (suc timeout_ms) 0

  -- No poll from `n` on and before `k` finds a receipt.
  abbrev pub FindsNothing : ℕ → ℕ → Type 0
  FindsNothing n k = (j : ℕ) → n ≤ j → j < k → receipt_in (polled j) ≡ none

  -- How the wait ends at the poll `k`.
  abbrev pub EndsAt : ℕ → ReceiptOutcome → Type 0
  EndsAt k confirmed = receipt_in (polled k) ≡ some true
  EndsAt k reverted = receipt_in (polled k) ≡ some false
  EndsAt k timeout = (receipt_in (polled k) ≡ none) × (timeout_ms ≤ elapsed_ms k)

  abbrev pub Ends : ℕ → Option ReceiptOutcome → Type 0
  Ends n result = (r : ReceiptOutcome) × (k : ℕ) × (result ≡ some r) × EndsAt k r × FindsNothing n k

  found-Ends :
      (fuel n : ℕ) (success : Bool)
      → receipt_in (polled n) ≡ some success
      → Ends n (wait_from (suc fuel) n)
  unfolding wait_from outcome_of_receipt
  found-Ends fuel n true e = (confirmed, n, ground arith, e, λ j lo hi. absurd (omega arith))
  found-Ends fuel n false e = (reverted, n, ground arith, e, λ j lo hi. absurd (omega arith))

  timeout-Ends :
      (fuel n : ℕ)
      → receipt_in (polled n) ≡ none
      → timeout_ms ≤ elapsed_ms n
      → Ends n (wait_from (suc fuel) n)
  unfolding wait_from
  timeout-Ends fuel n e h = (timeout, n, ground arith, (e, h), λ j lo hi. absurd (omega arith))

  later-Ends :
      (fuel n : ℕ)
      → receipt_in (polled n) ≡ none
      → elapsed_ms n < timeout_ms
      → Ends (suc n) (wait_from fuel (suc n))
      → Ends n (wait_from (suc fuel) n)
  unfolding wait_from
  later-Ends fuel n e h (r, k, same, ends, nothing) = (
    r,
    k,
    ground arith,
    ends,
    λ j lo hi. elim (dec_le (suc n) j) [
      | yes after ↦ nothing j after hi
      | no first ↦ subst (λ i. receipt_in (polled i) ≡ none) (omega arith) e
    ],
  )

  module _ (grows : (n : ℕ) → elapsed_ms n < elapsed_ms (suc n)) where
    wait_from-Ends :
        (fuel n : ℕ) → timeout_ms ≤ elapsed_ms n + fuel → Ends n (wait_from (suc fuel) n)
    wait_from-Ends zero n h = elim (Option-cases (receipt_in (polled n))) [
      | inr (success, e) ↦ found-Ends zero n success e
      | inl e ↦ timeout-Ends zero n e (omega arith)
    ]
    wait_from-Ends (suc fuel) n h =
        let later = wait_from-Ends fuel (suc n) (omega (arith, grows n)) in
        elim (Option-cases (receipt_in (polled n))) [
          | inr (success, e) ↦ found-Ends (suc fuel) n success e
          | inl e ↦ elim (dec_le timeout_ms (elapsed_ms n)) [
            | yes over ↦ timeout-Ends (suc fuel) n e over
            | no waiting ↦ later-Ends (suc fuel) n e (omega arith) later
          ]
        ]

    -- When each poll takes a millisecond at least, the wait ends, within its fuel: at the first poll that
    -- finds a receipt, with whether it is a success, or as a timeout, at a poll at which the time is up, if
    -- it and all polls before it find none. An error of the chain ends nothing.
    pub wait_for_receipt-Ends : Ends 0 wait_for_receipt
    unfolding wait_for_receipt
    wait_for_receipt-Ends = wait_from-Ends timeout_ms 0 (omega arith)
