-- ===== src/Executor/Rh/Unsent.antt =====
-- agent/src/executor/rh-executor.ts, `run`: the sends of what is called outside the broadcast loop.
use deltadesk.Prelude.{ℕ, ◌*◌, ◌≡◌, refl, ◌⊎◌, inl, inr}
use deltadesk.Guard.Input.{TxCall}
use deltadesk.Executor.Fees.{quote, gas_limit_for}
use deltadesk.Executor.Signing.{Answer, Answer-cases, thrown, given}
use deltadesk.Executor.Store.{Store}
use deltadesk.Executor.Rh.{Config, PreparedStep, World, Exec, ◌>>=◌, or_throw}
use deltadesk.Executor.Rh.Run.{
  settled, resimulated, gas_check, next_nonce, fetch_nonce, set_simulated, simulate_again, settle,
}

by_answer :
    {A B : Type 0} (P : Store → Type 0) (r : Answer A × Store) (k : A → Exec B)
    → P r.1
    → ((a : A) → r.0 ≡ given a → P (k a r.1).1)
    → P
        (elim r.0 as (λ _. Answer B × Store) [
          | given a ↦ k a r.1
          | thrown code ↦ (thrown code, r.1)
        ]).1
by_answer P (thrown code, t) k here rest = here
by_answer P (given a, t) k here rest = rest a refl

-- What holds after a call and the rest of the code: it holds where the call throws, and after the rest.
pub after_call :
    {A B : Type 0} (P : Store → Type 0) (m : Exec A) (k : A → Exec B) (s : Store)
    → P (m s).1
    → ((a : A) → (m s).0 ≡ given a → P (k a (m s).1).1)
    → P ((m >>= k) s).1
unfolding ◌>>=◌
after_call P m k s here rest = by_answer P (m s) k here rest

module _ (K : Config) (w : World) (step : PreparedStep) (id : ℕ) where
  pub settled-sends : (r : Answer (Unit {0}) × Store) → (settled K w step id r).sends ≡ r.1.sends
  unfolding settled settle
  settled-sends (given done, s) = refl
  settled-sends (thrown code, s) = refl

  pub fetch_nonce-sends : (s : Store) → (fetch_nonce K w step id s).1.sends ≡ s.sends
  unfolding fetch_nonce ◌>>=◌ next_nonce
  fetch_nonce-sends s = elim (Answer-cases w.pending_count) [
    | inl (code, e) ↦ rw e refl
    | inr (n, e) ↦ rw e refl
  ]

  -- The simulation writes nothing, or the status of the execution.
  pub simulate_again_cases :
      (call : TxCall) (s : Store)
      → ((simulate_again K w step id call s).1 ≡ s)
        ⊎ ((simulate_again K w step id call s).1 ≡ (set_simulated K w step id s).1)
  unfolding simulate_again ◌>>=◌
  simulate_again_cases call s = elim (Answer-cases w.head) [
    | inl (code, e) ↦ rw e (inl refl)
    | inr (base, e) ↦ elim (Answer-cases (w.simulated call)) [
      | inl (code, m) ↦ rw (e, m) (inl refl)
      | inr (sim, m) ↦ elim (Answer-cases (resimulated sim)) [
        | inl (code, r) ↦ rw (e, m, r) (inl refl)
        | inr (gas, r) ↦ elim (Answer-cases (or_throw (quote K.fees base))) [
          | inl (code, q) ↦ rw (e, m, r, q) (inr refl)
          | inr (fee, q) ↦
              elim (Answer-cases (gas_check K w step (gas_limit_for gas * fee.max_fee_per_gas))) [
                | inl (code, c) ↦ rw (e, m, r, q, c) (inr refl)
                | inr (done, c) ↦ rw (e, m, r, q, c) (inr refl)
              ]
        ]
      ]
    ]
  ]

  pub simulate_again-sends :
      (call : TxCall) (s : Store) → (simulate_again K w step id call s).1.sends ≡ s.sends
  unfolding set_simulated
  simulate_again-sends call s = elim (simulate_again_cases call s) [
    | inl e ↦ rw e refl
    | inr e ↦ rw e refl
  ]
