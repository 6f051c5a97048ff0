-- ===== src/Examples/Executor.antt =====
-- agent/src/executor at concrete fees, nonces and errors.
use Prim.Native.String.{String}
use deltadesk.Prelude.{◌≡◌, refl, ◌≢◌, ◌⊎◌, inl, true, false, none, some, [], ◌∷◌, arith}
use deltadesk.Prelude.Int.{pos, ◌≤ℤ◌, ◌<ℤ◌, ◌-ℤ◌}
use deltadesk.Prelude.Result.{ok, err, unknown_attempt}
use deltadesk.Executor.Fees.{FeePolicyOptions, FeeQuote}
use deltadesk.Executor.Nonce.{NonceDb, next, db_next, reset_nonce, has_open, next_cases}
use deltadesk.Executor.DeskStatus.{
  DeskDb, DeskStatus, ExecErrorCode, safe_mode, active, revoked, adding, desk_halted_reason,
  get_desk, apply_errors, apply_error_outcome, exec_error_outcome,
}
use deltadesk.Executor.DeskStatus.Halts.{
  apply_errors-keeps_halt, apply_errors-revoked, apply_error_outcome-halts, IsHalting,
}

abbrev policy : FeePolicyOptions
policy = record { floor_wei = 10; cap_wei = 100 }

abbrev bumped : FeeQuote
bumped = record { max_fee_per_gas = 50; max_priority_fee_per_gas = 0 }

-- A stand-in for `String.toLowerCase`.
abbrev lower : String → String
lower s = s

abbrev nonces : NonceDb
nonces = record { last_nonce = λ a. some (pos 4); unresolved = [] }

next_cases_example :
    ((next lower nonces "0xa" (pos 3) ≡ (ok (pos 3), nonces))
      × (db_next lower nonces "0xa" ≤ℤ pos 3))
    ⊎ ((next lower nonces "0xa" (pos 3) ≡ (err unknown_attempt, nonces))
        × (pos 3 <ℤ db_next lower nonces "0xa")
        × (has_open lower nonces "0xa" ≡ true))
    ⊎ ((next lower nonces "0xa" (pos 3)
          ≡ (ok (pos 3), reset_nonce lower nonces "0xa" (pos 3 -ℤ pos 1)))
        × (pos 3 <ℤ db_next lower nonces "0xa")
        × (has_open lower nonces "0xa" ≡ false)
        × (db_next lower (reset_nonce lower nonces "0xa" (pos 3 -ℤ pos 1)) "0xa" ≡ pos 3))
next_cases_example = next_cases lower nonces "0xa" (pos 3)

abbrev desks : DeskStatus → DeskDb
desks status = record { failing = false; desks = λ a. some status; alerts = [] }

apply_errors-keeps_halt_example :
    desk_halted_reason lower
      (apply_errors lower (desks safe_mode) (("0xa", ExecErrorCode.gas_cap) ∷ []))
      "0xa"
      adding
    ≢ none
unfolding desk_halted_reason
apply_errors-keeps_halt_example =
    apply_errors-keeps_halt lower (desks safe_mode) "0xa" adding
      (("0xa", ExecErrorCode.gas_cap) ∷ []) (ground arith)

apply_errors-revoked_example :
    get_desk lower
      (apply_errors lower (desks revoked) (("0xa", ExecErrorCode.signer_denied) ∷ []))
      "0xa"
    ≡ some revoked
apply_errors-revoked_example =
    apply_errors-revoked lower (desks revoked) "0xa" (("0xa", ExecErrorCode.signer_denied) ∷ [])
      (unfold get_desk in refl)

apply_error_outcome-halts_example :
    desk_halted_reason lower
      (apply_error_outcome lower (desks active) "0xa" ExecErrorCode.signer_denied)
      "0xa"
      adding
    ≢ none
unfolding exec_error_outcome IsHalting get_desk
apply_error_outcome-halts_example =
    apply_error_outcome-halts lower (desks active) "0xa" ExecErrorCode.signer_denied adding active
      refl refl (inl refl) (ground arith)
