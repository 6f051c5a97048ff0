-- ===== src/Executor/Rh/Loop.antt =====
-- agent/src/executor/rh-executor.ts, the broadcast loop of `run`, and `broadcast` of
-- agent/src/executor/broadcaster.ts. The loop is structural in the re-signatures that are left.
use Prim.Native.String.{String}
use text.Mathlib.Text.{◌==◌ as str_eq}
use deltadesk.Prelude.{ℕ, zero, suc, Option, none, some, ◌∷◌, if◌then◌else◌}
use deltadesk.Prelude.Int.{◌+ℤ◌, leb_ℤ, floor_div}
use deltadesk.Executor.DeskStatus.{
  ExecErrorCode, unknown, fee_cap_too_low, nonce_too_low, rpc_unavailable, signer_mismatch,
}
use deltadesk.Executor.Signing.{Answer, thrown, given, UnsignedTx}
use deltadesk.Executor.Store.{Store, finalize_dropped, finalize_unknown}
use deltadesk.Executor.Rh.{
  Config, PreparedStep, World, Signed, Exec, ◌>>=◌, NodeReply, returned_hash, already_known,
  rejected, before_sending, before_resigning, see, is_halted_now, resign, LoopEnd, returned,
  mark_sent, look_up_by_hash, refuse,
}

-- The error that `broadcast` throws, if any.
unfoldable pub broadcast_error : (String → String) → String → NodeReply → Option ExecErrorCode
broadcast_error lower expected already_known = none
broadcast_error lower expected (rejected code) = some code
broadcast_error lower expected (returned_hash hash) =
    if str_eq (lower hash) (lower expected) then none else some signer_mismatch

-- How the handler of the loop takes an error.
pub data Refusal : Type 0 where
  fee_cap nonce_used maybe_sent refused : Refusal

unfoldable pub refusal_of : ExecErrorCode → Refusal
refusal_of fee_cap_too_low = fee_cap
refusal_of nonce_too_low = nonce_used
refusal_of rpc_unavailable = maybe_sent
refusal_of unknown = maybe_sent
refusal_of _ = refused

module _ (K : Config) (w : World) (step : PreparedStep) (id : ℕ) where
  -- The rest of the loop after a re-signature, unless none is left.
  abbrev pub Again : Type 0
  Again = Option (UnsignedTx × Signed → Exec LoopEnd)

  unfoldable pub drop_unsent : Signed → Exec LoopEnd
  drop_unsent signed s = (given returned, finalize_dropped id signed.tx_hash s)

  unfoldable pub resign_or_stop :
      ℕ → UnsignedTx → Signed → (UnsignedTx × Signed → Exec LoopEnd) → Exec LoopEnd
  unfolding ◌>>=◌ is_halted_now drop_unsent resign
  resign_or_stop turn tx signed again s0 =
      let s = see K w step id (before_resigning turn) s0 in
      if is_halted_now K w step id s
      then drop_unsent signed s
      else (resign K w step id turn tx signed >>= again) s

  -- The branches of the handler of the loop.
  unfoldable pub on_error : Refusal → ExecErrorCode → ℕ → UnsignedTx → Signed → Again → Exec LoopEnd
  unfolding resign_or_stop look_up_by_hash refuse
  on_error fee_cap code turn tx signed (some again) s = resign_or_stop turn tx signed again s
  on_error fee_cap code turn tx signed none s = (given returned, refuse K w step id signed code s)
  on_error nonce_used code turn tx signed again s = look_up_by_hash K w step id turn signed s
  on_error maybe_sent code turn tx signed again s =
      (given returned, finalize_unknown id signed.tx_hash s)
  on_error refused code turn tx signed again s = (given returned, refuse K w step id signed code s)

  unfoldable pub after_error : ExecErrorCode → ℕ → UnsignedTx → Signed → Again → Exec LoopEnd
  unfolding on_error
  after_error code turn tx signed again s = on_error (refusal_of code) code turn tx signed again s

  unfoldable pub send_error : ℕ → Signed → Option ExecErrorCode
  unfolding broadcast_error
  send_error turn signed =
      broadcast_error K.codec.lower (K.codec.hash_of signed.raw) (w.send_raw turn signed.raw)

  -- The call of the broadcaster, on record.
  unfoldable pub logged : ℕ → Signed → Store → Store
  unfolding send_error
  logged turn signed s = record s {
    sends =
        record {
          raw = signed.raw;
          tx_hash = signed.tx_hash;
          now_ms = w.now_ms turn;
          ledger = s.ledger;
          error = send_error turn signed;
        }
        ∷ s.sends;
  }

  unfoldable pub after_mark : ℕ → UnsignedTx → Signed → Again → Exec LoopEnd
  unfolding mark_sent after_error
  after_mark turn tx signed again s =
      let (r, after) = mark_sent K w step id signed s in
      elim r as (λ _. Answer LoopEnd × Store) [
        | given end ↦ (given end, after)
        | thrown code ↦ after_error code turn tx signed again after
      ]

  unfoldable pub after_send : Option ExecErrorCode → ℕ → UnsignedTx → Signed → Again → Exec LoopEnd
  unfolding after_mark after_error
  after_send none turn tx signed again s = after_mark turn tx signed again s
  after_send (some code) turn tx signed again s = after_error code turn tx signed again s

  unfoldable pub broadcast : ℕ → UnsignedTx → Signed → Again → Exec LoopEnd
  unfolding send_error logged after_send
  broadcast turn tx signed again s =
      after_send (send_error turn signed) turn tx signed again (logged turn signed s)

  unfoldable pub one_turn : ℕ → UnsignedTx → Signed → Again → Exec LoopEnd
  unfolding is_halted_now drop_unsent broadcast
  one_turn turn tx signed again s0 =
      let s = see K w step id (before_sending turn) s0 in
      if is_halted_now K w step id s
      then drop_unsent signed s
      else if leb_ℤ step.meta.deadline (floor_div (w.now_ms turn) 1000 +ℤ K.margin_sec)
      then drop_unsent signed s
      else broadcast turn tx signed again s

  unfoldable pub send_loop : ℕ → ℕ → UnsignedTx × Signed → Exec LoopEnd
  unfolding one_turn
  send_loop zero turn (tx, signed) = one_turn turn tx signed none
  send_loop (suc left) turn (tx, signed) =
      one_turn turn tx signed (some (send_loop left (suc turn)))
