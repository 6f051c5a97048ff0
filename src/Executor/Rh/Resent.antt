-- ===== src/Executor/Rh/Resent.antt =====
-- agent/src/reconcile/startup.ts within `run` of agent/src/executor/rh-executor.ts: the call of the
-- broadcaster that the resolver makes after a receipt timeout.
use Prim.Native.String.{String}
use mathlib.Core.List.{Memᴰ}
use deltadesk.Prelude.{
  ℕ, ◌≡◌, refl, ◌∙◌, true, inl, inr, Option, none, some, List, [], ◌∷◌, arith, Bool-cases,
}
use text.Mathlib.Text.{◌==◌ as str_eq}
use deltadesk.Prelude.Result.{Result, ok, err}
use deltadesk.Executor.Store.{Send, Store, finalize}
use deltadesk.Executor.Receipt.{ReceiptOutcome, confirmed, reverted, timeout}
use deltadesk.Reconcile.{rebroadcast, TxAttempt, Ledger, ChainClient, Broadcaster, Outcome}
use deltadesk.Prelude.Int.{floor_div}
use deltadesk.Reconcile.Batch.{row_of}
use deltadesk.Reconcile.Keeping.{row_of-hash}
use deltadesk.Reconcile.Sending.{IsSendable, resolve-IsSendable}
use deltadesk.Executor.Rh.{Config, PreparedStep, World, Signed, sent}
use deltadesk.Executor.Rh.Run.{
  is_rebroadcast, calls_broadcaster, resend_of, log_resend, or_left, resolve_row, resolve_once,
  at_outcome, at_row, received, await_receipt,
}

row_of-Mem :
    (h : String) (rows : List TxAttempt) (a : TxAttempt) → row_of h rows ≡ some a → Memᴰ a rows
unfolding row_of
row_of-Mem h [] a e = absurd (ground arith)
row_of-Mem h (x ∷ rest) a e = elim (Bool-cases (str_eq x.tx_hash h)) [
  | inl f ↦ let same : a ≡ x = ground arith in Memᴰ.head same
  | inr f ↦ Memᴰ.tail (row_of-Mem h rest a (ground arith))
]

module _ (K : Config) (w : World) (step : PreparedStep) (id : ℕ) where
  -- A call of the resolver: the bytes of a row that is stored at that moment, whose hash is the one given,
  -- and that the resolver may send again.
  pub record IsResent (hash : String) (e : Send) : Type 0 where
    pub chain : ChainClient
    pub out : Broadcaster
    pub is_resolver : w.resolver ≡ some (chain, out)
    pub row : TxAttempt
    pub is_stored : Memᴰ row e.ledger.attempts
    pub same_bytes : e.raw ≡ row.signed_raw_tx
    pub same_hash : e.tx_hash ≡ hash
    pub is_hash_of_row : row.tx_hash ≡ hash
    pub sendable : IsSendable K.codec.lower chain out e.ledger row (floor_div w.resolved_ms 1000)

  -- Nothing was sent, or the bytes with a hash once again.
  pub data Resent (hash : String) (s after : Store) : Type 0 where
    not_resent : after.sends ≡ s.sends → Resent hash s after
    resent : (e : Send) → IsResent hash e → after.sends ≡ e ∷ s.sends → Resent hash s after

  rebroadcast-true :
      (r : Result Outcome)
      → is_rebroadcast K w step id r ≡ true
      → (o : Outcome) × (r ≡ ok o) × (o.resolution ≡ rebroadcast)
  rebroadcast-true (err e) h = absurd (ground arith)
  rebroadcast-true (ok o) h = (o, refl, ground arith)

  called-IsSendable :
      (chain : ChainClient) (out : Broadcaster) (db : Ledger) (a : TxAttempt)
      → calls_broadcaster K w step id (chain, out) db a ≡ true
      → IsSendable K.codec.lower chain out db a (floor_div w.resolved_ms 1000)
  unfolding calls_broadcaster
  called-IsSendable chain out db a h =
      let (o, e, r) = rebroadcast-true _ h in
      let all =
        resolve-IsSendable K.codec.lower chain (record out { sends = λ raw. true }) db a
          (floor_div w.resolved_ms 1000) o e r in
      record {
        is_open = all.is_open;
        not_mined = all.not_mined;
        not_pooled = all.not_pooled;
        nonce_is_next = all.nonce_is_next;
        before_deadline = all.before_deadline;
        execution = all.execution;
        is_its_execution = all.is_its_execution;
        not_halted = all.not_halted;
        within_bound = all.within_bound;
        bytes_match = all.bytes_match;
      }

  or_left-sends : (r : Result Outcome) (s : Store) → (or_left K w step id r s).sends ≡ s.sends
  unfolding or_left
  or_left-sends (ok o) s = refl
  or_left-sends (err e) s = refl

  log_resend-Resent :
      (chain : ChainClient) (out : Broadcaster) (hash : String) (a : TxAttempt) (s before : Store)
      → w.resolver ≡ some (chain, out)
      → row_of hash s.ledger.attempts ≡ some a
      → s.sends ≡ before.sends
      → Resent hash before (log_resend K w step id (chain, out) a s)
  unfolding log_resend
  log_resend-Resent chain out hash a s before q found same =
      elim (Bool-cases (calls_broadcaster K w step id (chain, out) s.ledger a)) [
        | inl e ↦
            resent (resend_of K w step id out a s.ledger)
              (record {
                chain = chain;
                out = out;
                is_resolver = q;
                row = a;
                is_stored = row_of-Mem hash s.ledger.attempts a found;
                same_bytes = refl;
                same_hash = row_of-hash hash s.ledger.attempts a found;
                is_hash_of_row = row_of-hash hash s.ledger.attempts a found;
                sendable = called-IsSendable chain out s.ledger a e;
              })
              (rw (e, same) refl)
        | inr e ↦ not_resent (rw e same)
      ]

  same-Resent :
      (hash : String) (s first after : Store)
      → after.sends ≡ first.sends
      → Resent hash s first
      → Resent hash s after
  same-Resent hash s first after same (not_resent e) = not_resent (same ∙ e)
  same-Resent hash s first after same (resent e h q) = resent e h (same ∙ q)

  resolve_row-Resent :
      (resolver : ChainClient × Broadcaster) (hash : String) (row : Option TxAttempt)
      (s before : Store)
      → w.resolver ≡ some resolver
      → row_of hash s.ledger.attempts ≡ row
      → s.sends ≡ before.sends
      → Resent hash before (resolve_row K w step id resolver row s)
  unfolding resolve_row
  resolve_row-Resent (chain, out) hash none s before q found same = not_resent same
  resolve_row-Resent (chain, out) hash (some a) s before q found same =
      same-Resent hash before (log_resend K w step id (chain, out) a s) _ (or_left-sends _ _)
        (log_resend-Resent chain out hash a s before q found same)

  resolve_once-Resent :
      (resolver : Option (ChainClient × Broadcaster)) (signed : Signed) (s before : Store)
      → w.resolver ≡ resolver
      → s.sends ≡ before.sends
      → Resent signed.tx_hash before (resolve_once K w step id resolver signed s)
  unfolding resolve_once
  resolve_once-Resent none signed s before q same = not_resent same
  resolve_once-Resent (some resolver) signed s before q same =
      resolve_row-Resent resolver signed.tx_hash _ s before q refl same

  at_outcome-Resent :
      (signed : Signed) (a : TxAttempt) (r : ReceiptOutcome) (s : Store)
      → Resent signed.tx_hash s (at_outcome K w step id signed a r s)
  unfolding at_outcome finalize
  at_outcome-Resent signed a confirmed s = not_resent refl
  at_outcome-Resent signed a reverted s = not_resent refl
  at_outcome-Resent signed a timeout s = resolve_once-Resent w.resolver signed _ s refl refl

  at_row-Resent :
      (signed : Signed) (row : Option TxAttempt) (s : Store)
      → Resent signed.tx_hash s (at_row K w step id signed row s).1
  unfolding at_row
  at_row-Resent signed none s = not_resent refl
  at_row-Resent signed (some a) s =
      at_outcome-Resent signed a (received K w step id signed.tx_hash) s

  pub await_receipt-Resent :
      (signed : Signed) (s : Store)
      → Resent signed.tx_hash s (await_receipt K w step id (sent signed) s).1
  unfolding await_receipt
  await_receipt-Resent signed s = at_row-Resent signed _ s
