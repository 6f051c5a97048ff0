-- ===== src/Executor/Rh/Sends.antt =====
-- agent/src/executor/rh-executor.ts, `execute`: what holds of every call of the broadcaster that a
-- step makes.
use Prim.Native.String.{String}
use deltadesk.Prelude.{
  ℕ, ◌≤◌, length, ap, ◌≡◌, refl, inl, inr, List, [], ◌∷◌, All, arith, Option-cases, subst, sym, ◌∙◌,
}
use deltadesk.Guard.Input.{TxCall}
use deltadesk.Executor.Fees.{FeeQuote}
use deltadesk.Executor.Signing.{Answer, Answer-cases, thrown, given, UnsignedTx}
use deltadesk.Executor.Store.{Send, Store}
use deltadesk.Executor.Rh.{
  Config, PreparedStep, World, Signed, LoopEnd, sent, returned, Exec, ◌>>=◌, sign_verify_persist,
  max_fee_resigns,
}
use deltadesk.Executor.Rh.Loop.{send_loop}
use deltadesk.Executor.Rh.Ready.{at_fee, IsLawful, IsReady, Signs, sign_verify_persist-Signs}
use deltadesk.Executor.Rh.Few.{send_loop-Few}
use deltadesk.Executor.Rh.Lawful.{send_loop-Lawful}
use deltadesk.Executor.Rh.Run.{
  settled, unsigned_tx, check_status, await_receipt, fetch_nonce, send_and_wait, sign_and_send,
  send_step, simulate_again, run, run_and_settle,
}
use deltadesk.Executor.Rh.Execute.{
  assert_lane_step, fresh_call, check_simulation, write_row, write_ahead, start, execute,
}
use deltadesk.Executor.Rh.Resent.{IsResent, Resent, not_resent, resent, await_receipt-Resent}
use deltadesk.Executor.Rh.Last.{NewestIs, SentLast, send_loop-SentLast}
use deltadesk.Executor.Rh.Unsent.{
  after_call, settled-sends, fetch_nonce-sends, simulate_again-sends,
}

module _ (K : Config) (w : World) (step : PreparedStep) (id : ℕ) where
  Signs-given :
      (tx : UnsignedTx) (fee : ℕ) (s : Store) (r : Answer Signed × Store) (signed : Signed)
      → Signs K w step id tx s r fee
      → r.0 ≡ given signed
      → IsReady K w step id tx fee signed r.1
  Signs-given tx fee s (thrown code, after) signed h e = absurd (ground arith)
  Signs-given tx fee s (given a, after) signed (ready, kept) e =
      subst (λ x. IsReady K w step id tx fee x after) (ground arith) ready

  Signs-sends :
      (tx : UnsignedTx) (fee : ℕ) (s : Store) (r : Answer Signed × Store)
      → Signs K w step id tx s r fee
      → r.1.sends ≡ s.sends
  Signs-sends tx fee s (thrown code, after) h = h
  Signs-sends tx fee s (given a, after) (ready, kept) = kept

  -- The transaction of a call, with a gas limit and a nonce; its fee is not fixed.
  abbrev pub transaction : TxCall → ℕ → ℕ → UnsignedTx
  transaction call gas nonce =
      unsigned_tx K w step call gas (record { max_fee_per_gas = 0; max_priority_fee_per_gas = 0 })
        nonce

  -- All calls, newest first, against those of the loop: nothing more, or the resolver's one call more, of
  -- the bytes that are stored under the hash of the loop's last call.
  pub data Resends (looped all : List Send) : Type 0 where
    loop_only : all ≡ looped → Resends looped all
    once_more :
        (e : Send) (hash : String)
        → NewestIs hash looped
        → IsResent K w step id hash e
        → all ≡ e ∷ looped
        → Resends looped all

  -- Every call of the loop is lawful for the call, at one gas limit and one nonce, and there are three at
  -- most; the resolver makes one more at most.
  pub record AllLawful (call : TxCall) (s : Store) : Type 0 where
    pub gas : ℕ
    pub nonce : ℕ
    pub looped : List Send
    pub lawful : All (IsLawful K w step id (transaction call gas nonce)) looped
    pub at_most_three : length looped ≤ 3
    pub resends : Resends looped s.sends

  nothing_sent : (call : TxCall) (s : Store) → s.sends ≡ [] → AllLawful call s
  nothing_sent call s e = record {
    gas = 0;
    nonce = 0;
    looped = [];
    lawful = tt;
    at_most_three = omega arith;
    resends = loop_only e;
  }

  same_sends :
      (call : TxCall) (s after : Store)
      → after.sends ≡ s.sends
      → AllLawful call s
      → AllLawful call after
  same_sends call s after e h = record {
    gas = h.gas;
    nonce = h.nonce;
    looped = h.looped;
    lawful = h.lawful;
    at_most_three = h.at_most_three;
    resends = subst (Resends h.looped) (sym e) h.resends;
  }

  Resent-Resends :
      (hash : String) (s after : Store)
      → NewestIs hash s.sends
      → Resent K w step id hash s after
      → Resends s.sends after.sends
  Resent-Resends hash s after n (not_resent e) = loop_only e
  Resent-Resends hash s after n (resent e h q) = once_more e hash n h q

  awaited :
      (end : LoopEnd) (s : Store)
      → SentLast (given end, s)
      → Resends s.sends (await_receipt K w step id end s).1.sends
  unfolding await_receipt
  awaited returned s h = loop_only refl
  awaited (sent signed) s h =
      Resent-Resends signed.tx_hash s _ h (await_receipt-Resent K w step id signed s)

  looped_end :
      (r : Answer LoopEnd × Store) (end : LoopEnd)
      → SentLast r
      → r.0 ≡ given end
      → SentLast (given end, r.1)
  looped_end (thrown code, s) end h e = absurd (ground arith)
  looped_end (given returned, s) returned h e = tt
  looped_end (given returned, s) (sent signed) h e = absurd (ground arith)
  looped_end (given (sent signed), s) returned h e = tt
  looped_end (given (sent first), s) (sent signed) h e =
      subst (λ x. NewestIs x s.sends) (ground arith) h

  send_and_wait-AllLawful :
      (call : TxCall) (gas nonce fee : ℕ) (signed : Signed) (s : Store)
      → IsReady K w step id (transaction call gas nonce) fee signed s
      → s.sends ≡ []
      → AllLawful call
          (send_and_wait K w step id
            (at_fee K w step id (transaction call gas nonce) fee)
            signed
            s).1
  unfolding send_and_wait
  send_and_wait-AllLawful call gas nonce fee signed s ready e =
      after_call (AllLawful call)
        (send_loop K w step id max_fee_resigns 0
          (at_fee K w step id (transaction call gas nonce) fee, signed))
        (await_receipt K w step id) s (all_of _ (loop_only refl))
        (λ end e. all_of _ (awaited end _ (looped_end _ end last e)))
    where
      empty : length s.sends ≡ 0
      empty = ap length e

      loop : Answer LoopEnd × Store
      loop =
          send_loop K w step id max_fee_resigns 0
            (at_fee K w step id (transaction call gas nonce) fee, signed) s

      last : SentLast loop
      last = send_loop-SentLast K w step id max_fee_resigns 0 _ s

      all_of : (after : Store) → Resends loop.1.sends after.sends → AllLawful call after
      all_of after h = record {
        gas = gas;
        nonce = nonce;
        looped = loop.1.sends;
        lawful =
            send_loop-Lawful K w step id max_fee_resigns 0 (transaction call gas nonce) fee signed s
              ready (rw e tt);
        at_most_three = omega (
          arith,
          send_loop-Few K w step id max_fee_resigns 0
              (at_fee K w step id (transaction call gas nonce) fee, signed) s,
          empty,
        );
        resends = h;
      }

  sign_and_send-AllLawful :
      (call : TxCall) (gas nonce fee : ℕ) (s : Store)
      → s.sends ≡ []
      → AllLawful call
          (sign_and_send K w step id (at_fee K w step id (transaction call gas nonce) fee) s).1
  unfolding sign_and_send
  sign_and_send-AllLawful call gas nonce fee s e =
      after_call (AllLawful call) (sign_verify_persist K w step id 0 tx)
        (send_and_wait K w step id tx) s (nothing_sent call _ still)
        (λ signed g.
          send_and_wait-AllLawful call gas nonce fee signed _ (Signs-given _ fee s _ signed signs g)
            still)
    where
      tx : UnsignedTx
      tx = at_fee K w step id (transaction call gas nonce) fee

      signs :
          Signs K w step id
            (transaction call gas nonce)
            s
            (sign_verify_persist K w step id 0 tx s)
            fee
      signs = sign_verify_persist-Signs K w step id 0 (transaction call gas nonce) fee s

      still : (sign_verify_persist K w step id 0 tx s).1.sends ≡ []
      still = Signs-sends _ fee s _ signs ∙ e

  send_step-AllLawful :
      (call : TxCall) (gas : ℕ) (fee : FeeQuote) (s : Store)
      → s.sends ≡ []
      → AllLawful call (send_step K w step id call gas fee s).1
  unfolding send_step check_status
  send_step-AllLawful call gas fee s e =
      after_call (AllLawful call) (check_status K w step id) (λ _. fetch_nonce K w step id >>= next)
        s (nothing_sent call _ e)
        (λ _ _.
          after_call (AllLawful call) (fetch_nonce K w step id) next (check_status K w step id s).1
            (nothing_sent call _ still)
            (λ nonce _. sign_and_send-AllLawful call gas nonce fee.max_fee_per_gas _ still))
    where
      next : ℕ → Exec (Unit {0})
      next nonce = sign_and_send K w step id (unsigned_tx K w step call gas fee nonce)

      still : (fetch_nonce K w step id (check_status K w step id s).1).1.sends ≡ []
      still = fetch_nonce-sends K w step id _ ∙ e

  run-AllLawful :
      (call : TxCall) (s : Store) → s.sends ≡ [] → AllLawful call (run K w step id call s).1
  unfolding run
  run-AllLawful call s e =
      after_call (AllLawful call) (simulate_again K w step id call)
        (λ p. send_step K w step id call p.0 p.1) s (nothing_sent call _ still)
        (λ p _. send_step-AllLawful call p.0 p.1 _ still)
    where
      still : (simulate_again K w step id call s).1.sends ≡ []
      still = simulate_again-sends K w step id call s ∙ e

  settled-AllLawful :
      (call : TxCall) (r : Answer (Unit {0}) × Store)
      → AllLawful call r.1
      → AllLawful call (settled K w step id r)
  settled-AllLawful call r h = same_sends call _ _ (settled-sends K w step id r) h

module _ (K : Config) (w : World) (step : PreparedStep) where
  -- What a step has done, by how it ended. A step that is refused has changed nothing.
  abbrev pub SendsLawfully : Store → Answer ℕ × Store → Type 0
  SendsLawfully s (thrown code, after) = after ≡ s
  SendsLawfully s (given id, after) =
      (call : TxCall) × (K.encode step.action step.meta ≡ given call)
      × AllLawful K w step id call after

  fresh_call-encode :
      (call : TxCall)
      → fresh_call K w step ≡ given call
      → K.encode step.action step.meta ≡ given call
  unfolding fresh_call
  fresh_call-encode call h = elim (Option-cases step.call) [
    | inl e ↦ absurd (ground arith)
    | inr (prepared, e) ↦ elim (Answer-cases (K.encode step.action step.meta)) [
      | inl (code, c) ↦ absurd (ground arith)
      | inr (fresh, c) ↦ ground arith
    ]
  ]

  started :
      (call : TxCall) (id : ℕ) (s first : Store)
      → s.sends ≡ []
      → K.encode step.action step.meta ≡ given call
      → SendsLawfully first (start K w step call id s)
  unfolding start run_and_settle
  started call id s first e c =
      (call, c, settled-AllLawful K w step id call _ (run-AllLawful K w step id call s e))

  written :
      (onchain : List ℕ) (call : TxCall) (s : Store) (r : Answer (Unit {0}))
      → s.sends ≡ []
      → K.encode step.action step.meta ≡ given call
      → SendsLawfully s ((write_row K w step onchain r >>= start K w step call) s)
  unfolding ◌>>=◌ write_row
  written onchain call s (thrown code) e c = refl
  written onchain call s (given done) e c = started call _ _ s e c

  -- Every call of the broadcaster that the broadcast loop of a step makes sends bytes that parse to the
  -- transaction of the step's fresh call, at one gas limit and one nonce, and recover to the signer; they
  -- stand in the database as signed at that moment; the desk may send the step; and the deadline is not
  -- near. There are three such calls at most. At most one call more follows, by the resolver: of the
  -- bytes that are stored under the hash of the loop's last call and that hash to it, while the attempt
  -- is open, neither mined nor pooled, its nonce the next one, its deadline not passed, its bound on
  -- broadcasts not reached, and its desk may send it. A step that is refused before its row is written
  -- changes nothing. The store begins with no send.
  pub execute-SendsLawfully : (s : Store) → s.sends ≡ [] → SendsLawfully s (execute K w step s)
  unfolding execute ◌>>=◌ write_ahead
  execute-SendsLawfully s e = elim (Answer-cases (assert_lane_step K w step)) [
    | inl (code, a) ↦ rw (a, SendsLawfully) refl
    | inr (onchain, a) ↦ elim (Answer-cases (fresh_call K w step)) [
      | inl (code, f) ↦ rw (a, f, SendsLawfully) refl
      | inr (call, f) ↦ elim (Answer-cases (check_simulation K w step)) [
        | inl (code, c) ↦ rw (a, f, c, SendsLawfully) refl
        | inr (done, c) ↦ rw (a, f, c) (written onchain call s _ e (fresh_call-encode call f))
      ]
    ]
  ]
