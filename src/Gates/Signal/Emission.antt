-- ===== src/Gates/Signal/Emission.antt =====
-- agent/src/regime/signal.ts: when a signal is emitted, and when never.
use deltadesk.Prelude.{Option, subst, refl, ◌<◌, ◌≡◌, ◌≢◌, ◌↔◌, true, false, none, some, arith}
use deltadesk.Prelude.Int.{pos, ◌+ℤ◌, ◌-ℤ◌, ◌≤ℤ◌}
use deltadesk.Gates.Signal.{
  LatestSignal, GateSignalInput, emit, Announcement, detect_gate_signal, dwell_refusal, is_key,
  refusal_of_latest, reentered, same_key, pending, sent, declined, failed, not_sent,
}

-- What the latest signal must leave open for the next one.
abbrev pub Allows : GateSignalInput → LatestSignal → Type 0
Allows i latest =
    (latest.status ≢ pending)
    × (latest.status ≢ sent)
    × (i.min_dwell_ms ≤ℤ (i.now_ms -ℤ i.watch.since_ms))
    × ((same_key latest.to_key i.state ≡ true)
        → (reentered i.watch.away i.state latest.created_at_ms ≡ false)
        → (latest.status ≢ declined)
          × (latest.status ≢ failed)
          × ((latest.status ≡ not_sent)
              → ((latest.created_at_ms +ℤ i.retry_ms) -ℤ i.now_ms) ≤ℤ pos 0))

-- The latest signal allows the next one just when it is not open (neither pending nor in flight), the
-- state has held for the dwell, and, while the lane was not elsewhere since, it is not for a state
-- that was declined or lost, nor for one that was not sent and is to be retried later.
pub dwell_refusal-none_iff :
    (i : GateSignalInput) (latest : LatestSignal)
    → (dwell_refusal i (some latest) ≡ none) ↔ Allows i latest
unfolding dwell_refusal refusal_of_latest
dwell_refusal-none_iff i latest = (λ e. ground arith, λ e. ground arith)

dwell_refusal-Allows :
    (i : GateSignalInput) (o : Option LatestSignal)
    → (dwell_refusal i o ≡ none) ↔ ((latest : LatestSignal) → o ≡ some latest → Allows i latest)
unfolding dwell_refusal
dwell_refusal-Allows i none = (λ e latest h. absurd (ground arith), λ h. refl)
dwell_refusal-Allows i (some first) = (
  λ e latest h. subst (Allows i) (ground arith) ((dwell_refusal-none_iff i first).0 e),
  λ h. (dwell_refusal-none_iff i first).1 (h first refl),
)

emission_iff :
    (i : GateSignalInput) (a : Announcement)
    → (detect_gate_signal i ≡ emit a) ↔ (
        (i.enabled ≡ true)
        × (i.halted ≡ false)
        × (i.in_flight ≡ 0)
        × (i.settled ≡ true)
        × (is_key i.last_emitted i.state ≡ false)
        × (dwell_refusal i i.latest ≡ none)
        × (i.signed_1h < i.max_per_hour)
        × (a.from_state ≡ i.last_emitted)
        × (a.to_state ≡ i.state)
        × (a.at_ms ≡ i.watch.since_ms))
unfolding detect_gate_signal
emission_iff i a = (λ e. ground arith, λ e. ground arith)

-- A signal is emitted just when signals are on, the desk may sign, nothing is in flight, the gates
-- have settled, the state is not the one last emitted, and fewer than the limit were signed in the last
-- hour; and, after an earlier signal, when that one is neither pending nor in flight, the state has held
-- for the minimum dwell, and, while the lane was not elsewhere since, the earlier signal is not for this
-- state and declined or lost, nor for this state, not sent and still to wait for its retry. It then announces the
-- current state, from the one last emitted, and since when it holds.
pub detect_gate_signal-emit_iff :
    (i : GateSignalInput) (a : Announcement)
    → (detect_gate_signal i ≡ emit a) ↔ (
        (i.enabled ≡ true)
        × (i.halted ≡ false)
        × (i.in_flight ≡ 0)
        × (i.settled ≡ true)
        × (is_key i.last_emitted i.state ≡ false)
        × ((latest : LatestSignal) → i.latest ≡ some latest → Allows i latest)
        × (i.signed_1h < i.max_per_hour)
        × (a.from_state ≡ i.last_emitted)
        × (a.to_state ≡ i.state)
        × (a.at_ms ≡ i.watch.since_ms))
detect_gate_signal-emit_iff i a = (
  λ e.
      let (on, runs, free, settled, fresh, dwells, few, leaves, announces, since) =
        (emission_iff i a).0 e in
      (
        on,
        runs,
        free,
        settled,
        fresh,
        (dwell_refusal-Allows i i.latest).0 dwells,
        few,
        leaves,
        announces,
        since,
      ),
  λ (on, runs, free, settled, fresh, allows, few, leaves, announces, since). (emission_iff i a).1 (
    on,
    runs,
    free,
    settled,
    fresh,
    (dwell_refusal-Allows i i.latest).1 allows,
    few,
    leaves,
    announces,
    since,
  ),
)
