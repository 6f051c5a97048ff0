-- ===== src/Gates/Signal/Watching.antt =====
-- agent/src/regime/signal.ts: a flap shorter than the dwell is not a state the lane was away in.
use deltadesk.Prelude.{◌≡◌, refl, sym, subst, ◌∙◌, Bool, false, some, List, [], ◌∷◌, arith}
use deltadesk.Prelude.Int.{ℤ, ◌-ℤ◌, ◌<ℤ◌}
use deltadesk.Gates.Signal.{SignalState, SignalWatch, watch_state, same_key}

-- The ticks of a state: when, and whether the gates had settled.
unfoldable pub stay : SignalWatch → SignalState → List (ℤ × Bool) → ℤ → SignalWatch
unfolding watch_state
stay w state [] min_dwell_ms = w
stay w state ((now_ms, settled) ∷ rest) min_dwell_ms =
    stay (watch_state (some w) state now_ms settled min_dwell_ms) state rest min_dwell_ms

watch_state-same_key :
    (w : SignalWatch) (now_ms min_dwell_ms : ℤ) (settled : Bool)
    → watch_state (some w) w.key now_ms settled min_dwell_ms ≡ record w { settled = settled }
unfolding watch_state
watch_state-same_key w now_ms min_dwell_ms settled = ground arith

-- What a stay does not change.
Keeps : SignalWatch → SignalWatch → Type 0
Keeps w later = (later.key ≡ w.key) × (later.since_ms ≡ w.since_ms) × (later.away ≡ w.away)

stay-Keeps :
    (w : SignalWatch) (ticks : List (ℤ × Bool)) (min_dwell_ms : ℤ)
    → Keeps w (stay w w.key ticks min_dwell_ms)
unfolding stay Keeps
stay-Keeps w [] min_dwell_ms = (refl, refl, refl)
stay-Keeps w ((now_ms, settled) ∷ rest) min_dwell_ms =
    subst (λ v. Keeps w (stay v w.key rest min_dwell_ms))
      (sym (watch_state-same_key w now_ms min_dwell_ms settled))
      (stay-Keeps (record w { settled = settled }) rest min_dwell_ms)

watch_state-leave :
    (w : SignalWatch) (to : SignalState) (now_ms min_dwell_ms : ℤ) (settled : Bool)
    → same_key w.key to ≡ false
    → (now_ms -ℤ w.since_ms) <ℤ min_dwell_ms
    → let back = watch_state (some w) to now_ms settled min_dwell_ms in
      (back.away ≡ w.away) × (back.key ≡ to) × (back.since_ms ≡ now_ms)
unfolding watch_state
watch_state-leave w to now_ms min_dwell_ms settled h_key h_short =
    (ground arith, ground arith, ground arith)

-- A state that is left before it has held for the dwell, whatever the ticks in between, does not
-- become the state the lane was away in, and the watch is of the new state from then on.
pub watch_state-flap :
    (w : SignalWatch) (ticks : List (ℤ × Bool)) (to : SignalState) (now_ms min_dwell_ms : ℤ)
    (settled : Bool)
    → same_key w.key to ≡ false
    → (now_ms -ℤ w.since_ms) <ℤ min_dwell_ms
    → let back =
        watch_state (some (stay w w.key ticks min_dwell_ms)) to now_ms settled min_dwell_ms in
      (back.away ≡ w.away) × (back.key ≡ to) × (back.since_ms ≡ now_ms)
unfolding Keeps
watch_state-flap w ticks to now_ms min_dwell_ms settled h_key h_short =
    let (e_key, e_since, e_away) = stay-Keeps w ticks min_dwell_ms in
    let (a, k, s) =
      watch_state-leave (stay w w.key ticks min_dwell_ms) to now_ms min_dwell_ms settled
        (subst (λ k. same_key k to ≡ false) (sym e_key) h_key)
        (subst (λ t. (now_ms -ℤ t) <ℤ min_dwell_ms) (sym e_since) h_short) in
    (a ∙ e_away, k, s)
