-- ===== src/Approval/Gate/Schedule.antt =====
-- agent/src/approval/gate.ts: the times of the polls of `watch`.
use deltadesk.Prelude.{
  ℕ, zero, suc, ◌+◌, ◌-◌, ◌*◌, ◌<◌, ◌≡◌, sym, subst, ◌∙◌, ◌⊎◌, inl, inr, none, some, leb, min,
  arith, Option-cases, Bool-cases,
}
use deltadesk.Approval.Gate.{View, poll, Watched, watch_from}

suc_times : (n p : ℕ) → suc n * p ≡ p + n * p
suc_times n p = omega arith

module _ (poll_ms window_ms : ℕ) (view : ℕ → View) where
  -- The time of a poll: the intervals before it, and the window's end at the latest.
  abbrev pub poll_time : ℕ → ℕ
  poll_time n = min (n * poll_ms) window_ms

  -- The polls before a number were silent.
  abbrev pub SilentBefore : ℕ → Type 0
  SilentBefore n = (k : ℕ) → k < n → poll (view (poll_time k)) ≡ none

  next_time :
      (n waited : ℕ)
      → waited ≡ poll_time n
      → waited < window_ms
      → waited + min poll_ms (window_ms - waited) ≡ poll_time (suc n)
  next_time n waited e h =
      let grows : suc n * poll_ms ≡ poll_ms + n * poll_ms = suc_times n poll_ms in ground arith

  one_more_silent :
      (n waited : ℕ)
      → waited ≡ poll_time n
      → poll (view waited) ≡ none
      → SilentBefore n
      → SilentBefore (suc n)
  one_more_silent n waited e h silent k below =
      let last : (k < n) ⊎ (k ≡ n) = ground arith in
      elim last [
        | inl l ↦ silent k l
        | inr l ↦
            subst (λ m. poll (view (poll_time m)) ≡ none) (sym l)
              (subst (λ t. poll (view t) ≡ none) e h)
      ]

  pub watch_from-poll_time :
      (fuel n waited : ℕ) (w : Watched)
      → waited ≡ poll_time n
      → SilentBefore n
      → watch_from poll_ms window_ms view fuel waited ≡ some w
      → (m : ℕ) × (w.waited ≡ poll_time m) × SilentBefore m
  unfolding watch_from
  watch_from-poll_time zero n waited w e silent found = absurd (ground arith)
  watch_from-poll_time (suc fuel) n waited w e silent found =
      let step = min poll_ms (window_ms - waited) in
      elim (Option-cases (poll (view waited))) [
        | inr (s, q) ↦ let ended : waited ≡ w.waited = ground arith in (n, sym ended ∙ e, silent)
        | inl q ↦ elim (Bool-cases (leb window_ms waited)) [
          | inl late ↦ let ended : waited ≡ w.waited = ground arith in (n, sym ended ∙ e, silent)
          | inr early ↦
              let rest : watch_from poll_ms window_ms view fuel (waited + step) ≡ some w =
                ground arith in
              watch_from-poll_time fuel (suc n) (waited + step) w
                (next_time n waited e (ground arith)) (one_more_silent n waited e q silent) rest
        ]
      ]
