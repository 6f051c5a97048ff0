-- ===== src/Approval/Gate/Watch.antt =====
-- agent/src/approval/gate.ts: the loop of `watch` ends, and what it returns.
use deltadesk.Prelude.{
  ℕ, zero, suc, ◌+◌, ◌-◌, ◌*◌, ap, ◌≤◌, ◌<◌, ◌≡◌, refl, sym, ◌∙◌, ◌≢◌, ◌↔◌, ◌⊎◌, inl, inr, Bool,
  true, false, Option, none, some, leb, min, arith, Option-cases, Bool-cases,
}
use deltadesk.Approval.Gate.Schedule.{watch_from-poll_time}
use deltadesk.Approval.Gate.{
  View, Signal, poll, Watched, watch_from, watch, answer_of, request_approval, ApprovalAnswer,
  timeout, approve,
}

answer_of-approved :
    (o : Option Signal)
    → ((answer_of o).approved ≡ true) ↔ ((s : Signal) × (o ≡ some s) × (s.kind ≡ approve))
unfolding answer_of
answer_of-approved none = (λ h. ground arith, λ h. ground arith)
answer_of-approved (some s) = (λ h. (s, refl, ground arith), λ (t, e, k). ground arith)

answer_of-timeout : (o : Option Signal) → (answer_of o).outcome ≡ timeout → o ≡ none
unfolding answer_of
answer_of-timeout none h = refl
answer_of-timeout (some s) h = ground arith

timeout_of-none : (o : Option Signal) → o ≡ none → (answer_of o).outcome ≡ timeout
unfolding answer_of
timeout_of-none none h = refl
timeout_of-none (some s) h = ground arith

module _ (poll_ms window_ms : ℕ) (view : ℕ → View) where
  -- What a watch returns: the answer of its last poll, at a time within the window, or silence at the
  -- window's very end.
  IsAnswer : Watched → Type 0
  IsAnswer w =
      (w.signal ≡ poll (view w.waited))
      × (w.waited ≤ window_ms)
      × ((w.timed_out ≡ true) ↔ (w.signal ≡ none))
      × (w.signal ≡ none → w.waited ≡ window_ms)

  -- An answer comes with the first poll after time `t`, when every view from then on shows one.
  IsPrompt : ℕ → Watched → Type 0
  IsPrompt t w = ((u : ℕ) → t ≤ u → poll (view u) ≢ none) → w.waited ≤ t + poll_ms

  le_or_lt : (a b : ℕ) → (a ≤ b) ⊎ (b < a)
  le_or_lt a b = ground arith

  watch_from_answers :
      (fuel waited : ℕ)
      → 0 < poll_ms
      → waited ≤ window_ms
      → window_ms - waited < fuel
      → (w : Watched) × (watch_from poll_ms window_ms view fuel waited ≡ some w)
        × IsAnswer w
        × ((t : ℕ) → waited ≤ t + poll_ms → IsPrompt t w)
  unfolding watch_from IsAnswer IsPrompt
  watch_from_answers zero waited hp hw hf = ground arith
  watch_from_answers (suc fuel) waited hp hw hf =
      let ends : Option Signal → Bool → Watched =
        λ s late. record { signal = s; timed_out = late; waited = waited } in
      let step = min poll_ms (window_ms - waited) in
      elim (Option-cases (poll (view waited))) [
        | inr (s, e) ↦ (
          ends (some s) false,
          ground arith,
          (sym e, hw, (λ h. ground arith, λ h. ground arith), λ h. ground arith),
          λ t ht hu. ht,
        )
        | inl e ↦ elim (Bool-cases (leb window_ms waited)) [
          | inl late ↦ (
            ends none true,
            ground arith,
            (sym e, hw, (λ h. refl, λ h. refl), λ h. ground arith),
            λ t ht hu. ht,
          )
          | inr early ↦
              let (w, found, is_answer, prompt) =
                watch_from_answers fuel (waited + step) hp (ground arith) (ground arith) in
              (
                w,
                ground arith,
                is_answer,
                λ t ht hu.
                    let later : waited < t = elim (le_or_lt t waited) [
                      | inl h ↦ absurd (hu waited h e)
                      | inr h ↦ h
                    ] in
                    prompt t (ground arith) hu,
              )
        ]
      ]

  -- When polls are apart by a positive time, a watch ends: with the answer of its last poll, within
  -- the window, or after the whole window with silence, and then alone it has timed out. When an
  -- answer stands from a time `t` on, the watch ends at the latest one interval after it.
  pub watch-answers :
      0 < poll_ms
      → (w : Watched) × (watch poll_ms window_ms view ≡ some w)
        × (w.signal ≡ poll (view w.waited))
        × (w.waited ≤ window_ms)
        × ((w.timed_out ≡ true) ↔ (w.signal ≡ none))
        × (w.signal ≡ none → w.waited ≡ window_ms)
        × ((t : ℕ) → ((u : ℕ) → t ≤ u → poll (view u) ≢ none) → w.waited ≤ t + poll_ms)
  unfolding watch IsAnswer IsPrompt
  watch-answers hp =
      let (w, found, is_answer, prompt) =
        watch_from_answers (suc window_ms) 0 hp (ground arith) (ground arith) in
      (w, found, is_answer.0, is_answer.1, is_answer.2, is_answer.3, λ t. prompt t (ground arith))

  -- The question of copilot, with polls at every multiple of a positive interval and at the window's end,
  -- has an answer, and it follows the first poll that is not silent, or the one at the window's end: all
  -- polls before were silent. It is an approval just when that poll showed an explicit one, and a timeout
  -- just when that poll was silent too, which is then the one at the window's end.
  pub request_approval-answers :
      0 < poll_ms
      → (answer : ApprovalAnswer) × (n : ℕ) × (request_approval poll_ms window_ms view
          ≡ some answer)
        × ((k : ℕ) → k < n → poll (view (min (k * poll_ms) window_ms)) ≡ none)
        × ((answer.approved ≡ true) ↔ (
            (s : Signal) × (poll (view (min (n * poll_ms) window_ms)) ≡ some s)
            × (s.kind ≡ approve)))
        × ((answer.outcome ≡ timeout) ↔ (poll (view (min (n * poll_ms) window_ms)) ≡ none))
        × (answer.outcome ≡ timeout → window_ms ≤ n * poll_ms)
  unfolding request_approval answer_of watch
  request_approval-answers hp =
      let (w, found, signal, within, late, silent, prompt) = watch-answers hp in
      let (n, at, before) =
        watch_from-poll_time poll_ms window_ms view (suc window_ms) 0 0 w (omega arith)
          (λ k h. absurd (omega (arith, h))) (unfold watch in found) in
      let approves = answer_of-approved w.signal in
      let seen : w.signal ≡ poll (view (min (n * poll_ms) window_ms)) =
        signal ∙ ap (λ t. poll (view t)) at in
      (
        answer_of w.signal,
        n,
        rw found refl,
        before,
        (
          λ h. let (s, e, k) = approves.0 h in (s, sym seen ∙ e, k),
          λ (s, e, k). approves.1 (s, seen ∙ e, k),
        ),
        (λ h. sym seen ∙ answer_of-timeout w.signal h, λ h. timeout_of-none w.signal (seen ∙ h)),
        λ h.
            let full : w.waited ≡ window_ms = silent (answer_of-timeout w.signal h) in
            omega (arith, full, at),
      )
