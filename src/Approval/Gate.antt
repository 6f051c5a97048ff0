-- ===== src/Approval/Gate.antt =====
-- agent/src/approval/gate.ts: `poll`, `watch` and the two questions of `createApprovalGate`.
pub mod Schedule
pub mod Watch
use mathlib.Core.Option.{get_or, map as option_map}
use deltadesk.Prelude.{
  ℕ, zero, suc, ◌+◌, ◌-◌, ◌≤◌, ◌<◌, ◌≡◌, refl, ◌≢◌, ◌↔◌, ◌⊎◌, inl, inr, Bool, true, false, Option,
  none, some, leb, min, if◌then◌else◌, arith, Option-cases, Bool-cases,
}

pub data ApprovalChannel : Type 0 where
  web telegram file : ApprovalChannel

pub data ApprovalStatus : Type 0 where
  pending approved denied cancelled expired : ApprovalStatus

pub record ApprovalRow : Type 0 where
  pub status : ApprovalStatus
  pub channel : Option ApprovalChannel

-- What a poll can see: the two files, none without a directory, and the row, none without a database.
pub record View : Type 0 where
  pub approve_file : Bool
  pub cancel_file : Bool
  pub row : Option ApprovalRow

pub data SignalKind : Type 0 where
  approve cancel : SignalKind

pub record Signal : Type 0 where
  pub kind : SignalKind
  pub channel : ApprovalChannel

unfoldable pub signal_of_row : ApprovalRow → Option Signal
signal_of_row row =
    let channel = get_or row.channel web in
    elim row.status as (λ _. Option Signal) [
      | approved ↦ some (record { kind = approve; channel = channel })
      | denied ↦ some (record { kind = cancel; channel = channel })
      | cancelled ↦ some (record { kind = cancel; channel = channel })
      | _ ↦ none
    ]

unfoldable pub poll : View → Option Signal
unfolding signal_of_row
poll v =
    if v.cancel_file
    then some (record { kind = cancel; channel = file })
    else if v.approve_file
    then some (record { kind = approve; channel = file })
    else elim v.row as (λ _. Option Signal) [ none ↦ none | some row ↦ signal_of_row row ]

-- The files after a poll: a cancel consumes both, an approve itself.
unfoldable pub files_after : View → View
files_after v =
    if v.cancel_file
    then record v { cancel_file = false; approve_file = false }
    else if v.approve_file
    then record v { approve_file = false }
    else v

-- The end of a watch: the answer, whether the window ended, and how long it waited. The row is
-- closed as expired just when the window ended.
pub record Watched : Type 0 where
  pub signal : Option Signal
  pub timed_out : Bool
  pub waited : ℕ

pub data ApprovalOutcome : Type 0 where
  approved_outcome denied_outcome timeout cancelled_outcome not_required advisory_outcome :
      ApprovalOutcome

pub record ApprovalAnswer : Type 0 where
  pub approved : Bool
  pub outcome : ApprovalOutcome
  pub channel : Option ApprovalChannel

pub record CancelAnswer : Type 0 where
  pub cancelled : Bool
  pub channel : Option ApprovalChannel

-- No explicit approval is no execution.
unfoldable pub answer_of : Option Signal → ApprovalAnswer
answer_of none = record { approved = false; outcome = timeout; channel = none }
answer_of (some s) = elim s.kind as (λ _. ApprovalAnswer) [
  | approve ↦ record { approved = true; outcome = approved_outcome; channel = some s.channel }
  | cancel ↦ record { approved = false; outcome = denied_outcome; channel = some s.channel }
]

-- Silence is to proceed, and so is an approval, which ends the window early.
unfoldable pub cancel_answer_of : Option Signal → CancelAnswer
cancel_answer_of none = record { cancelled = false; channel = none }
cancel_answer_of (some s) = elim s.kind as (λ _. CancelAnswer) [
  | approve ↦ record { cancelled = false; channel = some s.channel }
  | cancel ↦ record { cancelled = true; channel = some s.channel }
]

module _ (poll_ms window_ms : ℕ) (view : ℕ → View) where
  -- The loop of `watch`, from a time waited.
  unfoldable pub watch_from : ℕ → ℕ → Option Watched
  unfolding poll
  watch_from zero waited = none
  watch_from (suc fuel) waited =
      let step = min poll_ms (window_ms - waited) in
      let rest = watch_from fuel (waited + step) in
      elim (poll (view waited)) as (λ _. Option Watched) [
        | some s ↦ some (record { signal = some s; timed_out = false; waited = waited })
        | none ↦
            if leb window_ms waited
            then some (record { signal = none; timed_out = true; waited = waited })
            else rest
      ]

  -- A window and a positive interval of polls leave at most `window_ms` polls before the last.
  unfoldable pub watch : Option Watched
  unfolding watch_from
  watch = watch_from (suc window_ms) 0

  unfoldable pub request_approval : Option ApprovalAnswer
  unfolding watch answer_of
  request_approval = option_map (λ w. answer_of w.signal) watch

  unfoldable pub await_cancel_window : Option CancelAnswer
  unfolding watch cancel_answer_of
  await_cancel_window = option_map (λ w. cancel_answer_of w.signal) watch
