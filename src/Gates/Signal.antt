-- ===== src/Gates/Signal.antt =====
-- agent/src/regime/signal.ts: when a change of a lane's regime and gates is announced on-chain. Times
-- are integers of milliseconds; the key of a state is the pair of its regime code and its mask; a
-- refusal keeps its cause in place of its text. The preimage of the hash is not modelled.
pub mod Emission
pub mod Watching
pub mod Mask
use deltadesk.Prelude.{
  ℕ, ◌+◌, ◌/◌, ◌%◌, ◌≡◌, Bool, true, false, not, ◌&&◌, ◌||◌, Option, none, some, List, [], ◌∷◌,
  filter, any, ltb, leb, ◌==◌, if◌then◌else◌,
}
use deltadesk.Prelude.Int.{ℤ, pos, ◌+ℤ◌, ◌-ℤ◌, ltb_ℤ, leb_ℤ}
use deltadesk.Sense.Freshness.{RegimeName, regular, extended, overnight, weekend_dark, holiday}
use deltadesk.Gates.{GateName, gate_names, gate_bits, same_gate}

pub record SignalState : Type 0 where
  pub regime_code : ℕ
  pub gates_mask : ℕ

-- `mask & GATE_BITS[g]`, of a bit.
unfoldable pub has_bit : ℕ → GateName → Bool
has_bit mask g = not ((mask / gate_bits g) % 2 == 0)

-- `mask | GATE_BITS[g]`, of a bit.
unfoldable pub set_bit : ℕ → GateName → ℕ
unfolding has_bit
set_bit mask g = if has_bit mask g then mask else mask + gate_bits g

unfoldable pub gates_mask_from : ℕ → List GateName → ℕ
unfolding set_bit
gates_mask_from mask [] = mask
gates_mask_from mask (g ∷ rest) = gates_mask_from (set_bit mask g) rest

unfoldable pub gates_mask_of_names : List GateName → ℕ
unfolding gates_mask_from
gates_mask_of_names gates = gates_mask_from 0 gates

unfoldable pub gates_of_mask : ℕ → List GateName
unfolding has_bit
gates_of_mask mask = filter (has_bit mask) gate_names

abbrev pub regime_code : RegimeName → ℕ
regime_code regular = 1
regime_code extended = 2
regime_code overnight = 3
regime_code weekend_dark = 4
regime_code holiday = 5

-- The state a regime and its active gates announce.
unfoldable pub signal_state_of : RegimeName → List GateName → SignalState
unfolding gates_mask_of_names
signal_state_of regime active = record {
  regime_code = regime_code regime;
  gates_mask = gates_mask_of_names (filter (λ g. any (same_gate g) active) gate_names);
}

abbrev pub same_key : SignalState → SignalState → Bool
same_key a b = a.regime_code == b.regime_code && a.gates_mask == b.gates_mask

-- The state last held for the dwell and left, and when it ended.
pub record Away : Type 0 where
  pub key : SignalState
  pub end_ms : ℤ

pub record SignalWatch : Type 0 where
  pub key : SignalState
  pub since_ms : ℤ
  pub settled : Bool
  pub away : Option Away

-- A watch of the state of a tick, from the watch of the tick before.
unfoldable pub watch_state : Option SignalWatch → SignalState → ℤ → Bool → ℤ → SignalWatch
watch_state none state now_ms settled min_dwell_ms = record {
  key = state;
  since_ms = now_ms;
  settled = settled;
  away = none;
}
watch_state (some prev) state now_ms settled min_dwell_ms =
    if same_key prev.key state then record prev { settled = settled } else record {
      key = state;
      since_ms = now_ms;
      settled = settled;
      away =
          if prev.settled && leb_ℤ min_dwell_ms (now_ms -ℤ prev.since_ms)
          then some (record { key = prev.key; end_ms = now_ms })
          else prev.away;
    }

pub data GateSignalStatus : Type 0 where
  pending sent declined failed not_sent confirmed : GateSignalStatus

pub record LatestSignal : Type 0 where
  pub to_key : SignalState
  pub status : GateSignalStatus
  pub created_at_ms : ℤ

pub record GateSignalInput : Type 0 where
  pub enabled : Bool
  pub halted : Bool
  pub in_flight : ℕ
  pub state : SignalState
  pub settled : Bool
  pub watch : SignalWatch
  pub now_ms : ℤ
  pub last_emitted : Option SignalState
  pub latest : Option LatestSignal
  pub signed_1h : ℕ
  pub max_per_hour : ℕ
  pub min_dwell_ms : ℤ
  pub retry_ms : ℤ

pub data Refusal : Type 0 where
  signals_off not_signing in_flight_now startup_hold already_on_chain : Refusal
  signal_pending signal_in_flight was_declined was_lost retry_later too_short rate_limit : Refusal

-- The announcement: the state it leaves, none for the first, and since when the state holds.
pub record Announcement : Type 0 where
  pub from_state : Option SignalState
  pub to_state : SignalState
  pub at_ms : ℤ

pub data GateSignalPlan : Type 0 where
  no_signal : Refusal → GateSignalPlan
  emit : Announcement → GateSignalPlan

abbrev pub is_key : Option SignalState → SignalState → Bool
is_key none key = false
is_key (some k) key = same_key k key

-- The lane held another state for the dwell since the signal was planned.
unfoldable pub reentered : Option Away → SignalState → ℤ → Bool
reentered none key created_at_ms = false
reentered (some away) key created_at_ms =
    not (same_key away.key key) && ltb_ℤ created_at_ms away.end_ms

-- What the latest signal forbids.
unfoldable pub refusal_of_latest : GateSignalInput → LatestSignal → Option Refusal
unfolding reentered
refusal_of_latest i latest =
    let same_run =
      same_key latest.to_key i.state && not (reentered i.watch.away i.state latest.created_at_ms) in
    let wait = (latest.created_at_ms +ℤ i.retry_ms) -ℤ i.now_ms in
    elim latest.status as (λ _. Option Refusal) [
      | pending ↦ some signal_pending
      | sent ↦ some signal_in_flight
      | declined ↦ if same_run then some was_declined else none
      | failed ↦ if same_run then some was_lost else none
      | not_sent ↦ if same_run && ltb_ℤ (pos 0) wait then some retry_later else none
      | confirmed ↦ none
    ]

unfoldable pub dwell_refusal : GateSignalInput → Option LatestSignal → Option Refusal
unfolding refusal_of_latest
dwell_refusal i none = none
dwell_refusal i (some latest) = elim (refusal_of_latest i latest) as (λ _. Option Refusal) [
  | some r ↦ some r
  | none ↦ if ltb_ℤ (i.now_ms -ℤ i.watch.since_ms) i.min_dwell_ms then some too_short else none
]

unfoldable pub detect_gate_signal : GateSignalInput → GateSignalPlan
unfolding dwell_refusal
detect_gate_signal i =
    if not i.enabled
    then no_signal signals_off
    else if i.halted
    then no_signal not_signing
    else if ltb 0 i.in_flight
    then no_signal in_flight_now
    else if not i.settled
    then no_signal startup_hold
    else if is_key i.last_emitted i.state
    then no_signal already_on_chain
    else elim (dwell_refusal i i.latest) as (λ _. GateSignalPlan) [
      | some r ↦ no_signal r
      | none ↦
          if leb i.max_per_hour i.signed_1h
          then no_signal rate_limit
          else emit
              (record { from_state = i.last_emitted; to_state = i.state; at_ms = i.watch.since_ms })
    ]
