-- ===== src/Gates.antt =====
-- agent/src/types.ts, regime and gates: the names of the gates and their tables; and the risk modes
-- of agent/src/guard/risk.ts. A `Record` over the names is a function of the name.
pub mod Machine
pub mod Triggers
pub mod Signal
pub mod Modes
use deltadesk.Prelude.{ℕ, Bool, true, false, List, [], ◌∷◌, ◌==◌, ◌≡◌, ◌↔◌, arith}

pub data GateName : Type 0 where
  closed halt corp_action stale_ref reopen_guard bound_pinned wrapper_premium event : GateName

abbrev pub gate_names : List GateName
gate_names =
    closed ∷ halt ∷ corp_action ∷ stale_ref ∷ reopen_guard ∷ bound_pinned ∷ wrapper_premium ∷ event
    ∷ []

abbrev pub gate_bits : GateName → ℕ
gate_bits closed = 0x1
gate_bits halt = 0x2
gate_bits corp_action = 0x4
gate_bits stale_ref = 0x8
gate_bits reopen_guard = 0x10
gate_bits bound_pinned = 0x20
gate_bits wrapper_premium = 0x40
gate_bits event = 0x80

-- Position of a name in the list: the names are compared by it.
abbrev pub index : GateName → ℕ
index closed = 0
index halt = 1
index corp_action = 2
index stale_ref = 3
index reopen_guard = 4
index bound_pinned = 5
index wrapper_premium = 6
index event = 7

pub data GateEffect : Type 0 where
  reduce_only flat no_effect : GateEffect

abbrev pub gate_effect : GateName → GateEffect
gate_effect closed = reduce_only
gate_effect halt = flat
gate_effect corp_action = reduce_only
gate_effect stale_ref = reduce_only
gate_effect reopen_guard = reduce_only
gate_effect bound_pinned = no_effect
gate_effect wrapper_premium = no_effect
gate_effect event = no_effect

abbrev pub gate_implemented : GateName → Bool
gate_implemented closed = true
gate_implemented halt = true
gate_implemented corp_action = true
gate_implemented stale_ref = true
gate_implemented reopen_guard = true
gate_implemented bound_pinned = false
gate_implemented wrapper_premium = false
gate_implemented event = false

abbrev pub same_gate : GateName → GateName → Bool
same_gate a b = index a == index b

pub same_gate_iff : (a b : GateName) → (same_gate a b ≡ true) ↔ (a ≡ b)
same_gate_iff a b = (λ e. ground arith, λ e. ground arith)
