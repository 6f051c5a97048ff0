-- ===== src/Lib.antt =====
-- Delta Desk: the decision logic of the trading agent in agent/src.
--
-- On each tick the agent reads its sources, classifies their freshness, evaluates the triggers of the
-- safety gates and steps the gate machine; the active gates imply a risk mode. A planner places ranges
-- of ticks that the lane's price fence allows, and mints liquidity with fixed-point arithmetic. A
-- language model may propose to tighten the plan, and a check of its own decides whether the result is
-- tighter. Each step of the final plan goes through the guard, which evaluates every rule. A step
-- passes the approval of the owner, takes a nonce, a fee and a decision id, and is sent unless the desk
-- is halted; errors change the desk's status, and an
-- attempt whose fate is unknown is resolved from the chain. Changes of the gates are announced on-chain. A separate
-- watchdog pauses a lane or exits it.
--
-- The parts:
--   Prelude   tests on numbers, lists, integers, results that may be errors, operations on floats
--   Units     agent/src/units.ts: mulDiv and its kin (FullMath), ticks and spacing (Spacing,
--             TickMath), liquidity and amounts (Liquidity), dollars and cents (Money)
--   Bands     agent/src/strategy/bands.ts: fenceAllows, fenceAllowsAcross, shapeOk, planBands
--   Gates     agent/src/regime: the names and tables of the gates, the machine (Machine, of
--             createGateMachine), its inputs (Triggers, of createGateEvaluator), the signals (Signal,
--             of signal.ts), and the risk modes of agent/src/guard/risk.ts (Modes)
--   Sense     agent/src/sense/freshness.ts
--   Actions   the actions of the desk and riskClassOf, of agent/src/types.ts
--   Overlay   agent/src/overlay/apply.ts: tightenCheck (Tighter, Accepted and Shares on what it accepts),
--             the applier (Apply; Applied, Survivors, Harmless and Passes on its results) and resolveOverlay
--             (Stage)
--   Approval  agent/src/approval/gate.ts: the polling gate (Gate; Watch and Schedule) and decideApproval (Decision)
--   Executor  agent/src/executor: fees.ts (Fees), nonce.ts (Nonce), decision-id.ts (DecisionId),
--             safe-mode.ts (DeskStatus), the checks of a signature of agent/src/signer/types.ts
--             (Signing), the rows of an execution in agent/src/state/db.ts (Store), broadcaster.ts
--             (Receipt, and the broadcast in Rh.Loop), and rh-executor.ts (Rh, with the children
--             Loop, Run and Execute; Ready, Lawful, Few, Last, Resent, Unsent and Sends on what it
--             sends, Keeping, Kept and Once on the executions of a step)
--   Guard     agent/src/guard: the notional of an action, of risk.ts; the input of guard.ts (Input),
--             its rules (Rules, with the children Limits and Steps), checkGuard (Check), and what a
--             step that it lets through has met (Authority, Promises, Placed, Origin)
--   Reconcile agent/src/reconcile/startup.ts: recordReceipt and resolve (with Sending, Finality,
--             Histories and Deadline on what it does to the rows of attempts), and resolveAll
--             (Batch, Keeping; Identity and Recorded on the rows of executions)
--   Replay    agent/src/replay/lane.ts, with Conserved and Solvent on a rerange
--   Watchdog  agent/src/watchdog/rules.ts
--   Examples  each theorem at concrete inputs
--
-- A bigint, and a number that is an integer, is a ℕ where it is never negative and a ℤ elsewhere; the
-- widths that the source checks (uint128, uint256) are checked in the model. An exception is a value of
-- `Result`. A text that only describes a decision (a reason, a detail) is left out or is a constructor.
-- A float that reaches a decision is of the type of a parameter `Floats`, with no law. The database is
-- a record of the rows a component uses; the files and rows a poll sees are a function of the time
-- waited.
--
-- The state of an execution is a store that comes back after an exception too. What other tasks do to
-- the desks between two reads of a status is a function of the moment. A store keeps a record of every call
-- of the broadcaster, those of the loop and the one that the resolver makes after a receipt timeout; it
-- calls the broadcaster just where it reports a rebroadcast when that call throws nothing.
--
-- Loops are structural but two: `watch` and the wait for a receipt run on fuel, one more than the window
-- or the timeout, as each poll that does not end them takes at least one millisecond. The
-- broadcast loop is structural in the re-signatures left.
--
-- Not modelled: network, signing and storage (the calls of a chain, an exchange, a language model),
-- conversions between floats and integers in units.ts, the hashes and texts of signals, the web
-- interface, the contracts, and the components that agent/src/daemon.ts wires but no file here names
-- (the hedge engine, the market calendar, the loop of a replay).
pub mod Prelude
pub mod Units
pub mod Bands
pub mod Gates
mod Examples
pub mod Executor
pub mod Sense
pub mod Actions
pub mod Overlay
pub mod Guard
pub mod Reconcile
pub mod Replay
pub mod Watchdog
pub mod Approval
