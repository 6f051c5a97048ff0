-- ===== src/Examples.antt =====
-- The theorems at concrete inputs, and runs of the definitions, a module for each component.
mod Units
mod Bands
mod Gates
mod Executor
mod Desk
mod Signals
mod Guard
mod Overlay
mod Rules
mod DecisionId
mod Reconcile
mod Step
mod Replay
