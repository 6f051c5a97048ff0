-- ===== src/Executor.antt =====
-- agent/src/executor: fees, nonces, the status of a desk, and the pipeline of one step.
pub mod Fees
pub mod Nonce
pub mod DecisionId
pub mod DeskStatus
pub mod Signing
pub mod Receipt
pub mod Store
pub mod Rh
