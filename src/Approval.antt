-- ===== src/Approval.antt =====
-- agent/src/approval/gate.ts and its types: the polling gate, and which steps execute in which mode.
-- A window is a natural number of milliseconds; what the channels show is a function of the time
-- waited, so the clock, the files and the table are a parameter.
pub mod Gate
pub mod Decision
