-- ===== src/Units.antt =====
-- agent/src/units.ts: the exact integer arithmetic that strategy, guard and executor share.
pub mod FullMath
pub mod Spacing
pub mod Liquidity
pub mod Money
pub mod TickMath
