-- ===== src/Sense.antt =====
-- agent/src/sense: the freshness of the sources.
pub mod Freshness
