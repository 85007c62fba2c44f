-- ===== src/Ric.antt =====
-- Raiser/ReducedIntervalCongruence.h and .cpp: sets of 64-bit values `Alignment * i + Offset`, with
-- the index i between two bounds.
pub mod Defs
pub mod Merge
pub mod Members
pub mod Bounds
