-- ===== src/Arm/Splitting.antt =====
-- ARM/ARMInstructionSplitting.cpp: instructions with a shifted operand, or with an address to be
-- computed, become sequences of plain instructions.
pub mod Tables
pub mod LoadStore
pub mod Shifter
pub mod Pass
pub mod Opcodes
pub mod Shifts
pub mod Meaning
pub mod Limits
pub mod Outcome
pub mod Rewrites
