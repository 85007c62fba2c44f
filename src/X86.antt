-- ===== src/X86.antt =====
-- X86/: the registers, the flags numbered behind them and the types of registers, the
-- instructions with their classes, the discovery of prototypes, the callee of a call and the
-- definitions that the raised value tracker keeps.
pub mod Registers
pub mod Flags
pub mod Arguments
pub mod InstrInfo
pub mod Types
pub mod Instr
pub mod Returns
pub mod Reaching
pub mod LiveIns
pub mod ArgTypes
pub mod Discover
pub mod Callee
pub mod Tracker
