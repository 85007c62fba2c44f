-- ===== src/Tests.antt =====
-- The theorems at concrete inputs, and runs of the definitions.
mod ArmTarget
mod ArmSplitting
mod RicSets
mod VsaConstants
mod McCfg
mod FilterLists
mod ArmFrame
mod ArmProlog
mod Modules
mod X86Registers
mod ArmPrototype
mod FilterTypes
mod X86Target
mod X86Parts
mod X86LiveIns
mod X86Returns
mod X86Tracker
mod X86Callee
