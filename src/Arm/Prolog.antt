-- ===== src/Arm/Prolog.antt =====
-- ARMEliminatePrologEpilog: the size of the frame and its adjustment, the stack slots of the saved
-- registers, and the removal of the instructions that set the frame up and take it down.
pub mod Conditions
pub mod Spill
pub mod Eliminate
pub mod Frame
pub mod Patterns
pub mod Removed
pub mod Returns
pub mod Slots
pub mod Whole
