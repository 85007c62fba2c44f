-- ===== src/Arm.antt =====
-- The ARM half of the raiser: machine instructions, and the passes that rewrite them.
pub mod Opcode
pub mod Target
pub mod Builder
pub mod Machine
pub mod Splitting
pub mod Frame
pub mod Prolog
pub mod Prototype
