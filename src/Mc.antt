-- ===== src/Mc.antt =====
-- The instructions of a function and its control-flow graph: Raiser/MCInstOrData.{h,cpp} and
-- Raiser/MCInstRaiser.{h,cpp}. Parts: the cell that holds an instruction or data, the raiser's
-- maps, the construction of the blocks and edges; what the blocks are, when they are made, that each
-- has its targets; the sizes of instructions, and the block that an offset lies in.
pub mod Cell
pub mod Raiser
pub mod Cfg
pub mod Blocks
pub mod Defined
pub mod Sizes
pub mod Edges
pub mod Offsets
