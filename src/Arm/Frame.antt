-- ===== src/Arm/Frame.antt =====
-- ARMFrameBuilder: stack slots for the loads, stores and address computations at a fixed place of
-- the frame. Parts: the identification of such instructions, the pass, and the theorems.
pub mod Identify
pub mod Build
pub mod Address
pub mod Slots
pub mod Elements
pub mod Built
