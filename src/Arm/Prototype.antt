-- ===== src/Arm/Prototype.antt =====
-- ARMFunctionPrototype: the parameters and the return type of a function, from its code.
pub mod Discover
pub mod Parameters
