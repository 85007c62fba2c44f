-- ===== src/ModuleRaiser.antt =====
-- Raiser/ModuleRaiser.{h,cpp}: the registry of raisers, the relocations of the text section, the
-- functions of a module, and the order of the passes.
pub mod Registry
pub mod Relocs
pub mod Search
pub mod Functions
pub mod Lookup
pub mod Passes
