-- ===== src/Vsa.antt =====
-- The value-set analysis of X86 code: X86/X86ValueSetAnalysis.{h,cpp} on Raiser/AlocType.{h,cpp}.
-- Parts: the abstract locations, the sets, the analysis with its map, and the constants it tracks.
pub mod Aloc
pub mod ValueSet
pub mod Analysis
pub mod Facts
pub mod Constants
pub mod Frame
