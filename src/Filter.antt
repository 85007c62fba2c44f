-- ===== src/Filter.antt =====
-- The lists of functions to raise and not to raise: Raiser/FunctionFilter.{h,cpp}. Parts: the lists
-- with their operations, and what the operations do to the entries of a name.
pub mod Lists
pub mod Types
pub mod Config
pub mod Counts
