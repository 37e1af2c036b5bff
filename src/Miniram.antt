-- ===== src/Miniram.antt =====
-- basic_miniram, an allocator of offsets with size classes (cth/incl/cth/data/miniram.hpp and
-- cth/incl/cth/data/inl/miniram.inl): the classes, the object, its operations, and what they promise.
pub mod Float
pub mod Ram
pub mod Alloc
pub mod Defrag
pub mod Copies
mod Tests
