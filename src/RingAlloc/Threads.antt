-- ===== src/RingAlloc/Threads.antt =====
-- Threads that call `alloc` and `free` of one ring_alloc at once, as a step relation on the shared
-- counters and each thread's place in its loop (cth/incl/cth/data/ringalloc.hpp).
-- A load may return an older value: of `_head` any number, of `_tail`, which only grows, any number
-- up to the current one. A compare-exchange compares with the current value, and a weak one may fail.
mod Defs
pub mod Invariant
pub mod Disjoint
pub use Defs.*
