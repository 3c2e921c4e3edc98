-- ===== src/Intervals.antt =====
-- src/intervals.hpp: sets of 64-bit numbers as sorted lists of half-open intervals.
pub mod Sets
pub mod Canonical
pub mod Merge
pub mod Sweep
pub mod Points
pub mod Search
pub mod Chunk
pub mod Accumulator
pub mod Stored
