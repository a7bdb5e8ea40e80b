-- ===== src/Vector.antt =====
-- The vectors that hold the entries of a skipvector node (disco-skip/include/include-cache/vector).
pub mod Slots
pub mod Entries
pub mod Counts
pub mod Parts
pub mod Sorted
pub mod Unsorted
