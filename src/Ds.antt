-- ===== src/Ds.antt =====
-- src/ds: the data structures behind the values.
pub mod Double
pub mod SkipList
pub mod LinkedList
