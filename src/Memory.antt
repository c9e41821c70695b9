-- ===== src/Memory.antt =====
-- crates/memory: the fold of the log, and the working set.
pub mod Project
pub mod Focal
pub mod Working
pub mod Entities
pub mod UnGraph
pub mod Graph
