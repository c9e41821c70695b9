-- ===== src/Pipeline.antt =====
-- crates/pipeline: scoring, classifying, summarising and the verdict on an event.
pub mod Heuristics
pub mod Classify
pub mod Content
pub mod Decision
