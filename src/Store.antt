-- ===== src/Store.antt =====
-- crates/store: the tables, as far as events are archived.
pub mod Archive
