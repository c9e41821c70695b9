-- ===== src/Background.antt =====
-- crates/background: what the daemon does on a timer.
pub mod Pruner
