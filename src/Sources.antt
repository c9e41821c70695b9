-- ===== src/Sources.antt =====
-- crates/sources: what is observed on the machine.
pub mod Poller
pub mod Paths
pub mod Noise
pub mod Manifest
pub mod Hooks
pub mod Install
