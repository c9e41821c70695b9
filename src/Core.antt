-- ===== src/Core.antt =====
-- crates/core: the types that every other crate shares.
pub mod Event
pub mod Memory
pub mod Claim
pub mod Projection
pub mod Validate
