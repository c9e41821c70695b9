-- ===== src/Broker.antt =====
-- crates/broker: the budget of a briefing, and the briefing itself.
pub mod Budget
pub mod Snapshot
pub mod Search
pub mod Words
pub mod Handoff
pub mod Drafts
pub mod Gate
pub mod Extract
