-- ===== src/Daemon.antt =====
-- bin/contextd: the daemon's handlers.
pub mod Claims
