-- ===== src/Daemon.antt =====
-- crates/omachatd/src.
pub mod Confirmation
