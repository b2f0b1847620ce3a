-- ===== src/Server.antt =====
-- The hosted server: crates/omachat-server, and what it signs and parses with crates/omachat-proto.
pub mod Transcripts
pub mod Storage
pub mod Service
