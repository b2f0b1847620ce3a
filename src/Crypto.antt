-- ===== src/Crypto.antt =====
-- crates/omachat-crypto.
pub mod Nip44
pub mod Account
