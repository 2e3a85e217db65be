-- ===== src/Tpm.antt =====
-- src/tpm: sealing with the platform's key store.
pub mod Sealing
pub mod Nonce
