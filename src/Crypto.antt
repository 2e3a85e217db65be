-- ===== src/Crypto.antt =====
-- src/crypto: the wrappers around the cryptographic crates.
pub mod Primitives
pub mod Cipher
pub mod Kdf
