-- ===== src/Vault.antt =====
-- src/vault: the entries, the vault and its file format.
pub mod Entry
pub mod Format
pub mod Operations
pub mod FileLock
pub mod Mirror
pub mod Manager
