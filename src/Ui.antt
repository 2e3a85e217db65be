-- ===== src/Ui.antt =====
-- src/ui/bridge: the state behind the window and the handlers of its callbacks.
pub mod Qr
pub mod Details
pub mod Background
pub mod Transfer
pub mod Generator
pub mod State
pub mod Auth
pub mod Copies
pub mod Entries
pub mod Refresh
pub mod Model
pub mod Vault
pub mod Unlock
pub mod Runs
pub mod Prefs
