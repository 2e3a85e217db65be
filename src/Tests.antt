-- ===== src/Tests.antt =====
-- Concrete inputs: a platform that is a plain function, and the runs of the code on it.
mod Toy
mod Secrets
mod Vaults
mod Window
mod Callbacks
mod Access
mod Running
mod Transfers
mod Creations
mod Copies
mod Sequences
mod Editing
mod Launches
mod Restarts
mod Overlaps
mod Locked
