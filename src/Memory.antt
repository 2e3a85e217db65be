-- ===== src/Memory.antt =====
-- src/memory: locked pages and the buffers that hold secrets in them.
pub mod Guard
