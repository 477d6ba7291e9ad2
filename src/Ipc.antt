-- ===== src/Ipc.antt =====
-- kernel/src/ipc: communication between processes.
pub mod Futex
