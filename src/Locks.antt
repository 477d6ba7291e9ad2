-- ===== src/Locks.antt =====
-- kernel/src/vfs/locks: advisory locks on files.
pub mod Posix
pub mod Bsd
