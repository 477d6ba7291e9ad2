-- ===== src/Files.antt =====
-- What a process reaches through its file descriptors.
pub mod FdTable
pub mod Pipe
pub mod Path
