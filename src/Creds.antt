-- ===== src/Creds.antt =====
-- kernel/src/process_model/creds.rs, kernel/src/security/setid.rs and the capability sets of
-- kernel/src/security/mod.rs: who a process is, and what it may do.
pub mod Namespace
pub mod Credentials
pub mod Setid
pub mod Exec
pub mod Capset
pub mod Reach
mod Tests
