-- ===== src/Sched.antt =====
-- kernel/src/core and kernel/src/process_model: which process runs next, and which wait for a time.
pub mod Params
pub mod RunQueue
pub mod Timeout
pub mod State
