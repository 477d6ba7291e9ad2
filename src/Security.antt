-- ===== src/Security.antt =====
-- kernel/src/security: the seccomp filter machine and its policy.
pub mod Bpf
pub mod Seccomp
