-- ===== src/Security/Bpf.antt =====
-- kernel/src/security/bpf.rs: the classic BPF machine that evaluates seccomp filters. `verify` is
-- the admission check and `run` the interpreter.
-- A `u16`, `u32` or `usize` is a native ℕ; wrap-around is written out. An index out of bounds, which
-- makes the source panic, is the outcome `panics`. `run` counts its rounds down from one more than
-- the program's length; Machine/Halt.antt shows that this is enough for every program.
pub mod Code
pub mod Verify
pub mod Machine
