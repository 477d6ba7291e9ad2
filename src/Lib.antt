-- ===== src/Lib.antt =====
-- Models of the core of the Cyphera kernel, with the theorems that make them correct.
--
-- The kernel (kernel/) is a monolithic Rust kernel over an unsafe layer (frame/). This development
-- models the parts that decide without touching hardware: each is a state, a record here, and
-- operations on it, functions that take the state and return the new one.
--
--   Prelude    names and lemmas that all parts share: Boolean tests on numbers, lists, `KResult`, and
--              bounds of bit operations.
--   Security   Bpf: kernel/src/security/bpf.rs. Code has the instruction format; Verify has
--              `BpfProgram::verify`, a function for each arm of its match; Machine has
--              `BpfProgram::run` and `read_packet`, the loop's variables being the record `Cpu`.
--              Seccomp: kernel/src/security/seccomp.rs, whose `evaluate_chain` runs the verified
--              programs on `SeccompData::to_bytes`, and from kernel/src/syscall/creds.rs the strict
--              program and what `apply_seccomp` does with a verdict.
--   Mm         kernel/src/process_model/memory_map.rs. Vma has one range; MmapState has the ranges of
--              an address space and every operation that changes them, under its method's name;
--              Checked has the panics, and the sections of kernel/src/syscall/mm.rs that put ranges.
--              FrameAlloc: frame/src/mm/frame_alloc.rs. Regions and Boot have what is given to the
--              buddy allocator at boot, Counts the frames handed out and the table of their counts.
--              The allocator is a third-party crate: Buddy is its interface.
--   Sched      Params: kernel/src/process_model/sched_params.rs and kernel/src/core/cfs.rs. RunQueue:
--              kernel/src/core/runqueue.rs, the queues of one processor. Timeout:
--              kernel/src/core/timeout.rs, the deadlines and which are due at a time. The sorted maps
--              are lists in the order of their keys. State: kernel/src/sched_state.rs, and set_state
--              and set_sched_owner of kernel/src/core/mod.rs.
--   Locks      kernel/src/vfs/locks. Posix has the byte-range locks of posix.rs, Bsd the flock locks
--              of bsd.rs. The tables are association lists, and waking the waiters of an inode is
--              that inode in a list of wake-ups.
--   Creds      Namespace and Credentials: kernel/src/process_model/creds.rs, the maps of ids of user
--              namespaces, and what a process is and may do. Setid and Exec:
--              kernel/src/security/setid.rs, the system calls that set ids, and exec. Capset:
--              kernel/src/security/mod.rs. `sys_setresuid` and its kin take `keep_caps`, which the
--              source reads of the current process, and give the credentials back with the result.
--   Files      FdTable: kernel/src/vfs/fd.rs, the table of file descriptors, an open file being its
--              identity. Pipe: kernel/src/vfs/pipe.rs, a pipe's buffer and the counts of its ends; the
--              loops that park a reader or a writer and try again are left out. Path:
--              kernel/src/vfs/path.rs, paths as lists of bytes and their resolution; the answers of
--              the inodes and of the table of mounts are the parameter `Tree`.
--   Ipc        Futex: kernel/src/ipc/futex/state.rs, wake.rs and wait.rs, the queues of processes that
--              wait at an address. The process table is the parameter `Waker`.
--
-- Numbers are natural numbers. Where the source wraps, as atomic and `wrapping_` operations and casts
-- do, the wrap-around is written out, and hypotheses state the bounds that the types give (`FitsWord`,
-- `IsByte`). The release profile of Cargo.toml has overflow checks, so `+` panics where a sum does not
-- fit. Where an address or an offset of the user decides that, in memory_map.rs, the operation has a
-- form that panics, as `none` (Mm.MmapState.Checked). Other such sums are exact numbers, and theorems
-- bound them or the source never comes near the bound: counts of frames, ends of a pipe and waiters.
--
-- Loops are recursion on the list that they go through. The loop of `BpfProgram::run` has fuel, one
-- round more than the program has instructions; that is enough since every jump goes forward, and
-- running out is an outcome of its own (`stuck`). The nested calls of `resolve_with_depth` have fuel,
-- `enough` at its entry points: a link goes one level deeper, of 41, and a `..` resolves a path that
-- has none, so 43 units are enough; running out is `none`.
--
-- The functions of an operation are applied under the lock that the source holds for it, so that an
-- interleaving of operations is a sequence of steps: `Step` and `Reach` in Mm.MmapState.Reach,
-- Locks.Posix.Table, Locks.Bsd.Reach, Creds.Reach, Files.Pipe.Fifo, Mm.FrameAlloc.Counts.Reach,
-- Sched.RunQueue.Reach and Sched.Timeout.Order. An operation with several sections is as many steps:
-- the sections of mmap, mremap and shmat on the memory map, and those of the last close of a
-- description with flock locks. Windows of the memory map are not empty, and a description stays with
-- its inode. What one section relies on from an earlier one, and the code does not test again, is a
-- premise of `Step` in Mm.MmapState.Reach. The futex calls lock a queue several times; they are
-- modelled without what other processors do to it in between.
--
-- Not modelled: the frame but for its frame allocator, page tables and context switches, which are
-- unsafe code over hardware; wait queues beyond being woken; the copying of arguments from and to user
-- memory; file systems, networking and devices; priority inheritance and robust lists of futexes; in
-- memory_map.rs the saved registers and the labels for /proc/maps. Parameters stand for the buddy
-- allocator, a crate of its own, for the answers of inodes and mounts, and for the place that
-- `binary_search_by_key` gives.
pub mod Prelude
pub mod Security
pub mod Mm
pub mod Locks
pub mod Creds
pub mod Files
pub mod Ipc
pub mod Sched
