-- ===== src/Security/Seccomp.antt =====
-- kernel/src/security/seccomp.rs, and the disposition and the strict program of
-- kernel/src/syscall/creds.rs. The `i32` system call number is its 32-bit pattern.
pub mod Layout
pub mod Verdict
pub mod Strict
mod Tests
use cyphera_kernel.Prelude.{
  ℕ, zero, suc, ◌+◌, ◌*◌, ◌/◌, ◌%◌, bit_and, min, List, [], ◌∷◌, ◌++◌, ltb, ◌==◌, if◌then◌else◌,
  Bool, ◌||◌,
}
use cyphera_kernel.Security.Bpf.Code.{SockFilter}
use cyphera_kernel.Security.Bpf.Machine.{Outcome, returns, panics, stuck, run}

abbrev pub seccomp_ret_kill_process : ℕ
seccomp_ret_kill_process = 0x80000000

abbrev pub seccomp_ret_kill_thread : ℕ
seccomp_ret_kill_thread = 0x00000000

abbrev pub seccomp_ret_trap : ℕ
seccomp_ret_trap = 0x00030000

abbrev pub seccomp_ret_errno : ℕ
seccomp_ret_errno = 0x00050000

abbrev pub seccomp_ret_log : ℕ
seccomp_ret_log = 0x7ffc0000

abbrev pub seccomp_ret_allow : ℕ
seccomp_ret_allow = 0x7fff0000

abbrev pub seccomp_ret_action : ℕ
seccomp_ret_action = 0xffff0000

abbrev pub seccomp_ret_data : ℕ
seccomp_ret_data = 0x0000ffff

-- `args` holds six entries.
pub record SeccompData : Type 0 where
  pub nr : ℕ
  pub arch : ℕ
  pub instruction_pointer : ℕ
  pub args : List ℕ

-- `to_le_bytes` of an integer of `n` bytes
le_bytes : ℕ → ℕ → List ℕ
le_bytes zero v = []
le_bytes (suc n) v = (v % 256) ∷ le_bytes n (v / 256)

-- the `for` loop of `to_bytes`
args_bytes : List ℕ → List ℕ
args_bytes [] = []
args_bytes (v ∷ rest) = le_bytes 8 v ++ args_bytes rest

unfoldable pub to_bytes : SeccompData → List ℕ
unfolding le_bytes args_bytes
to_bytes d =
    le_bytes 4 d.nr
    ++ (le_bytes 4 d.arch ++ (le_bytes 8 d.instruction_pointer ++ args_bytes d.args))

abbrev pub Chain : Type 0
Chain = List (List SockFilter)

-- the `for` loop of `evaluate_chain`; a panic of a program is one of the loop
evaluate_from : Chain → List ℕ → ℕ → Outcome
evaluate_from [] bytes best = returns best
evaluate_from (prog ∷ rest) bytes best = elim (run prog bytes) [
  | returns r ↦
      evaluate_from rest bytes
        (if ltb (bit_and r seccomp_ret_action) (bit_and best seccomp_ret_action) then r else best)
  | panics ↦ panics
  | stuck ↦ stuck
]

pub evaluate_chain : Chain → SeccompData → Outcome
evaluate_chain [] d = returns seccomp_ret_allow
evaluate_chain (prog ∷ rest) d = evaluate_from (prog ∷ rest) (to_bytes d) seccomp_ret_allow

-- what `apply_seccomp` does with the verdict: it lets the call pass, fails it with an error number,
-- raises SIGSYS with the data of the verdict, or ends the process
pub data Disposition : Type 0 where
  pass : Disposition
  fail : ℕ → Disposition
  trap : ℕ → Disposition
  kill : Disposition

pub apply_seccomp : ℕ → Disposition
apply_seccomp r =
    let action = bit_and r seccomp_ret_action in
    let payload = bit_and r seccomp_ret_data in
    if action == seccomp_ret_allow
    then pass
    else if action == seccomp_ret_log
    then pass
    else if action == seccomp_ret_errno
    then fail (min payload 4095)
    else if action == seccomp_ret_trap
    then trap payload
    else kill

instruction : ℕ → ℕ → ℕ → ℕ → SockFilter
instruction code jt jf k = record { code = code; jt = jt; jf = jf; k = k }

-- the program that SECCOMP_SET_MODE_STRICT installs
pub strict_mode_program : List SockFilter
unfolding instruction
strict_mode_program =
    instruction 0x20 0 0 0
    ∷ instruction 0x15 5 0 0
    ∷ instruction 0x15 4 0 1
    ∷ instruction 0x15 3 0 15
    ∷ instruction 0x15 2 0 60
    ∷ instruction 0x15 1 0 231
    ∷ instruction 0x06 0 0 seccomp_ret_kill_process
    ∷ instruction 0x06 0 0 seccomp_ret_allow
    ∷ []
