-- ===== src/Security/Seccomp/Tests.antt =====
-- kernel/src/security/seccomp.rs and the strict program of kernel/src/syscall/creds.rs on concrete
-- calls.
use cyphera_kernel.Prelude.{ℕ, ◌%◌, ◌^◌, ◌≡◌, refl, arith, List, [], ◌∷◌, map, if◌then◌else◌}
use cyphera_kernel.Security.Bpf.Code.{SockFilter}
use cyphera_kernel.Security.Bpf.Verify.{verify, verify_from, verify_insn, ends_in_ret}
use cyphera_kernel.Security.Bpf.Machine.{
  run, exec, proceed, step, ld, jmp, branch, operand, ret, read_packet, byte_at, returns,
}
use cyphera_kernel.Security.Seccomp.{
  SeccompData, to_bytes, le_bytes, args_bytes, evaluate_from, evaluate_chain, apply_seccomp,
  instruction, strict_mode_program, seccomp_ret_allow, seccomp_ret_kill_process,
  seccomp_ret_kill_thread, pass, fail, trap, kill,
}
use cyphera_kernel.Security.Seccomp.Verdict.{IsFilter, evaluate_chain-admitted, IsLeast}
use cyphera_kernel.Security.Seccomp.Strict.{is_strict_call, strict_allows_all}

-- open("…"), which the strict mode forbids
abbrev open_call : SeccompData
open_call = record {
  nr = 2;
  arch = 0xc000003e;
  instruction_pointer = 0x401000;
  args = 0x7fff00001000 ∷ 0 ∷ 0 ∷ 0 ∷ 0 ∷ 0 ∷ [];
}

-- fails every call with EPERM, and one that traps each
abbrev eperm_all : List SockFilter
eperm_all = record { code = 0x06; jt = 0; jf = 0; k = 0x50001 } ∷ []

abbrev trap_all : List SockFilter
trap_all = record { code = 0x06; jt = 0; jf = 0; k = 0x30007 } ∷ []

abbrev kill_all : List SockFilter
kill_all = record { code = 0x06; jt = 0; jf = 0; k = seccomp_ret_kill_process } ∷ []

two_filters :
    map (λ prog. run prog (to_bytes open_call)) (eperm_all ∷ trap_all ∷ [])
    ≡ map returns (0x50001 ∷ 0x30007 ∷ [])
unfolding run exec proceed step ret
two_filters = refl

lowest_taken : evaluate_chain (eperm_all ∷ trap_all ∷ []) open_call ≡ returns 0x30007
unfolding evaluate_chain evaluate_from run exec proceed step ret
lowest_taken = refl

kill_not_taken : evaluate_chain (kill_all ∷ []) open_call ≡ returns seccomp_ret_allow
unfolding evaluate_chain evaluate_from run exec proceed step ret
kill_not_taken = refl

traps : apply_seccomp 0x30007 ≡ trap 7
unfolding apply_seccomp
traps = refl

fails_capped : apply_seccomp 0x5ffff ≡ fail 4095
unfolding apply_seccomp
fails_capped = refl

kills : apply_seccomp seccomp_ret_kill_thread ≡ kill
unfolding apply_seccomp
kills = refl

passes : apply_seccomp seccomp_ret_allow ≡ pass
unfolding apply_seccomp
passes = refl

strict_kills_open : run strict_mode_program (to_bytes open_call) ≡ returns seccomp_ret_kill_process
unfolding strict_mode_program instruction run exec proceed step ld jmp branch operand ret
    read_packet byte_at to_bytes le_bytes args_bytes
strict_kills_open = refl

strict_allows_all_example :
    (run strict_mode_program (to_bytes open_call)
      ≡ returns
          (if is_strict_call (2 % 2 ^ 32) then seccomp_ret_allow else seccomp_ret_kill_process))
    × (evaluate_chain (strict_mode_program ∷ []) open_call ≡ returns seccomp_ret_allow)
strict_allows_all_example = strict_allows_all open_call

eperm_all-IsFilter : IsFilter eperm_all
unfolding verify verify_from verify_insn ends_in_ret
eperm_all-IsFilter = record { admitted = refl; words = (omega arith, tt) }

evaluate_chain-admitted_example :
    (v : ℕ) × (rs : List ℕ) × (map (λ prog. run prog (to_bytes open_call)) (eperm_all ∷ [])
      ≡ map returns rs)
    × (evaluate_chain (eperm_all ∷ []) open_call ≡ returns v)
    × IsLeast seccomp_ret_allow rs v
evaluate_chain-admitted_example =
    evaluate_chain-admitted (eperm_all ∷ []) open_call (eperm_all-IsFilter, tt)
