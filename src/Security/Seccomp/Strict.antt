-- ===== src/Security/Seccomp/Strict.antt =====
-- kernel/src/syscall/creds.rs, the strict program, under kernel/src/security/seccomp.rs,
-- `evaluate_chain`.
use cyphera_kernel.Prelude.{
  ℕ, ◌%◌, ◌^◌, bit_and, ◌≡◌, refl, inl, inr, List, [], ◌∷◌, ◌==◌, if◌then◌else◌, Bool, ◌||◌,
  Bool-cases, ltb, ◌∙◌, true, false,
}
use cyphera_kernel.Security.Bpf.Code.{SockFilter}
use cyphera_kernel.Security.Bpf.Machine.{
  returns, run, read_packet, exec, step, ld, jmp, ret, proceed, operand, branch,
}
use cyphera_kernel.Security.Seccomp.{
  SeccompData, to_bytes, evaluate_from, evaluate_chain, seccomp_ret_allow, seccomp_ret_action,
  seccomp_ret_kill_process, strict_mode_program,
}
use cyphera_kernel.Security.Seccomp.Layout.{read_packet-to_bytes}

-- read, write, rt_sigreturn, exit and exit_group
abbrev pub is_strict_call : ℕ → Bool
is_strict_call nr = nr == 0 || nr == 1 || nr == 15 || nr == 60 || nr == 231

-- The word that the program compares, generalised so that the tests split.
run_strict :
    (packet : List ℕ) (nr : ℕ)
    → read_packet packet 0 0 ≡ nr
    → run strict_mode_program packet
      ≡ returns (if is_strict_call nr then seccomp_ret_allow else seccomp_ret_kill_process)
unfolding strict_mode_program run exec proceed step ld jmp ret operand branch
run_strict packet nr e = rw e (elim (Bool-cases (nr == 0)) [
  | inl p ↦ rw p
  | inr p ↦ rw p (elim (Bool-cases (nr == 1)) [
    | inl p ↦ rw p
    | inr p ↦ rw p (elim (Bool-cases (nr == 15)) [
      | inl p ↦ rw p
      | inr p ↦ rw p (elim (Bool-cases (nr == 60)) [
        | inl p ↦ rw p
        | inr p ↦ rw p (elim (Bool-cases (nr == 231)) [ inl p ↦ rw p | inr p ↦ rw p (refl) ])
      ])
    ])
  ])
])

allow_or_kill :
    (b : Bool)
    → returns (
        if ltb
          (bit_and (if b then seccomp_ret_allow else seccomp_ret_kill_process) seccomp_ret_action)
          (bit_and seccomp_ret_allow seccomp_ret_action)
        then (if b then seccomp_ret_allow else seccomp_ret_kill_process)
        else seccomp_ret_allow)
      ≡ returns seccomp_ret_allow
allow_or_kill true = refl
allow_or_kill false = refl

evaluate_one :
    (prog : List SockFilter) (d : SeccompData) (r : ℕ)
    → run prog (to_bytes d) ≡ returns r
    → evaluate_chain (prog ∷ []) d
      ≡ returns (
          if ltb (bit_and r seccomp_ret_action) (bit_and seccomp_ret_allow seccomp_ret_action)
          then r
          else seccomp_ret_allow)
unfolding evaluate_chain evaluate_from
evaluate_one prog d r e = rw (e, evaluate_from)

-- Under the strict program alone every system call is allowed: the program itself returns
-- KILL_PROCESS for all calls but read, write, rt_sigreturn, exit and exit_group, and the chain takes
-- ALLOW instead.
pub strict_allows_all :
    (d : SeccompData)
    → (run strict_mode_program (to_bytes d)
        ≡ returns (
            if is_strict_call (d.nr % 2 ^ 32) then seccomp_ret_allow else seccomp_ret_kill_process))
      × (evaluate_chain (strict_mode_program ∷ []) d ≡ returns seccomp_ret_allow)
strict_allows_all d =
    let e = run_strict (to_bytes d) (d.nr % 2 ^ 32) (read_packet-to_bytes d).0 in
    (e, evaluate_one strict_mode_program d _ e ∙ allow_or_kill (is_strict_call (d.nr % 2 ^ 32)))
