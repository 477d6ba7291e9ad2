-- ===== src/Security/Bpf/Machine/Tests.antt =====
-- kernel/src/security/bpf.rs, `BpfProgram::run` on concrete programs, among them those of the tests
-- beside the source.
use cyphera_kernel.Prelude.{ℕ, ◌≡◌, refl, List, [], ◌∷◌, arith, ok, replicate, All-replicate, All}
use cyphera_kernel.Security.Bpf.Code.{SockFilter, IsU32}
use cyphera_kernel.Security.Bpf.Verify.{
  verify, verify_from, verify_insn, verify_load, verify_store, ends_in_ret,
}
use cyphera_kernel.Security.Bpf.Machine.{
  run, exec, proceed, step, ld, load_scratch, store_scratch, alu, alu_value, operand, write_a, jmp,
  branch, ret, read_packet, byte_at, returns,
}
use cyphera_kernel.Security.Bpf.Machine.Safety.{run-returns, IsByte}

abbrev insn : ℕ → ℕ → ℕ → ℕ → SockFilter
insn code jt jf k = record { code = code; jt = jt; jf = jf; k = k }

-- loads the first word, compares it with 1, and returns ALLOW or 0
abbrev load_compare : List SockFilter
load_compare = insn 0x20 0 0 0 ∷ insn 0x15 0 1 1 ∷ insn 0x06 0 0 0x7fff0000 ∷ insn 0x06 0 0 0 ∷ []

-- keeps a word in the scratch memory and returns it
abbrev keeps_word : List SockFilter
keeps_word =
    insn 0x20 0 0 4 ∷ insn 0x02 0 0 15 ∷ insn 0x00 0 0 7 ∷ insn 0x60 0 0 15 ∷ insn 0x16 0 0 0 ∷ []

abbrev packet : List ℕ
packet = 1 ∷ 0 ∷ 0 ∷ 0 ∷ 0x3e ∷ 0 ∷ 0 ∷ 0xc0 ∷ replicate 56 0

branch_taken : run load_compare packet ≡ returns 0x7fff0000
unfolding run exec proceed step ld jmp branch operand ret read_packet byte_at
branch_taken = refl

branch_not_taken : run load_compare (2 ∷ replicate 63 0) ≡ returns 0
unfolding run exec proceed step ld jmp branch operand ret read_packet byte_at
branch_not_taken = refl

scratch_kept : run keeps_word packet ≡ returns 0xc000003e
unfolding run exec proceed step ld ret store_scratch load_scratch read_packet byte_at
scratch_kept = refl

add_wraps : run (insn 0x00 0 0 0xffffffff ∷ insn 0x04 0 0 2 ∷ insn 0x16 0 0 0 ∷ []) [] ≡ returns 1
unfolding run exec proceed step ld alu alu_value operand write_a ret
add_wraps = refl

div_by_zero : run (insn 0x34 0 0 0 ∷ insn 0x06 0 0 9 ∷ []) [] ≡ returns 0
unfolding run exec proceed step alu alu_value operand write_a
div_by_zero = refl

short_packet : run (insn 0x20 0 0 0 ∷ insn 0x16 0 0 0 ∷ []) (1 ∷ 2 ∷ []) ≡ returns 0
unfolding run exec proceed step ld ret read_packet
short_packet = refl

accepted : verify keeps_word 64 ≡ ok keeps_word
unfolding verify verify_from verify_insn verify_load verify_store ends_in_ret
accepted = refl

packet-IsByte : All IsByte packet
packet-IsByte = (
  omega arith,
  (
    omega arith,
    (
      omega arith,
      (
        omega arith,
        (
          omega arith,
          (omega arith, (omega arith, (omega arith, All-replicate IsByte 56 (omega arith)))),
        ),
      ),
    ),
  ),
)

run-returns_example : (v : ℕ) × (run keeps_word packet ≡ returns v) × IsU32 v
run-returns_example =
    run-returns keeps_word keeps_word 64 packet (omega arith) accepted
      (omega arith, (omega arith, (omega arith, (omega arith, (omega arith, tt))))) packet-IsByte
