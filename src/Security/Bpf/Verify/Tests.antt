-- ===== src/Security/Bpf/Verify/Tests.antt =====
-- kernel/src/security/bpf.rs, `BpfProgram::verify` on concrete programs, most of them those of the
-- tests beside the source.
use cyphera_kernel.Prelude.{ℕ, ◌≡◌, refl, List, [], ◌∷◌, err, inval}
use cyphera_kernel.Security.Bpf.Code.{SockFilter}
use cyphera_kernel.Security.Bpf.Verify.{
  verify, verify_from, verify_insn, verify_load, verify_store, verify_jump, verify_alu, verify_misc,
  is_alu_op, ends_in_ret,
}

abbrev insn : ℕ → ℕ → ℕ → ℕ → SockFilter
insn code jt jf k = record { code = code; jt = jt; jf = jf; k = k }

-- loads the first word, compares it with 1, and returns ALLOW or 0
abbrev load_compare : List SockFilter
load_compare = insn 0x20 0 0 0 ∷ insn 0x15 0 1 1 ∷ insn 0x06 0 0 0x7fff0000 ∷ insn 0x06 0 0 0 ∷ []

rejects_empty : verify [] 64 ≡ err inval
unfolding verify
rejects_empty = refl

rejects_no_trailing_ret : verify (insn 0x04 0 0 1 ∷ []) 64 ≡ err inval
unfolding verify verify_from verify_insn verify_alu is_alu_op ends_in_ret
rejects_no_trailing_ret = refl

rejects_oob_jump : verify (insn 0x05 0 0 99 ∷ insn 0x06 0 0 0 ∷ []) 64 ≡ err inval
unfolding verify verify_from verify_insn verify_jump
rejects_oob_jump = refl

rejects_oob_packet_load : verify (insn 0x20 0 0 62 ∷ insn 0x06 0 0 0 ∷ []) 64 ≡ err inval
unfolding verify verify_from verify_insn verify_load
rejects_oob_packet_load = refl

rejects_oob_scratch : verify (insn 0x02 0 0 16 ∷ insn 0x06 0 0 0 ∷ []) 64 ≡ err inval
unfolding verify verify_from verify_insn verify_store
rejects_oob_scratch = refl

rejects_misc : verify (insn 0x0f 0 0 0 ∷ insn 0x06 0 0 0 ∷ []) 64 ≡ err inval
unfolding verify verify_from verify_insn verify_misc
rejects_misc = refl
