-- ===== src/Security/Bpf/Verify/Admits.antt =====
-- kernel/src/security/bpf.rs, `BpfProgram::verify`: what a program that it admits satisfies.
use Prim.Native.Nat.add
use mathlib.Core.Option.{some-injective}
use cyphera_kernel.Prelude.{
  subst, ℕ, zero, suc, ◌+◌, ◌-◌, ◌^◌, ◌≤◌, ◌<◌, bit_and, ◌≡◌, refl, ◌≢◌, ◌⊎◌, true, List, [], ◌∷◌,
  some, arith, length, get_elem?, ok, >>-eq-ok,
}
use cyphera_kernel.Security.Bpf.Code.{
  SockFilter, bpf_ld, bpf_ldx, bpf_st, bpf_stx, bpf_jmp, bpf_ret, bpf_w, bpf_h, bpf_b, bpf_abs,
  bpf_mem, bpf_ja, scratch_len, bpf_maxinsns,
}
use cyphera_kernel.Security.Bpf.Verify.{
  verify_load, verify_store, verify_jump, verify_insn, verify_from, ends_in_ret, verify,
}

-- the fields that an instruction is read by
abbrev pub class : SockFilter → ℕ
class ins = bit_and ins.code 0x07

abbrev pub mode : SockFilter → ℕ
mode ins = bit_and ins.code 0xe0

abbrev pub jump_op : SockFilter → ℕ
jump_op ins = bit_and ins.code 0xf0

-- What makes the instruction at `pc` of a program of `len` instructions harmless: scratch indices
-- are in bounds, absolute loads lie within the packet, and jumps stay within the program or reach
-- its very end.
pub record IsHarmless (len packet_len pc : ℕ) (ins : SockFilter) : Type 0 where
  pub stores : (class ins ≡ bpf_st) ⊎ (class ins ≡ bpf_stx) → ins.k < scratch_len
  pub loads :
      (class ins ≡ bpf_ld) ⊎ (class ins ≡ bpf_ldx) → mode ins ≡ bpf_mem → ins.k < scratch_len
  pub words :
      class ins ≡ bpf_ld
      → mode ins ≡ bpf_abs
      → ((bit_and ins.code 0x18 ≡ bpf_w) × (ins.k + 4 ≤ packet_len))
        ⊎ ((bit_and ins.code 0x18 ≡ bpf_h) × (ins.k + 2 ≤ packet_len))
        ⊎ ((bit_and ins.code 0x18 ≡ bpf_b) × (ins.k + 1 ≤ packet_len))
  pub jumps : class ins ≡ bpf_jmp → jump_op ins ≡ bpf_ja → pc + 1 + ins.k ≤ len
  pub branches :
      class ins ≡ bpf_jmp → jump_op ins ≢ bpf_ja → (pc + 1 + ins.jt ≤ len) × (pc + 1 + ins.jf ≤ len)

module _ (len packet_len pc : ℕ) (ins : SockFilter) (short : pc < len) (fits : len ≤ bpf_maxinsns)
    (narrow : packet_len < 2 ^ 32 - 1) (passed : verify_insn len packet_len pc ins ≡ ok tt) where
  stores_lem : (class ins ≡ bpf_st) ⊎ (class ins ≡ bpf_stx) → ins.k < scratch_len
  unfolding verify_insn verify_store
  stores_lem h = ground arith

  loads_lem :
      (class ins ≡ bpf_ld) ⊎ (class ins ≡ bpf_ldx) → mode ins ≡ bpf_mem → ins.k < scratch_len
  unfolding verify_insn verify_load
  loads_lem h m = ground arith

  words_lem :
      class ins ≡ bpf_ld
      → mode ins ≡ bpf_abs
      → ((bit_and ins.code 0x18 ≡ bpf_w) × (ins.k + 4 ≤ packet_len))
        ⊎ ((bit_and ins.code 0x18 ≡ bpf_h) × (ins.k + 2 ≤ packet_len))
        ⊎ ((bit_and ins.code 0x18 ≡ bpf_b) × (ins.k + 1 ≤ packet_len))
  unfolding verify_insn verify_load
  words_lem h m = ground arith

  jumps_lem : class ins ≡ bpf_jmp → jump_op ins ≡ bpf_ja → pc + 1 + ins.k ≤ len
  unfolding verify_insn verify_jump
  jumps_lem h o = ground arith

  branches_lem :
      class ins ≡ bpf_jmp → jump_op ins ≢ bpf_ja → (pc + 1 + ins.jt ≤ len) × (pc + 1 + ins.jf ≤ len)
  unfolding verify_insn verify_jump
  branches_lem h o = ground arith

  verify_insn-IsHarmless : IsHarmless len packet_len pc ins
  verify_insn-IsHarmless = record {
    stores = stores_lem;
    loads = loads_lem;
    words = words_lem;
    jumps = jumps_lem;
    branches = branches_lem;
  }

-- What the verifier promises of a whole program.
pub record IsAdmitted (insns : List SockFilter) (packet_len : ℕ) : Type 0 where
  pub nonempty : 0 < length insns
  pub short : length insns ≤ bpf_maxinsns
  pub each :
      (pc : ℕ) (ins : SockFilter)
      → get_elem? insns pc ≡ some ins
      → IsHarmless (length insns) packet_len pc ins
  pub last :
      (ins : SockFilter) × (get_elem? insns (length insns - 1) ≡ some ins) × (class ins ≡ bpf_ret)

verify_from-each :
    (len packet_len pc : ℕ) (insns : List SockFilter)
    → pc + length insns ≡ len
    → len ≤ bpf_maxinsns
    → packet_len < 2 ^ 32 - 1
    → verify_from len packet_len pc insns ≡ ok tt
    → (i : ℕ) (ins : SockFilter) → get_elem? insns i ≡ some ins
    → IsHarmless len packet_len (pc + i) ins
unfolding verify_from
verify_from-each len packet_len pc [] e fits narrow passed i ins h = absurd (ground arith)
verify_from-each len packet_len pc (x ∷ rest) e fits narrow passed zero ins h =
    let (p, q) = >>-eq-ok (verify_insn len packet_len pc x) _ passed in
    subst (λ y. IsHarmless len packet_len (pc + 0) y) (some-injective _ _ h)
      (subst (λ n. IsHarmless len packet_len n x) (omega arith)
        (verify_insn-IsHarmless len packet_len pc x (omega arith) fits narrow p))
verify_from-each len packet_len pc (x ∷ rest) e fits narrow passed (suc i) ins h =
    let (p, q) = >>-eq-ok (verify_insn len packet_len pc x) _ passed in
    subst (λ n. IsHarmless len packet_len n ins) (omega arith)
      (verify_from-each len packet_len (suc pc) rest (omega arith) fits narrow q i ins h)

last_index : (n : ℕ) → suc (suc n - 1) ≡ suc (suc n) - 1
last_index n = omega arith

ends_in_ret-last :
    (insns : List SockFilter)
    → ends_in_ret insns ≡ true
    → (ins : SockFilter) × (get_elem? insns (length insns - 1) ≡ some ins) × (class ins ≡ bpf_ret)
unfolding ends_in_ret
ends_in_ret-last [] h = absurd (ground arith)
ends_in_ret-last (x ∷ []) h = (x, refl, ground arith)
ends_in_ret-last (x ∷ y ∷ rest) h =
    let (ins, e, c) = ends_in_ret-last (y ∷ rest) h in
    (ins, subst (λ n. get_elem? (x ∷ y ∷ rest) n ≡ some ins) (last_index (length rest)) e, c)

verify_parts :
    (insns : List SockFilter) (packet_len : ℕ) {p : List SockFilter}
    → verify insns packet_len ≡ ok p
    → (p ≡ insns)
      × (0 < length insns)
      × (length insns ≤ bpf_maxinsns)
      × (verify_from (length insns) packet_len 0 insns ≡ ok tt)
      × (ends_in_ret insns ≡ true)
unfolding verify
verify_parts [] packet_len h = absurd (ground arith)
verify_parts (x ∷ rest) packet_len h = ground arith

pub verify-IsAdmitted :
    (insns : List SockFilter) (packet_len : ℕ) {p : List SockFilter}
    → packet_len < 2 ^ 32 - 1
    → verify insns packet_len ≡ ok p
    → (p ≡ insns) × IsAdmitted insns packet_len
verify-IsAdmitted insns packet_len narrow h =
    let (e, nonempty, short, passed, ends) = verify_parts insns packet_len h in
    (
      e,
      record {
        nonempty = nonempty;
        short = short;
        each = λ pc ins at.
            subst (λ n. IsHarmless (length insns) packet_len n ins) (add.zero pc)
              (verify_from-each (length insns) packet_len 0 insns (omega arith) short narrow passed
                pc ins at);
        last = ends_in_ret-last insns ends;
      },
    )
