-- ===== src/Security/Bpf/Verify.antt =====
-- kernel/src/security/bpf.rs, `BpfProgram::verify`, one function for each arm of its match, and the
-- independent reading of what it admits.
pub mod Admits
mod Tests
use cyphera_kernel.Prelude.{
  ℕ, zero, suc, ◌+◌, ◌-◌, ◌%◌, ◌^◌, ◌≤◌, ◌<◌, min, bit_and, ◌≡◌, ◌≢◌, ◌⊎◌, Bool, true, false, not,
  ◌||◌, ◌&&◌, List, [], ◌∷◌, Option, none, some, arith, ltb, leb, ◌==◌, if◌then◌else◌, length,
  get_elem?, KResult, ok, err, inval, ◌>>=◌, ◌>>◌,
}
use cyphera_kernel.Security.Bpf.Code.{
  SockFilter, bpf_ld, bpf_ldx, bpf_st, bpf_stx, bpf_alu, bpf_jmp, bpf_ret, bpf_misc, bpf_w, bpf_h,
  bpf_b, bpf_imm, bpf_abs, bpf_ind, bpf_mem, bpf_len, bpf_msh, bpf_add, bpf_sub, bpf_mul, bpf_div,
  bpf_or, bpf_and, bpf_lsh, bpf_rsh, bpf_neg, bpf_mod, bpf_xor, bpf_ja, bpf_jeq, bpf_jgt, bpf_jge,
  bpf_jset, bpf_tax, bpf_txa, scratch_len, bpf_maxinsns,
}

-- `u32::saturating_add`
abbrev saturating_add : ℕ → ℕ → ℕ
saturating_add a b = min (a + b) (2 ^ 32 - 1)

abbrev refuse_if : Bool → KResult (Unit {0})
refuse_if true = err inval
refuse_if false = ok tt

-- the width of an absolute load, by the size bits of its code
abbrev load_size : ℕ → KResult ℕ
load_size size =
    if size == bpf_w
    then ok 4
    else if size == bpf_h
    then ok 2
    else if size == bpf_b
    then ok 1
    else err inval

unfoldable pub verify_load : ℕ → SockFilter → KResult (Unit {0})
verify_load packet_len ins =
    let mode = bit_and ins.code 0xe0 in
    if mode == bpf_imm
    then ok tt
    else if mode == bpf_abs
    then (load_size (bit_and ins.code 0x18) >>= λ size.
        refuse_if (ltb packet_len (saturating_add ins.k size)))
    else if mode == bpf_ind
    then ok tt
    else if mode == bpf_mem
    then refuse_if (leb scratch_len ins.k)
    else if mode == bpf_len || mode == bpf_msh
    then ok tt
    else err inval

unfoldable pub verify_store : SockFilter → KResult (Unit {0})
verify_store ins = refuse_if (leb scratch_len ins.k)

unfoldable pub verify_jump : ℕ → ℕ → SockFilter → KResult (Unit {0})
verify_jump len pc ins =
    let op = bit_and ins.code 0xf0 in
    let room = (len - pc - 1) % 2 ^ 32 in
    if op == bpf_ja
    then refuse_if (ltb room ins.k)
    else if op == bpf_jeq || op == bpf_jgt || op == bpf_jge || op == bpf_jset
    then refuse_if (ltb room ins.jt || ltb room ins.jf)
    else err inval

unfoldable pub is_alu_op : ℕ → Bool
is_alu_op op =
    op == bpf_add
    || op == bpf_sub
    || op == bpf_mul
    || op == bpf_div
    || op == bpf_or
    || op == bpf_and
    || op == bpf_lsh
    || op == bpf_rsh
    || op == bpf_neg
    || op == bpf_mod
    || op == bpf_xor

unfoldable pub verify_alu : SockFilter → KResult (Unit {0})
verify_alu ins = refuse_if (not (is_alu_op (bit_and ins.code 0xf0)))

unfoldable pub verify_misc : SockFilter → KResult (Unit {0})
verify_misc ins =
    let op = bit_and ins.code 0xf8 in refuse_if (not (op == bpf_tax) && not (op == bpf_txa))

unfoldable pub verify_insn : ℕ → ℕ → ℕ → SockFilter → KResult (Unit {0})
verify_insn len packet_len pc ins =
    let class = bit_and ins.code 0x07 in
    if class == bpf_ld || class == bpf_ldx
    then verify_load packet_len ins
    else if class == bpf_st || class == bpf_stx
    then verify_store ins
    else if class == bpf_jmp
    then verify_jump len pc ins
    else if class == bpf_alu
    then verify_alu ins
    else if class == bpf_ret
    then ok tt
    else if class == bpf_misc
    then verify_misc ins
    else err inval

-- the `for` loop, from position `pc`
unfoldable pub verify_from : ℕ → ℕ → ℕ → List SockFilter → KResult (Unit {0})
verify_from len packet_len pc [] = ok tt
verify_from len packet_len pc (ins ∷ rest) =
    verify_insn len packet_len pc ins >> verify_from len packet_len (suc pc) rest

-- `insns.last().unwrap()` is reached with a program that is not empty.
unfoldable pub ends_in_ret : List SockFilter → Bool
ends_in_ret [] = false
ends_in_ret (ins ∷ []) = bit_and ins.code 0x07 == bpf_ret
ends_in_ret (ins ∷ ins' ∷ rest) = ends_in_ret (ins' ∷ rest)

abbrev is_empty : List SockFilter → Bool
is_empty [] = true
is_empty (ins ∷ rest) = false

unfoldable pub verify : List SockFilter → ℕ → KResult (List SockFilter)
verify insns packet_len =
    if is_empty insns || ltb bpf_maxinsns (length insns)
    then err inval
    else (verify_from (length insns) packet_len 0 insns
        >> (if ends_in_ret insns then ok insns else err inval))
