-- ===== src/Security/Bpf/Machine.antt =====
-- kernel/src/security/bpf.rs, `BpfProgram::run` and `read_packet`: one function for each arm.
pub mod Halt
pub mod Safety
pub mod Packet
mod Tests
use cyphera_kernel.Prelude.{
  ℕ, zero, suc, ◌+◌, ◌-◌, ◌*◌, ◌/◌, ◌%◌, ◌^◌, bit_and, bit_or, bit_xor, Bool, not, List, Option,
  none, some, ltb, leb, ◌==◌, if◌then◌else◌, length, get_elem?, set, replicate,
}
use cyphera_kernel.Security.Bpf.Code.{
  SockFilter, bpf_ld, bpf_ldx, bpf_st, bpf_stx, bpf_alu, bpf_jmp, bpf_ret, bpf_misc, bpf_w, bpf_h,
  bpf_b, bpf_imm, bpf_abs, bpf_ind, bpf_mem, bpf_len, bpf_msh, bpf_add, bpf_sub, bpf_mul, bpf_div,
  bpf_or, bpf_and, bpf_lsh, bpf_rsh, bpf_neg, bpf_mod, bpf_xor, bpf_ja, bpf_jeq, bpf_jgt, bpf_jge,
  bpf_jset, bpf_k, bpf_a, bpf_tax, bpf_txa, scratch_len,
}

-- `packet[i]`, whose reads are all guarded
unfoldable pub byte_at : List ℕ → ℕ → ℕ
byte_at packet i = elim (get_elem? packet i) [ none ↦ 0 | some b ↦ b ]

unfoldable pub read_packet : List ℕ → ℕ → ℕ → ℕ
read_packet packet offset size =
    if size == bpf_w
    then (if ltb (length packet) (offset + 4)
        then 0
        else byte_at packet offset
          + 0x100 * byte_at packet (offset + 1)
          + 0x10000 * byte_at packet (offset + 2)
          + 0x1000000 * byte_at packet (offset + 3))
    else if size == bpf_h
    then (if ltb (length packet) (offset + 2)
        then 0
        else byte_at packet offset + 0x100 * byte_at packet (offset + 1))
    else if size == bpf_b
    then (if leb (length packet) offset then 0 else byte_at packet offset)
    else 0

-- the local variables of the loop
pub record Cpu : Type 0 where
  pub a : ℕ
  pub x : ℕ
  pub m : List ℕ
  pub pc : ℕ

-- what a round does: go on, return from the function, or panic at an index out of bounds
pub data Step : Type 0 where
  next : Cpu → Step
  done : ℕ → Step
  fault : Step

unfoldable pub load_scratch : List ℕ → ℕ → (ℕ → Cpu) → Step
load_scratch m k f = elim (get_elem? m k) [ none ↦ fault | some v ↦ next (f v) ]

unfoldable pub store_scratch : Cpu → ℕ → ℕ → Step
store_scratch c k v = if ltb k (length c.m) then next (record c { m = set c.m k v }) else fault

unfoldable pub ld : SockFilter → List ℕ → Cpu → Step
ld ins packet c =
    let mode = bit_and ins.code 0xe0 in
    if mode == bpf_imm
    then next (record c { a = ins.k })
    else if mode == bpf_abs
    then next (record c { a = read_packet packet ins.k (bit_and ins.code 0x18) })
    else if mode == bpf_ind
    then next (record c { a = read_packet packet ((ins.k + c.x) % 2 ^ 32) (bit_and ins.code 0x18) })
    else if mode == bpf_mem
    then load_scratch c.m ins.k (λ v. record c { a = v })
    else if mode == bpf_len
    then next (record c { a = length packet % 2 ^ 32 })
    else done 0

unfoldable pub ldx : SockFilter → List ℕ → Cpu → Step
ldx ins packet c =
    let mode = bit_and ins.code 0xe0 in
    if mode == bpf_imm
    then next (record c { x = ins.k })
    else if mode == bpf_mem
    then load_scratch c.m ins.k (λ v. record c { x = v })
    else if mode == bpf_len
    then next (record c { x = length packet % 2 ^ 32 })
    else if mode == bpf_msh
    then next (record c { x = bit_and (read_packet packet ins.k bpf_b) 0x0f * 4 % 2 ^ 32 })
    else done 0

-- `v`, the second operand of arithmetic and jumps
unfoldable pub operand : SockFilter → Cpu → ℕ
operand ins c = if bit_and ins.code 0x08 == bpf_k then ins.k else c.x

-- The value for `a`, or `none` for the arms that return 0.
unfoldable pub alu_value : ℕ → ℕ → ℕ → Option ℕ
alu_value op a v =
    if op == bpf_add
    then some ((a + v) % 2 ^ 32)
    else if op == bpf_sub
    then some ((a + 2 ^ 32 - v) % 2 ^ 32)
    else if op == bpf_mul
    then some (a * v % 2 ^ 32)
    else if op == bpf_div
    then (if v == 0 then none else some (a / v))
    else if op == bpf_or
    then some (bit_or a v)
    else if op == bpf_and
    then some (bit_and a v)
    else if op == bpf_lsh
    then some (a * 2 ^ bit_and v 31 % 2 ^ 32)
    else if op == bpf_rsh
    then some (a / 2 ^ bit_and v 31)
    else if op == bpf_neg
    then some ((2 ^ 32 - a) % 2 ^ 32)
    else if op == bpf_mod
    then (if v == 0 then none else some (a % v))
    else if op == bpf_xor
    then some (bit_xor a v)
    else none

-- the assignment to `a`, skipped where an arm returns 0
unfoldable pub write_a : Cpu → Option ℕ → Step
write_a c none = done 0
write_a c (some v) = next (record c { a = v })

unfoldable pub alu : SockFilter → Cpu → Step
unfolding operand write_a
alu ins c = write_a c (alu_value (bit_and ins.code 0xf0) c.a (operand ins c))

unfoldable pub branch : SockFilter → Cpu → Bool → Step
branch ins c taken = next (record c { pc = c.pc + (if taken then ins.jt else ins.jf) })

unfoldable pub jmp : SockFilter → Cpu → Step
unfolding operand branch
jmp ins c =
    let op = bit_and ins.code 0xf0 in
    let v = operand ins c in
    if op == bpf_ja
    then next (record c { pc = c.pc + ins.k })
    else if op == bpf_jeq
    then branch ins c (c.a == v)
    else if op == bpf_jgt
    then branch ins c (ltb v c.a)
    else if op == bpf_jge
    then branch ins c (leb v c.a)
    else if op == bpf_jset
    then branch ins c (not (bit_and c.a v == 0))
    else done 0

unfoldable pub ret : SockFilter → Cpu → Step
ret ins c = done (if bit_and ins.code 0x18 == bpf_a then c.a else ins.k)

unfoldable pub misc : SockFilter → Cpu → Step
misc ins c =
    let op = bit_and ins.code 0xf8 in
    next (
      if op == bpf_tax
      then record c { x = c.a }
      else if op == bpf_txa
      then record c { a = c.x }
      else c)

-- the body of the loop, `pc` already moved on
unfoldable pub step : SockFilter → List ℕ → Cpu → Step
step ins packet c =
    let class = bit_and ins.code 0x07 in
    if class == bpf_ld
    then ld ins packet c
    else if class == bpf_ldx
    then ldx ins packet c
    else if class == bpf_st
    then store_scratch c ins.k c.a
    else if class == bpf_stx
    then store_scratch c ins.k c.x
    else if class == bpf_alu
    then alu ins c
    else if class == bpf_jmp
    then jmp ins c
    else if class == bpf_ret
    then ret ins c
    else if class == bpf_misc
    then misc ins c
    else done 0

-- `returns v` is a return of the function; `stuck` means that the rounds ran out.
pub data Outcome : Type 0 where
  returns : ℕ → Outcome
  panics stuck : Outcome

-- what follows a round, by its outcome
unfoldable pub proceed : (Cpu → Outcome) → Step → Outcome
proceed go_on (next c) = go_on c
proceed go_on (done v) = returns v
proceed go_on fault = panics

-- the `while` loop, with the rounds left
unfoldable pub exec : List SockFilter → List ℕ → ℕ → Cpu → Outcome
unfolding proceed
exec insns packet zero c = stuck
exec insns packet (suc rounds) c = elim (get_elem? insns c.pc) [
  | none ↦ returns 0
  | some ins ↦ proceed (exec insns packet rounds) (step ins packet (record c { pc = c.pc + 1 }))
]

abbrev initial : Cpu
initial = record { a = 0; x = 0; m = replicate scratch_len 0; pc = 0 }

unfoldable pub run : List SockFilter → List ℕ → Outcome
run insns packet = exec insns packet (suc (length insns)) initial
