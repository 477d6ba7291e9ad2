-- ===== src/Security/Bpf/Machine/Safety.antt =====
-- kernel/src/security/bpf.rs, `BpfProgram::run`: an admitted program runs without a panic, and its
-- result is a `u32`.

use cyphera_kernel.Prelude.{
  ℕ, zero, suc, ◌+◌, ◌-◌, ◌%◌, ◌^◌, ◌≤◌, ◌<◌, bit_and, ◌≡◌, refl, ◌≢◌, inl, inr, List, Option, none,
  some, arith, length, get_elem?, get_elem?-lt, lt_of_get_elem?, Option-cases, All, All-get_elem?,
  All-set, length-set, ok,
}
use cyphera_kernel.Prelude.Bits.{bit_and-lt-pow, bit_or-lt-pow, bit_xor-lt-pow}
use cyphera_kernel.Security.Bpf.Code.{SockFilter, FitsWord, IsU32, scratch_len, bpf_mem}
use cyphera_kernel.Security.Bpf.Verify.{verify}
use cyphera_kernel.Security.Bpf.Verify.Admits.{mode, IsHarmless, IsAdmitted, verify-IsAdmitted}
use cyphera_kernel.Security.Bpf.Machine.{
  Cpu, Step, next, done, fault, alu_value, operand, ld, ldx, alu, jmp, ret, misc, load_scratch,
  store_scratch, step, Outcome, returns, panics, stuck, proceed, exec, run, initial, write_a,
  read_packet, byte_at,
}
use cyphera_kernel.Security.Bpf.Machine.Halt.{After, After-mono, run-ne-stuck}

-- the registers and the scratch memory hold `u32`s, sixteen of them in memory
pub record IsRunning (c : Cpu) : Type 0 where
  pub a_fits : IsU32 c.a
  pub x_fits : IsU32 c.x
  pub m_len : length c.m ≡ scratch_len
  pub m_fits : All IsU32 c.m

abbrev pub IsByte : ℕ → Type 0
IsByte b = b < 256

byte_at-IsByte : (packet : List ℕ) (i : ℕ) → All IsByte packet → IsByte (byte_at packet i)
unfolding byte_at
byte_at-IsByte packet i h = elim (Option-cases (get_elem? packet i)) [
  | inl e ↦ rw (e, byte_at) (omega arith)
  | inr (b, e) ↦ rw (e, byte_at) (All-get_elem? IsByte packet i h e)
]

read_packet-IsU32 :
    (packet : List ℕ) (offset size : ℕ) → All IsByte packet → IsU32 (read_packet packet offset size)
unfolding read_packet
read_packet-IsU32 packet offset size h = ground (
  arith,
  byte_at-IsByte packet offset h,
  byte_at-IsByte packet (offset + 1) h,
  byte_at-IsByte packet (offset + 2) h,
  byte_at-IsByte packet (offset + 3) h,
)

alu_value-IsU32 : (op a v : ℕ) {r : ℕ} → IsU32 a → IsU32 v → alu_value op a v ≡ some r → IsU32 r
unfolding alu_value
alu_value-IsU32 op a v ha hv h =
    ground
      (arith, bit_and-lt-pow 32 a v ha hv, bit_or-lt-pow 32 a v ha hv, bit_xor-lt-pow 32 a v ha hv)

-- a round of an admitted program: it goes on within the program, or returns a `u32`
abbrev IsGood : ℕ → Step → Type 0
IsGood len = After (λ c. IsRunning c × (c.pc ≤ len)) IsU32 ⊥

module _ (len packet_len : ℕ) (ins : SockFilter) (packet : List ℕ) (c : Cpu)
    (bytes : All IsByte packet) (fits : FitsWord ins) (ok_cpu : IsRunning c)
    (inside : c.pc ≤ len) where
  load_scratch-IsGood :
      (f : ℕ → Cpu)
      → ins.k < scratch_len
      → ((v : ℕ) → IsU32 v → IsRunning (f v) × ((f v).pc ≤ len))
      → IsGood len (load_scratch c.m ins.k f)
  unfolding load_scratch
  load_scratch-IsGood f h hf =
      let (v, e) = get_elem?-lt c.m ins.k (omega (arith, ok_cpu.m_len)) in
      rw (e, load_scratch) (hf v (All-get_elem? IsU32 c.m ins.k ok_cpu.m_fits e))

  store_scratch-IsGood :
      (v : ℕ) → ins.k < scratch_len → IsU32 v → IsGood len (store_scratch c ins.k v)
  unfolding store_scratch
  store_scratch-IsGood v h hv =
      ground (arith, length-set c.m ins.k v, All-set IsU32 c.m ins.k ok_cpu.m_fits hv)

  ld-IsGood : (mode ins ≡ bpf_mem → ins.k < scratch_len) → IsGood len (ld ins packet c)
  unfolding ld
  ld-IsGood h = ground (
    arith,
    read_packet-IsU32 packet ins.k (bit_and ins.code 0x18) bytes,
    read_packet-IsU32 packet ((ins.k + c.x) % 2 ^ 32) (bit_and ins.code 0x18) bytes,
    load_scratch-IsGood (λ (v : ℕ). record c { a = v }),
  )

  ldx-IsGood : (mode ins ≡ bpf_mem → ins.k < scratch_len) → IsGood len (ldx ins packet c)
  unfolding ldx
  ldx-IsGood h = ground (arith, load_scratch-IsGood (λ (v : ℕ). record c { x = v }))

  write_a-IsGood : (o : Option ℕ) → ((r : ℕ) → o ≡ some r → IsU32 r) → IsGood len (write_a c o)
  unfolding write_a
  write_a-IsGood none h = omega arith
  write_a-IsGood (some v) h = ground (arith, h v refl)

  operand-IsU32 : IsU32 (operand ins c)
  unfolding operand
  operand-IsU32 = ground arith

  alu-IsGood : IsGood len (alu ins c)
  unfolding alu
  alu-IsGood = write_a-IsGood _ (λ r e.
      alu_value-IsU32 (bit_and ins.code 0xf0) c.a (operand ins c) ok_cpu.a_fits operand-IsU32 e)

  jmp-IsGood :
      (bit_and ins.code 0xf0 ≡ 0 → c.pc + ins.k ≤ len)
      → (bit_and ins.code 0xf0 ≢ 0 → (c.pc + ins.jt ≤ len) × (c.pc + ins.jf ≤ len))
      → IsGood len (jmp ins c)
  unfolding jmp
  jmp-IsGood h h' = ground arith

  ret-IsGood : IsGood len (ret ins c)
  unfolding ret
  ret-IsGood = ground arith

  misc-IsGood : IsGood len (misc ins c)
  unfolding misc
  misc-IsGood = ground arith

module _ (len packet_len : ℕ) (ins : SockFilter) (packet : List ℕ) (bytes : All IsByte packet)
    (fits : FitsWord ins) where
  -- `pc` is the position of the instruction, and has moved on in `c`.
  step-IsGood :
      (pc : ℕ) (c : Cpu)
      → IsRunning c
      → c.pc ≡ pc + 1
      → pc < len
      → IsHarmless len packet_len pc ins
      → IsGood len (step ins packet c)
  unfolding step
  step-IsGood pc c v e inside h = ground (
    arith,
    ld-IsGood len packet_len ins packet c bytes fits v (omega arith),
    ldx-IsGood len packet_len ins packet c bytes fits v (omega arith),
    store_scratch-IsGood len packet_len ins packet c bytes fits v (omega arith) c.a,
    store_scratch-IsGood len packet_len ins packet c bytes fits v (omega arith) c.x,
    alu-IsGood len packet_len ins packet c bytes fits v (omega arith),
    jmp-IsGood len packet_len ins packet c bytes fits v (omega arith),
    ret-IsGood len packet_len ins packet c bytes fits v (omega arith),
    misc-IsGood len packet_len ins packet c bytes fits v (omega arith),
  )

abbrev IsFine : Outcome → Type 0
IsFine (returns v) = IsU32 v
IsFine panics = ⊥
IsFine stuck = Unit

proceed-IsFine :
    (go_on : Cpu → Outcome) (s : Step)
    → After (λ c. IsFine (go_on c)) IsU32 ⊥ s
    → IsFine (proceed go_on s)
unfolding proceed
proceed-IsFine go_on (next c) h = h
proceed-IsFine go_on (done v) h = h
proceed-IsFine go_on fault h = absurd h

module _ (insns : List SockFilter) (packet_len : ℕ) (packet : List ℕ) (bytes : All IsByte packet)
    (fits : All FitsWord insns) (admitted : IsAdmitted insns packet_len) where
  exec-IsFine :
      (rounds : ℕ) (c : Cpu)
      → IsRunning c
      → c.pc ≤ length insns
      → IsFine (exec insns packet rounds c)
  unfolding exec
  exec-IsFine zero c v inside = tt
  exec-IsFine (suc rounds) c v inside = elim (Option-cases (get_elem? insns c.pc)) [
    | inl e ↦ rw (e, exec) (omega arith)
    | inr (ins, e) ↦
        rw (e, exec)
          (proceed-IsFine (exec insns packet rounds) (step ins packet (record c { pc = c.pc + 1 }))
            (After-mono _ _ _ _ (step ins packet (record c { pc = c.pc + 1 }))
              (λ c' q. exec-IsFine rounds c' q.0 q.1)
              (step-IsGood (length insns) packet_len ins packet bytes
                (All-get_elem? FitsWord insns c.pc fits e) c.pc (record c { pc = c.pc + 1 })
                (record {
                  a_fits = v.a_fits;
                  x_fits = v.x_fits;
                  m_len = v.m_len;
                  m_fits = v.m_fits;
                })
                refl (lt_of_get_elem? insns c.pc e) (admitted.each c.pc ins e))))
  ]

initial-IsRunning : IsRunning initial
initial-IsRunning = omega arith

outcome_of : (o : Outcome) → o ≢ stuck → IsFine o → (v : ℕ) × (o ≡ returns v) × IsU32 v
outcome_of (returns v) ends fine = (v, refl, fine)
outcome_of panics ends fine = absurd fine
outcome_of stuck ends fine = absurd (ends refl)

-- A program that `verify` accepts for packets of `packet_len` bytes (below `u32::MAX`), its fields
-- within their types, returns a `u32` on every packet of bytes, of any length: `run` neither panics
-- nor goes on forever.
pub run-returns :
    (insns p : List SockFilter) (packet_len : ℕ) (packet : List ℕ)
    → packet_len < 2 ^ 32 - 1
    → verify insns packet_len ≡ ok p
    → All FitsWord insns
    → All IsByte packet
    → (v : ℕ) × (run p packet ≡ returns v) × IsU32 v
unfolding run
run-returns insns p packet_len packet narrow h fits bytes =
    let (e, admitted) = verify-IsAdmitted insns packet_len narrow h in
    rw e (
      outcome_of (run insns packet) (run-ne-stuck insns packet) (
        exec-IsFine insns packet_len packet bytes fits admitted (suc (length insns)) initial
          initial-IsRunning (omega arith)))
