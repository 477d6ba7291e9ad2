-- ===== src/Security/Bpf/Machine/Halt.antt =====
-- kernel/src/security/bpf.rs, the loop of `BpfProgram::run`: every round moves forward, so it ends.
use cyphera_kernel.Prelude.{
  ℕ, zero, suc, ◌+◌, ◌≤◌, ◌<◌, ◌≢◌, inl, inr, List, Option, none, some, arith, length, get_elem?,
  lt_of_get_elem?, Option-cases,
}
use cyphera_kernel.Security.Bpf.Code.{SockFilter}
use cyphera_kernel.Security.Bpf.Machine.{
  Cpu, Step, next, done, fault, ld, ldx, alu, jmp, load_scratch, store_scratch, ret, misc, step,
  Outcome, stuck, proceed, exec, run, initial, write_a,
}

-- `P` of the state that a round goes on with, `Q` of the value that it returns, `F` of a panic
abbrev pub After : (Cpu → Type 0) → (ℕ → Type 0) → Type 0 → Step → Type 0
After P Q F (next c) = P c
After P Q F (done v) = Q v
After P Q F fault = F

abbrev Forward : Cpu → Step → Type 0
Forward c = After (λ c'. c.pc ≤ c'.pc) (λ _. Unit {0}) (Unit {0})

load_scratch-Forward :
    (c : Cpu) (m : List ℕ) (k : ℕ) (f : ℕ → Cpu)
    → ((v : ℕ) → c.pc ≤ (f v).pc)
    → Forward c (load_scratch m k f)
unfolding load_scratch
load_scratch-Forward c m k f h = elim (Option-cases (get_elem? m k)) [
  | inl e ↦ rw (e, load_scratch) tt
  | inr (v, e) ↦ rw (e, load_scratch) (h v)
]

ld-Forward : (ins : SockFilter) (packet : List ℕ) (c : Cpu) → Forward c (ld ins packet c)
unfolding ld load_scratch
ld-Forward ins packet c = ground arith

ldx-Forward : (ins : SockFilter) (packet : List ℕ) (c : Cpu) → Forward c (ldx ins packet c)
unfolding ldx load_scratch
ldx-Forward ins packet c = ground arith

write_a-Forward : (c : Cpu) (o : Option ℕ) → Forward c (write_a c o)
unfolding write_a
write_a-Forward c none = tt
write_a-Forward c (some v) = omega arith

alu-Forward : (ins : SockFilter) (c : Cpu) → Forward c (alu ins c)
unfolding alu
alu-Forward ins c = write_a-Forward c _

jmp-Forward : (ins : SockFilter) (c : Cpu) → Forward c (jmp ins c)
unfolding jmp
jmp-Forward ins c = ground arith

step-Forward : (ins : SockFilter) (packet : List ℕ) (c : Cpu) → Forward c (step ins packet c)
unfolding step store_scratch ret misc
step-Forward ins packet c =
    ground (
      arith,
      ld-Forward ins packet c,
      ldx-Forward ins packet c,
      alu-Forward ins c,
      jmp-Forward ins c,
    )

proceed-ne-stuck :
    (go_on : Cpu → Outcome) (s : Step)
    → After (λ c. go_on c ≢ stuck) (λ _. Unit {0}) (Unit {0}) s
    → proceed go_on s ≢ stuck
unfolding proceed
proceed-ne-stuck go_on (next c) h = h
proceed-ne-stuck go_on (done v) h = cc
proceed-ne-stuck go_on fault h = cc

pub After-mono :
    (P P' : Cpu → Type 0) (Q : ℕ → Type 0) (F : Type 0) (s : Step)
    → ((c : Cpu) → P c → P' c)
    → After P Q F s
    → After P' Q F s
After-mono P P' Q F (next c) h p = h c p
After-mono P P' Q F (done v) h p = p
After-mono P P' Q F fault h p = p

exec-ne-stuck :
    (insns : List SockFilter) (packet : List ℕ) (rounds : ℕ) (c : Cpu)
    → length insns < rounds + c.pc
    → 0 < rounds
    → exec insns packet rounds c ≢ stuck
unfolding exec
exec-ne-stuck insns packet zero c h p = absurd (omega arith)
exec-ne-stuck insns packet (suc rounds) c h p = elim (Option-cases (get_elem? insns c.pc)) [
  | inl e ↦ rw (e, exec) (cc)
  | inr (ins, e) ↦
      rw (e, exec)
        (proceed-ne-stuck _ _ (
          After-mono _ _ _ _ (step ins packet (record c { pc = c.pc + 1 }))
            (λ c' q.
              exec-ne-stuck insns packet rounds c' (omega arith)
                (omega (arith, lt_of_get_elem? insns c.pc e)))
            (step-Forward ins packet (record c { pc = c.pc + 1 }))))
]

-- Every program, verified or not, leaves the loop within one round more than it has instructions:
-- every jump goes forward.
pub run-ne-stuck : (insns : List SockFilter) (packet : List ℕ) → run insns packet ≢ stuck
unfolding run
run-ne-stuck insns packet = exec-ne-stuck insns packet _ initial (omega arith) (omega arith)
