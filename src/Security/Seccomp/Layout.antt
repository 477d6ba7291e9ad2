-- ===== src/Security/Seccomp/Layout.antt =====
-- kernel/src/security/seccomp.rs, `SeccompData::to_bytes`: where a filter finds the fields.
use Prim.Native.Nat.add
use cyphera_kernel.Prelude.{
  ℕ, zero, suc, ◌+◌, ◌*◌, ◌/◌, ◌%◌, ◌^◌, ◌<◌, ◌≡◌, refl, List, [], ◌∷◌, ◌++◌, arith, length,
  get_elem?, some, length-append, All, All-append, ap, ◌∙◌,
}
use cyphera_kernel.Security.Bpf.Machine.{read_packet, byte_at}
use cyphera_kernel.Security.Seccomp.{SeccompData, to_bytes, le_bytes, args_bytes}

pub record FitsWords (d : SeccompData) : Type 0 where
  pub nr_fits : d.nr < 2 ^ 32
  pub arch_fits : d.arch < 2 ^ 32
  pub ip_fits : d.instruction_pointer < 2 ^ 64
  pub six_args : length d.args ≡ 6

le_bytes-length : (n v : ℕ) → length (le_bytes n v) ≡ n
unfolding le_bytes
le_bytes-length zero v = refl
le_bytes-length (suc n) v = ap suc (le_bytes-length n (v / 256))

le_bytes-IsByte : (n v : ℕ) → All (λ b. b < 256) (le_bytes n v)
unfolding le_bytes
le_bytes-IsByte zero v = tt
le_bytes-IsByte (suc n) v = (omega arith, le_bytes-IsByte n (v / 256))

args_bytes-length : (args : List ℕ) → length (args_bytes args) ≡ 8 * length args
unfolding args_bytes
args_bytes-length [] = refl
args_bytes-length (v ∷ rest) = omega (
  arith,
  length-append (le_bytes 8 v) (args_bytes rest),
  le_bytes-length 8 v,
  args_bytes-length rest,
)

args_bytes-IsByte : (args : List ℕ) → All (λ b. b < 256) (args_bytes args)
unfolding args_bytes
args_bytes-IsByte [] = tt
args_bytes-IsByte (v ∷ rest) =
    All-append (λ b. b < 256) (le_bytes 8 v) (args_bytes rest) (le_bytes-IsByte 8 v)
      (args_bytes-IsByte rest)

-- The packet that a filter reads consists of bytes and, with six arguments, is 64 of them long.
pub to_bytes-IsByte : (d : SeccompData) → All (λ b. b < 256) (to_bytes d)
unfolding to_bytes
to_bytes-IsByte d =
    All-append (λ b. b < 256) (le_bytes 4 d.nr)
      (le_bytes 4 d.arch ++ (le_bytes 8 d.instruction_pointer ++ args_bytes d.args))
      (le_bytes-IsByte 4 d.nr)
      (All-append (λ b. b < 256) (le_bytes 4 d.arch)
        (le_bytes 8 d.instruction_pointer ++ args_bytes d.args) (le_bytes-IsByte 4 d.arch)
        (All-append (λ b. b < 256) (le_bytes 8 d.instruction_pointer) (args_bytes d.args)
          (le_bytes-IsByte 8 d.instruction_pointer) (args_bytes-IsByte d.args)))

pub length-to_bytes : (d : SeccompData) → length d.args ≡ 6 → length (to_bytes d) ≡ 64
unfolding to_bytes
length-to_bytes d six = omega (arith, args_bytes-length d.args)

read_head : (v : ℕ) (rest : List ℕ) → read_packet (le_bytes 4 v ++ rest) 0 0 ≡ v % 2 ^ 32
unfolding le_bytes read_packet byte_at
read_head v rest = ground arith

read_behind :
    (b : ℕ) (rest : List ℕ) (offset : ℕ)
    → read_packet (b ∷ rest) (suc offset) 0 ≡ read_packet rest offset 0
unfolding read_packet byte_at
read_behind b rest offset = ground arith

-- what stands behind a prefix
read_append :
    (pre rest : List ℕ) (place offset : ℕ)
    → place ≡ length pre + offset
    → read_packet (pre ++ rest) place 0 ≡ read_packet rest offset 0
read_append [] rest place offset e = ap (λ n. read_packet rest n 0) (e ∙ add.zero offset)
read_append (b ∷ pre) rest place offset e =
    let e' : place ≡ suc (length pre + offset) = omega arith in
    rw e' (
      read_behind b (pre ++ rest) (length pre + offset)
      ∙ read_append pre rest (length pre + offset) offset refl)

read_low : (v : ℕ) (rest : List ℕ) → read_packet (le_bytes 8 v ++ rest) 0 0 ≡ v % 2 ^ 32
unfolding le_bytes read_packet byte_at
read_low v rest = ground arith

read_high : (v : ℕ) (rest : List ℕ) → read_packet (le_bytes 8 v ++ rest) 4 0 ≡ v / 2 ^ 32 % 2 ^ 32
unfolding le_bytes read_packet byte_at
read_high v rest = ground arith

read_args :
    (args : List ℕ) (i v : ℕ)
    → get_elem? args i ≡ some v
    → (read_packet (args_bytes args) (8 * i) 0 ≡ v % 2 ^ 32)
      × (read_packet (args_bytes args) (8 * i + 4) 0 ≡ v / 2 ^ 32 % 2 ^ 32)
unfolding args_bytes
read_args [] i v h = absurd (ground arith)
read_args (x ∷ rest) zero v h =
    let e : x ≡ v = cc in rw e (read_low v (args_bytes rest), read_high v (args_bytes rest))
read_args (x ∷ rest) (suc i) v h =
    let (low, high) = read_args rest i v h in
    (
      read_append (le_bytes 8 x) (args_bytes rest) (8 * suc i) (8 * i)
            (omega (arith, le_bytes-length 8 x))
          ∙ low,
      read_append (le_bytes 8 x) (args_bytes rest) (8 * suc i + 4) (8 * i + 4)
            (omega (arith, le_bytes-length 8 x))
          ∙ high,
    )

module _ (d : SeccompData) where
  abbrev behind_arch : List ℕ
  behind_arch = le_bytes 8 d.instruction_pointer ++ args_bytes d.args

  abbrev behind_nr : List ℕ
  behind_nr = le_bytes 4 d.arch ++ behind_arch

  past_nr :
      (place offset : ℕ)
      → place ≡ 4 + offset
      → read_packet (to_bytes d) place 0 ≡ read_packet behind_nr offset 0
  unfolding to_bytes
  past_nr place offset e =
      read_append (le_bytes 4 d.nr) behind_nr place offset (omega (arith, le_bytes-length 4 d.nr))

  past_arch :
      (place offset : ℕ)
      → place ≡ 8 + offset
      → read_packet (to_bytes d) place 0 ≡ read_packet behind_arch offset 0
  past_arch place offset e =
      past_nr place (4 + offset) (omega arith)
      ∙ read_append (le_bytes 4 d.arch) behind_arch (4 + offset) offset
          (omega (arith, le_bytes-length 4 d.arch))

  past_ip :
      (place offset : ℕ)
      → place ≡ 16 + offset
      → read_packet (to_bytes d) place 0 ≡ read_packet (args_bytes d.args) offset 0
  past_ip place offset e =
      past_arch place (8 + offset) (omega arith)
      ∙ read_append (le_bytes 8 d.instruction_pointer) (args_bytes d.args) (8 + offset) offset
          (omega (arith, le_bytes-length 8 d.instruction_pointer))

  -- A filter's absolute word load finds the call number at offset 0, the architecture at 4, and the
  -- instruction pointer at 8 (low half) and 12 (high half), each within the width of its field.
  pub read_packet-to_bytes :
      (read_packet (to_bytes d) 0 0 ≡ d.nr % 2 ^ 32)
      × (read_packet (to_bytes d) 4 0 ≡ d.arch % 2 ^ 32)
      × (read_packet (to_bytes d) 8 0 ≡ d.instruction_pointer % 2 ^ 32)
      × (read_packet (to_bytes d) 12 0 ≡ d.instruction_pointer / 2 ^ 32 % 2 ^ 32)
  unfolding to_bytes
  read_packet-to_bytes = (
    read_head d.nr behind_nr,
    past_nr 4 0 (omega arith) ∙ read_head d.arch behind_arch,
    past_arch 8 0 (omega arith) ∙ read_low d.instruction_pointer (args_bytes d.args),
    past_arch 12 4 (omega arith) ∙ read_high d.instruction_pointer (args_bytes d.args),
  )

  -- It finds argument `i` at 16 + 8 i (low half) and 20 + 8 i (high half).
  pub read_packet-args :
      (i v : ℕ)
      → get_elem? d.args i ≡ some v
      → (read_packet (to_bytes d) (16 + 8 * i) 0 ≡ v % 2 ^ 32)
        × (read_packet (to_bytes d) (20 + 8 * i) 0 ≡ v / 2 ^ 32 % 2 ^ 32)
  read_packet-args i v h =
      let (low, high) = read_args d.args i v h in
      (
        past_ip (16 + 8 * i) (8 * i) (omega arith) ∙ low,
        past_ip (20 + 8 * i) (8 * i + 4) (omega arith) ∙ high,
      )
