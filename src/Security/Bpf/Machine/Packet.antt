-- ===== src/Security/Bpf/Machine/Packet.antt =====
-- kernel/src/security/bpf.rs, `read_packet`: it reads the little-endian number at an offset.
use cyphera_kernel.Prelude.{
  ℕ, zero, suc, ◌+◌, ◌*◌, ◌<◌, ◌≡◌, refl, List, [], ◌∷◌, arith, length, take, drop, if◌then◌else◌,
  leb,
}
use cyphera_kernel.Security.Bpf.Code.{bpf_w, bpf_h, bpf_b}
use cyphera_kernel.Security.Bpf.Machine.{read_packet, byte_at}

-- the number that bytes stand for, lowest first
pub little_endian : List ℕ → ℕ
little_endian [] = 0
little_endian (b ∷ rest) = b + 0x100 * little_endian rest

-- the number of `n` bytes at an offset, 0 where the packet ends before it does
pub word_at : ℕ → List ℕ → ℕ → ℕ
word_at n packet offset =
    if leb (offset + n) (length packet) then little_endian (take n (drop offset packet)) else 0

byte_at-suc : (b : ℕ) (rest : List ℕ) (i : ℕ) → byte_at (b ∷ rest) (suc i) ≡ byte_at rest i
unfolding byte_at
byte_at-suc b rest i = refl

-- a slice of `n + 1` bytes is its first byte and the slice behind it
little_endian-take :
    (packet : List ℕ) (offset n : ℕ)
    → offset < length packet
    → little_endian (take (suc n) (drop offset packet))
      ≡ byte_at packet offset + 0x100 * little_endian (take n (drop (suc offset) packet))
unfolding little_endian byte_at
little_endian-take [] offset n h = absurd (omega arith)
little_endian-take (b ∷ rest) zero n h = refl
little_endian-take (b ∷ rest) (suc offset) n h = little_endian-take rest offset n (omega arith)

take-none : (xs : List ℕ) → little_endian (take 0 xs) ≡ 0
unfolding little_endian
take-none xs = refl

-- A read of four, two or one bytes gives the little-endian number that stands at the offset, and 0
-- where the packet ends before it does.
pub read_packet-word_at :
    (packet : List ℕ) (offset : ℕ)
    → (read_packet packet offset bpf_w ≡ word_at 4 packet offset)
      × (read_packet packet offset bpf_h ≡ word_at 2 packet offset)
      × (read_packet packet offset bpf_b ≡ word_at 1 packet offset)
unfolding read_packet word_at
read_packet-word_at packet offset = (
  ground (
    arith,
    little_endian-take packet offset 3,
    little_endian-take packet (suc offset) 2,
    little_endian-take packet (suc (suc offset)) 1,
    little_endian-take packet (suc (suc (suc offset))) 0,
    take-none (drop (suc (suc (suc (suc offset)))) packet),
  ),
  ground (
    arith,
    little_endian-take packet offset 1,
    little_endian-take packet (suc offset) 0,
    take-none (drop (suc (suc offset)) packet),
  ),
  ground (arith, little_endian-take packet offset 0, take-none (drop (suc offset) packet)),
)
