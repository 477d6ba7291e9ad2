-- ===== src/Mm/Vma.antt =====
-- kernel/src/process_model/memory_map.rs: one mapped range, and what it says of an address in it.
-- A `u64` is a native ℕ. An inode and a shared segment are their identities; a segment's count of
-- attached ranges is a function of it, threaded through the operations that change it.
use cyphera_kernel.Prelude.{
  ℕ, ◌+◌, ◌-◌, ◌%◌, ◌^◌, ◌≤◌, ◌≡◌, refl, Bool, true, false, ◌&&◌, arith, ltb, leb, ◌==◌,
  if◌then◌else◌,
}

-- the bits of `Perms`, as a number
abbrev pub Perms : Type 0
Perms = ℕ

-- `Perms::USER`
abbrev pub perms_user : Perms
perms_user = 8

pub record VmaFlags : Type 0 where
  pub shared : Bool
  pub anon : Bool
  pub growsdown : Bool
  pub locked : Bool
  pub reserved : Bool

abbrev pub reserved_only : VmaFlags
reserved_only = record {
  shared = false;
  anon = false;
  growsdown = false;
  locked = false;
  reserved = true;
}

pub data VmaBacking : Type 0 where
  anonymous : VmaBacking
  file : ℕ → ℕ → VmaBacking
  shm : ℕ → ℕ → VmaBacking

pub record Vma : Type 0 where
  pub start : ℕ
  pub end : ℕ
  pub prot : Perms
  pub flags : VmaFlags
  pub backing : VmaBacking

-- The sum is exact: `+` panics where it reaches 2^64, which `shifts` tells.
unfoldable pub shift_backing : ℕ → VmaBacking → VmaBacking
shift_backing delta anonymous = anonymous
shift_backing delta (file inode offset) = file inode (offset + delta)
shift_backing delta (shm segment offset) = shm segment (offset + delta)

-- whether `shift_backing` returns
unfoldable pub shifts : ℕ → VmaBacking → Bool
shifts delta anonymous = true
shifts delta (file inode offset) = ltb (offset + delta) (2 ^ 64)
shifts delta (shm segment offset) = ltb (offset + delta) (2 ^ 64)

-- the count of ranges attached to each segment
abbrev pub Attached : Type 0
Attached = ℕ → ℕ

-- `segment.attached.fetch_add(n)`, for a range backed by a segment
unfoldable pub attach : VmaBacking → ℕ → Attached → Attached
attach anonymous n counts = counts
attach (file inode offset) n counts = counts
attach (shm segment offset) n counts =
    λ s. if s == segment then (counts s + n) % 2 ^ 32 else counts s

-- the part of a range from `lo` to `hi`, as the source builds it behind a cut
unfoldable pub cut : Vma → ℕ → ℕ → Vma
cut v lo hi = record v { start = lo; end = hi; backing = shift_backing (lo - v.start) v.backing }

abbrev pub holds : Vma → ℕ → Bool
holds v a = leb v.start a && ltb a v.end

-- what a range says of an address: its rights and flags, and what is mapped there
pub record Page : Type 0 where
  pub prot : Perms
  pub flags : VmaFlags
  pub backing : VmaBacking

unfoldable pub page_at : Vma → ℕ → Page
page_at v a = record {
  prot = v.prot;
  flags = v.flags;
  backing = shift_backing (a - v.start) v.backing;
}

pub shift_shift :
    (m n : ℕ) (b : VmaBacking) → shift_backing n (shift_backing m b) ≡ shift_backing (m + n) b
unfolding shift_backing
shift_shift m n anonymous = refl
shift_shift m n (file inode offset) = ground arith
shift_shift m n (shm segment offset) = ground arith

-- A cut keeps what the range says of the addresses in the part.
pub page_at-cut :
    (v : Vma) (lo hi a : ℕ) → v.start ≤ lo → lo ≤ a → page_at (cut v lo hi) a ≡ page_at v a
unfolding page_at cut
page_at-cut v lo hi a h k =
    let e : (lo - v.start) + (a - lo) ≡ a - v.start = omega arith in rw (shift_shift, e)

-- So does a cut at the end.
pub page_at-end : (v : Vma) (hi a : ℕ) → page_at (record v { end = hi }) a ≡ page_at v a
unfolding page_at
page_at-end v hi a = refl
