-- ===== src/Mm/FrameAlloc/Boot/Safe.antt =====
-- frame/src/mm/frame_alloc.rs: `init` gives no frame that holds the kernel image or a module, and
-- the pool of low frames stays within its array.
use cyphera_kernel.Prelude.{
  ℕ, zero, suc, ◌+◌, ◌*◌, ◌^◌, ◌≤◌, ◌<◌, ◌≡◌, Bool, true, false, ◌&&◌, ◌||◌, List, [], ◌∷◌, ltb,
  leb, arith, get_elem?, some, Bool-cases, inl, inr,
}
use cyphera_kernel.Mm.FrameAlloc.Buddy.{Buddy, IsBuddy}
use cyphera_kernel.Mm.FrameAlloc.Regions.{
  MemoryRegion, is_usable, subtract_reserved, reserved_low_end,
}
use cyphera_kernel.Mm.FrameAlloc.Regions.Align.{align_up_lem, align_down_lem}
use cyphera_kernel.Mm.FrameAlloc.Regions.Survives.{covers, in_range, subtract_reserved-covers}
use cyphera_kernel.Mm.FrameAlloc.Boot.{Module, init, reserve_modules, reserved_buf}
use cyphera_kernel.Mm.FrameAlloc.Boot.Donated.{fits, usable_frame, is_given, Mapped, init-given}

abbrev pub in_page : ℕ → ℕ → Bool
in_page f a = leb (f * 4096) a && ltb a (f * 4096 + 4096)

fits-covers :
    (f a : ℕ) (ranges : List (ℕ × ℕ))
    → fits f ranges ≡ true
    → in_page f a ≡ true
    → covers a ranges ≡ true
unfolding fits covers
fits-covers f a [] h p = h
fits-covers f a ((s, e) ∷ ranges) h p =
    ground (arith, λ (t : fits f ranges ≡ true). fits-covers f a ranges t p)

-- whether a usable region of the map holds the address
unfoldable pub is_usable_memory : ℕ → List MemoryRegion → Bool
is_usable_memory a [] = false
is_usable_memory a (r ∷ regions) =
    (is_usable r && in_range a (r.start, r.end)) || is_usable_memory a regions

usable_frame-apart :
    (reserved : List (ℕ × ℕ)) (f a : ℕ) (regions : List MemoryRegion)
    → usable_frame reserved f regions ≡ true
    → in_page f a ≡ true
    → (is_usable_memory a regions ≡ true) × (reserved_low_end ≤ a) × (covers a reserved ≡ false)
unfolding usable_frame is_usable_memory
usable_frame-apart reserved f a [] h p = cc
usable_frame-apart reserved f a (r ∷ regions) h p = ground (
  arith,
  λ (t : fits f (subtract_reserved r reserved) ≡ true).
      fits-covers f a (subtract_reserved r reserved) t p,
  subtract_reserved-covers r reserved a,
  λ (t : usable_frame reserved f regions ≡ true). usable_frame-apart reserved f a regions t p,
)

-- Module `i` is among those that there is room for.
reserve_modules-covers :
    (room i : ℕ) (modules : List Module) (m : Module) (a : ℕ)
    → get_elem? modules i ≡ some m
    → i < room
    → m.paddr + m.size + 4095 < 2 ^ 64
    → in_range a (m.paddr, m.paddr + m.size) ≡ true
    → covers a (reserve_modules room modules) ≡ true
unfolding reserve_modules covers
reserve_modules-covers zero i modules m a e l b h = absurd (omega arith)
reserve_modules-covers (suc room) i [] m a e l b h = absurd (ground arith)
reserve_modules-covers (suc room) zero (n ∷ modules) m a e l b h =
    ground (arith, align_up_lem (m.paddr + m.size) b, align_down_lem m.paddr (omega arith))
reserve_modules-covers (suc room) (suc i) (n ∷ modules) m a e l b h =
    ground (arith, reserve_modules-covers room i modules m a e (omega arith) b h)

pub record IsSafe (kernel_start kernel_end : ℕ) (modules : List Module)
    (memory_map : List MemoryRegion) (a : ℕ) : Type 0 where
  pub in_memory : is_usable_memory a memory_map ≡ true
  pub above_low : reserved_low_end ≤ a
  pub outside_kernel : in_range a (kernel_start, kernel_end) ≡ false
  pub outside_modules :
      (i : ℕ) (m : Module)
      → get_elem? modules i ≡ some m
      → i < 15
      → m.paddr + m.size + 4095 < 2 ^ 64
      → in_range a (m.paddr, m.paddr + m.size) ≡ false

module _ {B : Type 0} (buddy : Buddy B) (laws : IsBuddy buddy) where
  -- Every byte of a frame that `init` gives lies in a usable region, above 1 MiB, outside the kernel
  -- image and outside the first fifteen modules.
  pub init-IsSafe :
      (kernel_start kernel_end : ℕ) (modules : List Module) (memory_map : List MemoryRegion)
      (f a : ℕ)
      → Mapped memory_map
      → is_given buddy laws f (init buddy kernel_start kernel_end modules memory_map) ≡ true
      → in_page f a ≡ true
      → IsSafe kernel_start kernel_end modules memory_map a
  unfolding reserved_buf covers
  init-IsSafe kernel_start kernel_end modules memory_map f a mapped h p =
      let (inside, above, apart) =
        usable_frame-apart (reserved_buf kernel_start kernel_end modules) f a memory_map
          (ground
            (arith, init-given buddy laws kernel_start kernel_end modules memory_map f mapped))
          p in
      record {
        in_memory = inside;
        above_low = above;
        outside_kernel = ground arith;
        outside_modules = λ i m e l b. elim (Bool-cases (in_range a (m.paddr, m.paddr + m.size))) [
          | inr no_part ↦ no_part
          | inl part ↦ ground (arith, reserve_modules-covers 15 i modules m a e l b part)
        ];
      }
