-- ===== src/Mm/FrameAlloc/Boot.antt =====
-- frame/src/mm/frame_alloc.rs: `init`, which gives the usable memory to the pool of low frames and
-- to the buddy allocator, and `reclaim_module` and the pool's own operations.
pub mod Donated
pub mod Safe
pub mod Pool
use cyphera_kernel.Prelude.{
  ℕ, zero, suc, ◌+◌, ◌-◌, ◌*◌, ◌/◌, ◌%◌, ◌^◌, min, max, Bool, true, false, not, ◌&&◌, List, [], ◌∷◌,
  Option, none, some, ltb, leb, if◌then◌else◌, length,
}
use cyphera_kernel.Mm.FrameAlloc.Buddy.{Buddy}
use cyphera_kernel.Mm.FrameAlloc.Regions.{
  align_down, align_up, MemoryRegion, is_usable, subtract_reserved,
}

abbrev pub low_limit : ℕ
low_limit = 1024 * 1024 * 1024

abbrev pub low_pool_cap : ℕ
low_pool_cap = 520

-- a module that the boot loader put in memory
pub record Module : Type 0 where
  pub paddr : ℕ
  pub size : ℕ

-- The buffer holds sixteen ranges: the kernel image, and then modules while there is room.
unfoldable pub reserve_modules : ℕ → List Module → List (ℕ × ℕ)
reserve_modules zero modules = []
reserve_modules (suc room) [] = []
reserve_modules (suc room) (m ∷ modules) =
    (align_down m.paddr, align_up (m.paddr + m.size)) ∷ reserve_modules room modules

unfoldable pub reserved_buf : ℕ → ℕ → List Module → List (ℕ × ℕ)
reserved_buf kernel_start kernel_end modules =
    (kernel_start, kernel_end) ∷ reserve_modules 15 modules

-- The pool is a stack: its last frame comes first. The frames from `start` on go to it while it has
-- `room`, up to the limit; what is left begins at the address given back.
unfoldable pub fill_low_pool : ℕ → ℕ → ℕ → List ℕ → List ℕ × ℕ
fill_low_pool zero start end frames = (frames, start)
fill_low_pool (suc room) start end frames =
    let rest = fill_low_pool room (start + 4096) end (start ∷ frames) in
    if ltb start low_limit && leb (start + 4096) end then rest else (frames, start)

-- what `init` fills in
pub record Donation (B : Type 0) : Type 0 where
  pub frames : B
  pub low_pool : List ℕ
  pub total_donated_frames : ℕ

module _ {B : Type 0} (buddy : Buddy B) where
  -- `alloc.add_frame` of the pages from `start` to `end`, if there are any
  unfoldable pub give_to_buddy : ℕ → ℕ → Donation B → Donation B
  give_to_buddy start end d = if leb end start then d else record d {
    frames = buddy.add_frame (start / 4096) (end / 4096) d.frames;
    total_donated_frames = d.total_donated_frames + (end / 4096 - start / 4096);
  }

  unfoldable pub donate_range : ℕ → ℕ → Donation B → Donation B
  donate_range start end d =
      if leb end start
      then d
      else (let (pool, next) =
            fill_low_pool (low_pool_cap - length d.low_pool) start end d.low_pool in
          give_to_buddy next end (record d { low_pool = pool }))

  unfoldable pub donate_ranges : List (ℕ × ℕ) → Donation B → Donation B
  donate_ranges [] d = d
  donate_ranges ((s, e) ∷ ranges) d =
      donate_ranges ranges (donate_range (align_up s) (align_down e) d)

  unfoldable pub donate_regions : List (ℕ × ℕ) → List MemoryRegion → Donation B → Donation B
  donate_regions reserved [] d = d
  donate_regions reserved (r ∷ regions) d =
      donate_regions reserved regions
        (if is_usable r then donate_ranges (subtract_reserved r reserved) d else d)

  unfoldable pub init : ℕ → ℕ → List Module → List MemoryRegion → Donation B
  init kernel_start kernel_end modules memory_map =
      donate_regions (reserved_buf kernel_start kernel_end modules) memory_map
        (record { frames = buddy.none_free; low_pool = []; total_donated_frames = 0 })

-- one past the last frame of the usable memory
unfoldable pub max_frame_excl : List MemoryRegion → ℕ
max_frame_excl [] = 0
max_frame_excl (r ∷ regions) =
    max (if is_usable r then align_down r.end / 4096 else 0) (max_frame_excl regions)
