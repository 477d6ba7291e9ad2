-- ===== src/Mm/FrameAlloc/Counts.antt =====
-- frame/src/mm/frame_alloc.rs: frames handed out and taken back, and the table of their counts. A
-- frame stands for its number; `usize` holds every number and sum here.
pub mod Reach
pub mod Owned
pub mod Kept
pub mod Held
use cyphera_kernel.Prelude.{
  ℕ, zero, suc, ◌+◌, ◌-◌, ◌*◌, ◌/◌, ◌%◌, ◌^◌, min, Bool, true, false, ◌||◌, List, [], ◌∷◌, Option,
  none, some, ltb, leb, ◌==◌, if◌then◌else◌, length, get_elem?, set, replicate,
}
use cyphera_kernel.Mm.FrameAlloc.Buddy.{Buddy}
use cyphera_kernel.Mm.FrameAlloc.Regions.{align_up, align_down}

abbrev pub u16_max : ℕ
u16_max = 65535

pub record FrameState (B : Type 0) : Type 0 where
  pub frames : B
  pub total_frames : ℕ
  pub frames_in_use : ℕ
  -- the table of counts, once it is built
  pub refcounts : Option (List ℕ)

pub record Stats : Type 0 where
  pub total : ℕ
  pub in_use : ℕ

-- `usize::next_power_of_two`, of counts below 2^64
unfoldable pub power_from : ℕ → ℕ → ℕ → ℕ
power_from zero p count = p
power_from (suc fuel) p count =
    let rest = power_from fuel (2 * p) count in if leb count p then p else rest

unfoldable pub next_power_of_two : ℕ → ℕ
next_power_of_two count = power_from 64 1 count

-- the count of a frame, where the table has one
unfoldable pub slot_of : Option (List ℕ) → ℕ → Option ℕ
slot_of none frame = none
slot_of (some table) frame = get_elem? table frame

-- `map_or(0, …)`
abbrev pub count_of : Option ℕ → ℕ
count_of none = 0
count_of (some cur) = cur

unfoldable pub store_count : Option (List ℕ) → ℕ → ℕ → Option (List ℕ)
store_count none frame count = none
store_count (some table) frame count = some (set table frame count)

-- What the count says of a frame that is given back: leave it, take one off, or give it to the
-- buddy allocator.
pub data Release : Type 0 where
  ignored last : Release
  shared : ℕ → Release

unfoldable pub release_of : Option ℕ → Release
release_of none = last
release_of (some cur) =
    if cur == 0 || cur == u16_max then ignored else if cur == 1 then last else shared (cur - 1)

module _ {B : Type 0} (buddy : Buddy B) where
  unfoldable pub stats : FrameState B → Stats
  stats s = record { total = s.total_frames; in_use = s.frames_in_use }

  unfoldable pub refcount_slot : ℕ → FrameState B → Option ℕ
  refcount_slot frame s = slot_of s.refcounts frame

  unfoldable pub take_block : ℕ → FrameState B → Option (ℕ × B) → FrameState B × Option ℕ
  take_block count s none = (s, none)
  take_block count s (some (frame, frames)) = (
    record s {
      frames = frames;
      refcounts = store_count s.refcounts frame 1;
      frames_in_use = (s.frames_in_use + count) % 2 ^ 64;
    },
    some frame,
  )

  unfoldable pub alloc_frame : FrameState B → FrameState B × Option ℕ
  alloc_frame s = take_block 1 s (buddy.alloc 1 s.frames)

  unfoldable pub alloc_contiguous : ℕ → FrameState B → FrameState B × Option ℕ
  alloc_contiguous count s =
      if count == 0
      then (s, none)
      else take_block (next_power_of_two count) s (buddy.alloc count s.frames)

  -- The count of a frame sticks at its greatest value.
  unfoldable pub inc_slot : ℕ → FrameState B → Option ℕ → FrameState B
  inc_slot frame s none = s
  inc_slot frame s (some cur) =
      if cur == u16_max then s else record s { refcounts = store_count s.refcounts frame (cur + 1) }

  unfoldable pub frame_ref_inc : ℕ → FrameState B → FrameState B
  frame_ref_inc frame s = inc_slot frame s (refcount_slot frame s)

  unfoldable pub frame_ref_count : ℕ → FrameState B → ℕ
  frame_ref_count frame s = count_of (refcount_slot frame s)

  unfoldable pub give_back : ℕ → ℕ → ℕ → FrameState B → FrameState B
  give_back frame count in_use s = record s {
    frames = buddy.dealloc frame count s.frames;
    frames_in_use = (s.frames_in_use + 2 ^ 64 - in_use) % 2 ^ 64;
  }

  unfoldable pub free_as : ℕ → FrameState B → Release → FrameState B
  free_as frame s ignored = s
  free_as frame s (shared left) = record s { refcounts = store_count s.refcounts frame left }
  free_as frame s last =
      give_back frame 1 1 (record s { refcounts = store_count s.refcounts frame 0 })

  unfoldable pub free_frame : ℕ → FrameState B → FrameState B
  free_frame frame s = free_as frame s (release_of (refcount_slot frame s))

  unfoldable pub free_block : ℕ → ℕ → FrameState B → FrameState B
  free_block frame count s =
      give_back frame count (next_power_of_two count)
        (record s { refcounts = store_count s.refcounts frame 0 })

  -- The head's count goes to 0 whatever it is, unless it sticks.
  unfoldable pub free_head : ℕ → ℕ → FrameState B → Option ℕ → FrameState B
  free_head frame count s none = free_block frame count s
  free_head frame count s (some cur) =
      if cur == u16_max || cur == 0 then s else free_block frame count s

  unfoldable pub free_contiguous : ℕ → ℕ → FrameState B → FrameState B
  free_contiguous frame count s = free_head frame count s (refcount_slot frame s)

  unfoldable pub build_table : ℕ → FrameState B × Option ℕ → Option (FrameState B)
  build_table len (s, none) = none
  build_table len (s, some frame) = some (record s { refcounts = some (replicate len 0) })

  -- The table is built once, in frames of its own, one count for each frame number below `len`; the
  -- kernel stops where there are no frames for it.
  unfoldable pub init_refcounts : ℕ → FrameState B → Option (FrameState B)
  init_refcounts len s =
      if len == 0 then some s else build_table len (alloc_contiguous ((len * 2 + 4095) / 4096) s)

  unfoldable pub reclaim_module : ℕ → ℕ → FrameState B → FrameState B × ℕ
  reclaim_module paddr size s =
      let start = align_up paddr in
      let end = align_down (min (paddr + size) (2 ^ 64 - 1)) in
      if leb end start then (s, 0) else (
        record s {
          frames = buddy.add_frame (start / 4096) (end / 4096) s.frames;
          total_frames = (s.total_frames + (end / 4096 - start / 4096)) % 2 ^ 64;
        },
        end / 4096 - start / 4096,
      )
