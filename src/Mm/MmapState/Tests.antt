-- ===== src/Mm/MmapState/Tests.antt =====
-- kernel/src/process_model/memory_map.rs, `MmapState` on a small address space.
use cyphera_kernel.Prelude.{
  ◌+◌, ◌≤◌, ◌≡◌, refl, true, false, ◌&&◌, [], ◌∷◌, none, some, arith, ◌-◌, ◌^◌, All, if◌then◌else◌,
}
use cyphera_kernel.Mm.Vma.{Vma, VmaFlags, Attached, attach, file, shm, cut, shift_backing, shifts}
use cyphera_kernel.Mm.MmapState.Order.{Above}
use cyphera_kernel.Mm.MmapState.Steps.{IsOrdered}
use cyphera_kernel.Mm.MmapState.View.{page, within, unmap_range-page}
use cyphera_kernel.Mm.MmapState.Rights.{turn_page, in_gaps, is_none, protect_range-page}
use cyphera_kernel.Mm.MmapState.Gap.{find_gap-free, find_gap-full}
use cyphera_kernel.Mm.MmapState.Reach.{
  here, after, stands, took_free, placed, unmapped, reachable-IsOrdered,
}
use cyphera_kernel.Mm.MmapState.Checked.{
  IsBackedBelow, unmap_range_checked, unmap_fits, unmap_one_fits, protect_range_checked,
  reserve_free, settle,
}
use cyphera_kernel.Mm.MmapState.{
  MmapState, mmap_hint_base, mmap_per_pid_stride, reserve, release_reservation, keep_where,
  unmap_range_reserve, for_pid, overlaps, meets, find_start, set_end, insert, insert_sorted,
  sort_by_start, extend_vma_end, find_gap, try_find, unmap_one, unmap_loop, unmap_range,
  protect_range, change_range, change_loop, bump_generation, bump_last_end,
}

abbrev plain : VmaFlags
plain = record { shared = false; anon = true; growsdown = false; locked = false; reserved = false }

-- a range of the segment 7, and one of a file behind a hole
abbrev shared_vma : Vma
shared_vma = record {
  start = 0x2000;
  end = 0x6000;
  prot = 3;
  flags = plain;
  backing = shm 7 0x1000;
}

abbrev file_vma : Vma
file_vma = record { start = 0x8000; end = 0x9000; prot = 1; flags = plain; backing = file 5 0 }

abbrev small : MmapState
small = record {
  vmas = shared_vma ∷ file_vma ∷ [];
  last_end = 0x9000;
  arena_lo = 0x2000;
  arena_hi = 0xa000;
  generation = 4;
  mlockall_flags = 0;
}

abbrev once : Attached
once = λ s. 1

small-Above : Above 0 small.vmas
small-Above = (omega arith, omega arith, (omega arith, omega arith, tt))

hole_punched :
    (unmap_range 0x3000 0x4000 small once).state.vmas
    ≡ record shared_vma { end = 0x3000 }
      ∷ record { start = 0x4000; end = 0x6000; prot = 3; flags = plain; backing = shm 7 0x3000 }
      ∷ file_vma
      ∷ []
unfolding unmap_range unmap_loop unmap_one bump_generation sort_by_start insert_sorted cut
    shift_backing
hole_punched = refl

counted : (unmap_range 0x3000 0x4000 small once).counts 7 ≡ 3
unfolding unmap_range unmap_loop unmap_one attach
counted = refl

gap_reported : (protect_range 0x5000 0x8800 1 small once).gaps ≡ (0x6000, 0x8000) ∷ []
unfolding protect_range change_range change_loop
gap_reported = refl

gap_picked : find_gap 0x1000 small ≡ some 0x9000
unfolding find_gap try_find
gap_picked = refl

gap_rescanned : find_gap 0x2000 small ≡ some 0x6000
unfolding find_gap try_find
gap_rescanned = refl

no_gap : find_gap 0x3000 small ≡ none
unfolding find_gap try_find
no_gap = refl

grown : MmapState
grown = record small {
  vmas = shared_vma ∷ record file_vma { end = 0x9800 } ∷ [];
  last_end = 0x9800;
  generation = 5;
}

grows : extend_vma_end 0x8000 0x9800 small ≡ (grown, true)
unfolding extend_vma_end find_start set_end overlaps meets bump_generation bump_last_end grown
grows = refl

blocked : extend_vma_end 0x2000 0x8800 small ≡ (small, false)
unfolding extend_vma_end find_start overlaps meets
blocked = refl

small-IsBackedBelow : All IsBackedBelow small.vmas
unfolding shifts
small-IsBackedBelow = (refl, (refl, tt))

unmap_range-page_example :
    (unmap_range_checked 0x3000 0x4000 small once ≡ some (unmap_range 0x3000 0x4000 small once))
    × (page (unmap_range 0x3000 0x4000 small once).state.vmas 0x3800
        ≡ (if within 0x3000 0x4000 0x3800 then none else page small.vmas 0x3800))
unmap_range-page_example =
    unmap_range-page 0x3000 0x4000 small once 0x3800 small-Above small-IsBackedBelow (omega arith)

protect_range-page_example :
    (protect_range_checked 0x5000 0x8800 1 small once
      ≡ some (protect_range 0x5000 0x8800 1 small once))
    × (page (protect_range 0x5000 0x8800 1 small once).state.vmas 0x5800 ≡ (
        if within 0x5000 0x8800 0x5800
        then turn_page (λ p. record p { prot = 1 }) (page small.vmas 0x5800)
        else page small.vmas 0x5800))
    × (in_gaps 0x5800 (protect_range 0x5000 0x8800 1 small once).gaps
        ≡ (within 0x5000 0x8800 0x5800 && is_none (page small.vmas 0x5800)))
protect_range-page_example =
    protect_range-page 0x5000 0x8800 1 small once 0x5800 small-Above small-IsBackedBelow
      (omega arith)

-- A mapping of a file near 2^64, which mmap lets through, panics where its tail is kept.
abbrev high : MmapState
high = record small {
  vmas = record file_vma { end = 0xa000; backing = file 5 (2 ^ 64 - 0x1000) } ∷ [];
}

panics_near_top : unmap_range_checked 0x8000 0x9000 high once ≡ none
unfolding unmap_range_checked unmap_fits unmap_one_fits shifts
panics_near_top = refl

find_gap-free_example : (0x2000 ≤ 0x6000) × (overlaps 0x6000 (0x6000 + 0x2000) small ≡ false)
find_gap-free_example =
    find_gap-free 0x2000 small (omega arith) (omega arith) small-Above
      (omega arith, (omega arith, tt)) gap_rescanned

find_gap-full_example : overlaps 0x6000 (0x6000 + 0x3000) small ≡ true
find_gap-full_example =
    find_gap-full 0x3000 small (omega arith) (omega arith) small-Above
      (omega arith, (omega arith, tt)) 0x6000 no_gap (omega arith) (omega arith)

abbrev arena : MmapState
arena = record {
  vmas = [];
  last_end = mmap_hint_base;
  arena_lo = mmap_hint_base;
  arena_hi = mmap_hint_base + mmap_per_pid_stride;
  generation = 0;
  mlockall_flags = 0;
}

arena_first : for_pid 1 ≡ some arena
unfolding for_pid
arena_first = refl

abbrev held : MmapState
held = (reserve_free 0x2000 0x6000 arena).0

stands_held : stands 0x2000 0x6000 held.vmas ≡ true
unfolding stands reserve_free reserve overlaps meets insert_sorted bump_last_end bump_generation
stands_held = refl

reachable-IsOrdered_example :
    IsOrdered (unmap_range 0x3000 0x4000 (settle shared_vma held) once).state
reachable-IsOrdered_example = reachable-IsOrdered 1 arena_first (
    after
      (after (after here (took_free 0x2000 0x6000 (omega arith) refl))
        (placed shared_vma (omega arith) stands_held refl))
      (unmapped 0x3000 0x4000 once (omega arith) refl))

-- Two threads map one window with MAP_FIXED: the second takes the reservation of the first for its
-- own, and then the first puts its range over that of the second.
abbrev second : MmapState
second = settle shared_vma (unmap_range_reserve 0x2000 0x6000 held once).state

mapped_twice : (settle shared_vma second).vmas ≡ shared_vma ∷ shared_vma ∷ []
unfolding settle unmap_range_reserve unmap_range unmap_loop unmap_one sort_by_start reserve_free
    reserve overlaps meets insert insert_sorted release_reservation keep_where bump_last_end
    bump_generation
mapped_twice = refl
