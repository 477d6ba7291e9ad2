-- ===== src/Mm/MmapState/Checked.antt =====
-- kernel/src/process_model/memory_map.rs and the sections of kernel/src/syscall/mm.rs under the lock of
-- the address space: operations as the kernel runs them, with the panics of their additions, `none`.
use cyphera_kernel.Prelude.{
  ℕ, ◌+◌, ◌-◌, ◌≤◌, min, max, ◌≡◌, refl, Bool, true, false, ◌&&◌, ◌||◌, List, [], ◌∷◌, Option, none,
  some, arith, ltb, leb, if◌then◌else◌, All,
}
use cyphera_kernel.Mm.Vma.{Perms, VmaBacking, anonymous, file, shm, Vma, Attached, shifts}
use cyphera_kernel.Mm.MmapState.{
  MmapState, overlaps, find_gap, Unmapped, unmap_range, Changed, protect_range, lock_range, reserve,
  release_reservation, insert,
}

-- whether the additions for one range of `unmap_range` return
unfoldable pub unmap_one_fits : ℕ → ℕ → Vma → Bool
unmap_one_fits lo hi v =
    if leb v.end lo || leb hi v.start
    then true
    else if leb lo v.start && leb v.end hi
    then true
    else if ltb v.start lo && ltb hi v.end
    then shifts (lo - v.start) v.backing && shifts (hi - v.start) v.backing
    else if ltb v.start lo
    then shifts (lo - v.start) v.backing
    else shifts (hi - v.start) v.backing

unfoldable pub unmap_fits : ℕ → ℕ → List Vma → Bool
unmap_fits lo hi [] = true
unmap_fits lo hi (v ∷ vs) = unmap_one_fits lo hi v && unmap_fits lo hi vs

unfoldable pub unmap_range_checked : ℕ → ℕ → MmapState → Attached → Option Unmapped
unmap_range_checked lo hi m counts =
    if unmap_fits lo hi m.vmas then some (unmap_range lo hi m counts) else none

-- whether the additions for one range of `protect_range` and `lock_range` return
unfoldable pub change_one_fits : ℕ → ℕ → Vma → Bool
change_one_fits lo hi v =
    let mid_hi = min v.end hi in
    if leb v.end lo || leb hi v.start
    then true
    else (shifts (max v.start lo - v.start) v.backing
        && (if ltb mid_hi v.end then shifts (mid_hi - v.start) v.backing else true))

unfoldable pub change_fits : ℕ → ℕ → List Vma → Bool
change_fits lo hi [] = true
change_fits lo hi (v ∷ vs) = change_one_fits lo hi v && change_fits lo hi vs

unfoldable pub protect_range_checked : ℕ → ℕ → Perms → MmapState → Attached → Option Changed
protect_range_checked lo hi prot m counts =
    if change_fits lo hi m.vmas then some (protect_range lo hi prot m counts) else none

unfoldable pub lock_range_checked : ℕ → ℕ → Bool → MmapState → Attached → Option Changed
lock_range_checked lo hi set m counts =
    if change_fits lo hi m.vmas then some (lock_range lo hi set m counts) else none

-- what a range maps ends below 2^64 in its file or segment
abbrev pub IsBackedBelow : Vma → Type 0
IsBackedBelow v = shifts (v.end - v.start) v.backing ≡ true

shifts-le : (m n : ℕ) (b : VmaBacking) → m ≤ n → shifts n b ≡ true → shifts m b ≡ true
unfolding shifts
shifts-le m n anonymous h e = refl
shifts-le m n (file inode offset) h e = ground arith
shifts-le m n (shm segment offset) h e = ground arith

pub unmap_fits_lem : (lo hi : ℕ) (vs : List Vma) → All IsBackedBelow vs → unmap_fits lo hi vs ≡ true
unfolding unmap_fits unmap_one_fits
unmap_fits_lem lo hi [] h = refl
unmap_fits_lem lo hi (v ∷ vs) (b, h) = ground (
  arith,
  λ (t : lo - v.start ≤ v.end - v.start). shifts-le (lo - v.start) (v.end - v.start) v.backing t b,
  λ (t : hi - v.start ≤ v.end - v.start). shifts-le (hi - v.start) (v.end - v.start) v.backing t b,
  unmap_fits_lem lo hi vs h,
)

pub change_fits_lem :
    (lo hi : ℕ) (vs : List Vma) → All IsBackedBelow vs → change_fits lo hi vs ≡ true
unfolding change_fits change_one_fits
change_fits_lem lo hi [] h = refl
change_fits_lem lo hi (v ∷ vs) (b, h) = ground (
  arith,
  λ (t : max v.start lo - v.start ≤ v.end - v.start).
      shifts-le (max v.start lo - v.start) (v.end - v.start) v.backing t b,
  λ (t : min v.end hi - v.start ≤ v.end - v.start).
      shifts-le (min v.end hi - v.start) (v.end - v.start) v.backing t b,
  change_fits_lem lo hi vs h,
)

-- A window that is reserved where the same section has found nothing in it: MAP_FIXED_NOREPLACE, a
-- hint, and an address of shmat.
unfoldable pub reserve_free : ℕ → ℕ → MmapState → MmapState × Bool
reserve_free lo hi m = if overlaps lo hi m then (m, false) else (reserve lo hi m, true)

unfoldable pub reserve_at : ℕ → MmapState → Option ℕ → MmapState × Option ℕ
reserve_at length m none = (m, none)
reserve_at length m (some a) = (reserve a (a + length) m, some a)

-- a window that is reserved where `find_gap` finds room
unfoldable pub reserve_gap : ℕ → MmapState → MmapState × Option ℕ
reserve_gap length m = reserve_at length m (find_gap length m)

-- The last section of mmap, mremap and shmat: a mapping takes the place of its reservation.
unfoldable pub settle : Vma → MmapState → MmapState
settle v m = insert v (release_reservation v.start v.end m)
