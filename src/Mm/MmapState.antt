-- ===== src/Mm/MmapState.antt =====
-- kernel/src/process_model/memory_map.rs, `MmapState`: the ranges of an address space in order of
-- their start, and the operations of mmap, munmap, mprotect, mlock and mremap on them.
pub mod Cases
pub mod Order
pub mod View
pub mod Rights
pub mod Gap
pub mod Steps
pub mod Checked
pub mod Reach
pub mod Grow
pub mod Refs
mod Tests
use cyphera_kernel.Prelude.{
  ℕ, zero, suc, ◌+◌, ◌-◌, ◌*◌, ◌%◌, ◌^◌, ◌≤◌, ◌<◌, min, max, ◌≡◌, Bool, true, false, not, ◌&&◌,
  ◌||◌, List, [], ◌∷◌, ◌++◌, Option, none, some, ltb, leb, ◌==◌, if◌then◌else◌,
}
use cyphera_kernel.Mm.Vma.{
  Perms, perms_user, VmaFlags, reserved_only, VmaBacking, anonymous, Vma, Attached, attach, cut,
  holds,
}

pub record MmapState : Type 0 where
  pub vmas : List Vma
  pub last_end : ℕ
  pub arena_lo : ℕ
  pub arena_hi : ℕ
  pub generation : ℕ
  pub mlockall_flags : ℕ

abbrev pub mmap_hint_base : ℕ
mmap_hint_base = 0x0000_0080_0000_0000

abbrev pub mmap_per_pid_stride : ℕ
mmap_per_pid_stride = 4 * 1024 * 1024 * 1024

abbrev new_at : ℕ → MmapState
new_at base = record {
  vmas = [];
  last_end = base;
  arena_lo = base;
  arena_hi = base + mmap_per_pid_stride;
  generation = 0;
  mlockall_flags = 0;
}

-- Nothing for 0 and for process ids whose arena would pass 2^64, where the arithmetic panics.
pub for_pid : ℕ → Option MmapState
for_pid pid =
    let base = mmap_hint_base + (pid - 1) * mmap_per_pid_stride in
    if leb 1 pid && ltb (base + mmap_per_pid_stride) (2 ^ 64) then some (new_at base) else none

pub clone_for_fork : MmapState → MmapState
clone_for_fork m = record m { generation = 0; mlockall_flags = 0 }

pub set_mlockall : ℕ → MmapState → MmapState
set_mlockall flags m = record m { mlockall_flags = flags }

pub bump_generation : MmapState → MmapState
bump_generation m = record m { generation = (m.generation + 1) % 2 ^ 64 }

pub bump_last_end : ℕ → MmapState → MmapState
bump_last_end new_end m = if ltb m.last_end new_end then record m { last_end = new_end } else m

-- `self.vmas.iter().find(|v| v.start == start)`
pub find_start : ℕ → List Vma → Option Vma
find_start start [] = none
find_start start (v ∷ vs) = if v.start == start then some v else find_start start vs

-- the first range with that start, given another end
pub set_end : ℕ → ℕ → List Vma → List Vma
set_end start new_end [] = []
set_end start new_end (v ∷ vs) =
    if v.start == start then record v { end = new_end } ∷ vs else v ∷ set_end start new_end vs

-- `overlaps`, over the ranges
pub meets : ℕ → ℕ → List Vma → Bool
meets lo hi [] = false
meets lo hi (v ∷ vs) = (ltb v.start hi && ltb lo v.end) || meets lo hi vs

pub overlaps : ℕ → ℕ → MmapState → Bool
unfolding meets
overlaps lo hi m = meets lo hi m.vmas

-- `find_containing`, over the ranges
pub containing : ℕ → List Vma → Option Vma
containing a [] = none
containing a (v ∷ vs) = if holds v a then some v else containing a vs

pub find_containing : ℕ → MmapState → Option Vma
find_containing a m = containing a m.vmas

pub extend_vma_end : ℕ → ℕ → MmapState → MmapState × Bool
extend_vma_end start new_end m = elim (find_start start m.vmas) [
  | none ↦ (m, false)
  | some v ↦
      if leb new_end v.end || ltb m.arena_hi new_end
      then (m, false)
      else if overlaps v.end new_end m
      then (m, false)
      else (
        bump_generation (bump_last_end new_end (record m { vmas = set_end start new_end m.vmas })),
        true,
      )
]

pub truncate_vma_end : ℕ → ℕ → MmapState → MmapState × Bool
truncate_vma_end start new_end m = elim (find_start start m.vmas) [
  | none ↦ (m, false)
  | some v ↦
      if ltb v.start new_end && ltb new_end v.end
      then (bump_generation (record m { vmas = set_end start new_end m.vmas }), true)
      else (m, false)
]

-- the first range with that start, taken out
pub remove_start : ℕ → List Vma → List Vma
remove_start start [] = []
remove_start start (v ∷ vs) = if v.start == start then vs else v ∷ remove_start start vs

pub remove_vma_at : ℕ → MmapState → MmapState × Option Vma
remove_vma_at start m = elim (find_start start m.vmas) [
  | none ↦ (m, none)
  | some v ↦ (bump_generation (record m { vmas = remove_start start m.vmas }), some v)
]

pub keep_where : (Vma → Bool) → List Vma → List Vma
keep_where test [] = []
keep_where test (v ∷ vs) = if test v then v ∷ keep_where test vs else keep_where test vs

abbrev is_empty : List Vma → Bool
is_empty [] = true
is_empty (v ∷ vs) = false

pub drain_vmas_where : (Vma → Bool) → MmapState → MmapState × List Vma
drain_vmas_where pred m =
    let removed = keep_where pred m.vmas in
    let m' : MmapState = record m { vmas = keep_where (λ v. not (pred v)) m.vmas } in
    (if is_empty removed then m' else bump_generation m', removed)

abbrev saturating_add : ℕ → ℕ → ℕ
saturating_add a b = min (a + b) (2 ^ 64 - 1)

-- the closure `try_find` of `find_gap`, from the end `prev_end` of the range before
pub try_find : ℕ → ℕ → ℕ → List Vma → Option ℕ
try_find length hi prev_end [] =
    if leb (saturating_add prev_end length) hi then some prev_end else none
try_find length hi prev_end (v ∷ vs) = elim (leb v.end prev_end) [
  | true ↦ try_find length hi prev_end vs
  | false ↦ elim (leb (saturating_add prev_end length) v.start) [
    | true ↦ some prev_end
    | false ↦ try_find length hi (max prev_end v.end) vs
  ]
]

pub find_gap : ℕ → MmapState → Option ℕ
find_gap length m = elim (try_find length m.arena_hi (max m.last_end m.arena_lo) m.vmas) [
  | some a ↦ some a
  | none ↦ try_find length m.arena_hi m.arena_lo m.vmas
]

-- `Vec::insert` at the place that `binary_search_by_key` finds in ranges of increasing start: behind
-- those that start below
pub insert_sorted : Vma → List Vma → List Vma
insert_sorted v [] = v ∷ []
insert_sorted v (w ∷ ws) = if ltb w.start v.start then w ∷ insert_sorted v ws else v ∷ w ∷ ws

pub insert : Vma → MmapState → MmapState
insert v m = bump_generation (record m { vmas = insert_sorted v m.vmas; last_end = v.end })

-- `sort_by_key(|v| v.start)`, a stable sort
pub sort_by_start : List Vma → List Vma
unfolding insert_sorted
sort_by_start [] = []
sort_by_start (v ∷ vs) = insert_sorted v (sort_by_start vs)

-- What a pass over the ranges leaves, what it takes out, and how many ranges more than before refer
-- to the backing.
pub record Cut : Type 0 where
  pub kept : List Vma
  pub removed : List Vma
  pub extra : ℕ

-- the body of the loop of `unmap_range`
pub unmap_one : ℕ → ℕ → Vma → Cut
unfolding cut
unmap_one lo hi v =
    if leb v.end lo || leb hi v.start
    then record { kept = v ∷ []; removed = []; extra = 0 }
    else if leb lo v.start && leb v.end hi
    then record { kept = []; removed = v ∷ []; extra = 0 }
    else if ltb v.start lo && ltb hi v.end
    then record {
      kept = record v { end = lo } ∷ cut v hi v.end ∷ [];
      removed = cut v lo hi ∷ [];
      extra = 2;
    }
    else if ltb v.start lo
    then record { kept = record v { end = lo } ∷ []; removed = cut v lo v.end ∷ []; extra = 1 }
    else record { kept = cut v hi v.end ∷ []; removed = record v { end = hi } ∷ []; extra = 1 }

pub record Pass : Type 0 where
  pub kept : List Vma
  pub removed : List Vma
  pub counts : Attached

pub unmap_loop : ℕ → ℕ → List Vma → Attached → Pass
unmap_loop lo hi [] counts = record { kept = []; removed = []; counts = counts }
unmap_loop lo hi (v ∷ vs) counts =
    let one = unmap_one lo hi v in
    let rest = unmap_loop lo hi vs (attach v.backing one.extra counts) in
    record {
      kept = one.kept ++ rest.kept;
      removed = one.removed ++ rest.removed;
      counts = rest.counts;
    }

pub record Unmapped : Type 0 where
  pub state : MmapState
  pub removed : List Vma
  pub counts : Attached

pub unmap_range : ℕ → ℕ → MmapState → Attached → Unmapped
unmap_range lo hi m counts =
    let pass = unmap_loop lo hi m.vmas counts in
    record {
      state = bump_generation (record m { vmas = sort_by_start pass.kept });
      removed = pass.removed;
      counts = pass.counts;
    }

-- the range that `reserve` puts
abbrev pub reservation : ℕ → ℕ → Vma
reservation lo hi = record {
  start = lo;
  end = hi;
  prot = perms_user;
  flags = reserved_only;
  backing = anonymous;
}

pub reserve : ℕ → ℕ → MmapState → MmapState
unfolding bump_last_end
reserve lo hi m =
    bump_generation
      (bump_last_end hi (record m { vmas = insert_sorted (reservation lo hi) m.vmas }))

pub unmap_range_reserve : ℕ → ℕ → MmapState → Attached → Unmapped
unmap_range_reserve lo hi m counts =
    let u = unmap_range lo hi m counts in record u { state = reserve lo hi u.state }

-- what `release_reservation` takes out
abbrev pub is_reservation : ℕ → ℕ → Vma → Bool
is_reservation lo hi v = v.start == lo && v.end == hi && v.flags.reserved

pub release_reservation : ℕ → ℕ → MmapState → MmapState
release_reservation lo hi m =
    bump_generation (record m { vmas = keep_where (λ v. not (is_reservation lo hi v)) m.vmas })

-- The loop that `protect_range` and `lock_range` share, `change` being what they do to the part of a
-- range within `lo` and `hi`: the new ranges, the gaps, and the counts.
pub record Change : Type 0 where
  pub vmas : List Vma
  pub gaps : List (ℕ × ℕ)
  pub counts : Attached

-- the parts of a range that meets `lo` and `hi`
pub change_parts : (Vma → Vma) → ℕ → ℕ → Vma → List Vma
change_parts change lo hi v =
    let mid_lo = max v.start lo in
    let mid_hi = min v.end hi in
    (if ltb v.start mid_lo then record v { end = mid_lo } ∷ [] else [])
    ++ (change (cut v mid_lo mid_hi) ∷ (if ltb mid_hi v.end then cut v mid_hi v.end ∷ [] else []))

abbrev bit : Bool → ℕ
bit true = 1
bit false = 0

pub change_loop : (Vma → Vma) → ℕ → ℕ → ℕ → List Vma → Attached → Change
unfolding change_parts
change_loop change lo hi covered_to [] counts = record {
  vmas = [];
  gaps = if ltb covered_to hi then (covered_to, hi) ∷ [] else [];
  counts = counts;
}
change_loop change lo hi covered_to (v ∷ vs) counts =
    let outside = change_loop change lo hi covered_to vs counts in
    let mid_lo = max v.start lo in
    let mid_hi = min v.end hi in
    let counts' = attach v.backing (bit (ltb v.start mid_lo) + bit (ltb mid_hi v.end)) counts in
    let inside = change_loop change lo hi (max covered_to mid_hi) vs counts' in
    if leb v.end lo || leb hi v.start
    then record outside { vmas = v ∷ outside.vmas }
    else record inside {
      vmas = change_parts change lo hi v ++ inside.vmas;
      gaps = (if ltb covered_to v.start then (covered_to, v.start) ∷ [] else []) ++ inside.gaps;
    }

pub record Changed : Type 0 where
  pub state : MmapState
  pub gaps : List (ℕ × ℕ)
  pub counts : Attached

pub change_range : (Vma → Vma) → ℕ → ℕ → MmapState → Attached → Changed
unfolding change_loop sort_by_start bump_generation
change_range change lo hi m counts =
    let pass = change_loop change lo hi lo m.vmas counts in
    record {
      state = bump_generation (record m { vmas = sort_by_start pass.vmas });
      gaps = pass.gaps;
      counts = pass.counts;
    }

abbrev pub set_prot : Perms → Vma → Vma
set_prot prot v = record v { prot = prot }

abbrev pub set_locked : Bool → Vma → Vma
set_locked set v = record v { flags = record (v.flags) { locked = set } }

pub protect_range : ℕ → ℕ → Perms → MmapState → Attached → Changed
unfolding change_range
protect_range lo hi new_prot m counts = change_range (set_prot new_prot) lo hi m counts

pub lock_range : ℕ → ℕ → Bool → MmapState → Attached → Changed
unfolding change_range
lock_range lo hi set m counts = change_range (set_locked set) lo hi m counts
