-- ===== src/Mm/FrameAlloc/Tests.antt =====
-- The frame allocator at concrete inputs, over a list of free frames.
use cyphera_kernel.Prelude.{
  ℕ, zero, suc, ◌+◌, ◌-◌, ◌≡◌, refl, true, false, ◌&&◌, ◌||◌, not, List, [], ◌∷◌, ◌++◌, Option,
  none, some, ◌==◌, if◌then◌else◌, arith, Bool-cases, inl, inr, ◌<◌, ◌∙◌, ◌⊎◌, set, replicate,
}
use cyphera_kernel.Mm.FrameAlloc.Buddy.{Buddy, IsBuddy, within}
use cyphera_kernel.Mm.FrameAlloc.Regions.{
  MemoryRegion, usable, reserved, align_down, align_up, subtract_reserved, cut_holes, cut_ranges,
  cut_range, is_usable,
}
use cyphera_kernel.Mm.FrameAlloc.Boot.{Module, init, reserved_buf, reserve_modules}
use cyphera_kernel.Mm.FrameAlloc.Boot.Donated.{contains, fits, usable_frame, is_given, init-given}
use cyphera_kernel.Mm.FrameAlloc.Boot.Safe.{IsSafe, init-IsSafe}
use cyphera_kernel.Mm.FrameAlloc.Boot.Pool.{IsLowPool, init-IsLowPool}
use cyphera_kernel.Mm.FrameAlloc.Counts.{
  FrameState, init_refcounts, build_table, alloc_contiguous, take_block, next_power_of_two,
  power_from, store_count, alloc_frame, frame_ref_count, free_frame, u16_max,
}
use cyphera_kernel.Mm.FrameAlloc.Counts.Owned.{with_held}
use cyphera_kernel.Mm.FrameAlloc.Counts.Reach.{Reach, begin, then_step, allocated}
use cyphera_kernel.Mm.FrameAlloc.Counts.Held.{reachable_held, free_frame-is_free}

abbrev range : ℕ → ℕ → List ℕ
range first zero = []
range first (suc count) = first ∷ range (first + 1) count

abbrev drop_frame : ℕ → List ℕ → List ℕ
drop_frame f [] = []
drop_frame f (g ∷ frames) = let rest = drop_frame f frames in if g == f then rest else g ∷ rest

abbrev pop : ℕ → List ℕ → Option (ℕ × List ℕ)
pop count [] = none
pop count (f ∷ frames) = if count == 1 then some (f, drop_frame f frames) else none

abbrev block_of : ℕ → ℕ
block_of count = if count == 0 then 1 else count

abbrev free_list : Buddy (List ℕ)
free_list = record {
  none_free = [];
  add_frame = λ first last b. range first (last - first) ++ b;
  alloc = pop;
  dealloc = λ first count b. range first (block_of count) ++ b;
}

contains-range :
    (first count : ℕ) (b : List ℕ) (f : ℕ)
    → contains f (range first count ++ b) ≡ (contains f b || within first count f)
unfolding contains
contains-range first zero b f = ground arith
contains-range first (suc count) b f = ground (arith, contains-range (first + 1) count b f)

contains-drop_frame :
    (g : ℕ) (frames : List ℕ) (f : ℕ)
    → contains f (drop_frame g frames) ≡ (contains f frames && not (f == g))
unfolding contains
contains-drop_frame g [] f = refl
contains-drop_frame g (x ∷ frames) f = ground (arith, contains-drop_frame g frames f)

pop-contains :
    (count first : ℕ) (b b' : List ℕ) (f : ℕ)
    → pop count b ≡ some (first, b')
    → (within first (block_of count) f ≡ true → contains f b ≡ true)
      × (contains f b' ≡ (contains f b && not (within first (block_of count) f)))
unfolding contains
pop-contains count first [] b' f e = absurd (ground arith)
pop-contains count first (x ∷ b) b' f e = elim (Bool-cases (count == 1)) [
  | inr other ↦ absurd (ground arith)
  | inl one ↦ (ground arith, ground (arith, contains-drop_frame x b f))
]

free_list-IsBuddy : IsBuddy free_list
free_list-IsBuddy = record {
  is_free = λ b f. contains f b;
  block = block_of;
  block_pos = λ count. ground arith;
  block_one = refl;
  none_free_lem = λ f. unfold contains in refl;
  add_frame_lem = λ first last b f. ground (arith, contains-range first (last - first) b f);
  alloc_free = λ count first b b' f e. (pop-contains count first b b' f e).0;
  alloc_lem = λ count first b b' f e. (pop-contains count first b b' f e).1;
  dealloc_lem = λ first count b f. contains-range first (block_of count) b f;
}

abbrev memory : FrameState (List ℕ)
memory = record { frames = 4 ∷ 5 ∷ 6 ∷ []; total_frames = 3; frames_in_use = 0; refcounts = none }

abbrev booted : FrameState (List ℕ)
booted = record {
  frames = 5 ∷ 6 ∷ [];
  total_frames = 3;
  frames_in_use = 1;
  refcounts = some (replicate 8 0);
}

abbrev one_out : FrameState (List ℕ)
one_out = record {
  frames = 6 ∷ [];
  total_frames = 3;
  frames_in_use = 2;
  refcounts = some (set (replicate 8 0) 5 1);
}

memory_numbered : (f : ℕ) → contains f (4 ∷ 5 ∷ 6 ∷ []) ≡ true → f < 8
unfolding contains
memory_numbered f h = ground arith

memory_built : init_refcounts free_list 8 memory ≡ some booted
unfolding init_refcounts build_table alloc_contiguous take_block next_power_of_two power_from
    store_count
memory_built = refl

takes_five : alloc_frame free_list booted ≡ (one_out, some 5)
unfolding alloc_frame take_block store_count
takes_five = refl

booted_reached : Reach free_list free_list-IsBuddy booted (λ _. 0)
unfolding free_list-IsBuddy contains
booted_reached =
    begin
      (record {
        before = memory;
        len = 8;
        some_memory = omega arith;
        numbered = memory_numbered;
        no_table = refl;
        built = memory_built;
      })
      refl

one_out_reached : Reach free_list free_list-IsBuddy one_out (with_held 5 1 (λ _. 0))
one_out_reached = then_step booted_reached (allocated 5 takes_five refl)

reachable_held_example :
    (contains 5 (6 ∷ []) ≡ false)
    × ((frame_ref_count free_list 5 one_out ≡ 1) ⊎ (frame_ref_count free_list 5 one_out ≡ u16_max))
unfolding free_list-IsBuddy contains
reachable_held_example = reachable_held free_list free_list-IsBuddy one_out_reached 5 (omega arith)

free_frame-is_free_example :
    contains 5 (free_frame free_list 5 one_out).frames
    ≡ (not (frame_ref_count free_list 5 one_out == u16_max))
unfolding free_list-IsBuddy contains
free_frame-is_free_example =
    free_frame-is_free free_list free_list-IsBuddy one_out_reached 5 (omega arith)

-- 2 MiB from 1 MiB on, with the kernel in its first two pages and a module in the next
abbrev map : List MemoryRegion
map =
    record { start = 0; end = 655360; kind = usable }
    ∷ record { start = 1048576; end = 3145728; kind = usable }
    ∷ record { start = 3145728; end = 4294967296; kind = reserved }
    ∷ []

abbrev modules : List Module
modules = record { paddr = 1056768; size = 100 } ∷ []

init-given_example :
    is_given free_list free_list-IsBuddy 259 (init free_list 1048576 1056768 modules map)
    ≡ usable_frame (reserved_buf 1048576 1056768 modules) 259 map
unfolding free_list-IsBuddy contains
init-given_example =
    init-given free_list free_list-IsBuddy 1048576 1056768 modules map 259 (omega arith)

frame_259_usable : usable_frame (reserved_buf 1048576 1056768 modules) 259 map ≡ true
unfolding usable_frame reserved_buf reserve_modules align_down align_up subtract_reserved cut_holes
    cut_ranges cut_range fits is_usable
frame_259_usable = refl

init-IsSafe_example : IsSafe 1048576 1056768 modules map 1060865
init-IsSafe_example =
    init-IsSafe free_list free_list-IsBuddy 1048576 1056768 modules map 259 1060865 (omega arith)
      (init-given_example ∙ frame_259_usable) refl

init-IsLowPool_example : IsLowPool (init free_list 1048576 1056768 modules map).low_pool
init-IsLowPool_example = init-IsLowPool free_list 1048576 1056768 modules map
