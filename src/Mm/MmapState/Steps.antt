-- ===== src/Mm/MmapState/Steps.antt =====
-- kernel/src/process_model/memory_map.rs: every operation of `MmapState`, used as the system calls use
-- it, keeps the ranges in order and apart.
use cyphera_kernel.Prelude.{
  ℕ, ◌≤◌, ◌<◌, ◌≡◌, Bool, false, List, [], ◌∷◌, some, arith, ltb, ◌==◌, if_cases, Option-cases, inl,
  inr,
}
use cyphera_kernel.Mm.Vma.{Vma, Attached}
use cyphera_kernel.Mm.MmapState.Order.{
  Above, Above-weaken, sort_by_start-Above, insert_sorted-Above, unmap_loop-Above,
  change_loop-Above,
}
use cyphera_kernel.Mm.MmapState.{
  MmapState, find_start, set_end, meets, overlaps, remove_start, keep_where, bump_generation,
  bump_last_end, extend_vma_end, truncate_vma_end, remove_vma_at, drain_vmas_where, insert,
  unmap_range, reserve, reservation, release_reservation, change_range, is_empty,
}

-- ranges that start at `e` and leave the window up to `n` free start at `n`
Above-raise : (e n : ℕ) (vs : List Vma) → Above e vs → meets e n vs ≡ false → Above n vs
unfolding meets
Above-raise e n [] h free = tt
Above-raise e n (v ∷ vs) (p, q, h) free = (ground arith, q, h)

set_end-extend :
    (lo start new_end : ℕ) (vs : List Vma) (v : Vma)
    → Above lo vs
    → find_start start vs ≡ some v
    → v.end ≤ new_end
    → meets v.end new_end vs ≡ false
    → Above lo (set_end start new_end vs)
unfolding find_start set_end meets
set_end-extend lo start new_end [] v h e k free = tt
set_end-extend lo start new_end (w ∷ ws) v (p, q, h) e k free =
    if_cases (Above lo) (w.start == start)
      (λ same. (p, ground arith, Above-raise w.end new_end ws h (ground arith)))
      (λ other. (p, q, set_end-extend w.end start new_end ws v h (ground arith) k (ground arith)))

set_end-truncate :
    (lo start new_end : ℕ) (vs : List Vma) (v : Vma)
    → Above lo vs
    → find_start start vs ≡ some v
    → v.start < new_end
    → new_end ≤ v.end
    → Above lo (set_end start new_end vs)
unfolding find_start set_end
set_end-truncate lo start new_end [] v h e k below = tt
set_end-truncate lo start new_end (w ∷ ws) v (p, q, h) e k below =
    if_cases (Above lo) (w.start == start)
      (λ same. (p, ground arith, Above-weaken w.end new_end ws (ground arith) h))
      (λ other. (p, q, set_end-truncate w.end start new_end ws v h (ground arith) k below))

remove_start-Above : (lo start : ℕ) (vs : List Vma) → Above lo vs → Above lo (remove_start start vs)
unfolding remove_start
remove_start-Above lo start [] h = tt
remove_start-Above lo start (v ∷ vs) (p, q, h) =
    if_cases (Above lo) (v.start == start) (λ _. Above-weaken v.end lo vs (omega arith) h)
      (λ _. (p, q, remove_start-Above v.end start vs h))

pub keep_where-Above :
    (lo : ℕ) (test : Vma → Bool) (vs : List Vma) → Above lo vs → Above lo (keep_where test vs)
unfolding keep_where
keep_where-Above lo test [] h = tt
keep_where-Above lo test (v ∷ vs) (p, q, h) =
    if_cases (Above lo) (test v) (λ _. (p, q, keep_where-Above v.end test vs h))
      (λ _. Above-weaken v.end lo _ (omega arith) (keep_where-Above v.end test vs h))

abbrev pub IsOrdered : MmapState → Type 0
IsOrdered m = Above 0 m.vmas

-- A range is put where nothing overlaps it.
pub insert-IsOrdered :
    (v : Vma) (m : MmapState)
    → IsOrdered m
    → v.start < v.end
    → overlaps v.start v.end m ≡ false
    → IsOrdered (insert v m)
unfolding insert overlaps bump_generation
insert-IsOrdered v m h p free = insert_sorted-Above 0 v m.vmas h (omega arith) p free

pub reserve-IsOrdered :
    (lo hi : ℕ) (m : MmapState)
    → IsOrdered m
    → lo < hi
    → overlaps lo hi m ≡ false
    → IsOrdered (reserve lo hi m)
unfolding reserve overlaps bump_generation
reserve-IsOrdered lo hi m h p free =
    let put = insert_sorted-Above 0 (reservation lo hi) m.vmas h (omega arith) p free in
    if_cases {A = MmapState} (λ s. IsOrdered s) (ltb m.last_end hi) (λ _. put) (λ _. put)

pub unmap_range-IsOrdered :
    (lo hi : ℕ) (m : MmapState) (counts : Attached)
    → IsOrdered m
    → lo < hi
    → IsOrdered (unmap_range lo hi m counts).state
unfolding unmap_range bump_generation
unmap_range-IsOrdered lo hi m counts h p =
    let kept = unmap_loop-Above lo hi p 0 m.vmas counts h in rw (sort_by_start-Above 0 _ kept) kept

pub change_range-IsOrdered :
    (change : Vma → Vma) (lo hi : ℕ) (m : MmapState) (counts : Attached)
    → ((w : Vma) → ((change w).start ≡ w.start) × ((change w).end ≡ w.end))
    → IsOrdered m
    → lo < hi
    → IsOrdered (change_range change lo hi m counts).state
unfolding change_range
change_range-IsOrdered change lo hi m counts same h p =
    let kept = change_loop-Above lo hi p change same 0 lo m.vmas counts h in
    rw (sort_by_start-Above 0 _ kept) kept

pub extend_vma_end-IsOrdered :
    (start new_end : ℕ) (m : MmapState) → IsOrdered m → IsOrdered (extend_vma_end start new_end m).0
unfolding extend_vma_end overlaps bump_generation bump_last_end
extend_vma_end-IsOrdered start new_end m h = elim (Option-cases (find_start start m.vmas)) [
  | inl e ↦ rw (e, extend_vma_end) h
  | inr (v, e) ↦
      rw (e, extend_vma_end) (ground (arith, set_end-extend 0 start new_end m.vmas v h e))
]

pub truncate_vma_end-IsOrdered :
    (start new_end : ℕ) (m : MmapState)
    → IsOrdered m
    → IsOrdered (truncate_vma_end start new_end m).0
unfolding truncate_vma_end bump_generation
truncate_vma_end-IsOrdered start new_end m h = elim (Option-cases (find_start start m.vmas)) [
  | inl e ↦ rw (e, truncate_vma_end) h
  | inr (v, e) ↦
      rw (e, truncate_vma_end) (ground (arith, set_end-truncate 0 start new_end m.vmas v h e))
]

pub remove_vma_at-IsOrdered :
    (start : ℕ) (m : MmapState) → IsOrdered m → IsOrdered (remove_vma_at start m).0
unfolding remove_vma_at bump_generation
remove_vma_at-IsOrdered start m h = elim (Option-cases (find_start start m.vmas)) [
  | inl e ↦ rw (e, remove_vma_at) h
  | inr (v, e) ↦ rw (e, remove_vma_at) (remove_start-Above 0 start m.vmas h)
]

pub drain_vmas_where-IsOrdered :
    (pred : Vma → Bool) (m : MmapState) → IsOrdered m → IsOrdered (drain_vmas_where pred m).0
unfolding drain_vmas_where bump_generation
drain_vmas_where-IsOrdered pred m h =
    if_cases {A = MmapState} (λ s. IsOrdered s) (is_empty (keep_where pred m.vmas))
      (λ _. keep_where-Above 0 _ m.vmas h) (λ _. keep_where-Above 0 _ m.vmas h)

pub release_reservation-IsOrdered :
    (lo hi : ℕ) (m : MmapState) → IsOrdered m → IsOrdered (release_reservation lo hi m)
unfolding release_reservation bump_generation
release_reservation-IsOrdered lo hi m h = keep_where-Above 0 _ m.vmas h
