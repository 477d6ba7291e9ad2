-- ===== src/Mm/MmapState/Grow.antt =====
-- kernel/src/process_model/memory_map.rs, `insert`, `extend_vma_end` and `truncate_vma_end`: what they
-- do to the map from addresses.
use cyphera_kernel.Prelude.{
  ℕ, ◌≤◌, ◌<◌, ◌≡◌, refl, ◌≢◌, true, false, List, [], ◌∷◌, none, some, arith, if◌then◌else◌,
  Option-cases, inl, inr,
}
use cyphera_kernel.Mm.Vma.{Vma, holds, page_at, page_at-end}
use cyphera_kernel.Mm.MmapState.Order.{Above}
use cyphera_kernel.Mm.MmapState.View.{page, within, page-below}
use cyphera_kernel.Mm.MmapState.Steps.{IsOrdered}
use cyphera_kernel.Mm.MmapState.{
  MmapState, find_start, set_end, meets, overlaps, insert_sorted, bump_generation, bump_last_end,
  extend_vma_end, insert, containing, find_containing,
}

-- nothing is mapped where no range meets the window
page-free :
    (lo hi a : ℕ) (vs : List Vma)
    → meets lo hi vs ≡ false
    → within lo hi a ≡ true
    → page vs a ≡ none
unfolding meets
page-free lo hi a [] free h = refl
page-free lo hi a (v ∷ vs) free h = ground (arith, page-free lo hi a vs)

insert_sorted-page :
    (v : Vma) (vs : List Vma) (a : ℕ)
    → meets v.start v.end vs ≡ false
    → page (insert_sorted v vs) a ≡ (if holds v a then some (page_at v a) else page vs a)
unfolding insert_sorted meets
insert_sorted-page v [] a free = refl
insert_sorted-page v (w ∷ ws) a free = ground (arith, insert_sorted-page v ws a)

-- A range put where nothing overlaps it is found at its addresses, and nothing else changes.
pub insert-page :
    (v : Vma) (m : MmapState) (a : ℕ)
    → overlaps v.start v.end m ≡ false
    → page (insert v m).vmas a ≡ (if holds v a then some (page_at v a) else page m.vmas a)
unfolding insert overlaps bump_generation
insert-page v m a free = insert_sorted-page v m.vmas a free

containing-page :
    (a : ℕ) (vs : List Vma)
    → page vs a ≡ (elim (containing a vs) [ none ↦ none | some v ↦ some (page_at v a) ])
unfolding containing
containing-page a [] = refl
containing-page a (v ∷ vs) = ground (arith, containing-page a vs)

-- `find_containing` finds a range at an address exactly when something is mapped there, and the range
-- that it finds says what is mapped.
pub find_containing-page :
    (a : ℕ) (m : MmapState)
    → page m.vmas a ≡ (elim (find_containing a m) [ none ↦ none | some v ↦ some (page_at v a) ])
unfolding find_containing
find_containing-page a m = containing-page a m.vmas

set_end-page :
    (low start new_end a : ℕ) (vs : List Vma) (v : Vma)
    → Above low vs
    → find_start start vs ≡ some v
    → v.end ≤ new_end
    → meets v.end new_end vs ≡ false
    → page (set_end start new_end vs) a
      ≡ (if within v.end new_end a then some (page_at v a) else page vs a)
unfolding find_start set_end meets
set_end-page low start new_end a [] v h e k free = absurd (ground arith)
set_end-page low start new_end a (w ∷ ws) v (p, q, h) e k free = ground (
  arith,
  set_end-page w.end start new_end a ws v h,
  page_at-end w new_end a,
  page-below w.end a ws h,
)

-- what a success of `extend_vma_end` says
extend_parts :
    (start new_end : ℕ) (m m' : MmapState) (v : Vma)
    → find_start start m.vmas ≡ some v
    → extend_vma_end start new_end m ≡ (m', true)
    → (m'.vmas ≡ set_end start new_end m.vmas)
      × (v.end < new_end)
      × (new_end ≤ m.arena_hi)
      × (meets v.end new_end m.vmas ≡ false)
unfolding extend_vma_end overlaps bump_generation bump_last_end
extend_parts start new_end m m' v q e = ground arith

extend_none :
    (start new_end : ℕ) (m m' : MmapState)
    → find_start start m.vmas ≡ none
    → extend_vma_end start new_end m ≢ (m', true)
unfolding extend_vma_end
extend_none start new_end m m' q e = ground arith

-- An extension that reports success found the first range with that start; the new end lies above its
-- end and within the arena, the range is mapped on up to the new end, and nothing else changes.
pub extend_vma_end-page :
    (start new_end a : ℕ) (m m' : MmapState)
    → IsOrdered m
    → extend_vma_end start new_end m ≡ (m', true)
    → (v : Vma) × (find_start start m.vmas ≡ some v)
      × (v.end < new_end)
      × (new_end ≤ m.arena_hi)
      × (page m'.vmas a ≡ (if within v.end new_end a then some (page_at v a) else page m.vmas a))
extend_vma_end-page start new_end a m m' h e = elim (Option-cases (find_start start m.vmas)) [
  | inl q ↦ absurd (extend_none start new_end m m' q e)
  | inr (v, q) ↦
      let (put, grows, fits, free) = extend_parts start new_end m m' v q e in
      (v, q, grows, fits, rw put (set_end-page 0 start new_end a m.vmas v h q (omega arith) free))
]

-- An extension that reports failure changes nothing.
pub extend_vma_end-false :
    (start new_end : ℕ) (m m' : MmapState) → extend_vma_end start new_end m ≡ (m', false) → m' ≡ m
unfolding extend_vma_end
extend_vma_end-false start new_end m m' e = ground arith
