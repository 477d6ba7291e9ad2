-- ===== src/Mm/MmapState/Order.antt =====
-- kernel/src/process_model/memory_map.rs: the ranges stay in order and apart.
use cyphera_kernel.Prelude.{
  ℕ, ◌≤◌, ◌<◌, ◌≡◌, refl, false, ◌||◌, List, [], ◌∷◌, ◌++◌, arith, leb, if_cases, ◌∙◌, ap,
}
use cyphera_kernel.Mm.Vma.{Vma, Attached, attach, cut}
use cyphera_kernel.Mm.MmapState.Cases.{unmap_one_cases, change_parts_cases}
use cyphera_kernel.Mm.MmapState.{
  meets, insert_sorted, sort_by_start, Change, unmap_one, unmap_loop, change_parts, change_loop,
}

-- The ranges are not empty, do not overlap and stand in order, none below `lo`.
abbrev pub Above : ℕ → List Vma → Type 0
Above lo [] = Unit
Above lo (v ∷ vs) = (lo ≤ v.start) × (v.start < v.end) × Above v.end vs

pub Above-weaken : (lo lo' : ℕ) (vs : List Vma) → lo' ≤ lo → Above lo vs → Above lo' vs
Above-weaken lo lo' [] h w = tt
Above-weaken lo lo' (v ∷ vs) h (a, b, c) = (omega arith, b, c)

insert_sorted-head :
    (v : Vma) (vs : List Vma) → Above v.end vs → v.start < v.end → insert_sorted v vs ≡ v ∷ vs
unfolding insert_sorted
insert_sorted-head v [] h k = refl
insert_sorted-head v (w ∷ ws) h k = ground arith

-- The sort has nothing to do on ranges in order.
pub sort_by_start-Above : (lo : ℕ) (vs : List Vma) → Above lo vs → sort_by_start vs ≡ vs
unfolding sort_by_start
sort_by_start-Above lo [] h = refl
sort_by_start-Above lo (v ∷ vs) (a, b, c) =
    ap (insert_sorted v) (sort_by_start-Above v.end vs c) ∙ insert_sorted-head v vs c b

-- A range put where nothing overlaps it keeps the order.
pub insert_sorted-Above :
    (lo : ℕ) (v : Vma) (vs : List Vma)
    → Above lo vs
    → lo ≤ v.start
    → v.start < v.end
    → meets v.start v.end vs ≡ false
    → Above lo (insert_sorted v vs)
unfolding insert_sorted meets
insert_sorted-Above lo v [] h p q free = (p, q, tt)
insert_sorted-Above lo v (w ∷ ws) h p q free =
    ground (arith, insert_sorted-Above w.end v ws, Above-weaken w.end v.end ws)

module _ (lo hi : ℕ) (proper : lo < hi) where
  unmap_one-Above :
      (low : ℕ) (v : Vma) (rest : List Vma)
      → low ≤ v.start
      → v.start < v.end
      → Above v.end rest
      → Above low ((unmap_one lo hi v).kept ++ rest)
  unfolding cut
  unmap_one-Above low v rest p q h =
      unmap_one_cases lo hi v (λ c. Above low (c.kept ++ rest)) (λ _. (p, q, h))
        (λ _ _. Above-weaken v.end low rest (omega arith) h) (λ a b. (p, a, (omega arith, b, h)))
        (λ a b c. (p, a, Above-weaken v.end lo rest (omega arith) h)) (λ a b c. (omega arith, c, h))

  pub unmap_loop-Above :
      (low : ℕ) (vs : List Vma) (counts : Attached)
      → Above low vs
      → Above low (unmap_loop lo hi vs counts).kept
  unfolding unmap_loop
  unmap_loop-Above low [] counts h = tt
  unmap_loop-Above low (v ∷ vs) counts (p, q, h) =
      unmap_one-Above low v _ p q
        (unmap_loop-Above v.end vs (attach v.backing (unmap_one lo hi v).extra counts) h)

  module _ (change : Vma → Vma)
      (same : (w : Vma) → ((change w).start ≡ w.start) × ((change w).end ≡ w.end)) where
    -- what is behind a changed part
    changed-Above :
        (low : ℕ) (w : Vma) (rest : List Vma)
        → low ≤ w.start
        → w.start < w.end
        → Above w.end rest
        → Above low (change w ∷ rest)
    changed-Above low w rest p q h = rw (same w).0 (rw (same w).1 (p, q, h))

    change_parts-Above :
        (low : ℕ) (v : Vma) (rest : List Vma)
        → low ≤ v.start
        → v.start < v.end
        → lo < v.end
        → v.start < hi
        → Above v.end rest
        → Above low (change_parts change lo hi v ++ rest)
    unfolding cut
    change_parts-Above low v rest p q in_lo in_hi h =
        change_parts_cases lo hi v change (λ vs. Above low (vs ++ rest))
          (λ a b. changed-Above low (cut v v.start v.end) rest p q h)
          (λ a b. (
            p,
            a,
            changed-Above lo (cut v lo hi) (cut v hi v.end ∷ rest) (omega arith) proper
                (omega arith, b, h),
          ))
          (λ a b. (p, a, changed-Above lo (cut v lo v.end) rest (omega arith) in_lo h))
          (λ a b.
            changed-Above low (cut v v.start hi) (cut v hi v.end ∷ rest) p in_hi
              (omega arith, b, h))

    pub change_loop-Above :
        (low covered_to : ℕ) (vs : List Vma) (counts : Attached)
        → Above low vs
        → Above low (change_loop change lo hi covered_to vs counts).vmas
    unfolding change_loop
    change_loop-Above low covered_to [] counts h = tt
    change_loop-Above low covered_to (v ∷ vs) counts (p, q, h) =
        if_cases {A = Change} (λ c. Above low c.vmas) (leb v.end lo || leb hi v.start)
          (λ out. (p, q, change_loop-Above v.end covered_to vs counts h))
          (λ meets.
            change_parts-Above low v _ p q (ground arith) (ground arith)
              (change_loop-Above v.end _ vs _ h))
