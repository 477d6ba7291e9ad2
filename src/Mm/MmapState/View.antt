-- ===== src/Mm/MmapState/View.antt =====
-- kernel/src/process_model/memory_map.rs: the ranges as a map from addresses, and what each operation
-- does to it.
use cyphera_kernel.Prelude.{
  ℕ, ◌<◌, ◌≡◌, refl, Bool, ◌&&◌, List, [], ◌∷◌, ◌++◌, Option, none, some, arith, ltb, leb, All,
  if◌then◌else◌,
}
use cyphera_kernel.Mm.Vma.{Vma, Attached, cut, holds, Page, page_at, page_at-cut, page_at-end}
use cyphera_kernel.Mm.MmapState.Cases.{unmap_one_cases}
use cyphera_kernel.Mm.MmapState.Order.{Above, sort_by_start-Above, unmap_loop-Above}
use cyphera_kernel.Mm.MmapState.Checked.{IsBackedBelow, unmap_range_checked, unmap_fits_lem}
use cyphera_kernel.Mm.MmapState.{MmapState, unmap_one, unmap_loop, unmap_range, bump_generation}

-- what the ranges say of an address
abbrev pub page : List Vma → ℕ → Option Page
page [] a = none
page (v ∷ vs) a = if holds v a then some (page_at v a) else page vs a

abbrev pub within : ℕ → ℕ → ℕ → Bool
within lo hi a = leb lo a && ltb a hi

-- nothing is mapped below the first range
pub page-below : (lo a : ℕ) (vs : List Vma) → Above lo vs → a < lo → page vs a ≡ none
page-below lo a [] h k = refl
page-below lo a (v ∷ vs) (p, q, h) k = ground (arith, page-below v.end a vs h)

module _ (lo hi a : ℕ) (proper : lo < hi) where
  unmap_one-page :
      (v : Vma) (vs rest : List Vma)
      → Above v.end vs
      → v.start < v.end
      → page rest a ≡ (if within lo hi a then none else page vs a)
      → page ((unmap_one lo hi v).kept ++ rest) a
        ≡ (if within lo hi a then none else page (v ∷ vs) a)
  unfolding cut
  unmap_one-page v vs rest h q ih =
      unmap_one_cases lo hi v
        (λ c. page (c.kept ++ rest) a ≡ (if within lo hi a then none else page (v ∷ vs) a))
        (λ out. ground (arith, page-below v.end a vs h))
        (λ p r. ground (arith, page-below v.end a vs h))
        (λ p r.
          ground (arith, page-below v.end a vs h, page_at-cut v hi v.end a, page_at-end v lo a))
        (λ p r t. ground (arith, page-below v.end a vs h, page_at-end v lo a))
        (λ p r t. ground (arith, page-below v.end a vs h, page_at-cut v hi v.end a))

  unmap_loop-page :
      (low : ℕ) (vs : List Vma) (counts : Attached)
      → Above low vs
      → page (unmap_loop lo hi vs counts).kept a ≡ (if within lo hi a then none else page vs a)
  unfolding unmap_loop
  unmap_loop-page low [] counts h = ground arith
  unmap_loop-page low (v ∷ vs) counts (p, q, h) =
      unmap_one-page v vs _ h q (unmap_loop-page v.end vs _ h)

-- Where the ranges are in order, and what each maps ends below 2^64 in its file or segment, taking a
-- window that is not empty out of them returns, without a panic; it unmaps exactly the addresses of
-- the window, and every other address keeps what is mapped at it.
pub unmap_range-page :
    (lo hi : ℕ) (m : MmapState) (counts : Attached) (a : ℕ)
    → Above 0 m.vmas
    → All IsBackedBelow m.vmas
    → lo < hi
    → (unmap_range_checked lo hi m counts ≡ some (unmap_range lo hi m counts))
      × (page (unmap_range lo hi m counts).state.vmas a
          ≡ (if within lo hi a then none else page m.vmas a))
unfolding unmap_range_checked unmap_range bump_generation
unmap_range-page lo hi m counts a h backed proper = (
  rw (unmap_fits_lem lo hi m.vmas backed),
  rw (sort_by_start-Above 0 _ (unmap_loop-Above lo hi proper 0 m.vmas counts h))
      (unmap_loop-page lo hi a proper 0 m.vmas counts h),
)

module _ (lo hi a : ℕ) (proper : lo < hi) where
  unmap_one-removed :
      (v : Vma) (vs rest : List Vma)
      → Above v.end vs
      → v.start < v.end
      → page rest a ≡ (if within lo hi a then page vs a else none)
      → page ((unmap_one lo hi v).removed ++ rest) a
        ≡ (if within lo hi a then page (v ∷ vs) a else none)
  unfolding cut
  unmap_one-removed v vs rest h q ih =
      unmap_one_cases lo hi v
        (λ c. page (c.removed ++ rest) a ≡ (if within lo hi a then page (v ∷ vs) a else none))
        (λ out. ground (arith, page-below v.end a vs h))
        (λ p r. ground (arith, page-below v.end a vs h))
        (λ p r. ground (arith, page-below v.end a vs h, page_at-cut v lo hi a))
        (λ p r t. ground (arith, page-below v.end a vs h, page_at-cut v lo v.end a))
        (λ p r t. ground (arith, page-below v.end a vs h, page_at-end v hi a))

  unmap_loop-removed :
      (low : ℕ) (vs : List Vma) (counts : Attached)
      → Above low vs
      → page (unmap_loop lo hi vs counts).removed a ≡ (if within lo hi a then page vs a else none)
  unfolding unmap_loop
  unmap_loop-removed low [] counts h = ground arith
  unmap_loop-removed low (v ∷ vs) counts (p, q, h) =
      unmap_one-removed v vs _ h q (unmap_loop-removed v.end vs _ h)

-- What is handed back to the caller is exactly what the window held.
pub unmap_range-removed :
    (lo hi : ℕ) (m : MmapState) (counts : Attached) (a : ℕ)
    → Above 0 m.vmas
    → lo < hi
    → page (unmap_range lo hi m counts).removed a ≡ (if within lo hi a then page m.vmas a else none)
unfolding unmap_range
unmap_range-removed lo hi m counts a h proper = unmap_loop-removed lo hi a proper 0 m.vmas counts h
