-- ===== src/Mm/FrameAlloc/Regions/Survives.antt =====
-- frame/src/mm/frame_alloc.rs: which addresses survive `subtract_reserved`.
use cyphera_kernel.Prelude.{
  ℕ, max, ◌≡◌, refl, Bool, false, not, ◌&&◌, ◌||◌, List, [], ◌∷◌, ◌++◌, ltb, leb, if◌then◌else◌,
  arith, Bool-cases, inl, inr,
}
use cyphera_kernel.Mm.FrameAlloc.Regions.{
  MemoryRegion, cut_range, cut_ranges, cut_holes, subtract_reserved, reserved_low_end,
}

abbrev pub in_range : ℕ → ℕ × ℕ → Bool
in_range a (s, e) = leb s a && ltb a e

-- whether one of the ranges holds the address
unfoldable pub covers : ℕ → List (ℕ × ℕ) → Bool
covers a [] = false
covers a (r ∷ ranges) = in_range a r || covers a ranges

covers-append : (a : ℕ) (xs ys : List (ℕ × ℕ)) → covers a (xs ++ ys) ≡ (covers a xs || covers a ys)
unfolding covers
covers-append a [] ys = refl
covers-append a (x ∷ xs) ys = ground (arith, covers-append a xs ys)

covers-cut_range :
    (a rs re : ℕ) (r : ℕ × ℕ)
    → covers a (cut_range rs re r) ≡ (in_range a r && not (in_range a (rs, re)))
unfolding covers cut_range
covers-cut_range a rs re (s, e) = ground arith

covers-cut_ranges :
    (a rs re : ℕ) (ranges : List (ℕ × ℕ))
    → covers a (cut_ranges rs re ranges) ≡ (covers a ranges && not (in_range a (rs, re)))
unfolding covers cut_ranges
covers-cut_ranges a rs re [] = refl
covers-cut_ranges a rs re (r ∷ ranges) = ground (
  arith,
  covers-append a (cut_range rs re r) (cut_ranges rs re ranges),
  covers-cut_range a rs re r,
  covers-cut_ranges a rs re ranges,
)

covers-cut_holes :
    (a : ℕ) (holes ranges : List (ℕ × ℕ))
    → covers a (cut_holes holes ranges) ≡ (covers a ranges && not (covers a holes))
unfolding covers cut_holes
covers-cut_holes a [] ranges = ground arith
covers-cut_holes a ((rs, re) ∷ holes) ranges = elim (Bool-cases (leb re rs)) [
  | inl empty ↦ rw empty (ground (arith, covers-cut_holes a holes ranges))
  | inr hole ↦ rw hole (
      ground (
        arith,
        covers-cut_holes a holes (cut_ranges rs re ranges),
        covers-cut_ranges a rs re ranges,
      ))
]

-- An address survives exactly where the region holds it, it is not below 1 MiB, and no reserved
-- range holds it.
pub subtract_reserved-covers :
    (region : MemoryRegion) (holes : List (ℕ × ℕ)) (a : ℕ)
    → covers a (subtract_reserved region holes)
      ≡ (in_range a (region.start, region.end) && leb reserved_low_end a && not (covers a holes))
unfolding subtract_reserved covers
subtract_reserved-covers region holes a =
    let r0 = max region.start reserved_low_end in
    ground
      (arith, covers-cut_holes a holes (if ltb r0 region.end then (r0, region.end) ∷ [] else []))
