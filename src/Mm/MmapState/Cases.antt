-- ===== src/Mm/MmapState/Cases.antt =====
-- kernel/src/process_model/memory_map.rs, the loops of `unmap_range`, `protect_range` and
-- `lock_range`: the five ways in which a range can lie against the window from `lo` to `hi`.
use native.Mathlib.Decide.{dec_lt}
use cyphera_kernel.Prelude.{
  ℕ, ◌≤◌, ◌<◌, min, max, ◌≡◌, ◌⊎◌, le→ltb, lt→ltb, ◌&&◌, ◌||◌, List, [], ◌∷◌, arith, ltb, leb,
  if_cases,
}
use cyphera_kernel.Mm.Vma.{Vma, cut}
use cyphera_kernel.Mm.MmapState.{Cut, unmap_one, change_parts}

module _ (lo hi : ℕ) (v : Vma) where
  pub unmap_one_cases {ℓ} :
      (P : Cut → Type ℓ)
      → ((v.end ≤ lo) ⊎ (hi ≤ v.start) → P (record { kept = v ∷ []; removed = []; extra = 0 }))
      → (lo ≤ v.start → v.end ≤ hi → P (record { kept = []; removed = v ∷ []; extra = 0 }))
      → (v.start < lo
          → hi < v.end
          → P (record {
            kept = record v { end = lo } ∷ cut v hi v.end ∷ [];
            removed = cut v lo hi ∷ [];
            extra = 2;
          }))
      → (v.start < lo
          → lo < v.end
          → v.end ≤ hi
          → P (record {
            kept = record v { end = lo } ∷ [];
            removed = cut v lo v.end ∷ [];
            extra = 1;
          }))
      → (lo ≤ v.start
          → v.start < hi
          → hi < v.end
          → P (record {
            kept = cut v hi v.end ∷ [];
            removed = record v { end = hi } ∷ [];
            extra = 1;
          }))
      → P (unmap_one lo hi v)
  unfolding unmap_one
  unmap_one_cases P outside within around left right =
      if_cases P (leb v.end lo || leb hi v.start) (λ h. outside (ground arith))
        λ out.
          if_cases P (leb lo v.start && leb v.end hi) (λ h. within (ground arith) (ground arith))
            λ part.
              if_cases P (ltb v.start lo && ltb hi v.end)
                (λ h. around (ground arith) (ground arith))
                λ one.
                  if_cases P (ltb v.start lo)
                    (λ h. left (ground arith) (ground arith) (ground arith))
                    (λ h. right (ground arith) (ground arith) (ground arith))

  -- the parts of a range that meets the window
  module _ (change : Vma → Vma) where
    parts_within :
        lo ≤ v.start → v.end ≤ hi → change_parts change lo hi v ≡ change (cut v v.start v.end) ∷ []
    unfolding change_parts
    parts_within p q =
        let e : max v.start lo ≡ v.start = omega arith in
        let e' : min v.end hi ≡ v.end = omega arith in
        rw (e, e', le→ltb v.start v.start (omega arith), le→ltb v.end v.end (omega arith))

    parts_around :
        v.start < lo
        → hi < v.end
        → change_parts change lo hi v
          ≡ record v { end = lo } ∷ change (cut v lo hi) ∷ cut v hi v.end ∷ []
    unfolding change_parts
    parts_around p q =
        let e : max v.start lo ≡ lo = omega arith in
        let e' : min v.end hi ≡ hi = omega arith in
        rw (e, e', lt→ltb v.start lo (omega arith), lt→ltb hi v.end (omega arith))

    parts_left :
        v.start < lo
        → v.end ≤ hi
        → change_parts change lo hi v ≡ record v { end = lo } ∷ change (cut v lo v.end) ∷ []
    unfolding change_parts
    parts_left p q =
        let e : max v.start lo ≡ lo = omega arith in
        let e' : min v.end hi ≡ v.end = omega arith in
        rw (e, e', lt→ltb v.start lo (omega arith), le→ltb v.end v.end (omega arith))

    parts_right :
        lo ≤ v.start
        → hi < v.end
        → change_parts change lo hi v ≡ change (cut v v.start hi) ∷ cut v hi v.end ∷ []
    unfolding change_parts
    parts_right p q =
        let e : max v.start lo ≡ v.start = omega arith in
        let e' : min v.end hi ≡ hi = omega arith in
        rw (e, e', le→ltb v.start v.start (omega arith), lt→ltb hi v.end (omega arith))

    pub change_parts_cases {ℓ} :
        (P : List Vma → Type ℓ)
        → (lo ≤ v.start → v.end ≤ hi → P (change (cut v v.start v.end) ∷ []))
        → (v.start < lo
            → hi < v.end
            → P (record v { end = lo } ∷ change (cut v lo hi) ∷ cut v hi v.end ∷ []))
        → (v.start < lo → v.end ≤ hi → P (record v { end = lo } ∷ change (cut v lo v.end) ∷ []))
        → (lo ≤ v.start → hi < v.end → P (change (cut v v.start hi) ∷ cut v hi v.end ∷ []))
        → P (change_parts change lo hi v)
    change_parts_cases P within around left right = elim (dec_lt v.start lo) [
      | yes p ↦ elim (dec_lt hi v.end) [
        | yes q ↦ rw (parts_around p q) (around p q)
        | no q ↦ rw (parts_left p (omega arith)) (left p (omega arith))
      ]
      | no p ↦ elim (dec_lt hi v.end) [
        | yes q ↦ rw (parts_right (omega arith) q) (right (omega arith) q)
        | no q ↦ rw (parts_within (omega arith) (omega arith)) (within (omega arith) (omega arith))
      ]
    ]
