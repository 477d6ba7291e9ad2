-- ===== src/Mm/FrameAlloc/Counts/Held.antt =====
-- frame/src/mm/frame_alloc.rs: what holders of frames can count on.
use cyphera_kernel.Prelude.{
  ℕ, ◌<◌, ◌≡◌, subst, sym, false, not, ◌&&◌, ◌==◌, arith, Option, Option-cases, inl, inr, some,
  get_elem?-lt, ◌⊎◌, length,
}
use cyphera_kernel.Mm.FrameAlloc.Buddy.{Buddy, IsBuddy}
use cyphera_kernel.Mm.FrameAlloc.Counts.{
  FrameState, refcount_slot, slot_of, take_block, alloc_frame, frame_ref_count, count_of,
  free_frame, free_as, release_of, give_back, u16_max,
}
use cyphera_kernel.Mm.FrameAlloc.Counts.Owned.{IsCounted, slot_found, taken-IsCounted}
use cyphera_kernel.Mm.FrameAlloc.Counts.Kept.{release_of_cases}
use cyphera_kernel.Mm.FrameAlloc.Counts.Reach.{Reach, reachable-IsCounted}

module _ {B : Type 0} (buddy : Buddy B) (laws : IsBuddy buddy) where
  ref_count :
      (s : FrameState B) (held : ℕ → ℕ) (h : IsCounted buddy laws s held) (f : ℕ)
      → f < length h.table
      → (frame_ref_count buddy f s ≡ held f) ⊎ (frame_ref_count buddy f s ≡ u16_max)
  unfolding frame_ref_count refcount_slot slot_of
  ref_count s held h f l =
      let (cur, found) = get_elem?-lt h.table f l in
      subst (λ t. (count_of (slot_of t f) ≡ held f) ⊎ (count_of (slot_of t f) ≡ u16_max))
        (sym h.is_table)
        (subst (λ o. (count_of o ≡ held f) ⊎ (count_of o ≡ u16_max)) (sym found)
          (ground (arith, h.counted f cur found)))

  -- A frame that somebody holds is not free, and its count is the number of references to it,
  -- unless it sticks at 65535.
  pub reachable_held :
      {s : FrameState B} {held : ℕ → ℕ}
      → Reach buddy laws s held
      → (f : ℕ) → 0 < held f
      → (laws.is_free s.frames f ≡ false)
        × ((frame_ref_count buddy f s ≡ held f) ⊎ (frame_ref_count buddy f s ≡ u16_max))
  reachable_held {s} {held} r f p =
      let h = reachable-IsCounted buddy laws r in
      (ground (arith, h.unheld f), ref_count s held h f (h.tracked f p))

  -- A frame that `alloc_frame` hands out is one that nobody holds; it is not free any more.
  pub alloc_frame-unheld :
      {s s' : FrameState B} {held : ℕ → ℕ} {f : ℕ}
      → Reach buddy laws s held
      → alloc_frame buddy s ≡ (s', some f)
      → (held f ≡ 0) × (laws.is_free s'.frames f ≡ false)
  unfolding alloc_frame take_block
  alloc_frame-unheld {s} {s'} {held} {f} r e =
      let h = reachable-IsCounted buddy laws r in
      let h' = taken-IsCounted buddy laws 1 1 f s s' held e h in
      (
        elim (Option-cases (buddy.alloc 1 s.frames)) [
          | inl full ↦ absurd (ground arith)
          | inr ((got, frames), found) ↦ ground (
            arith,
            laws.block_pos 1,
            laws.alloc_free 1 got s.frames frames got found,
            h.unheld got,
          )
        ],
        ground (arith, h'.unheld f),
      )

  -- A reference given up frees the frame exactly where it was the last one, and the count does not
  -- stick.
  pub free_frame-is_free :
      {s : FrameState B} {held : ℕ → ℕ}
      → Reach buddy laws s held
      → (f : ℕ) → 0 < held f
      → laws.is_free (free_frame buddy f s).frames f
        ≡ (held f == 1 && not (frame_ref_count buddy f s == u16_max))
  unfolding free_frame free_as give_back frame_ref_count
  free_frame-is_free {s} {held} r f p =
      let h = reachable-IsCounted buddy laws r in
      let (cur, found, slot, out) = slot_found buddy laws s f held h p in
      let P : Option ℕ → Type 0 = λ o.
        laws.is_free (free_as buddy f s (release_of o)).frames f
        ≡ (held f == 1 && not (count_of o == u16_max)) in
      subst P (sym slot) (
        release_of_cases
          (λ t. laws.is_free (free_as buddy f s t).frames f ≡ (held f == 1 && not (cur == u16_max)))
          cur (λ e. absurd (ground (arith, h.counted f cur found))) (λ e. ground arith)
          (λ e.
            ground (arith, h.counted f cur found, laws.block_one, laws.dealloc_lem f 1 s.frames f))
          (λ l ne. ground (arith, h.counted f cur found)))
