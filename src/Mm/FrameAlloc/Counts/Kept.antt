-- ===== src/Mm/FrameAlloc/Counts/Kept.antt =====
-- frame/src/mm/frame_alloc.rs: each operation on a held frame keeps the counts true.
use cyphera_kernel.Prelude.{
  ℕ, ◌+◌, ◌-◌, ◌<◌, ◌≡◌, ◌≢◌, refl, subst, sym, if_cases, true, ◌||◌, ◌==◌, arith, length, some,
  Bool-cases, inl, inr, lt_of_get_elem?,
}
use cyphera_kernel.Mm.FrameAlloc.Buddy.{Buddy, IsBuddy, within}
use cyphera_kernel.Mm.FrameAlloc.Counts.{
  FrameState, frame_ref_inc, free_frame, free_contiguous, give_back, release_of, u16_max, inc_slot,
  free_as, free_head, free_block, Release, ignored, shared, last,
}
use cyphera_kernel.Mm.FrameAlloc.Counts.Owned.{
  IsCounted, with_held, IsCounted-with, IsCounted-as, stuck_as, slot_found,
}

pub release_of_cases :
    (P : Release → Type 0) (cur : ℕ)
    → (cur ≡ 0 → P ignored)
    → (cur ≡ u16_max → P ignored)
    → (cur ≡ 1 → P last)
    → (1 < cur → cur ≢ u16_max → P (shared (cur - 1)))
    → P (release_of (some cur))
unfolding release_of
release_of_cases P cur zero_case stuck one more =
    if_cases P (cur == 0 || cur == u16_max)
      (λ e. elim (Bool-cases (cur == 0)) [
        | inl z ↦ zero_case (ground arith)
        | inr z ↦ stuck (ground arith)
      ])
      (λ e.
        if_cases P (cur == 1) (λ l. one (ground arith)) (λ l. more (ground arith) (ground arith)))

module _ {B : Type 0} (buddy : Buddy B) (laws : IsBuddy buddy) where
  -- A further reference to a frame that is held.
  pub frame_ref_inc-IsCounted :
      (s : FrameState B) (frame : ℕ) (held : ℕ → ℕ)
      → 0 < held frame
      → IsCounted buddy laws s held
      → IsCounted buddy laws (frame_ref_inc buddy frame s) (with_held frame (held frame + 1) held)
  unfolding frame_ref_inc inc_slot
  frame_ref_inc-IsCounted s frame held p h =
      let (cur, found, slot, out) = slot_found buddy laws s frame held h p in
      let P : FrameState B → Type 0 =
        λ x. IsCounted buddy laws x (with_held frame (held frame + 1) held) in
      subst (λ o. P (inc_slot buddy frame s o)) (sym slot)
        (if_cases P (cur == u16_max)
          (λ e.
            stuck_as buddy laws s frame (held frame + 1) held h (ground arith) (λ q. ground arith))
          (λ e.
            IsCounted-as buddy laws s frame (cur + 1) (held frame + 1) cur held h found
              (ground (arith, h.counted frame cur)) out))

  -- A reference to a frame given up.
  pub free_frame-IsCounted :
      (s : FrameState B) (frame : ℕ) (held : ℕ → ℕ)
      → 0 < held frame
      → IsCounted buddy laws s held
      → IsCounted buddy laws (free_frame buddy frame s) (with_held frame (held frame - 1) held)
  unfolding free_frame free_as give_back
  free_frame-IsCounted s frame held p h =
      let (cur, found, slot, out) = slot_found buddy laws s frame held h p in
      let P : FrameState B → Type 0 =
        λ x. IsCounted buddy laws x (with_held frame (held frame - 1) held) in
      subst (λ o. P (free_as buddy frame s (release_of o))) (sym slot)
        (release_of_cases (λ r. P (free_as buddy frame s r)) cur
          (λ e. absurd (ground (arith, h.counted frame cur found)))
          (λ e.
            stuck_as buddy laws s frame (held frame - 1) held h (ground arith) (λ q. ground arith))
          (λ e.
            IsCounted-with buddy laws s frame 0 (held frame - 1) cur _ _ held h found
              (ground (arith, h.counted frame cur))
              (λ f q. ground (
                arith,
                h.covered f,
                h.unheld f,
                h.counted frame cur,
                lt_of_get_elem? h.table frame found,
                laws.block_one,
                laws.dealloc_lem frame 1 s.frames f,
              )))
          (λ l ne.
            IsCounted-as buddy laws s frame (cur - 1) (held frame - 1) cur held h found
              (ground (arith, h.counted frame cur)) out))

  -- The last reference to the head of a block given up, the rest of which nobody holds.
  pub free_contiguous-IsCounted :
      (s : FrameState B) (frame count : ℕ) (held : ℕ → ℕ) (h : IsCounted buddy laws s held)
      → held frame ≡ 1
      → ((f : ℕ)
          → within frame (laws.block count) f ≡ true
          → (f < length h.table) × (f ≢ frame → held f ≡ 0))
      → IsCounted buddy laws (free_contiguous buddy frame count s) (with_held frame 0 held)
  unfolding free_contiguous free_head free_block give_back
  free_contiguous-IsCounted s frame count held h one block =
      let (cur, found, slot, out) = slot_found buddy laws s frame held h (omega arith) in
      let P : FrameState B → Type 0 = λ x. IsCounted buddy laws x (with_held frame 0 held) in
      subst (λ o. P (free_head buddy frame count s o)) (sym slot)
        (if_cases P (cur == u16_max || cur == 0)
          (λ e.
            stuck_as buddy laws s frame 0 held h (ground (arith, h.counted frame cur found))
              (λ q. refl))
          (λ e.
            IsCounted-with buddy laws s frame 0 0 cur _ _ held h found (omega arith, λ _. refl)
              (λ f q. ground (
                arith,
                h.covered f,
                h.unheld f,
                block f,
                laws.dealloc_lem frame count s.frames f,
              ))))
