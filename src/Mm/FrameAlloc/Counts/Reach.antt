-- ===== src/Mm/FrameAlloc/Counts/Reach.antt =====
-- frame/src/mm/frame_alloc.rs: the states that holders of frames reach. A holder takes a further
-- reference, or gives one up, only for a frame that it holds, and gives a block back only while
-- nobody holds a frame of it but the head.
use cyphera_kernel.Prelude.{
  ℕ, zero, suc, ◌+◌, ◌-◌, ◌*◌, ◌/◌, ◌^◌, min, ◌<◌, ◌≡◌, refl, subst, sym, if_cases, Bool, true,
  false, ◌&&◌, ltb, leb, ◌==◌, arith, length, some, none, Option-cases, Bool-cases, inl, inr, ◌⊎◌,
  lt_of_get_elem?, replicate, All-replicate, All-get_elem?,
}
use mathlib.Core.Option.{some-injective}
use cyphera_kernel.Mm.FrameAlloc.Buddy.{Buddy, IsBuddy, within}
use cyphera_kernel.Mm.FrameAlloc.Regions.{align_up, align_down}
use cyphera_kernel.Mm.FrameAlloc.Counts.{
  FrameState, refcount_slot, slot_of, take_block, alloc_frame, alloc_contiguous, frame_ref_inc,
  free_frame, free_contiguous, init_refcounts, build_table, reclaim_module, next_power_of_two,
}
use cyphera_kernel.Mm.FrameAlloc.Counts.Owned.{IsCounted, with_held, taken-IsCounted}
use cyphera_kernel.Mm.FrameAlloc.Counts.Kept.{
  frame_ref_inc-IsCounted, free_frame-IsCounted, free_contiguous-IsCounted,
}

length-replicate : (n a : ℕ) → length (replicate n a) ≡ n
length-replicate zero a = refl
length-replicate (suc n) a = omega (arith, length-replicate n a)

module _ {B : Type 0} (buddy : Buddy B) (laws : IsBuddy buddy) where
  -- the frames that `reclaim_module` adds
  abbrev pub is_reclaimed : ℕ → ℕ → ℕ → Bool
  is_reclaimed paddr size f =
      leb (align_up paddr / 4096) f && ltb f (align_down (min (paddr + size) (2 ^ 64 - 1)) / 4096)

  -- The block that a holder gives back, or the memory of a module, has counts, and no references.
  abbrev pub Unheld : FrameState B → (ℕ → ℕ) → ℕ → Type 0
  Unheld s held f = ((c : ℕ) × (refcount_slot buddy f s ≡ some c)) × (held f ≡ 0)

  pub data Step (s : FrameState B) (held : ℕ → ℕ) (s' : FrameState B) (held' : ℕ → ℕ) : Type 0 where
    allocated :
        (f : ℕ)
        → alloc_frame buddy s ≡ (s', some f)
        → held' ≡ with_held f 1 held
        → Step s held s' held'
    allocated_block :
        (count f : ℕ)
        → alloc_contiguous buddy count s ≡ (s', some f)
        → held' ≡ with_held f 1 held
        → Step s held s' held'
    referenced :
        (f : ℕ)
        → 0 < held f
        → s' ≡ frame_ref_inc buddy f s
        → held' ≡ with_held f (held f + 1) held
        → Step s held s' held'
    freed :
        (f : ℕ)
        → 0 < held f
        → s' ≡ free_frame buddy f s
        → held' ≡ with_held f (held f - 1) held
        → Step s held s' held'
    freed_block :
        (f count : ℕ)
        → held f ≡ 1
        → ((g : ℕ) → within f (laws.block count) g ≡ true → (g ≡ f) ⊎ Unheld s held g)
        → s' ≡ free_contiguous buddy f count s
        → held' ≡ with_held f 0 held
        → Step s held s' held'
    reclaimed :
        (paddr size : ℕ)
        → ((g : ℕ) → is_reclaimed paddr size g ≡ true → Unheld s held g)
        → s' ≡ (reclaim_module buddy paddr size s).0
        → held' ≡ held
        → Step s held s' held'

  -- The table is built over memory whose free frames all have a number below `len`.
  pub record IsStart (s' : FrameState B) : Type 0 where
    pub before : FrameState B
    pub len : ℕ
    pub some_memory : 0 < len
    pub numbered : (f : ℕ) → laws.is_free before.frames f ≡ true → f < len
    pub no_table : before.refcounts ≡ none
    pub built : init_refcounts buddy len before ≡ some s'

  pub data Reach : FrameState B → (ℕ → ℕ) → Type 0 where
    begin : {s : FrameState B} {held : ℕ → ℕ} → IsStart s → held ≡ (λ _. 0) → Reach s held
    then_step :
        {s s' : FrameState B} {held held' : ℕ → ℕ}
        → Reach s held
        → Step s held s' held'
        → Reach s' held'

  zeros-IsCounted :
      (s : FrameState B) (len : ℕ)
      → ((f : ℕ) → laws.is_free s.frames f ≡ true → f < len)
      → IsCounted buddy laws (record s { refcounts = some (replicate len 0) }) (λ _. 0)
  zeros-IsCounted s len numbered = record {
    table = replicate len 0;
    is_table = refl;
    covered = λ f q. ground (arith, numbered f, length-replicate len 0);
    unheld = λ f q. refl;
    tracked = λ f q. absurd (omega arith);
    counted = λ f c q.
        let zero_count : c ≡ 0 =
          All-get_elem? (λ (v : ℕ). v ≡ 0) (replicate len 0) f
            (All-replicate (λ (v : ℕ). v ≡ 0) len refl) q in
        (omega arith, λ _. zero_count);
  }

  build_table-IsCounted :
      (count in_use len : ℕ) (s s' : FrameState B)
      → ((f : ℕ) → laws.is_free s.frames f ≡ true → f < len)
      → build_table buddy len (take_block buddy in_use s (buddy.alloc count s.frames)) ≡ some s'
      → IsCounted buddy laws s' (λ _. 0)
  unfolding build_table take_block
  build_table-IsCounted count in_use len s s' numbered e =
      elim (Option-cases (buddy.alloc count s.frames)) [
        | inl full ↦ absurd (ground arith)
        | inr ((f, frames), found) ↦
            let built : build_table buddy len (take_block buddy in_use s (some (f, frames)))
                ≡ some s' =
              subst (λ o. build_table buddy len (take_block buddy in_use s o) ≡ some s') found e in
            subst (λ (x : FrameState B). IsCounted buddy laws x (λ _. 0)) (some-injective _ _ built)
              (zeros-IsCounted (take_block buddy in_use s (some (f, frames))).0 len
                (λ g q. ground (arith, numbered g, laws.alloc_lem count f s.frames frames g found)))
      ]

  init_refcounts-IsCounted : (s' : FrameState B) → IsStart s' → IsCounted buddy laws s' (λ _. 0)
  unfolding init_refcounts alloc_contiguous
  init_refcounts-IsCounted s' start =
      let pages = (start.len * 2 + 4095) / 4096 in
      build_table-IsCounted pages (next_power_of_two pages) start.len start.before s' start.numbered
        (let some_len : (start.len == 0) ≡ false = ground (arith, start.some_memory) in
          let some_pages : (pages == 0) ≡ false = ground (arith, start.some_memory) in
          let built = start.built in rw some_len at (rw some_pages at built))

  slot-lt :
      (s : FrameState B) (held : ℕ → ℕ) (h : IsCounted buddy laws s held) (f c : ℕ)
      → refcount_slot buddy f s ≡ some c
      → f < length h.table
  unfolding refcount_slot slot_of
  slot-lt s held h f c e =
      lt_of_get_elem? h.table f (subst (λ o. slot_of o f ≡ some c) h.is_table e)

  reclaim_module-IsCounted :
      (paddr size : ℕ) (s : FrameState B) (held : ℕ → ℕ)
      → ((g : ℕ) → is_reclaimed paddr size g ≡ true → Unheld s held g)
      → IsCounted buddy laws s held
      → IsCounted buddy laws (reclaim_module buddy paddr size s).0 held
  unfolding reclaim_module
  reclaim_module-IsCounted paddr size s held unheld h =
      let start = align_up paddr in
      let end = align_down (min (paddr + size) (2 ^ 64 - 1)) in
      if_cases (λ (r : FrameState B × ℕ). IsCounted buddy laws r.0 held) (leb end start) (λ _. h)
        (λ _. record {
          table = h.table;
          is_table = h.is_table;
          covered = λ f q. elim (Bool-cases (is_reclaimed paddr size f)) [
            | inl new ↦ let ((c, slot), _) = unheld f new in slot-lt s held h f c slot
            | inr old ↦
                ground
                  (arith, h.covered f, laws.add_frame_lem (start / 4096) (end / 4096) s.frames f)
          ];
          unheld = λ f q. elim (Bool-cases (is_reclaimed paddr size f)) [
            | inl new ↦ (unheld f new).1
            | inr old ↦
                ground
                  (arith, h.unheld f, laws.add_frame_lem (start / 4096) (end / 4096) s.frames f)
          ];
          tracked = h.tracked;
          counted = h.counted;
        })

  step-IsCounted :
      {s s' : FrameState B} {held held' : ℕ → ℕ}
      → Step s held s' held'
      → IsCounted buddy laws s held
      → IsCounted buddy laws s' held'
  unfolding alloc_frame alloc_contiguous
  step-IsCounted {s} {s'} {held} (allocated f e r) h =
      subst (IsCounted buddy laws s') (sym r) (taken-IsCounted buddy laws 1 1 f s s' held e h)
  step-IsCounted {s} {s'} {held} (allocated_block count f e r) h =
      subst (IsCounted buddy laws s') (sym r) (elim (Bool-cases (count == 0)) [
        | inl nothing ↦ absurd (ground (arith, e))
        | inr asked ↦
            taken-IsCounted buddy laws count (next_power_of_two count) f s s' held (rw asked at e) h
      ])
  step-IsCounted {s} {s'} {held} (referenced f p e r) h =
      rw (e, r) (frame_ref_inc-IsCounted buddy laws s f held p h)
  step-IsCounted {s} {s'} {held} (freed f p e r) h =
      rw (e, r) (free_frame-IsCounted buddy laws s f held p h)
  step-IsCounted {s} {s'} {held} (freed_block f count one block e r) h =
      rw (e, r)
        (free_contiguous-IsCounted buddy laws s f count held h one (λ g w. elim (block g w) [
          | inl same ↦ (ground (arith, h.tracked f), λ ne. absurd (ne same))
          | inr ((c, slot), none_held) ↦ (slot-lt s held h g c slot, λ _. none_held)
        ]))
  step-IsCounted {s} {s'} {held} (reclaimed paddr size unheld e r) h =
      rw (e, r) (reclaim_module-IsCounted paddr size s held unheld h)

  pub reachable-IsCounted :
      {s : FrameState B} {held : ℕ → ℕ} → Reach s held → IsCounted buddy laws s held
  reachable-IsCounted {s} (begin start e) =
      subst (IsCounted buddy laws s) (sym e) (init_refcounts-IsCounted s start)
  reachable-IsCounted (then_step r step) = step-IsCounted step (reachable-IsCounted r)
