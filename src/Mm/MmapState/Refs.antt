-- ===== src/Mm/MmapState/Refs.antt =====
-- kernel/src/process_model/memory_map.rs: the counts of ranges attached to shared segments.
use cyphera_kernel.Prelude.{
  ℕ, ◌+◌, ◌-◌, ◌*◌, ◌%◌, ◌^◌, min, max, ◌≡◌, refl, Bool, ◌||◌, List, [], ◌∷◌, ◌++◌, arith, ltb, leb,
  ◌==◌, if◌then◌else◌, if_cases, ap, Bool-cases, inl, inr, ◌∙◌,
}
use cyphera_kernel.Mm.Vma.{
  Perms, Vma, VmaBacking, anonymous, file, shm, Attached, attach, cut, shift_backing,
}
use cyphera_kernel.Mm.MmapState.Cases.{unmap_one_cases}
use cyphera_kernel.Mm.MmapState.{
  MmapState, Change, unmap_one, unmap_loop, unmap_range, change_parts, change_loop, sort_by_start,
  insert_sorted, bump_generation, bit, protect_range, lock_range, set_prot, set_locked,
}

-- 1 if the backing is the segment, else 0
pub refers : ℕ → VmaBacking → ℕ
refers s anonymous = 0
refers s (file inode offset) = 0
refers s (shm segment offset) = if s == segment then 1 else 0

-- how many ranges refer to a segment
pub refs : ℕ → List Vma → ℕ
unfolding refers
refs s [] = 0
refs s (v ∷ vs) = refers s v.backing + refs s vs

refers-shift_backing : (s n : ℕ) (b : VmaBacking) → refers s (shift_backing n b) ≡ refers s b
unfolding refers shift_backing
refers-shift_backing s n anonymous = refl
refers-shift_backing s n (file inode offset) = refl
refers-shift_backing s n (shm segment offset) = refl

refs-append : (s : ℕ) (vs ws : List Vma) → refs s (vs ++ ws) ≡ refs s vs + refs s ws
unfolding refs
refs-append s [] ws = omega arith
refs-append s (v ∷ vs) ws = omega (arith, refs-append s vs ws)

attach-refers :
    (s n : ℕ) (b : VmaBacking) (counts : Attached)
    → attach b n counts s % 2 ^ 32 ≡ (counts s + refers s b * n) % 2 ^ 32
unfolding attach refers
attach-refers s n anonymous counts = omega arith
attach-refers s n (file inode offset) counts = omega arith
attach-refers s n (shm segment offset) counts = ground arith

unmap_one-refs :
    (lo hi s : ℕ) (v : Vma)
    → refs s (unmap_one lo hi v).kept + refs s (unmap_one lo hi v).removed
      ≡ refers s v.backing * (unmap_one lo hi v).extra + refers s v.backing
unfolding refs cut
unmap_one-refs lo hi s v =
    unmap_one_cases lo hi v
      (λ c. refs s c.kept + refs s c.removed ≡ refers s v.backing * c.extra + refers s v.backing)
      (λ _. omega arith) (λ _ _. omega arith)
      (λ _ _. omega (
        arith,
        refers-shift_backing s (hi - v.start) v.backing,
        refers-shift_backing s (lo - v.start) v.backing,
      ))
      (λ _ _ _. omega (arith, refers-shift_backing s (lo - v.start) v.backing))
      (λ _ _ _. omega (arith, refers-shift_backing s (hi - v.start) v.backing))

unmap_loop-refs :
    (lo hi s : ℕ) (vs : List Vma) (counts : Attached)
    → ((unmap_loop lo hi vs counts).counts s + refs s vs) % 2 ^ 32
      ≡ (counts s
          + refs s (unmap_loop lo hi vs counts).kept
          + refs s (unmap_loop lo hi vs counts).removed)
        % 2 ^ 32
unfolding unmap_loop refs
unmap_loop-refs lo hi s [] counts = omega arith
unmap_loop-refs lo hi s (v ∷ vs) counts =
    let one = unmap_one lo hi v in
    let rest = unmap_loop lo hi vs (attach v.backing one.extra counts) in
    omega (
      arith,
      refs-append s one.kept rest.kept,
      refs-append s one.removed rest.removed,
      unmap_one-refs lo hi s v,
      attach-refers s one.extra v.backing counts,
      unmap_loop-refs lo hi s vs (attach v.backing one.extra counts),
    )

refs-insert_sorted :
    (s : ℕ) (v : Vma) (vs : List Vma) → refs s (insert_sorted v vs) ≡ refers s v.backing + refs s vs
unfolding refs insert_sorted
refs-insert_sorted s v [] = refl
refs-insert_sorted s v (w ∷ ws) =
    if_cases (λ us. refs s us ≡ refers s v.backing + refs s (w ∷ ws)) (ltb w.start v.start)
      (λ _. omega (arith, refs-insert_sorted s v ws)) (λ _. refl)

refs-sort : (s : ℕ) (vs : List Vma) → refs s (sort_by_start vs) ≡ refs s vs
unfolding refs sort_by_start
refs-sort s [] = refl
refs-sort s (v ∷ vs) = omega (arith, refs-insert_sorted s v (sort_by_start vs), refs-sort s vs)

-- The count of a segment grows, modulo 2^32, by as many ranges as refer to it behind the unmapping,
-- those handed back among them, less those that did before: the caller owes one detachment for each
-- range that it is handed.
pub unmap_range-refs :
    (lo hi s : ℕ) (m : MmapState) (counts : Attached)
    → ((unmap_range lo hi m counts).counts s + refs s m.vmas) % 2 ^ 32
      ≡ (counts s
          + refs s (unmap_range lo hi m counts).state.vmas
          + refs s (unmap_range lo hi m counts).removed)
        % 2 ^ 32
unfolding unmap_range bump_generation
unmap_range-refs lo hi s m counts =
    rw (refs-sort s (unmap_loop lo hi m.vmas counts).kept) (unmap_loop-refs lo hi s m.vmas counts)

module _ (change : Vma → Vma) (keeps : (w : Vma) → (change w).backing ≡ w.backing)
    (lo hi s : ℕ) where
  change_parts-refs :
      (v : Vma)
      → refs s (change_parts change lo hi v)
        ≡ refers s v.backing * (bit (ltb v.start (max v.start lo)) + bit (ltb (min v.end hi) v.end))
          + refers s v.backing
  unfolding refs change_parts cut
  change_parts-refs v =
      let mid_lo = max v.start lo in
      let mid_hi = min v.end hi in
      let facts : (refers s (change (cut v mid_lo mid_hi)).backing ≡ refers s v.backing)
          × (refers s (shift_backing (mid_hi - v.start) v.backing) ≡ refers s v.backing) =
        (
          ap (refers s) (keeps (cut v mid_lo mid_hi))
              ∙ refers-shift_backing s (mid_lo - v.start) v.backing,
          refers-shift_backing s (mid_hi - v.start) v.backing,
        ) in
      elim (Bool-cases (ltb v.start mid_lo)) [
        | inl e ↦ elim (Bool-cases (ltb mid_hi v.end)) [
          | inl e' ↦ rw (e, e') (omega (arith, facts))
          | inr e' ↦ rw (e, e') (omega (arith, facts))
        ]
        | inr e ↦ elim (Bool-cases (ltb mid_hi v.end)) [
          | inl e' ↦ rw (e, e') (omega (arith, facts))
          | inr e' ↦ rw (e, e') (omega (arith, facts))
        ]
      ]

  change_loop-refs :
      (covered_to : ℕ) (vs : List Vma) (counts : Attached)
      → ((change_loop change lo hi covered_to vs counts).counts s + refs s vs) % 2 ^ 32
        ≡ (counts s + refs s (change_loop change lo hi covered_to vs counts).vmas) % 2 ^ 32
  unfolding change_loop refs
  change_loop-refs covered_to [] counts = omega arith
  change_loop-refs covered_to (v ∷ vs) counts =
      if_cases {A = Change}
        (λ c. (c.counts s + refs s (v ∷ vs)) % 2 ^ 32 ≡ (counts s + refs s c.vmas) % 2 ^ 32)
        (leb v.end lo || leb hi v.start) (λ _. omega (arith, change_loop-refs covered_to vs counts))
        (λ _.
          let n = bit (ltb v.start (max v.start lo)) + bit (ltb (min v.end hi) v.end) in
          let counts' = attach v.backing n counts in
          let inside = change_loop change lo hi (max covered_to (min v.end hi)) vs counts' in
          omega (
            arith,
            refs-append s (change_parts change lo hi v) inside.vmas,
            change_parts-refs v,
            attach-refers s n v.backing counts,
            change_loop-refs (max covered_to (min v.end hi)) vs counts',
          ))

-- Protecting or locking a window adds to the count of a segment, modulo 2^32, as many ranges as the
-- cuts add.
pub change_range-refs :
    (lo hi s : ℕ) (prot : Perms) (set : Bool) (m : MmapState) (counts : Attached)
    → (((protect_range lo hi prot m counts).counts s + refs s m.vmas) % 2 ^ 32
        ≡ (counts s + refs s (protect_range lo hi prot m counts).state.vmas) % 2 ^ 32)
      × (((lock_range lo hi set m counts).counts s + refs s m.vmas) % 2 ^ 32
          ≡ (counts s + refs s (lock_range lo hi set m counts).state.vmas) % 2 ^ 32)
unfolding protect_range lock_range
change_range-refs lo hi s prot set m counts = (
  rw (refs-sort s (change_loop (set_prot prot) lo hi lo m.vmas counts).vmas)
      (change_loop-refs (set_prot prot) (λ w. refl) lo hi s lo m.vmas counts),
  rw (refs-sort s (change_loop (set_locked set) lo hi lo m.vmas counts).vmas)
      (change_loop-refs (set_locked set) (λ w. refl) lo hi s lo m.vmas counts),
)
