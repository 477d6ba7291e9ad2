-- ===== src/Locks/Posix/Ranges.antt =====
-- kernel/src/vfs/locks/posix.rs: the locks of an inode stay compatible.
use cyphera_kernel.Prelude.{
  ℕ, ◌≤◌, ◌<◌, ◌≡◌, refl, sym, ◌≢◌, ◌⊎◌, inl, inr, false, not, ◌||◌, List, [], ◌∷◌, ◌++◌, none,
  arith, ltb, ◌==◌, if_cases, All, All-append, Bool-cases,
}
use cyphera_kernel.Locks.Posix.{
  FileLock, meets, conflicts, f_wrlck, first_conflict, retained, pieces, split, split_owner_range,
  without,
}

-- Two locks of one owner do not overlap, and two of different owners do so only if both are read
-- locks.
abbrev pub Compatible : FileLock → FileLock → Type 0
Compatible l m =
    (l.end ≤ m.start)
    ⊎ (m.end ≤ l.start)
    ⊎ ((l.owner ≢ m.owner) × (l.kind ≢ f_wrlck) × (m.kind ≢ f_wrlck))

abbrev pub IsCompatible : List FileLock → Type 0
IsCompatible [] = Unit
IsCompatible (l ∷ ls) = All (Compatible l) ls × IsCompatible ls

Compatible-sym : (l m : FileLock) → Compatible l m → Compatible m l
Compatible-sym l m h = ground arith

module _ (start end owner : ℕ) where
  retained-Compatible :
      (l : FileLock) (ls : List FileLock)
      → All (Compatible l) ls
      → All (Compatible l) (retained start end owner ls)
  unfolding retained
  retained-Compatible l [] h = tt
  retained-Compatible l (m ∷ ms) (p, h) =
      if_cases (All (Compatible l)) (not (m.owner == owner) || not (meets m start end))
        (λ _. (p, retained-Compatible l ms h)) (λ _. retained-Compatible l ms h)

  -- What is left of a lock is compatible with what the lock was compatible with.
  pieces-Compatible :
      (l m : FileLock)
      → Compatible l m
      → m.owner ≡ owner
      → start < m.end
      → m.start < end
      → All (Compatible l) (pieces start end owner m)
  unfolding pieces
  pieces-Compatible l m h e p q =
      All-append (Compatible l) _ _
        (if_cases (All (Compatible l)) (ltb m.start start) (λ b. (ground arith, tt)) (λ _. tt))
        (if_cases (All (Compatible l)) (ltb end m.end) (λ b. (ground arith, tt)) (λ _. tt))

  split-Compatible :
      (l : FileLock) (ls : List FileLock)
      → All (Compatible l) ls
      → All (Compatible l) (split start end owner ls)
  unfolding split
  split-Compatible l [] h = tt
  split-Compatible l (m ∷ ms) (p, h) =
      if_cases (All (Compatible l)) (not (m.owner == owner) || not (meets m start end))
        (λ _. split-Compatible l ms h)
        (λ own.
          All-append (Compatible l) (pieces start end owner m) (split start end owner ms)
            (pieces-Compatible l m p (ground arith) (ground arith) (ground arith))
            (split-Compatible l ms h))

  split_owner_range-Compatible :
      (l : FileLock) (ls : List FileLock)
      → All (Compatible l) ls
      → All (Compatible l) (split_owner_range start end owner ls)
  unfolding split_owner_range
  split_owner_range-Compatible l ls h =
      All-append (Compatible l) (retained start end owner ls) (split start end owner ls)
        (retained-Compatible l ls h) (split-Compatible l ls h)

All-middle {κ} :
    (P : FileLock → Type κ) (p : FileLock) (xs ys : List FileLock)
    → P p
    → All P (xs ++ ys)
    → All P (xs ++ p ∷ ys)
All-middle P p [] ys hp h = (hp, h)
All-middle P p (x ∷ xs) ys hp h = (h.0, All-middle P p xs ys hp h.1)

-- A lock goes in where it is compatible with what stands on both sides.
IsCompatible-insert :
    (p : FileLock) (xs ys : List FileLock)
    → All (Compatible p) xs
    → All (Compatible p) ys
    → IsCompatible (xs ++ ys)
    → IsCompatible (xs ++ p ∷ ys)
IsCompatible-insert p [] ys hx hy h = (hy, h)
IsCompatible-insert p (x ∷ xs) ys hx hy h = (
  All-middle (Compatible x) p xs ys (Compatible-sym p x hx.0) h.0,
  IsCompatible-insert p xs ys hx.1 hy h.1,
)

-- A part of a lock is compatible with what the lock was compatible with.
narrow :
    (part l : FileLock) (xs : List FileLock)
    → part.owner ≡ l.owner
    → part.kind ≡ l.kind
    → l.start ≤ part.start
    → part.end ≤ l.end
    → All (Compatible l) xs
    → All (Compatible part) xs
narrow part l [] e k p q h = tt
narrow part l (x ∷ xs) e k p q (hx, h) = (ground arith, narrow part l xs e k p q h)

module _ (start end owner : ℕ) (proper : start ≤ end) where
  pieces-insert :
      (l : FileLock) (xs ys : List FileLock)
      → l.owner ≡ owner
      → start < l.end
      → l.start < end
      → All (Compatible l) xs
      → All (Compatible l) ys
      → IsCompatible (xs ++ ys)
      → IsCompatible (xs ++ (pieces start end owner l ++ ys))
  unfolding pieces
  pieces-insert l xs ys e p q hx hy h =
      let left : FileLock = record { kind = l.kind; start = l.start; end = start; owner = owner } in
      let right : FileLock = record { kind = l.kind; start = end; end = l.end; owner = owner } in
      let put_right : IsCompatible (xs ++ right ∷ ys) =
        IsCompatible-insert right xs ys
          (narrow right l xs (sym e) refl (omega arith) (omega arith) hx)
          (narrow right l ys (sym e) refl (omega arith) (omega arith) hy) h in
      let left_xs = narrow left l xs (sym e) refl (omega arith) (omega arith) hx in
      let left_ys = narrow left l ys (sym e) refl (omega arith) (omega arith) hy in
      elim (Bool-cases (ltb l.start start)) [
        | inl a ↦ elim (Bool-cases (ltb end l.end)) [
          | inl b ↦
              rw (a, b)
                (IsCompatible-insert left xs (right ∷ ys) left_xs (inl proper, left_ys) put_right)
          | inr b ↦ rw (a, b) (IsCompatible-insert left xs ys left_xs left_ys h)
        ]
        | inr a ↦ elim (Bool-cases (ltb end l.end)) [
          | inl b ↦ rw (a, b) put_right
          | inr b ↦ rw (a, b) h
        ]
      ]

  pub split_owner_range-IsCompatible :
      (ls : List FileLock) → IsCompatible ls → IsCompatible (split_owner_range start end owner ls)
  unfolding split_owner_range retained split
  split_owner_range-IsCompatible [] h = tt
  split_owner_range-IsCompatible (l ∷ ls) (p, h) =
      elim (Bool-cases (not (l.owner == owner) || not (meets l start end))) [
        | inl other ↦ rw other (
          split_owner_range-Compatible start end owner l ls p,
          split_owner_range-IsCompatible ls h,
        )
        | inr own ↦ rw own (
            pieces-insert l (retained start end owner ls) (split start end owner ls) (ground arith)
              (ground arith) (ground arith) (retained-Compatible start end owner l ls p)
              (split-Compatible start end owner l ls p) (split_owner_range-IsCompatible ls h))
      ]

-- the locks that no other conflicts with
first_conflict-none :
    (probe : FileLock) (ls : List FileLock)
    → first_conflict probe ls ≡ none
    → All (λ l. conflicts l probe ≡ false) ls
unfolding first_conflict
first_conflict-none probe [] h = tt
first_conflict-none probe (l ∷ ls) h = (ground arith, first_conflict-none probe ls (ground arith))

-- Behind the split, the locks that do not conflict with a new lock are compatible with it.
module _ (probe : FileLock) where
  retained-probe :
      (ls : List FileLock)
      → All (λ l. conflicts l probe ≡ false) ls
      → All (λ l. Compatible l probe) (retained probe.start probe.end probe.owner ls)
  unfolding retained
  retained-probe [] h = tt
  retained-probe (l ∷ ls) (p, h) =
      if_cases (All (λ m. Compatible m probe))
        (not (l.owner == probe.owner) || not (meets l probe.start probe.end))
        (λ out. (ground arith, retained-probe ls h)) (λ _. retained-probe ls h)

  pieces-probe :
      (l : FileLock) → All (λ m. Compatible m probe) (pieces probe.start probe.end probe.owner l)
  unfolding pieces
  pieces-probe l =
      All-append (λ m. Compatible m probe) _ _
        (if_cases (All (λ m. Compatible m probe)) (ltb l.start probe.start)
          (λ b. (ground arith, tt)) (λ _. tt))
        (if_cases (All (λ m. Compatible m probe)) (ltb probe.end l.end) (λ b. (ground arith, tt))
          (λ _. tt))

  split-probe :
      (ls : List FileLock)
      → All (λ l. Compatible l probe) (split probe.start probe.end probe.owner ls)
  unfolding split
  split-probe [] = tt
  split-probe (l ∷ ls) =
      if_cases (All (λ m. Compatible m probe))
        (not (l.owner == probe.owner) || not (meets l probe.start probe.end)) (λ _. split-probe ls)
        (λ _.
          All-append (λ m. Compatible m probe) (pieces probe.start probe.end probe.owner l)
            (split probe.start probe.end probe.owner ls) (pieces-probe l) (split-probe ls))

IsCompatible-last :
    (ls : List FileLock) (p : FileLock)
    → IsCompatible ls
    → All (λ l. Compatible l p) ls
    → IsCompatible (ls ++ p ∷ [])
IsCompatible-last [] p h k = (tt, tt)
IsCompatible-last (l ∷ ls) p (a, h) (b, k) =
    (All-append (Compatible l) ls (p ∷ []) a (b, tt), IsCompatible-last ls p h k)

-- A new lock, put behind the split, leaves the locks compatible.
pub put-IsCompatible :
    (probe : FileLock) (ls : List FileLock)
    → probe.start ≤ probe.end
    → IsCompatible ls
    → first_conflict probe ls ≡ none
    → IsCompatible (split_owner_range probe.start probe.end probe.owner ls ++ probe ∷ [])
unfolding split_owner_range
put-IsCompatible probe ls proper h free =
    IsCompatible-last _ probe
      (split_owner_range-IsCompatible probe.start probe.end probe.owner proper ls h)
      (All-append (λ l. Compatible l probe) _ _
        (retained-probe probe ls (first_conflict-none probe ls free)) (split-probe probe ls))

without-Compatible :
    (pid : ℕ) (l : FileLock) (ls : List FileLock)
    → All (Compatible l) ls
    → All (Compatible l) (without pid ls)
unfolding without
without-Compatible pid l [] h = tt
without-Compatible pid l (m ∷ ms) (p, h) =
    if_cases (All (Compatible l)) (m.owner == pid) (λ _. without-Compatible pid l ms h)
      (λ _. (p, without-Compatible pid l ms h))

pub without-IsCompatible :
    (pid : ℕ) (ls : List FileLock) → IsCompatible ls → IsCompatible (without pid ls)
unfolding without
without-IsCompatible pid [] h = tt
without-IsCompatible pid (l ∷ ls) (p, h) =
    if_cases IsCompatible (l.owner == pid) (λ _. without-IsCompatible pid ls h)
      (λ _. (without-Compatible pid l ls p, without-IsCompatible pid ls h))
