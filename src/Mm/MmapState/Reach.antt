-- ===== src/Mm/MmapState/Reach.antt =====
-- kernel/src/process_model/memory_map.rs: the states that an address space can reach by the
-- sections of the system calls under its lock, which hand on windows that are not empty. What a
-- section finds there is a premise only where the section before it left it there: a mapping finds
-- its reservation, and mremap finds the target that it has unmapped still free.
use cyphera_kernel.Prelude.{
  ℕ, ◌+◌, ◌-◌, ◌^◌, ◌<◌, ◌≤◌, ◌≡◌, refl, Bool, true, false, not, ◌||◌, List, [], ◌∷◌, ◌++◌, none,
  some, if◌then◌else◌, if_cases, Option-cases, inl, inr, subst, arith,
}
use mathlib.Core.Option.{some-injective}
use cyphera_kernel.Mm.Vma.{Perms, Vma, Attached, attach, cut}
use cyphera_kernel.Mm.MmapState.Gap.{IsLow, meets-Above, find_gap-free}
use cyphera_kernel.Mm.MmapState.Checked.{reserve_free, reserve_at, reserve_gap, settle}
use cyphera_kernel.Mm.MmapState.Order.{Above, sort_by_start-Above, unmap_loop-Above}
use cyphera_kernel.Mm.MmapState.Cases.{unmap_one_cases}
use cyphera_kernel.Mm.MmapState.Steps.{
  IsOrdered, insert-IsOrdered, reserve-IsOrdered, unmap_range-IsOrdered, change_range-IsOrdered,
  extend_vma_end-IsOrdered, truncate_vma_end-IsOrdered, remove_vma_at-IsOrdered,
  drain_vmas_where-IsOrdered, keep_where-Above, release_reservation-IsOrdered,
}
use cyphera_kernel.Mm.MmapState.{
  MmapState, keep_where, find_gap, is_reservation, overlaps, meets, for_pid, clone_for_fork,
  set_mlockall, extend_vma_end, truncate_vma_end, remove_vma_at, drain_vmas_where, unmap_range,
  reserve, unmap_range_reserve, release_reservation, unmap_loop, unmap_one, bump_generation,
  protect_range, lock_range, set_prot, set_locked,
}

-- the reservation of a window is there
unfoldable pub stands : ℕ → ℕ → List Vma → Bool
stands lo hi [] = false
stands lo hi (v ∷ vs) = is_reservation lo hi v || stands lo hi vs

pub data Step (m m' : MmapState) : Type 0 where
  placed :
      (v : Vma) → v.start < v.end → stands v.start v.end m.vmas ≡ true → m' ≡ settle v m → Step m m'
  took_free : (lo hi : ℕ) → lo < hi → m' ≡ (reserve_free lo hi m).0 → Step m m'
  took_gap :
      (len : ℕ)
      → 0 < len
      → m.arena_hi < 2 ^ 64 - 1
      → IsLow m.vmas
      → m' ≡ (reserve_gap len m).0
      → Step m m'
  took_emptied : (lo hi : ℕ) → lo < hi → overlaps lo hi m ≡ false → m' ≡ reserve lo hi m → Step m m'
  unmapped :
      (lo hi : ℕ) (counts : Attached)
      → lo < hi
      → m' ≡ (unmap_range lo hi m counts).state
      → Step m m'
  replaced :
      (lo hi : ℕ) (counts : Attached)
      → lo < hi
      → m' ≡ (unmap_range_reserve lo hi m counts).state
      → Step m m'
  released : (lo hi : ℕ) → m' ≡ release_reservation lo hi m → Step m m'
  protected :
      (lo hi : ℕ) (prot : Perms) (counts : Attached)
      → lo < hi
      → m' ≡ (protect_range lo hi prot m counts).state
      → Step m m'
  locked :
      (lo hi : ℕ) (set : Bool) (counts : Attached)
      → lo < hi
      → m' ≡ (lock_range lo hi set m counts).state
      → Step m m'
  extended : (start new_end : ℕ) → m' ≡ (extend_vma_end start new_end m).0 → Step m m'
  truncated : (start new_end : ℕ) → m' ≡ (truncate_vma_end start new_end m).0 → Step m m'
  removed_at : (start : ℕ) → m' ≡ (remove_vma_at start m).0 → Step m m'
  drained : (pred : Vma → Bool) → m' ≡ (drain_vmas_where pred m).0 → Step m m'
  forked : m' ≡ clone_for_fork m → Step m m'
  mlocked_all : (flags : ℕ) → m' ≡ set_mlockall flags m → Step m m'

-- No range that stays overlaps the window that was taken out.
unmap_loop-free :
    (lo hi : ℕ) (vs : List Vma) (counts : Attached)
    → meets lo hi (unmap_loop lo hi vs counts).kept ≡ false
unfolding unmap_loop meets cut
unmap_loop-free lo hi [] counts = refl
unmap_loop-free lo hi (v ∷ vs) counts =
    let rest = unmap_loop lo hi vs (attach v.backing (unmap_one lo hi v).extra counts) in
    let ih : meets lo hi rest.kept ≡ false = unmap_loop-free lo hi vs _ in
    unmap_one_cases lo hi v (λ c. meets lo hi (c.kept ++ rest.kept) ≡ false) (λ out. ground arith)
      (λ p q. ih) (λ p q. ground arith) (λ p q r. ground arith) (λ p q r. ground arith)

pub unmap_range-free :
    (lo hi : ℕ) (m : MmapState) (counts : Attached)
    → IsOrdered m
    → lo < hi
    → overlaps lo hi (unmap_range lo hi m counts).state ≡ false
unfolding unmap_range bump_generation overlaps
unmap_range-free lo hi m counts h p =
    rw (sort_by_start-Above 0 _ (unmap_loop-Above lo hi p 0 m.vmas counts h))
      (unmap_loop-free lo hi m.vmas counts)

unmap_range_reserve-IsOrdered :
    (lo hi : ℕ) (m : MmapState) (counts : Attached)
    → IsOrdered m
    → lo < hi
    → IsOrdered (unmap_range_reserve lo hi m counts).state
unfolding unmap_range_reserve
unmap_range_reserve-IsOrdered lo hi m counts h p =
    reserve-IsOrdered lo hi _ (unmap_range-IsOrdered lo hi m counts h p) p
      (unmap_range-free lo hi m counts h p)

protect_range-IsOrdered :
    (lo hi : ℕ) (prot : Perms) (m : MmapState) (counts : Attached)
    → IsOrdered m
    → lo < hi
    → IsOrdered (protect_range lo hi prot m counts).state
unfolding protect_range
protect_range-IsOrdered lo hi prot m counts h p =
    change_range-IsOrdered (set_prot prot) lo hi m counts (λ w. (refl, refl)) h p

lock_range-IsOrdered :
    (lo hi : ℕ) (set : Bool) (m : MmapState) (counts : Attached)
    → IsOrdered m
    → lo < hi
    → IsOrdered (lock_range lo hi set m counts).state
unfolding lock_range
lock_range-IsOrdered lo hi set m counts h p =
    change_range-IsOrdered (set_locked set) lo hi m counts (λ w. (refl, refl)) h p

clone_for_fork-IsOrdered : (m : MmapState) → IsOrdered m → IsOrdered (clone_for_fork m)
unfolding clone_for_fork
clone_for_fork-IsOrdered m h = h

set_mlockall-IsOrdered :
    (flags : ℕ) (m : MmapState) → IsOrdered m → IsOrdered (set_mlockall flags m)
unfolding set_mlockall
set_mlockall-IsOrdered flags m h = h

-- A reservation of ranges that start at `e` or above does not start below it.
stands-Above : (lo hi e : ℕ) (vs : List Vma) → Above e vs → stands lo hi vs ≡ true → e ≤ lo
unfolding stands
stands-Above lo hi e [] h t = absurd (ground arith)
stands-Above lo hi e (v ∷ vs) (p, q, h) t = ground (arith, stands-Above lo hi v.end vs h)

-- Where the reservation is there, nothing else is in the window.
released-free :
    (lo hi e : ℕ) (vs : List Vma)
    → Above e vs
    → stands lo hi vs ≡ true
    → meets lo hi (keep_where (λ v. not (is_reservation lo hi v)) vs) ≡ false
unfolding stands keep_where meets
released-free lo hi e [] h t = refl
released-free lo hi e (v ∷ vs) (p, q, h) t =
    let rest = keep_where-Above v.end (λ w. not (is_reservation lo hi w)) vs h in
    if_cases (λ ws. meets lo hi ws ≡ false) (not (is_reservation lo hi v))
      (λ other.
        let later : stands lo hi vs ≡ true = ground arith in
        let above = stands-Above lo hi v.end vs h later in
        ground (arith, released-free lo hi v.end vs h later))
      (λ own. meets-Above v.end lo hi _ rest (ground arith))

settle-IsOrdered :
    (v : Vma) (m : MmapState)
    → IsOrdered m
    → v.start < v.end
    → stands v.start v.end m.vmas ≡ true
    → IsOrdered (settle v m)
unfolding settle release_reservation bump_generation overlaps
settle-IsOrdered v m h p t =
    insert-IsOrdered v (release_reservation v.start v.end m)
      (release_reservation-IsOrdered v.start v.end m h) p (released-free v.start v.end 0 m.vmas h t)

reserve_free-IsOrdered :
    (lo hi : ℕ) (m : MmapState) → IsOrdered m → lo < hi → IsOrdered (reserve_free lo hi m).0
unfolding reserve_free
reserve_free-IsOrdered lo hi m h p =
    if_cases (λ (r : MmapState × Bool). IsOrdered r.0) (overlaps lo hi m) (λ _. h)
      (λ free. reserve-IsOrdered lo hi m h p free)

reserve_gap-IsOrdered :
    (len : ℕ) (m : MmapState)
    → 0 < len
    → m.arena_hi < 2 ^ 64 - 1
    → IsLow m.vmas
    → IsOrdered m
    → IsOrdered (reserve_gap len m).0
unfolding reserve_gap reserve_at
reserve_gap-IsOrdered len m some_len top low h = elim (Option-cases (find_gap len m)) [
  | inl e ↦ rw (e, reserve_at) h
  | inr (a, e) ↦
      rw (e, reserve_at)
        (reserve-IsOrdered a (a + len) m h (omega arith)
          (find_gap-free len m some_len top h low e).1)
]

along : {m m' : MmapState} → m' ≡ m → IsOrdered m → IsOrdered m'
along e h = rw e h

Step-IsOrdered : (m m' : MmapState) → Step m m' → IsOrdered m → IsOrdered m'
Step-IsOrdered m m' (placed v p t e) h = along e (settle-IsOrdered v m h p t)
Step-IsOrdered m m' (took_free lo hi p e) h = along e (reserve_free-IsOrdered lo hi m h p)
Step-IsOrdered m m' (took_gap n p top low e) h = along e (reserve_gap-IsOrdered n m p top low h)
Step-IsOrdered m m' (took_emptied lo hi p free e) h = along e (reserve-IsOrdered lo hi m h p free)
Step-IsOrdered m m' (unmapped lo hi c p e) h = along e (unmap_range-IsOrdered lo hi m c h p)
Step-IsOrdered m m' (replaced lo hi c p e) h = along e (unmap_range_reserve-IsOrdered lo hi m c h p)
Step-IsOrdered m m' (released lo hi e) h = along e (release_reservation-IsOrdered lo hi m h)
Step-IsOrdered m m' (protected lo hi r c p e) h = along e (protect_range-IsOrdered lo hi r m c h p)
Step-IsOrdered m m' (locked lo hi b c p e) h = along e (lock_range-IsOrdered lo hi b m c h p)
Step-IsOrdered m m' (extended a n e) h = along e (extend_vma_end-IsOrdered a n m h)
Step-IsOrdered m m' (truncated a n e) h = along e (truncate_vma_end-IsOrdered a n m h)
Step-IsOrdered m m' (removed_at a e) h = along e (remove_vma_at-IsOrdered a m h)
Step-IsOrdered m m' (drained pred e) h = along e (drain_vmas_where-IsOrdered pred m h)
Step-IsOrdered m m' (forked e) h = along e (clone_for_fork-IsOrdered m h)
Step-IsOrdered m m' (mlocked_all flags e) h = along e (set_mlockall-IsOrdered flags m h)

pub data Reach (s : MmapState) : MmapState → Type 0 where
  here : Reach s s
  after : {m m' : MmapState} → Reach s m → Step m m' → Reach s m'

Reach-IsOrdered : {s m : MmapState} → IsOrdered s → Reach s m → IsOrdered m
Reach-IsOrdered h here = h
Reach-IsOrdered h (after r st) = Step-IsOrdered _ _ st (Reach-IsOrdered h r)

guarded :
    (b : Bool) (x : MmapState) {s : MmapState}
    → IsOrdered x
    → (if b then some x else none) ≡ some s
    → IsOrdered s
guarded true x h e = subst IsOrdered (some-injective _ _ e) h
guarded false x h e = absurd (ground arith)

for_pid-IsOrdered : (pid : ℕ) {s : MmapState} → for_pid pid ≡ some s → IsOrdered s
unfolding for_pid
for_pid-IsOrdered pid e = guarded _ _ tt e

-- In every state that the system calls reach from a new address space, the ranges are not empty, in
-- order of their start, and do not overlap, if each mapping finds its reservation where it is put in
-- its place, mremap finds the target that it has unmapped still free where it reserves it, and ranges
-- end below 2^64 where a gap is looked for.
pub reachable-IsOrdered :
    (pid : ℕ) {s m : MmapState} → for_pid pid ≡ some s → Reach s m → IsOrdered m
reachable-IsOrdered pid e r = Reach-IsOrdered (for_pid-IsOrdered pid e) r
