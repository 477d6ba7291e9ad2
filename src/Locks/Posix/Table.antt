-- ===== src/Locks/Posix/Table.antt =====
-- kernel/src/vfs/locks/posix.rs: the operations on the table.
use cyphera_kernel.Prelude.{
  ℕ, ◌≤◌, ◌≡◌, refl, ◌≢◌, inl, inr, ◌&&◌, List, [], ◌∷◌, ◌++◌, none, some, arith, ltb, ◌==◌,
  if◌then◌else◌, if_cases, All, Option-cases, length, subst,
}
use cyphera_kernel.Locks.Posix.{
  FileLock, f_unlck, f_wrlck, first_conflict, split_owner_range, without, Table, lookup, or_empty,
  locks_of, store, find_conflict, unlock_range, try_set_lock, Outcome, drop_owner_inode, drop_owner,
}
use cyphera_kernel.Locks.Posix.Ranges.{
  IsCompatible, put-IsCompatible, split_owner_range-IsCompatible, without-IsCompatible,
}
use cyphera_kernel.Locks.Posix.Held.{
  held, covers, held-put, held-split_owner_range, held-without, write_lock_alone,
}

pub lookup-store :
    (i j : ℕ) (ls : List FileLock) (t : Table)
    → lookup j (store i ls t) ≡ (if i == j then some ls else lookup j t)
unfolding lookup store
lookup-store i j ls [] = refl
lookup-store i j ls ((k, ks) ∷ rest) = ground (arith, lookup-store i j ls rest)

-- the table with the locks of every inode compatible
abbrev pub IsSound : Table → Type 0
IsSound = All (λ e. IsCompatible (e.1))

store-IsSound :
    (i : ℕ) (ls : List FileLock) (t : Table) → IsSound t → IsCompatible ls → IsSound (store i ls t)
unfolding store
store-IsSound i ls [] h c = (c, tt)
store-IsSound i ls ((k, ks) ∷ rest) (p, h) c =
    if_cases IsSound (k == i) (λ _. (c, h))
      (λ _. if_cases IsSound (ltb i k) (λ _. (c, (p, h))) (λ _. (p, store-IsSound i ls rest h c)))

locks_of-IsCompatible : (i : ℕ) (t : Table) → IsSound t → IsCompatible (locks_of i t)
unfolding lookup
locks_of-IsCompatible i [] h = tt
locks_of-IsCompatible i ((k, ks) ∷ rest) (p, h) =
    if_cases (λ o. IsCompatible (or_empty o)) (k == i) (λ _. p)
      (λ _. locks_of-IsCompatible i rest h)

locks_of-store :
    (i j : ℕ) (ls : List FileLock) (t : Table)
    → locks_of j (store i ls t) ≡ (if i == j then ls else locks_of j t)
locks_of-store i j ls t = ground (arith, lookup-store i j ls t)

-- `try_set_lock` refuses a lock, other than an unlocking, exactly where `find_conflict` finds a
-- conflict, and names that lock.
pub try_set_lock-find_conflict :
    (i : ℕ) (probe : FileLock) (t : Table)
    → (try_set_lock i probe t).conflict
      ≡ (if probe.kind == f_unlck then none else find_conflict i probe t)
unfolding try_set_lock find_conflict first_conflict unlock_range
try_set_lock-find_conflict i probe t = elim (Option-cases (lookup i t)) [
  | inl e ↦ ground arith
  | inr (ls, e) ↦ ground arith
]

-- A refusal leaves the locks of every inode as they were.
pub try_set_lock-refused :
    (i j : ℕ) (probe : FileLock) (t : Table) {l : FileLock}
    → (try_set_lock i probe t).conflict ≡ some l
    → locks_of j (try_set_lock i probe t).table ≡ locks_of j t
unfolding try_set_lock unlock_range
try_set_lock-refused i j probe t h = ground (arith, locks_of-store i j (locks_of i t) t)

module _ (i j : ℕ) (probe : FileLock) (t : Table) (o byte : ℕ) (sound : IsSound t)
    (proper : probe.start ≤ probe.end) where
  -- A lock that is granted gives its owner its kind over its bytes of that inode; no other owner, byte
  -- or inode changes.
  pub try_set_lock-held :
      probe.kind ≢ f_unlck
      → (try_set_lock i probe t).conflict ≡ none
      → held o byte (locks_of j (try_set_lock i probe t).table)
        ≡ (if i == j && covers probe o byte then some probe.kind else held o byte (locks_of j t))
  unfolding try_set_lock
  try_set_lock-held k free = ground (
    arith,
    locks_of-store i j
        (split_owner_range probe.start probe.end probe.owner (locks_of i t) ++ probe ∷ []) t,
    held-put probe o byte (locks_of i t) proper (locks_of-IsCompatible i t sound),
  )

  -- An unlocking always succeeds, wakes the inode's waiters, and takes exactly its bytes of that inode
  -- from the owner.
  pub try_set_lock-unlock :
      probe.kind ≡ f_unlck
      → ((try_set_lock i probe t).conflict ≡ none)
        × ((try_set_lock i probe t).woken ≡ i ∷ [])
        × (held o byte (locks_of j (try_set_lock i probe t).table)
            ≡ (if i == j && covers probe o byte then none else held o byte (locks_of j t)))
  unfolding try_set_lock unlock_range
  try_set_lock-unlock k = ground (
    arith,
    locks_of-store i j (split_owner_range probe.start probe.end probe.owner (locks_of i t)) t,
    held-split_owner_range probe.start probe.end probe.owner o byte (locks_of i t) proper
        (locks_of-IsCompatible i t sound),
  )

try_set_lock-IsSound :
    (i : ℕ) (probe : FileLock) (t : Table)
    → IsSound t
    → probe.start ≤ probe.end
    → IsSound (try_set_lock i probe t).table
unfolding try_set_lock unlock_range
try_set_lock-IsSound i probe t sound proper =
    let ls = locks_of i t in
    let fine = locks_of-IsCompatible i t sound in
    if_cases {A = Outcome} (λ r. IsSound r.table) (probe.kind == f_unlck)
      (λ _.
        store-IsSound i _ t sound
          (split_owner_range-IsCompatible probe.start probe.end probe.owner proper ls fine))
      (λ _. elim (Option-cases (first_conflict probe ls)) [
        | inl e ↦ rw e (store-IsSound i _ t sound (put-IsCompatible probe ls proper fine e))
        | inr (l, e) ↦ rw e (store-IsSound i ls t sound fine)
      ])

drop_owner-IsSound : (pid : ℕ) (t : Table) → IsSound t → IsSound (drop_owner pid t).0
unfolding drop_owner
drop_owner-IsSound pid [] h = tt
drop_owner-IsSound pid ((i, ls) ∷ rest) (p, h) =
    (without-IsCompatible pid ls p, drop_owner-IsSound pid rest h)

drop_owner_inode-IsSound :
    (pid i : ℕ) (t : Table) → IsSound t → IsSound (drop_owner_inode pid i t).0
unfolding drop_owner_inode
drop_owner_inode-IsSound pid i t h = elim (Option-cases (lookup i t)) [
  | inl e ↦ rw (e, drop_owner_inode) h
  | inr (ls, e) ↦
      rw (e, drop_owner_inode)
        (let kept = store-IsSound i (without pid ls) t h (
            without-IsCompatible pid ls
              (subst (λ o. IsCompatible (or_empty o)) e (locks_of-IsCompatible i t h))) in
          if_cases {A = Table × List ℕ} (λ r. IsSound r.0) (length (without pid ls) == length ls)
            (λ _. kept) (λ _. kept))
]

-- A process that dies holds nothing more on any inode; the others keep what they held.
pub drop_owner-held :
    (pid o byte j : ℕ) (t : Table)
    → held o byte (locks_of j (drop_owner pid t).0)
      ≡ (if o == pid then none else held o byte (locks_of j t))
unfolding drop_owner lookup
drop_owner-held pid o byte j [] = ground arith
drop_owner-held pid o byte j ((i, ls) ∷ rest) =
    ground (arith, drop_owner-held pid o byte j rest, held-without pid o byte ls)

-- A process that closes a file holds nothing more there; its locks on other inodes, and the locks of
-- others, stay.
pub drop_owner_inode-held :
    (pid o byte i j : ℕ) (t : Table)
    → held o byte (locks_of j (drop_owner_inode pid i t).0)
      ≡ (if i == j && o == pid then none else held o byte (locks_of j t))
unfolding drop_owner_inode
drop_owner_inode-held pid o byte i j t = elim (Option-cases (lookup i t)) [
  | inl e ↦ ground arith
  | inr (ls, e) ↦ ground (arith, locks_of-store i j (without pid ls) t, held-without pid o byte ls)
]

-- the operations, as system calls and the death of processes make them
pub data Step (t t' : Table) : Type 0 where
  sets :
      (i : ℕ) (probe : FileLock)
      → probe.start ≤ probe.end
      → t' ≡ (try_set_lock i probe t).table
      → Step t t'
  closes : (pid i : ℕ) → t' ≡ (drop_owner_inode pid i t).0 → Step t t'
  dies : (pid : ℕ) → t' ≡ (drop_owner pid t).0 → Step t t'

pub data Reach : Table → Type 0 where
  start : Reach []
  next : {t t' : Table} → Reach t → Step t t' → Reach t'

Step-IsSound : (t t' : Table) → Step t t' → IsSound t → IsSound t'
Step-IsSound t t' (sets i probe p e) h = rw e (try_set_lock-IsSound i probe t h p)
Step-IsSound t t' (closes pid i e) h = rw e (drop_owner_inode-IsSound pid i t h)
Step-IsSound t t' (dies pid e) h = rw e (drop_owner-IsSound pid t h)

Reach-IsSound : {t : Table} → Reach t → IsSound t
Reach-IsSound start = tt
Reach-IsSound (next r st) = Step-IsSound _ _ st (Reach-IsSound r)

-- In every table that the operations reach, a byte of a file that one owner holds for writing is held
-- by no other owner.
pub reachable_write_lock_alone :
    {t : Table} (i o o' byte : ℕ)
    → Reach t
    → held o byte (locks_of i t) ≡ some f_wrlck
    → o ≢ o'
    → held o' byte (locks_of i t) ≡ none
reachable_write_lock_alone {t} i o o' byte r =
    write_lock_alone (locks_of i t) o o' byte (locks_of-IsCompatible i t (Reach-IsSound r))
