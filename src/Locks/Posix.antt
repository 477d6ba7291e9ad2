-- ===== src/Locks/Posix.antt =====
-- kernel/src/vfs/locks/posix.rs: byte-range locks of processes. The table is an association list in
-- the order of the inode numbers, as the source's B-tree map; each function takes it and returns it,
-- under the one spin lock. `wake_all` on an inode's wait queue is that inode in a list of wake-ups.
pub mod Ranges
pub mod Held
pub mod Table
mod Tests
use cyphera_kernel.Prelude.{
  ℕ, suc, ◌+◌, ◌≤◌, ◌<◌, ◌≡◌, Bool, true, false, not, ◌&&◌, ◌||◌, List, [], ◌∷◌, ◌++◌, Option, none,
  some, ltb, leb, ◌==◌, if◌then◌else◌, length,
}

abbrev pub f_rdlck : ℕ
f_rdlck = 0

abbrev pub f_wrlck : ℕ
f_wrlck = 1

abbrev pub f_unlck : ℕ
f_unlck = 2

pub record FileLock : Type 0 where
  pub kind : ℕ
  pub start : ℕ
  pub end : ℕ
  pub owner : ℕ

-- `FileLock::overlaps`, with a range
abbrev pub meets : FileLock → ℕ → ℕ → Bool
meets l start end = ltb l.start end && ltb start l.end

abbrev pub conflicts : FileLock → FileLock → Bool
conflicts l other =
    not (l.owner == other.owner)
    && (meets l other.start other.end && (l.kind == f_wrlck || other.kind == f_wrlck))

-- the first lock that conflicts
pub first_conflict : FileLock → List FileLock → Option FileLock
first_conflict probe [] = none
first_conflict probe (l ∷ ls) = if conflicts l probe then some l else first_conflict probe ls

-- the locks that `split_owner_range` retains
pub retained : ℕ → ℕ → ℕ → List FileLock → List FileLock
retained start end owner [] = []
retained start end owner (l ∷ ls) =
    if not (l.owner == owner) || not (meets l start end)
    then l ∷ retained start end owner ls
    else retained start end owner ls

-- what is left of a lock on both sides of a range
pub pieces : ℕ → ℕ → ℕ → FileLock → List FileLock
pieces start end owner l =
    (if ltb l.start start
      then record { kind = l.kind; start = l.start; end = start; owner = owner } ∷ []
      else [])
    ++ (if ltb end l.end
        then record { kind = l.kind; start = end; end = l.end; owner = owner } ∷ []
        else [])

-- the vector `split` that the closure of `retain` fills
pub split : ℕ → ℕ → ℕ → List FileLock → List FileLock
split start end owner [] = []
split start end owner (l ∷ ls) =
    if not (l.owner == owner) || not (meets l start end)
    then split start end owner ls
    else pieces start end owner l ++ split start end owner ls

pub split_owner_range : ℕ → ℕ → ℕ → List FileLock → List FileLock
split_owner_range start end owner ls = retained start end owner ls ++ split start end owner ls

abbrev pub Table : Type 0
Table = List (ℕ × List FileLock)

-- `g.get(&inode_id)`
pub lookup : ℕ → Table → Option (List FileLock)
lookup inode [] = none
lookup inode ((i, ls) ∷ rest) = if i == inode then some ls else lookup inode rest

-- the locks of an inode, none where it has no entry
abbrev pub or_empty : Option (List FileLock) → List FileLock
or_empty none = []
or_empty (some ls) = ls

abbrev pub locks_of : ℕ → Table → List FileLock
locks_of inode t = or_empty (lookup inode t)

-- An entry is written, and made where it is missing.
pub store : ℕ → List FileLock → Table → Table
store inode ls [] = (inode, ls) ∷ []
store inode ls ((i, ks) ∷ rest) =
    if i == inode
    then (i, ls) ∷ rest
    else if ltb inode i
    then (inode, ls) ∷ (i, ks) ∷ rest
    else (i, ks) ∷ store inode ls rest

pub find_conflict : ℕ → FileLock → Table → Option FileLock
find_conflict inode probe t = elim (lookup inode t) [
  | none ↦ none
  | some ls ↦ first_conflict probe ls
]

-- the table, and the inodes whose waiters are woken
pub unlock_range : ℕ → ℕ → ℕ → ℕ → Table → Table × List ℕ
unlock_range inode start end owner t =
    (store inode (split_owner_range start end owner (locks_of inode t)) t, inode ∷ [])

-- `none` is `Ok(())`, and `some l` the conflicting lock.
pub record Outcome : Type 0 where
  pub table : Table
  pub conflict : Option FileLock
  pub woken : List ℕ

pub try_set_lock : ℕ → FileLock → Table → Outcome
try_set_lock inode probe t =
    let ls = locks_of inode t in
    if probe.kind == f_unlck
    then (let (t', woken) = unlock_range inode probe.start probe.end probe.owner t in
        record { table = t'; conflict = none; woken = woken })
    else elim (first_conflict probe ls) [
      | some l ↦ record { table = store inode ls t; conflict = some l; woken = [] }
      | none ↦ record {
        table =
            store inode (split_owner_range probe.start probe.end probe.owner ls ++ probe ∷ []) t;
        conflict = none;
        woken = [];
      }
    ]

-- `locks.retain(|lk| lk.owner != pid)`
pub without : ℕ → List FileLock → List FileLock
without pid [] = []
without pid (l ∷ ls) = if l.owner == pid then without pid ls else l ∷ without pid ls

pub drop_owner_inode : ℕ → ℕ → Table → Table × List ℕ
drop_owner_inode pid inode t = elim (lookup inode t) [
  | none ↦ (t, [])
  | some ls ↦
      if length (without pid ls) == length ls
      then (store inode (without pid ls) t, [])
      else (store inode (without pid ls) t, inode ∷ [])
]

pub drop_owner : ℕ → Table → Table × List ℕ
drop_owner pid [] = ([], [])
drop_owner pid ((i, ls) ∷ rest) =
    let (t, woken) = drop_owner pid rest in
    ((i, without pid ls) ∷ t, (if length (without pid ls) == length ls then woken else i ∷ woken))
