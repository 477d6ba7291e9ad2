-- ===== src/Locks/Posix/Tests.antt =====
-- kernel/src/vfs/locks/posix.rs on a small table.
use cyphera_kernel.Prelude.{ℕ, ◌≡◌, refl, ◌&&◌, ◌==◌, [], ◌∷◌, none, some, arith, if◌then◌else◌}
use cyphera_kernel.Locks.Posix.{
  FileLock, f_rdlck, f_wrlck, Table, locks_of, lookup, store, first_conflict, retained, pieces,
  split, split_owner_range, try_set_lock, without, drop_owner, drop_owner_inode,
}
use cyphera_kernel.Locks.Posix.Held.{held, covers}
use cyphera_kernel.Locks.Posix.Table.{
  IsSound, try_set_lock-held, sets, Reach, start, next, reachable_write_lock_alone,
}

abbrev lock : ℕ → ℕ → ℕ → ℕ → FileLock
lock kind lo hi owner = record { kind = kind; start = lo; end = hi; owner = owner }

-- process 1 holds bytes 0 to 100 of inode 9 for writing
abbrev one_writer : Table
one_writer = (9, lock f_wrlck 0 100 1 ∷ []) ∷ []

one_writer-IsSound : IsSound one_writer
one_writer-IsSound = ((tt, tt), tt)

set_first : (try_set_lock 9 (lock f_wrlck 0 100 1) []).table ≡ one_writer
unfolding try_set_lock first_conflict lookup store split_owner_range retained split
set_first = refl

split_in_three :
    (try_set_lock 9 (lock f_rdlck 20 30 1) one_writer).table
    ≡ (9, lock f_wrlck 0 20 1 ∷ lock f_wrlck 30 100 1 ∷ lock f_rdlck 20 30 1 ∷ []) ∷ []
unfolding try_set_lock first_conflict lookup store split_owner_range retained split pieces
split_in_three = refl

refused : (try_set_lock 9 (lock f_rdlck 99 200 2) one_writer).conflict ≡ some (lock f_wrlck 0 100 1)
unfolding try_set_lock first_conflict lookup
refused = refl

granted_beside : (try_set_lock 9 (lock f_rdlck 100 200 2) one_writer).conflict ≡ none
unfolding try_set_lock first_conflict lookup
granted_beside = refl

death_wakes : drop_owner 1 one_writer ≡ ((9, []) ∷ [], 9 ∷ [])
unfolding drop_owner without
death_wakes = refl

close_wakes : drop_owner_inode 1 9 one_writer ≡ ((9, []) ∷ [], 9 ∷ [])
unfolding drop_owner_inode without lookup store
close_wakes = refl

stranger_closes : drop_owner_inode 3 9 one_writer ≡ (one_writer, [])
unfolding drop_owner_inode without lookup store
stranger_closes = refl

one_writer-Reach : Reach one_writer
unfolding try_set_lock first_conflict lookup store split_owner_range retained split
one_writer-Reach = next start (sets 9 (lock f_wrlck 0 100 1) (omega arith) refl)

granted_over : (try_set_lock 9 (lock f_rdlck 20 30 1) one_writer).conflict ≡ none
unfolding try_set_lock first_conflict lookup
granted_over = refl

try_set_lock-held_example :
    held 1 25 (locks_of 9 (try_set_lock 9 (lock f_rdlck 20 30 1) one_writer).table) ≡ (
      if 9 == 9 && covers (lock f_rdlck 20 30 1) 1 25
      then some f_rdlck
      else held 1 25 (locks_of 9 one_writer))
try_set_lock-held_example =
    try_set_lock-held 9 9 (lock f_rdlck 20 30 1) one_writer 1 25 one_writer-IsSound (omega arith)
      (omega arith) granted_over

held_by_one : held 1 25 (locks_of 9 one_writer) ≡ some f_wrlck
unfolding lookup
held_by_one = refl

reachable_write_lock_alone_example : held 2 25 (locks_of 9 one_writer) ≡ none
reachable_write_lock_alone_example =
    reachable_write_lock_alone 9 1 2 25 one_writer-Reach held_by_one (omega arith)
