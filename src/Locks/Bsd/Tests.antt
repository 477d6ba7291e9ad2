-- ===== src/Locks/Bsd/Tests.antt =====
-- kernel/src/vfs/locks/bsd.rs on two descriptions of one file.
use cyphera_kernel.Prelude.{◌≡◌, refl, sym, ap, ◌||◌, inl, true, [], ◌∷◌, some, arith}
use cyphera_kernel.Locks.Bsd.{
  drop_begin, remove, lock_sh, lock_ex, lock_un, FlockState, shared, acquired, conflict, get, put,
  contains, set_remove, acquire_shared, acquire_exclusive, release_in_entry, entry_op, Locks,
  state_of, try_op, held_in,
}
use cyphera_kernel.Locks.Bsd.Spec.{IsProper, entry_op-wakes}
use cyphera_kernel.Locks.Bsd.Owners.{holds, records, points_to}
use cyphera_kernel.Locks.Bsd.Reach.{
  Shared, Reach, fresh, next, operates, forgets, no_locks, reachable_owners,
}

-- the descriptions 10 and 11 share inode 5
abbrev both : FlockState
both = shared (11 ∷ 10 ∷ [])

abbrev shared_once : Locks
shared_once = record { table = (5, shared (10 ∷ [])) ∷ []; owned = (10, 5) ∷ [] }

shares : (try_op 5 10 1 no_locks.locks).locks ≡ shared_once
unfolding try_op entry_op acquire_shared get put
shares = refl

upgrade_gives_up : (entry_op 5 10 lock_ex true both []).state ≡ shared (11 ∷ [])
unfolding entry_op acquire_exclusive contains set_remove
upgrade_gives_up = refl

upgrade_keeps : (try_op 5 10 6 (record { table = (5, both) ∷ []; owned = [] })).outcome ≡ conflict
unfolding try_op entry_op acquire_exclusive contains get
upgrade_keeps = refl

upgrades_alone : (try_op 5 10 6 shared_once).outcome ≡ acquired
unfolding try_op entry_op acquire_exclusive contains get
upgrades_alone = refl

exclusive_kept : (entry_op 5 11 lock_ex true (shared (10 ∷ [])) []).outcome ≡ conflict
unfolding entry_op acquire_exclusive contains
exclusive_kept = refl

room_made :
    (entry_op 5 11 lock_ex true (entry_op 5 10 lock_un true (shared (10 ∷ [])) []).state []).outcome
    ≡ acquired
unfolding entry_op acquire_exclusive release_in_entry contains set_remove
room_made = refl

abbrev used : Shared
used = record { locks = shared_once; closing = [] }

abbrev half_closed : Shared
half_closed = record { locks = record shared_once { owned = [] }; closing = (10, 5) ∷ [] }

used-Reach : Reach used
unfolding get
used-Reach =
    next fresh
      (operates 5 10 1 refl (inl refl) (ap (λ l. record { locks = l; closing = [] }) (sym shares)))

half_closed-Reach : Reach half_closed
unfolding drop_begin get remove
half_closed-Reach = next used-Reach (forgets 10 refl)

sharing : (entry_op 5 11 lock_sh true (shared (10 ∷ [])) []).outcome ≡ acquired
unfolding entry_op acquire_shared
sharing = refl

held_by_ten : held_in 10 (shared (10 ∷ [])) ≡ some lock_sh
unfolding held_in contains
held_by_ten = refl

entry_op-wakes_example : (entry_op 5 10 lock_un true (shared (10 ∷ [])) []).drained ≡ true
unfolding contains
entry_op-wakes_example =
    entry_op-wakes 5 10 lock_un true [] (shared (10 ∷ [])) 11 lock_ex true [] []
      (omega arith, (refl, tt)) (omega arith) exclusive_kept room_made

reachable_owners_example :
    (holds 10 5 half_closed.locks
      ≡ (records 10 5 half_closed.locks || points_to 5 (get 10 half_closed.closing)))
    × IsProper (state_of 5 half_closed.locks.table)
reachable_owners_example = reachable_owners 10 5 half_closed-Reach

held_now : held_in 10 (state_of 5 shared_once.table) ≡ some lock_sh
unfolding held_in contains get
held_now = refl
