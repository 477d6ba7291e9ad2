-- ===== src/Locks/Bsd.antt =====
-- kernel/src/vfs/locks/bsd.rs: flock locks of open file descriptions. The two maps are association
-- lists; `try_op` takes them and returns them, under the spin lock of the inode table. What
-- `drain` takes off an inode's wait queue and `wake` wakes is whether the queue is drained.
pub mod Spec
pub mod Owners
pub mod Reach
mod Tests
use cyphera_kernel.Prelude.{
  ℕ, ◌-◌, bit_and, Bool, true, false, not, ◌&&◌, ◌||◌, List, [], ◌∷◌, Option, none, some, ltb, ◌==◌,
  if◌then◌else◌, length,
}

abbrev pub lock_sh : ℕ
lock_sh = 1

abbrev pub lock_ex : ℕ
lock_ex = 2

abbrev pub lock_un : ℕ
lock_un = 8

abbrev pub lock_nb : ℕ
lock_nb = 4

-- `!LOCK_NB`
abbrev not_lock_nb : ℕ
not_lock_nb = 0xfffffffb

-- A set of descriptions is a list without repetition.
pub data FlockState : Type 0 where
  unlocked : FlockState
  shared : List ℕ → FlockState
  exclusive : ℕ → FlockState

pub data FlockOutcome : Type 0 where
  acquired conflict released : FlockOutcome

-- a map with natural keys
abbrev pub Map : Type 0 → Type 0
Map V = List (ℕ × V)

pub get : {V : Type 0} → ℕ → Map V → Option V
get k [] = none
get k ((j, v) ∷ rest) = if j == k then some v else get k rest

pub put : {V : Type 0} → ℕ → V → Map V → Map V
put k v [] = (k, v) ∷ []
put k v ((j, w) ∷ rest) = if j == k then (k, v) ∷ rest else (j, w) ∷ put k v rest

pub remove : {V : Type 0} → ℕ → Map V → Map V
remove k [] = []
remove k ((j, w) ∷ rest) = if j == k then remove k rest else (j, w) ∷ remove k rest

abbrev pub Table : Type 0
Table = Map FlockState

abbrev pub OwnedByOfd : Type 0
OwnedByOfd = Map ℕ

-- `set.contains`
pub contains : ℕ → List ℕ → Bool
contains k [] = false
contains k (j ∷ js) = (j == k) || contains k js

-- `set.insert`
pub set_insert : ℕ → List ℕ → List ℕ
set_insert k js = if contains k js then js else k ∷ js

-- what `set.remove` leaves
pub set_remove : ℕ → List ℕ → List ℕ
set_remove k [] = []
set_remove k (j ∷ js) = if j == k then set_remove k js else j ∷ set_remove k js

-- an operation on an entry: the state of the inode, the owners, the outcome, and whether the waiters
-- are drained
pub record Entry : Type 0 where
  pub state : FlockState
  pub owned : OwnedByOfd
  pub outcome : FlockOutcome
  pub drained : Bool

abbrev is_empty : List ℕ → Bool
is_empty [] = true
is_empty (j ∷ js) = false

-- an empty set of holders is no lock
abbrev settled : List ℕ → FlockState
settled js = if is_empty js then unlocked else shared js

pub acquire_shared : ℕ → ℕ → FlockState → OwnedByOfd → Entry
acquire_shared inode_id ofd_key unlocked owned = record {
  state = shared (ofd_key ∷ []);
  owned = put ofd_key inode_id owned;
  outcome = acquired;
  drained = false;
}
acquire_shared inode_id ofd_key (shared js) owned = record {
  state = shared (set_insert ofd_key js);
  owned = put ofd_key inode_id owned;
  outcome = acquired;
  drained = false;
}
acquire_shared inode_id ofd_key (exclusive holder) owned =
    if holder == ofd_key
    then record { state = shared (ofd_key ∷ []); owned = owned; outcome = acquired; drained = true }
    else record { state = exclusive holder; owned = owned; outcome = conflict; drained = false }

pub acquire_exclusive : ℕ → ℕ → Bool → FlockState → OwnedByOfd → Entry
acquire_exclusive inode_id ofd_key blocking unlocked owned = record {
  state = exclusive ofd_key;
  owned = put ofd_key inode_id owned;
  outcome = acquired;
  drained = false;
}
acquire_exclusive inode_id ofd_key blocking (shared js) owned =
    if length js == 1 && contains ofd_key js
    then record { state = exclusive ofd_key; owned = owned; outcome = acquired; drained = false }
    else if blocking && contains ofd_key js
    then record {
      state = settled (set_remove ofd_key js);
      owned = remove ofd_key owned;
      outcome = conflict;
      drained = true;
    }
    else record { state = shared js; owned = owned; outcome = conflict; drained = false }
acquire_exclusive inode_id ofd_key blocking (exclusive holder) owned = record {
  state = exclusive holder;
  owned = owned;
  outcome = if holder == ofd_key then acquired else conflict;
  drained = false;
}

-- the state, and whether the waiters are drained
pub release_in_entry : ℕ → FlockState → FlockState × Bool
release_in_entry ofd_key unlocked = (unlocked, false)
release_in_entry ofd_key (shared js) = (settled (set_remove ofd_key js), contains ofd_key js)
release_in_entry ofd_key (exclusive holder) =
    if holder == ofd_key then (unlocked, true) else (exclusive holder, false)

-- the closure of `try_op`
pub entry_op : ℕ → ℕ → ℕ → Bool → FlockState → OwnedByOfd → Entry
entry_op inode_id ofd_key kind blocking state owned =
    if kind == lock_un
    then (let (after, drained) = release_in_entry ofd_key state in
        record {
          state = after;
          owned = remove ofd_key owned;
          outcome = released;
          drained = drained;
        })
    else if kind == lock_sh
    then acquire_shared inode_id ofd_key state owned
    else if kind == lock_ex
    then acquire_exclusive inode_id ofd_key blocking state owned
    else record { state = state; owned = owned; outcome = conflict; drained = false }

-- The two maps; `wakes` holds the inode whose waiters are woken, if any.
pub record Locks : Type 0 where
  pub table : Table
  pub owned : OwnedByOfd

pub record Done : Type 0 where
  pub locks : Locks
  pub outcome : FlockOutcome
  pub woken : List ℕ

-- the state of an inode, unlocked where it has no entry
abbrev pub or_unlocked : Option FlockState → FlockState
or_unlocked none = unlocked
or_unlocked (some state) = state

abbrev pub state_of : ℕ → Table → FlockState
state_of inode_id t = or_unlocked (get inode_id t)

pub try_op : ℕ → ℕ → ℕ → Locks → Done
try_op inode_id ofd_key op g =
    let kind = bit_and op not_lock_nb in
    let blocking = bit_and op lock_nb == 0 in
    let e = entry_op inode_id ofd_key kind blocking (state_of inode_id g.table) g.owned in
    record {
      locks = record { table = put inode_id e.state g.table; owned = e.owned };
      outcome = e.outcome;
      woken = if e.drained then inode_id ∷ [] else [];
    }

-- `drop_ofd` has two sections: the record forgets the description under the record's lock, and then
-- the entry of the inode that it named is released under the table's.
abbrev pub forget : ℕ → Locks → Option ℕ → Locks × Option ℕ
forget ofd_key g none = (g, none)
forget ofd_key g (some inode_id) = (record g { owned = remove ofd_key g.owned }, some inode_id)

pub drop_begin : ℕ → Locks → Locks × Option ℕ
drop_begin ofd_key g = forget ofd_key g (get ofd_key g.owned)

pub drop_end : ℕ → ℕ → Locks → Locks × List ℕ
drop_end ofd_key inode_id g =
    let (after, drained) = release_in_entry ofd_key (state_of inode_id g.table) in
    (record g { table = put inode_id after g.table }, (if drained then inode_id ∷ [] else []))

-- both sections, with nothing in between
pub drop_named : ℕ → Locks × Option ℕ → Locks × List ℕ
drop_named ofd_key (g, none) = (g, [])
drop_named ofd_key (g, some inode_id) = drop_end ofd_key inode_id g

pub drop_ofd : ℕ → Locks → Locks × List ℕ
drop_ofd ofd_key g = drop_named ofd_key (drop_begin ofd_key g)

-- what an inode's state says that a description holds
pub held_in : ℕ → FlockState → Option ℕ
held_in ofd_key unlocked = none
held_in ofd_key (shared js) = if contains ofd_key js then some lock_sh else none
held_in ofd_key (exclusive holder) = if holder == ofd_key then some lock_ex else none

-- The entry that it makes for an inode without one is that of an unlocked inode.
pub held_kind : ℕ → Locks → Option ℕ
held_kind ofd_key g = elim (get ofd_key g.owned) [
  | none ↦ none
  | some inode_id ↦ held_in ofd_key (state_of inode_id g.table)
]
