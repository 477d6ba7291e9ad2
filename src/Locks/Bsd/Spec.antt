-- ===== src/Locks/Bsd/Spec.antt =====
-- kernel/src/vfs/locks/bsd.rs: what an operation on an entry does to what each description holds.
use cyphera_kernel.Prelude.{
  ℕ, ◌<◌, ◌≡◌, refl, ◌≢◌, ◌⊎◌, inl, inr, Bool, true, false, not, ◌&&◌, ◌||◌, List, [], ◌∷◌, Option,
  none, some, arith, ◌==◌, if◌then◌else◌, if_cases, Bool-cases, length,
}
use cyphera_kernel.Locks.Bsd.{
  lock_sh, lock_ex, lock_un, FlockState, unlocked, shared, exclusive, FlockOutcome, acquired,
  conflict, released, OwnedByOfd, contains, set_insert, set_remove, settled, Entry, acquire_shared,
  acquire_exclusive, release_in_entry, entry_op, held_in,
}

abbrev pub IsDistinct : List ℕ → Type 0
IsDistinct [] = Unit
IsDistinct (j ∷ js) = (contains j js ≡ false) × IsDistinct js

-- a set of holders is a set, and not empty
abbrev pub IsProper : FlockState → Type 0
IsProper unlocked = Unit
IsProper (shared js) = (0 < length js) × IsDistinct js
IsProper (exclusive holder) = Unit

pub contains-set_remove :
    (k j : ℕ) (js : List ℕ) → contains k (set_remove j js) ≡ (contains k js && not (k == j))
unfolding contains set_remove
contains-set_remove k j [] = refl
contains-set_remove k j (i ∷ js) = ground (arith, contains-set_remove k j js)

pub contains-set_insert :
    (k j : ℕ) (js : List ℕ) → contains k (set_insert j js) ≡ (contains k js || k == j)
unfolding contains set_insert
contains-set_insert k j js = ground arith

set_remove-IsDistinct : (j : ℕ) (js : List ℕ) → IsDistinct js → IsDistinct (set_remove j js)
unfolding set_remove
set_remove-IsDistinct j [] h = tt
set_remove-IsDistinct j (i ∷ js) (p, h) =
    if_cases IsDistinct (i == j) (λ _. set_remove-IsDistinct j js h)
      (λ _. (ground (arith, contains-set_remove i j js), set_remove-IsDistinct j js h))

-- the only member of a set of one
pub contains-single :
    (k j : ℕ) (js : List ℕ) → (length js == 1 && contains j js) ≡ true → contains k js ≡ (k == j)
unfolding contains
contains-single k j [] h = ground arith
contains-single k j (i ∷ []) h = ground arith
contains-single k j (i ∷ i' ∷ js) h = ground arith

-- another member than `j`
contains-other :
    (j : ℕ) (js : List ℕ)
    → 0 < length js
    → IsDistinct js
    → (length js == 1 && contains j js) ≡ false
    → (k : ℕ) × (k ≢ j) × (contains k js ≡ true)
unfolding contains
contains-other j [] h d e = absurd (omega arith)
contains-other j (i ∷ []) h d e = (i, ground arith, ground arith)
contains-other j (i ∷ i' ∷ js) h (p, d) e = elim (Bool-cases (i == j)) [
  | inl same ↦ (i', ground arith, ground arith)
  | inr other ↦ (i, ground arith, ground arith)
]

pub held_in-settled : (k : ℕ) (js : List ℕ) → held_in k (settled js) ≡ held_in k (shared js)
unfolding held_in contains
held_in-settled k [] = refl
held_in-settled k (j ∷ js) = refl

set_remove-absent : (j : ℕ) (js : List ℕ) → contains j js ≡ false → set_remove j js ≡ js
unfolding contains set_remove
set_remove-absent j [] h = refl
set_remove-absent j (i ∷ js) h = ground (arith, set_remove-absent j js)

settled-IsProper : (js : List ℕ) → IsDistinct js → IsProper (settled js)
settled-IsProper [] d = tt
settled-IsProper (j ∷ js) d = (omega arith, d)

set_insert-IsProper : (j : ℕ) (js : List ℕ) → IsDistinct js → IsProper (shared (set_insert j js))
unfolding set_insert contains
set_insert-IsProper j [] d = (omega arith, (refl, tt))
set_insert-IsProper j (i ∷ js) d =
    if_cases (λ ks. IsProper (shared ks)) (contains j (i ∷ js)) (λ _. (omega arith, d))
      (λ e. (omega arith, (e, d)))

pub release_in_entry-IsProper :
    (ofd_key : ℕ) (state : FlockState)
    → IsProper state
    → IsProper (release_in_entry ofd_key state).0
unfolding release_in_entry
release_in_entry-IsProper ofd_key unlocked p = tt
release_in_entry-IsProper ofd_key (shared js) p =
    settled-IsProper (set_remove ofd_key js) (set_remove-IsDistinct ofd_key js p.1)
release_in_entry-IsProper ofd_key (exclusive holder) p =
    if_cases {A = FlockState × Bool} (λ r. IsProper r.0) (holder == ofd_key) (λ _. tt) (λ _. tt)

module _ (inode_id ofd_key kind : ℕ) (blocking : Bool) (owned : OwnedByOfd) where
  abbrev op : FlockState → Entry
  op state = entry_op inode_id ofd_key kind blocking state owned

  -- What the operation's description holds afterwards is the kind that it asked for where it is
  -- granted, and nothing where it unlocks, or where a blocking upgrade of a shared lock that is
  -- refused gives the shared lock up; what it held where it is refused otherwise. Every other
  -- description holds what it held.
  abbrev pub after : ℕ → FlockState → FlockOutcome → Bool → Option ℕ
  after k state acquired drained = if k == ofd_key then some kind else held_in k state
  after k state released drained = if k == ofd_key then none else held_in k state
  after k state conflict drained = if k == ofd_key && drained then none else held_in k state

  pub entry_op-held :
      (k : ℕ) (state : FlockState)
      → held_in k (op state).state ≡ after k state (op state).outcome (op state).drained
  unfolding entry_op acquire_shared acquire_exclusive release_in_entry held_in contains
  entry_op-held k unlocked = ground arith
  entry_op-held k (shared js) = ground (
    arith,
    held_in-settled k (set_remove ofd_key js),
    contains-set_remove k ofd_key js,
    contains-set_insert k ofd_key js,
    contains-single k ofd_key js,
  )
  entry_op-held k (exclusive holder) = ground arith

  -- A request that is refused, of either kind, is refused for a lock that another description holds,
  -- where one of the two is exclusive.
  pub entry_op-refused :
      (state : FlockState)
      → IsProper state
      → (kind ≡ lock_sh) ⊎ (kind ≡ lock_ex)
      → (op state).outcome ≡ conflict
      → (k : ℕ) × (other : ℕ) × (k ≢ ofd_key)
        × (held_in k state ≡ some other)
        × ((kind ≡ lock_ex) ⊎ (other ≡ lock_ex))
  unfolding entry_op acquire_shared acquire_exclusive held_in
  entry_op-refused unlocked p h e = absurd (ground arith)
  entry_op-refused (shared js) (long, distinct) h e =
      let (k, differs, there) = contains-other ofd_key js long distinct (ground arith) in
      (k, lock_sh, differs, ground arith, ground arith)
  entry_op-refused (exclusive holder) p h e =
      (holder, lock_ex, ground arith, ground arith, inr refl)

  -- A request is granted only beside locks of other descriptions that share with it.
  pub entry_op-granted :
      (state : FlockState) (k other : ℕ)
      → (op state).outcome ≡ acquired
      → k ≢ ofd_key
      → held_in k state ≡ some other
      → (kind ≡ lock_sh) × (other ≡ lock_sh)
  unfolding entry_op acquire_shared acquire_exclusive held_in
  entry_op-granted unlocked k other e d h = absurd (ground arith)
  entry_op-granted (shared js) k other e d h = ground (arith, contains-single k ofd_key js)
  entry_op-granted (exclusive holder) k other e d h = absurd (ground arith)

  acquire_shared-IsProper :
      (state : FlockState)
      → IsProper state
      → IsProper (acquire_shared inode_id ofd_key state owned).state
  unfolding acquire_shared contains
  acquire_shared-IsProper unlocked p = (omega arith, (refl, tt))
  acquire_shared-IsProper (shared js) p = set_insert-IsProper ofd_key js p.1
  acquire_shared-IsProper (exclusive holder) p =
      if_cases (λ e. IsProper (Entry.state e)) (holder == ofd_key) (λ _. (omega arith, (refl, tt)))
        (λ _. tt)

  acquire_exclusive-IsProper :
      (state : FlockState)
      → IsProper state
      → IsProper (acquire_exclusive inode_id ofd_key blocking state owned).state
  unfolding acquire_exclusive
  acquire_exclusive-IsProper unlocked p = tt
  acquire_exclusive-IsProper (shared js) p =
      if_cases (λ e. IsProper (Entry.state e)) (length js == 1 && contains ofd_key js) (λ _. tt)
        (λ _.
          if_cases (λ e. IsProper (Entry.state e)) (blocking && contains ofd_key js)
            (λ _. settled-IsProper (set_remove ofd_key js) (set_remove-IsDistinct ofd_key js p.1))
            (λ _. p))
  acquire_exclusive-IsProper (exclusive holder) p = tt

  -- An operation leaves the set of holders a set, and not empty.
  pub entry_op-IsProper : (state : FlockState) → IsProper state → IsProper (op state).state
  unfolding entry_op
  entry_op-IsProper state p =
      if_cases (λ e. IsProper (Entry.state e)) (kind == lock_un)
        (λ _. release_in_entry-IsProper ofd_key state p)
        (λ _.
          if_cases (λ e. IsProper (Entry.state e)) (kind == lock_sh)
            (λ _. acquire_shared-IsProper state p)
            (λ _.
              if_cases (λ e. IsProper (Entry.state e)) (kind == lock_ex)
                (λ _. acquire_exclusive-IsProper state p) (λ _. p)))

  -- No wake-up is lost: where an operation makes room for a request of another description that was
  -- refused before it, the waiters are woken.
  pub entry_op-wakes :
      (state : FlockState) (k kind' : ℕ) (blocking' : Bool) (before behind : OwnedByOfd)
      → IsProper state
      → k ≢ ofd_key
      → (entry_op inode_id k kind' blocking' state before).outcome ≡ conflict
      → (entry_op inode_id k kind' blocking' (op state).state behind).outcome ≡ acquired
      → (op state).drained ≡ true
  unfolding entry_op acquire_shared acquire_exclusive release_in_entry set_insert contains
  entry_op-wakes unlocked k kind' blocking' before behind p d e f = ground arith
  entry_op-wakes (shared []) k kind' blocking' before behind p d e f = absurd (omega arith)
  entry_op-wakes (shared (i ∷ js)) k kind' blocking' before behind p d e f =
      ground (arith, set_remove-absent ofd_key (i ∷ js))
  entry_op-wakes (exclusive holder) k kind' blocking' before behind p d e f = ground arith
