-- ===== src/Locks/Bsd/Owners.antt =====
-- kernel/src/vfs/locks/bsd.rs: `OWNED_BY_OFD` against the table. An open file description belongs to
-- one inode: it operates on no other while it is on record with one.
use cyphera_kernel.Prelude.{
  ℕ, ◌≡◌, refl, ◌≢◌, ◌⊎◌, inl, inr, Bool, true, false, [], ◌∷◌, Option, none, some, arith, ◌==◌,
  if◌then◌else◌, if_cases, Bool-cases, ◌∙◌, sym, subst, ap,
}
use cyphera_kernel.Locks.Bsd.{
  FlockState, unlocked, shared, exclusive, FlockOutcome, acquired, conflict, released, Map, get,
  put, remove, Table, OwnedByOfd, contains, set_remove, acquire_shared, acquire_exclusive,
  release_in_entry, entry_op, Locks, state_of, forget, drop_begin, drop_end, drop_named, drop_ofd,
  held_in,
}
use cyphera_kernel.Locks.Bsd.Spec.{
  IsProper, entry_op-held, after, contains-set_remove, contains-set_insert, held_in-settled,
}

pub get-put :
    {V : Type 0} (j k : ℕ) (v : V) (m : Map V)
    → get j (put k v m) ≡ (if k == j then some v else get j m)
unfolding get put
get-put j k v [] = refl
get-put j k v ((i, w) ∷ rest) = ground (arith, get-put j k v rest)

pub get-remove :
    {V : Type 0} (j k : ℕ) (m : Map V) → get j (remove k m) ≡ (if k == j then none else get j m)
unfolding get remove
get-remove j k [] = ground arith
get-remove j k ((i, w) ∷ rest) = ground (arith, get-remove j k rest)

pub state_of-put :
    (i j : ℕ) (state : FlockState) (t : Table)
    → state_of j (put i state t) ≡ (if i == j then state else state_of j t)
state_of-put i j state t = ground (arith, get-put j i state t)

abbrev pub is_some : Option ℕ → Bool
is_some none = false
is_some (some n) = true

abbrev pub points_to : ℕ → Option ℕ → Bool
points_to inode_id none = false
points_to inode_id (some i) = i == inode_id

-- A description holds a lock on an inode exactly where the record names that inode.
abbrev pub holds : ℕ → ℕ → Locks → Bool
holds ofd inode_id g = is_some (held_in ofd (state_of inode_id g.table))

abbrev pub records : ℕ → ℕ → Locks → Bool
records ofd inode_id g = points_to inode_id (get ofd g.owned)

-- the description is on record with no other inode
abbrev pub IsAt : ℕ → ℕ → OwnedByOfd → Type 0
IsAt ofd inode_id owned = (get ofd owned ≡ none) ⊎ (get ofd owned ≡ some inode_id)

-- what an operation on the entry of `inode_id` does to the record
module _ (inode_id ofd_key kind : ℕ) (blocking : Bool) (owned : OwnedByOfd)
    (at : IsAt ofd_key inode_id owned) where
  pub entry_op-owned :
      (k : ℕ) (state : FlockState)
      → is_some (held_in ofd_key state) ≡ points_to inode_id (get ofd_key owned)
      → get k (entry_op inode_id ofd_key kind blocking state owned).owned ≡ (
          if k == ofd_key
          then (if is_some
                (held_in ofd_key (entry_op inode_id ofd_key kind blocking state owned).state)
              then some inode_id
              else none)
          else get k owned)
  unfolding entry_op acquire_shared acquire_exclusive release_in_entry held_in contains
  entry_op-owned k unlocked h =
      ground (arith, get-put k ofd_key inode_id owned, get-remove k ofd_key owned)
  entry_op-owned k (shared js) h = ground (
    arith,
    get-put k ofd_key inode_id owned,
    get-remove k ofd_key owned,
    contains-set_remove ofd_key ofd_key js,
    contains-set_insert ofd_key ofd_key js,
    held_in-settled ofd_key (set_remove ofd_key js),
  )
  entry_op-owned k (exclusive holder) h = ground (arith, get-remove k ofd_key owned)

pub release_in_entry-held :
    (ofd_key k : ℕ) (state : FlockState)
    → held_in k (release_in_entry ofd_key state).0
      ≡ (if k == ofd_key then none else held_in k state)
unfolding release_in_entry held_in
release_in_entry-held ofd_key k unlocked = ground arith
release_in_entry-held ofd_key k (shared js) =
    ground (arith, held_in-settled k (set_remove ofd_key js), contains-set_remove k ofd_key js)
release_in_entry-held ofd_key k (exclusive holder) = ground arith

-- the table and the record agree
abbrev pub IsConsistent : Locks → Type 0
IsConsistent g = (ofd inode_id : ℕ) → holds ofd inode_id g ≡ records ofd inode_id g

-- one description's lock on one inode changes, on record
module _ (inode_id ofd_key : ℕ) (g : Locks) (at : IsAt ofd_key inode_id g.owned)
    (h : IsConsistent g) (state : FlockState) (owned : OwnedByOfd)
    (others : (k : ℕ) → k ≢ ofd_key → held_in k state ≡ held_in k (state_of inode_id g.table))
    (record_of : (k : ℕ)
      → get k owned ≡ (
          if k == ofd_key
          then (if is_some (held_in ofd_key state) then some inode_id else none)
          else get k g.owned)) where
  pub put-IsConsistent : IsConsistent (record { table = put inode_id state g.table; owned = owned })
  put-IsConsistent o i = elim (Bool-cases (inode_id == i)) [
    | inl same ↦
        rw (state_of-put inode_id i state g.table, same)
          (elim (Bool-cases (o == ofd_key)) [
            | inl own ↦ ground (arith, record_of o)
            | inr other ↦ ground (arith, record_of o, others o, h o i)
          ])
    | inr apart ↦
        rw (state_of-put inode_id i state g.table, apart)
          (elim (Bool-cases (o == ofd_key)) [
            | inl own ↦ ground (arith, record_of o, h o i)
            | inr other ↦ ground (arith, record_of o, h o i)
          ])
  ]

after-other :
    (inode_id ofd_key kind : ℕ) (blocking : Bool) (owned : OwnedByOfd) (k : ℕ) (state : FlockState)
    (outcome : FlockOutcome) (drained : Bool)
    → k ≢ ofd_key
    → after inode_id ofd_key kind blocking owned k state outcome drained ≡ held_in k state
after-other inode_id ofd_key kind blocking owned k state acquired drained d = ground arith
after-other inode_id ofd_key kind blocking owned k state conflict drained d = ground arith
after-other inode_id ofd_key kind blocking owned k state released drained d = ground arith

pub entry_op-others :
    (inode_id ofd_key kind : ℕ) (blocking : Bool) (owned : OwnedByOfd) (state : FlockState) (k : ℕ)
    → k ≢ ofd_key
    → held_in k (entry_op inode_id ofd_key kind blocking state owned).state ≡ held_in k state
entry_op-others inode_id ofd_key kind blocking owned state k d =
    entry_op-held inode_id ofd_key kind blocking owned k state
    ∙ after-other inode_id ofd_key kind blocking owned k state _ _ d

pub drop_ofd-at :
    (ofd_key inode_id : ℕ) (g : Locks)
    → get ofd_key g.owned ≡ some inode_id
    → (drop_ofd ofd_key g).0 ≡ record {
      table = put inode_id (release_in_entry ofd_key (state_of inode_id g.table)).0 g.table;
      owned = remove ofd_key g.owned;
    }
unfolding drop_ofd drop_begin drop_named drop_end
drop_ofd-at ofd_key inode_id g e = ap (λ o. (drop_named ofd_key (forget ofd_key g o)).0) e

pub drop_ofd-none :
    (ofd_key : ℕ) (g : Locks) → get ofd_key g.owned ≡ none → (drop_ofd ofd_key g).0 ≡ g
unfolding drop_ofd drop_begin drop_named drop_end
drop_ofd-none ofd_key g e = ap (λ o. (drop_named ofd_key (forget ofd_key g o)).0) e

pub IsProper-put :
    (i j : ℕ) (state : FlockState) (t : Table)
    → IsProper state
    → IsProper (state_of j t)
    → IsProper (state_of j (put i state t))
IsProper-put i j state t p q =
    subst IsProper (sym (state_of-put i j state t))
      (if_cases {A = FlockState} IsProper (i == j) (λ _. p) (λ _. q))
