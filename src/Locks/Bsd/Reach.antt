-- ===== src/Locks/Bsd/Reach.antt =====
-- kernel/src/vfs/locks/bsd.rs: the states that the table and the record of owners can reach.
use cyphera_kernel.Prelude.{
  ℕ, ◌≡◌, refl, inl, inr, ◌||◌, ◌⊎◌, [], ◌∷◌, ◌++◌, Option, none, some, arith, ◌==◌, if◌then◌else◌,
  if_cases, Option-cases, bit_and, sym, subst, ◌∙◌, ap,
}
use cyphera_kernel.Locks.Bsd.{
  lock_nb, not_lock_nb, get, remove, OwnedByOfd, release_in_entry, entry_op, Locks, state_of,
  try_op, drop_begin, drop_end, drop_ofd, held_in, held_kind,
}
use cyphera_kernel.Locks.Bsd.Spec.{IsProper, entry_op-IsProper, release_in_entry-IsProper}
use cyphera_kernel.Locks.Bsd.Owners.{
  IsConsistent, IsAt, is_some, points_to, holds, records, get-remove, entry_op-owned,
  entry_op-others, put-IsConsistent, IsProper-put, drop_ofd-at, drop_ofd-none,
  release_in_entry-held, state_of-put,
}

-- The two maps, and the descriptions that are being closed: `drop_ofd` has taken each off the record
-- and not yet freed what it held on the inode that the record named.
pub record Shared : Type 0 where
  pub locks : Locks
  pub closing : OwnedByOfd

abbrev note : ℕ → Option ℕ → OwnedByOfd → OwnedByOfd
note ofd_key none closing = closing
note ofd_key (some inode_id) closing = (ofd_key, inode_id) ∷ closing

-- The sections of the operations, as the system calls and the last close of a description make them:
-- a description that is being closed operates no more.
pub data Step (s s' : Shared) : Type 0 where
  operates :
      (inode_id ofd_key op : ℕ)
      → get ofd_key s.closing ≡ none
      → IsAt ofd_key inode_id s.locks.owned
      → s' ≡ record s { locks = (try_op inode_id ofd_key op s.locks).locks }
      → Step s s'
  forgets :
      (ofd_key : ℕ)
      → s' ≡ record {
        locks = (drop_begin ofd_key s.locks).0;
        closing = note ofd_key (drop_begin ofd_key s.locks).1 s.closing;
      }
      → Step s s'
  frees :
      (ofd_key inode_id : ℕ)
      → get ofd_key s.closing ≡ some inode_id
      → s' ≡ record {
        locks = (drop_end ofd_key inode_id s.locks).0;
        closing = remove ofd_key s.closing;
      }
      → Step s s'

abbrev pub no_locks : Shared
no_locks = record { locks = record { table = []; owned = [] }; closing = [] }

pub data Reach : Shared → Type 0 where
  fresh : Reach no_locks
  next : {s s' : Shared} → Reach s → Step s s' → Reach s'

abbrev or_next : Option ℕ → Option ℕ → Option ℕ
or_next none o = o
or_next (some i) o = some i

get-append : (k : ℕ) (m n : OwnedByOfd) → get k (m ++ n) ≡ or_next (get k m) (get k n)
unfolding get
get-append k [] n = refl
get-append k ((j, i) ∷ m) n =
    if_cases (λ o. o ≡ or_next (if j == k then some i else get k m) (get k n)) (j == k) (λ t. rw t)
      (λ t. rw t (get-append k m n))

-- the maps, with what is being closed still on record
abbrev known : Shared → Locks
known s = record { table = s.locks.table; owned = s.closing ++ s.locks.owned }

record IsSound (s : Shared) : Type 0 where
  agrees : IsConsistent (known s)
  apart : (k i : ℕ) → get k s.closing ≡ some i → get k s.locks.owned ≡ none
  proper : (i : ℕ) → IsProper (state_of i s.locks.table)

operates-IsSound :
    (inode_id ofd_key op : ℕ) (s : Shared)
    → get ofd_key s.closing ≡ none
    → IsAt ofd_key inode_id s.locks.owned
    → IsSound s
    → IsSound (record s { locks = (try_op inode_id ofd_key op s.locks).locks })
unfolding try_op
operates-IsSound inode_id ofd_key op s still at h =
    let kind = bit_and op not_lock_nb in
    let blocking = bit_and op lock_nb == 0 in
    let state = state_of inode_id s.locks.table in
    let all = get-append ofd_key s.closing s.locks.owned in
    let same : get ofd_key (s.closing ++ s.locks.owned) ≡ get ofd_key s.locks.owned =
      ground (arith, all) in
    let own : is_some (held_in ofd_key state) ≡ points_to inode_id (get ofd_key s.locks.owned) =
      h.agrees ofd_key inode_id ∙ ap (points_to inode_id) same in
    let owned' = (entry_op inode_id ofd_key kind blocking state s.locks.owned).owned in
    let changed =
      λ (k : ℕ). entry_op-owned inode_id ofd_key kind blocking s.locks.owned at k state own in
    record {
      agrees =
          put-IsConsistent inode_id ofd_key (known s)
            (subst (λ o. (o ≡ none) ⊎ (o ≡ some inode_id)) (sym same) at) h.agrees _ _
            (entry_op-others inode_id ofd_key kind blocking s.locks.owned state)
            (λ k. ground (
              arith,
              get-append k s.closing owned',
              get-append k s.closing s.locks.owned,
              changed k,
            ));
      apart = λ k i e. ground (arith, changed k, h.apart k i e);
      proper = λ i.
          IsProper-put inode_id i _ s.locks.table
            (entry_op-IsProper inode_id ofd_key kind blocking s.locks.owned state
              (h.proper inode_id))
            (h.proper i);
    }

-- a description that is on record is not being closed
on_record :
    (k i : ℕ) (s : Shared) → IsSound s → get k s.locks.owned ≡ some i → get k s.closing ≡ none
on_record k i s h e = elim (Option-cases (get k s.closing)) [
  | inl q ↦ q
  | inr (j, q) ↦ absurd (ground (arith, h.apart k j q))
]

still_known :
    (ofd_key at k : ℕ) (closing owned : OwnedByOfd)
    → get ofd_key owned ≡ some at
    → get ofd_key closing ≡ none
    → get k (closing ++ owned) ≡ get k (((ofd_key, at) ∷ closing) ++ remove ofd_key owned)
unfolding get
still_known ofd_key at k closing owned e q = ground (
  arith,
  get-append k closing owned,
  get-append k closing (remove ofd_key owned),
  get-remove k ofd_key owned,
)

still_apart :
    (ofd_key at k i : ℕ) (closing owned : OwnedByOfd)
    → (get k closing ≡ some i → get k owned ≡ none)
    → get k ((ofd_key, at) ∷ closing) ≡ some i
    → get k (remove ofd_key owned) ≡ none
unfolding get
still_apart ofd_key at k i closing owned h t = ground (arith, get-remove k ofd_key owned, h)

-- Taking a description off the record changes nothing of what is known.
forgets-IsSound :
    (ofd_key : ℕ) (s : Shared)
    → IsSound s
    → IsSound (record {
      locks = (drop_begin ofd_key s.locks).0;
      closing = note ofd_key (drop_begin ofd_key s.locks).1 s.closing;
    })
unfolding drop_begin
forgets-IsSound ofd_key s h = elim (Option-cases (get ofd_key s.locks.owned)) [
  | inl e ↦ rw (e, drop_begin) h
  | inr (at, e) ↦
      rw (e, drop_begin)
        (let q = on_record ofd_key at s h e in
          record {
            agrees = λ o i.
                h.agrees o i
                ∙ ap (points_to i) (still_known ofd_key at o s.closing s.locks.owned e q);
            apart = λ k i t. still_apart ofd_key at k i s.closing s.locks.owned (h.apart k i) t;
            proper = h.proper;
          })
]

frees-IsSound :
    (ofd_key inode_id : ℕ) (s : Shared)
    → get ofd_key s.closing ≡ some inode_id
    → IsSound s
    → IsSound (record {
      locks = (drop_end ofd_key inode_id s.locks).0;
      closing = remove ofd_key s.closing;
    })
unfolding drop_end
frees-IsSound ofd_key inode_id s e h =
    let state = state_of inode_id s.locks.table in
    let none_left = h.apart ofd_key inode_id e in
    record {
      agrees =
          put-IsConsistent inode_id ofd_key (known s)
            (inr (ground (arith, get-append ofd_key s.closing s.locks.owned))) h.agrees _ _
            (λ k d. ground (arith, release_in_entry-held ofd_key k state))
            (λ k. ground (
              arith,
              get-append k (remove ofd_key s.closing) s.locks.owned,
              get-append k s.closing s.locks.owned,
              get-remove k ofd_key s.closing,
              release_in_entry-held ofd_key ofd_key state,
            ));
      apart = λ k i t. ground (arith, get-remove k ofd_key s.closing, h.apart k i);
      proper = λ i.
          IsProper-put inode_id i _ s.locks.table
            (release_in_entry-IsProper ofd_key state (h.proper inode_id)) (h.proper i);
    }

Step-IsSound : {s s' : Shared} → Step s s' → IsSound s → IsSound s'
Step-IsSound {s} (operates inode_id ofd_key op still at e) h =
    subst IsSound (sym e) (operates-IsSound inode_id ofd_key op s still at h)
Step-IsSound {s} (forgets ofd_key e) h = subst IsSound (sym e) (forgets-IsSound ofd_key s h)
Step-IsSound {s} (frees ofd_key inode_id t e) h =
    subst IsSound (sym e) (frees-IsSound ofd_key inode_id s t h)

Reach-IsSound : {s : Shared} → Reach s → IsSound s
unfolding get held_in
Reach-IsSound fresh = record { agrees = λ o i. refl; apart = λ k i e. refl; proper = λ i. tt }
Reach-IsSound (next r st) = Step-IsSound st (Reach-IsSound r)

-- In every state that the sections of the operations reach, a description holds a lock on an inode
-- exactly where the record of owners names that inode for it, or where the description is being
-- closed and the record named that inode before; and the inode's holders are a set that is not empty.
pub reachable_owners :
    {s : Shared} (ofd inode_id : ℕ)
    → Reach s
    → (holds ofd inode_id s.locks
        ≡ (records ofd inode_id s.locks || points_to inode_id (get ofd s.closing)))
      × IsProper (state_of inode_id s.locks.table)
reachable_owners {s} ofd inode_id r =
    let h = Reach-IsSound r in
    (
      h.agrees ofd inode_id ∙ elim (Option-cases (get ofd s.closing)) [
        | inl e ↦ ground (arith, get-append ofd s.closing s.locks.owned)
        | inr (i, e) ↦ ground (arith, get-append ofd s.closing s.locks.owned, h.apart ofd i e)
      ],
      h.proper inode_id,
    )

-- Where the record agrees with the table, the last close of a description frees what it holds,
-- whichever inode that is on, and nothing else.
pub drop_ofd-held :
    (g : Locks) (ofd_key ofd inode_id : ℕ)
    → IsConsistent g
    → held_in ofd (state_of inode_id (drop_ofd ofd_key g).0.table)
      ≡ (if ofd == ofd_key then none else held_in ofd (state_of inode_id g.table))
drop_ofd-held g ofd_key ofd i r =
    let h = r in
    elim (Option-cases (get ofd_key g.owned)) [
      | inl e ↦ ground (arith, drop_ofd-none ofd_key g e, h ofd i)
      | inr (at, e) ↦ rw (drop_ofd-at ofd_key at g e) (
          ground (
            arith,
            state_of-put at i (release_in_entry ofd_key (state_of at g.table)).0 g.table,
            release_in_entry-held ofd_key ofd (state_of at g.table),
            h ofd i,
          ))
    ]

-- Where the record agrees with the table, `held_kind` finds what a description holds on whichever
-- inode it holds it.
pub held_kind-held :
    (g : Locks) (ofd inode_id kind : ℕ)
    → IsConsistent g
    → held_in ofd (state_of inode_id g.table) ≡ some kind
    → held_kind ofd g ≡ some kind
unfolding held_kind
held_kind-held g ofd inode_id kind r e =
    let h = r ofd inode_id in
    elim (Option-cases (get ofd g.owned)) [
      | inl q ↦ ground arith
      | inr (i, q) ↦ let same : i ≡ inode_id = ground arith in rw (q, held_kind, same) e
    ]
