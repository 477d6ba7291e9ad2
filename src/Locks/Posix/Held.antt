-- ===== src/Locks/Posix/Held.antt =====
-- kernel/src/vfs/locks/posix.rs: which owner holds which byte, and what each operation does to that.
use cyphera_kernel.Prelude.{
  ℕ, ◌≤◌, ◌<◌, ◌≡◌, refl, ◌≢◌, inl, inr, Bool, true, not, ◌&&◌, ◌||◌, List, [], ◌∷◌, ◌++◌, Option,
  none, some, arith, ltb, leb, ◌==◌, if◌then◌else◌, All, Bool-cases,
}
use cyphera_kernel.Locks.Posix.{
  FileLock, meets, retained, pieces, split, split_owner_range, without, f_wrlck,
}
use cyphera_kernel.Locks.Posix.Ranges.{Compatible, IsCompatible}

abbrev pub covers : FileLock → ℕ → ℕ → Bool
covers l owner byte = l.owner == owner && (leb l.start byte && ltb byte l.end)

-- the kind of the lock that an owner holds at a byte
abbrev pub held : ℕ → ℕ → List FileLock → Option ℕ
held owner byte [] = none
held owner byte (l ∷ ls) = if covers l owner byte then some l.kind else held owner byte ls

abbrev or_else : Option ℕ → Option ℕ → Option ℕ
or_else none o = o
or_else (some k) o = some k

held-append :
    (owner byte : ℕ) (ls ks : List FileLock)
    → held owner byte (ls ++ ks) ≡ or_else (held owner byte ls) (held owner byte ks)
held-append owner byte [] ks = refl
held-append owner byte (l ∷ ls) ks = ground (arith, held-append owner byte ls ks)

-- Beside a lock of its own over a byte, an owner holds no other there.
held-none :
    (l : FileLock) (owner byte : ℕ) (ls : List FileLock)
    → All (Compatible l) ls
    → covers l owner byte ≡ true
    → held owner byte ls ≡ none
held-none l owner byte [] h c = refl
held-none l owner byte (m ∷ ms) (p, h) c = ground (arith, held-none l owner byte ms h c)

module _ (start end owner : ℕ) (proper : start ≤ end) (o byte : ℕ) where
  abbrev in_range : Bool
  in_range = o == owner && (leb start byte && ltb byte end)

  held-pieces :
      (l : FileLock)
      → l.owner ≡ owner
      → start < l.end
      → l.start < end
      → held o byte (pieces start end owner l)
        ≡ (if in_range then none else if covers l o byte then some l.kind else none)
  unfolding pieces
  held-pieces l e p q = ground arith

  held-split :
      (ls : List FileLock)
      → IsCompatible ls
      → held o byte (split_owner_range start end owner ls)
        ≡ (if in_range then none else held o byte ls)
  unfolding split_owner_range retained split
  held-split [] h = ground arith
  held-split (l ∷ ls) (p, h) =
      elim (Bool-cases (not (l.owner == owner) || not (meets l start end))) [
        | inl other ↦ rw other (ground (arith, held-split ls h))
        | inr own ↦ rw own (
            let r = retained start end owner ls in
            let d = split start end owner ls in
            let ps = pieces start end owner l in
            ground (
              arith,
              held-append o byte r (ps ++ d),
              held-append o byte ps d,
              held-append o byte r d,
              held-pieces l (ground arith) (ground arith) (ground arith),
              held-split ls h,
              held-none l o byte ls p,
            ))
      ]

-- Unlocking a range takes exactly its bytes from the owner; every other byte and owner keeps what it
-- had.
pub held-split_owner_range :
    (start end owner o byte : ℕ) (ls : List FileLock)
    → start ≤ end
    → IsCompatible ls
    → held o byte (split_owner_range start end owner ls)
      ≡ (if o == owner && (leb start byte && ltb byte end) then none else held o byte ls)
held-split_owner_range start end owner o byte ls proper h =
    held-split start end owner proper o byte ls h

-- A new lock behind the split gives the owner its kind over its bytes, in place of what the owner
-- held there, and changes nothing else.
pub held-put :
    (probe : FileLock) (o byte : ℕ) (ls : List FileLock)
    → probe.start ≤ probe.end
    → IsCompatible ls
    → held o byte (split_owner_range probe.start probe.end probe.owner ls ++ probe ∷ [])
      ≡ (if covers probe o byte then some probe.kind else held o byte ls)
held-put probe o byte ls proper h = ground (
  arith,
  held-append o byte (split_owner_range probe.start probe.end probe.owner ls) (probe ∷ []),
  held-split probe.start probe.end probe.owner proper o byte ls h,
)

pub held-without :
    (pid o byte : ℕ) (ls : List FileLock)
    → held o byte (without pid ls) ≡ (if o == pid then none else held o byte ls)
unfolding without
held-without pid o byte [] = ground arith
held-without pid o byte (l ∷ ls) = ground (arith, held-without pid o byte ls)

alone :
    (l : FileLock) (o byte : ℕ) (ls : List FileLock)
    → All (Compatible l) ls
    → l.start ≤ byte
    → byte < l.end
    → l.kind ≡ f_wrlck
    → held o byte ls ≡ none
alone l o byte [] h p q w = refl
alone l o byte (m ∷ ms) (c, h) p q w = ground (arith, alone l o byte ms h p q w)

-- no write lock stands beside a lock of another owner
beside :
    (l : FileLock) (o byte : ℕ) (ls : List FileLock)
    → All (Compatible l) ls
    → l.start ≤ byte
    → byte < l.end
    → held o byte ls ≢ some f_wrlck
beside l o byte [] h p q e = ground arith
beside l o byte (m ∷ ms) (c, h) p q e = ground (arith, beside l o byte ms h p q)

-- A byte that one owner holds for writing is held by no other.
pub write_lock_alone :
    (ls : List FileLock) (o o' byte : ℕ)
    → IsCompatible ls
    → held o byte ls ≡ some f_wrlck
    → o ≢ o'
    → held o' byte ls ≡ none
write_lock_alone [] o o' byte h e d = refl
write_lock_alone (l ∷ ls) o o' byte (c, h) e d =
    ground (arith, write_lock_alone ls o o' byte h, alone l o' byte ls c, beside l o byte ls c)
