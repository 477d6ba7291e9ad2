-- ===== src/Files/FdTable/Install.antt =====
-- kernel/src/vfs/fd.rs: `install_from`, `dup_to` and `close_cloexec`.
use cyphera_kernel.Prelude.{
  ℕ, zero, suc, ◌+◌, ◌≤◌, ◌<◌, max, ◌≡◌, refl, Bool, true, false, not, ◌&&◌, List, [], ◌∷◌, Option,
  none, some, arith, ltb, leb, ◌==◌, if◌then◌else◌, length, get_elem?, set, Errno, ◌⊎◌, ok, err,
  inval, mfile, Option-cases, inl, inr,
}
use cyphera_kernel.Files.FdTable.{
  Slot, FdTable, is_some, ensure_len, free_from, file_of, install_from, dup_to, is_cloexec,
  close_where, close_cloexec,
}
use cyphera_kernel.Files.FdTable.Lookup.{
  file_at-set, file_at-ensure_len, length-ensure_len, free_from-some, free_from-below,
  free_from-none,
}

-- the file at a place of the table
abbrev pub file_at : ℕ → FdTable → Option ℕ
file_at fd t = file_of (get_elem? t.slots fd)

past_end : (slots : List Slot) (j : ℕ) → length slots ≤ j → file_of (get_elem? slots j) ≡ none
past_end [] j h = refl
past_end (s ∷ ss) zero h = absurd (omega arith)
past_end (s ∷ ss) (suc j) h = past_end ss j (omega arith)

-- what an installation that succeeds did, for the place `i` that it picked and any other place `j`
pub record IsInstalled (file min_fd i j : ℕ) (t t' : FdTable) : Type 0 where
  pub above : min_fd ≤ i
  pub below : i < max t.soft_cap (length t.slots)
  pub free : file_at i t ≡ none
  pub lowest : (leb min_fd j && ltb j i && not (is_some (file_at j t))) ≡ false
  pub put : file_at j t' ≡ (if j == i then some file else file_at j t)

install_some :
    (file min_fd fd_flags j k : ℕ) (t : FdTable)
    → free_from 0 min_fd t.slots ≡ some k
    → IsInstalled file min_fd k j t
        (record t { slots = set t.slots k (record { file = some file; fd_flags = fd_flags }) })
install_some file min_fd fd_flags j k t e =
    let (n, at, above, short, free) = free_from-some 0 min_fd t.slots k e in
    let same : k ≡ n = omega arith in
    record {
      above = above;
      below = omega arith;
      free = rw same free;
      lowest = ground (arith, free_from-below 0 min_fd t.slots k j e);
      put =
          file_at-set t.slots k j (record { file = some file; fd_flags = fd_flags }) (omega arith);
    }

install_none :
    (file min_fd fd_flags j : ℕ) (t : FdTable)
    → free_from 0 min_fd t.slots ≡ none
    → max (length t.slots) min_fd < t.soft_cap
    → let i = max (length t.slots) min_fd in
      IsInstalled file min_fd i j t (record t {
        slots =
            set (ensure_len (i + 1) t.slots) i (record { file = some file; fd_flags = fd_flags });
      })
install_none file min_fd fd_flags j t e room =
    let i = max (length t.slots) min_fd in
    record {
      above = omega arith;
      below = omega arith;
      free = past_end t.slots i (omega arith);
      lowest = ground (arith, free_from-none 0 min_fd t.slots j e, past_end t.slots j);
      put = ground (
        arith,
        file_at-set (ensure_len (i + 1) t.slots) i j
            (record { file = some file; fd_flags = fd_flags }),
        length-ensure_len (i + 1) t.slots,
        file_at-ensure_len (i + 1) t.slots j,
      );
    }

module _ (file min_fd fd_flags : ℕ) (t : FdTable) where
  abbrev slot : Slot
  slot = record { file = some file; fd_flags = fd_flags }

  abbrev with_slot : List Slot → ℕ → FdTable
  with_slot slots i = record t { slots = set slots i slot }

  some_parts :
      (t' : FdTable) (k i : ℕ)
      → free_from 0 min_fd t.slots ≡ some k
      → install_from file min_fd fd_flags t ≡ (t', ok i)
      → (i ≡ k) × (t' ≡ with_slot t.slots k)
  unfolding install_from
  some_parts t' k i n e = ground arith

  none_parts :
      (t' : FdTable) (i : ℕ)
      → free_from 0 min_fd t.slots ≡ none
      → install_from file min_fd fd_flags t ≡ (t', ok i)
      → let at = max (length t.slots) min_fd in
        (at < t.soft_cap) × (i ≡ at) × (t' ≡ with_slot (ensure_len (at + 1) t.slots) at)
  unfolding install_from
  none_parts t' i n e = ground arith

-- A descriptor that `install_from` gives is the lowest free one from `min_fd` on, and below the soft
-- cap or within the table as it was; it then stands for the file, and every other descriptor for what
-- it stood for.
pub install_from-IsInstalled :
    (file min_fd fd_flags i j : ℕ) (t t' : FdTable)
    → install_from file min_fd fd_flags t ≡ (t', ok i)
    → IsInstalled file min_fd i j t t'
install_from-IsInstalled file min_fd fd_flags i j t t' e =
    elim (Option-cases (free_from 0 min_fd t.slots)) [
      | inl n ↦
          let (room, at, into) = none_parts file min_fd fd_flags t t' i n e in
          rw (at, into) (install_none file min_fd fd_flags j t n room)
      | inr (k, n) ↦
          let (at, into) = some_parts file min_fd fd_flags t t' k i n e in
          rw (at, into) (install_some file min_fd fd_flags j k t n)
    ]

-- Where `install_from` fails it leaves the table; it fails with EMFILE only if every descriptor from
-- `min_fd` on and below the soft cap is in use, and otherwise with EINVAL.
pub install_from-full :
    (file min_fd fd_flags j : ℕ) (t t' : FdTable) {e : Errno}
    → install_from file min_fd fd_flags t ≡ (t', err e)
    → (t' ≡ t)
      × ((e ≡ inval)
          ⊎ ((e ≡ mfile)
              × ((leb min_fd j && ltb j t.soft_cap && not (is_some (file_at j t))) ≡ false)))
unfolding install_from
install_from-full file min_fd fd_flags j t t' h = elim (Option-cases (free_from 0 min_fd t.slots)) [
  | inl n ↦ ground (arith, free_from-none 0 min_fd t.slots j n)
  | inr (k, n) ↦ ground arith
]

-- Where `dup_to` succeeds, the new descriptor stands for the file of the old one, every other for what
-- it stood for, and what is handed back is what the new one stood for, if it is another.
pub dup_to-file_at :
    (src dst fd_flags j : ℕ) (t t' : FdTable) (fd : ℕ) (displaced : Option ℕ)
    → dup_to src dst fd_flags t ≡ (t', ok (fd, displaced))
    → (fd ≡ dst)
      × (is_some (file_at src t) ≡ true)
      × (file_at j t' ≡ (if j == dst then file_at src t else file_at j t))
      × (displaced ≡ (if src == dst then none else file_at dst t))
unfolding dup_to
dup_to-file_at src dst fd_flags j t t' fd displaced h = elim (Option-cases (file_at src t)) [
  | inl n ↦ absurd (ground arith)
  | inr (f, n) ↦ ground (
    arith,
    file_at-set (ensure_len (dst + 1) t.slots) dst j
        (record { file = some f; fd_flags = fd_flags }),
    length-ensure_len (dst + 1) t.slots,
    file_at-ensure_len (dst + 1) t.slots j,
  )
]

-- whether the slot at a place is to be closed on exec
abbrev pub closes_at : List Slot → ℕ → Bool
closes_at [] j = false
closes_at (s ∷ ss) zero = is_cloexec s
closes_at (s ∷ ss) (suc j) = closes_at ss j

close_where-file_at :
    (slots : List Slot) (j : ℕ)
    → file_of (get_elem? (close_where is_cloexec slots).0 j)
      ≡ (if closes_at slots j then none else file_of (get_elem? slots j))
unfolding close_where
close_where-file_at [] j = refl
close_where-file_at (s ∷ ss) zero = ground arith
close_where-file_at (s ∷ ss) (suc j) = ground (arith, close_where-file_at ss j)

-- Exec closes exactly the descriptors whose slot has FD_CLOEXEC.
pub close_cloexec-file_at :
    (j : ℕ) (t : FdTable)
    → file_at j (close_cloexec t).0 ≡ (if closes_at t.slots j then none else file_at j t)
unfolding close_cloexec
close_cloexec-file_at j t = close_where-file_at t.slots j
