-- ===== src/Files/FdTable/Tests.antt =====
-- kernel/src/vfs/fd.rs on a table of four slots.
use cyphera_kernel.Prelude.{ℕ, ◌≡◌, refl, [], ◌∷◌, none, some, ok, err, inval, badf, mfile}
use cyphera_kernel.Files.FdTable.{
  Slot, empty, FdTable, ensure_len, free_from, install_from, get, remove, dup_to, set_fd_flags,
  fd_flags_of, close_where, close_cloexec, set_soft_cap,
}
use cyphera_kernel.Files.FdTable.Install.{IsInstalled, install_from-IsInstalled}

abbrev slot : ℕ → Slot
slot f = record { file = some f; fd_flags = 0 }

-- descriptors 0, 1 and 3, the last to be closed on exec
abbrev few : FdTable
few = record {
  slots = slot 70 ∷ slot 71 ∷ empty ∷ record { file = some 73; fd_flags = 1 } ∷ [];
  soft_cap = 4;
}

abbrev filled : FdTable
filled = record few {
  slots = slot 70 ∷ slot 71 ∷ slot 72 ∷ record { file = some 73; fd_flags = 1 } ∷ [];
}

fills_hole : install_from 72 0 0 few ≡ (filled, ok 2)
unfolding install_from free_from
fills_hole = refl

no_room : install_from 75 0 0 filled ≡ (filled, err mfile)
unfolding install_from free_from
no_room = refl

too_high : install_from 75 4 0 few ≡ (few, err inval)
unfolding install_from
too_high = refl

-- with the cap lowered below a hole of the table
beyond_cap : (install_from 72 0 0 (set_soft_cap 1 few).0).1 ≡ ok 2
unfolding install_from free_from set_soft_cap
beyond_cap = refl

grows : (install_from 75 6 0 (record few { soft_cap = 10 })).1 ≡ ok 6
unfolding install_from free_from
grows = refl

duplicates : dup_to 0 1 0 few ≡ (
  record few { slots = slot 70 ∷ slot 70 ∷ empty ∷ record { file = some 73; fd_flags = 1 } ∷ [] },
  ok (1, some 71),
)
unfolding dup_to ensure_len
duplicates = refl

bad_source : dup_to 2 1 0 few ≡ (few, err badf)
unfolding dup_to
bad_source = refl

removes : (remove 1 few).1 ≡ some 71
unfolding remove
removes = refl

negative : get 0xffffffff few ≡ none
unfolding get
negative = refl

flags_set : fd_flags_of 0 (set_fd_flags 0 1 few).0 ≡ some 1
unfolding fd_flags_of set_fd_flags
flags_set = refl

closed : (close_cloexec few).1 ≡ 73 ∷ []
unfolding close_cloexec close_where
closed = refl

install_from-IsInstalled_example : IsInstalled 72 0 2 1 few filled
install_from-IsInstalled_example = install_from-IsInstalled 72 0 0 2 1 few filled fills_hole
