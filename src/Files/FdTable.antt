-- ===== src/Files/FdTable.antt =====
-- kernel/src/vfs/fd.rs: the table of file descriptors. An open file is its identity; an `i32` is its
-- 32-bit pattern, negative from 2^31 on. Each operation takes the table and gives it back, under its
-- spin lock.
pub mod Lookup
pub mod Install
mod Tests
use cyphera_kernel.Prelude.{
  ℕ, suc, ◌+◌, ◌-◌, ◌^◌, min, max, bit_and, Bool, true, false, not, ◌&&◌, ◌||◌, List, [], ◌∷◌, ◌++◌,
  Option, none, some, ltb, leb, ◌==◌, if◌then◌else◌, length, get_elem?, set, replicate, KResult, ok,
  err, inval, badf, mfile,
}

abbrev pub max_fds : ℕ
max_fds = 1024

abbrev pub hard_max_fds : ℕ
hard_max_fds = 65536

abbrev pub fd_cloexec : ℕ
fd_cloexec = 1

pub record Slot : Type 0 where
  pub file : Option ℕ
  pub fd_flags : ℕ

abbrev pub empty : Slot
empty = record { file = none; fd_flags = 0 }

pub record FdTable : Type 0 where
  pub slots : List Slot
  pub soft_cap : ℕ

abbrev pub new : FdTable
new = record { slots = []; soft_cap = max_fds }

unfoldable pub set_soft_cap : ℕ → FdTable → FdTable × ℕ
set_soft_cap cap t =
    let clamped = min cap hard_max_fds in (record t { soft_cap = clamped }, clamped)

abbrev pub is_negative : ℕ → Bool
is_negative fd = leb (2 ^ 31) fd

abbrev pub is_some : Option ℕ → Bool
is_some none = false
is_some (some f) = true

unfoldable pub ensure_len : ℕ → List Slot → List Slot
ensure_len len slots = slots ++ replicate (len - length slots) empty

-- the loop of `install_from`: the first free slot from `start` on, `i` being the place of the first
unfoldable pub free_from : ℕ → ℕ → List Slot → Option ℕ
free_from i start [] = none
free_from i start (s ∷ ss) =
    if leb start i && not (is_some s.file) then some i else free_from (suc i) start ss

unfoldable pub install_from : ℕ → ℕ → ℕ → FdTable → FdTable × KResult ℕ
install_from file min_fd fd_flags t =
    let slot : Slot = record { file = some file; fd_flags = fd_flags } in
    if is_negative min_fd || leb t.soft_cap min_fd
    then (t, err inval)
    else elim (free_from 0 min_fd t.slots) [
      | some i ↦ (record t { slots = set t.slots i slot }, ok i)
      | none ↦
          let i = max (length t.slots) min_fd in
          if leb t.soft_cap i
          then (t, err mfile)
          else (record t { slots = set (ensure_len (i + 1) t.slots) i slot }, ok i)
    ]

unfoldable pub install : ℕ → FdTable → FdTable × KResult ℕ
install file t = install_from file 0 0 t

unfoldable pub install_at_with : ℕ → ℕ → ℕ → FdTable → FdTable
install_at_with fd file fd_flags t = if is_negative fd || leb t.soft_cap fd then t else record t {
  slots = set (ensure_len (fd + 1) t.slots) fd (record { file = some file; fd_flags = fd_flags });
}

abbrev pub file_of : Option Slot → Option ℕ
file_of none = none
file_of (some s) = s.file

unfoldable pub get : ℕ → FdTable → Option ℕ
get fd t = if is_negative fd then none else file_of (get_elem? t.slots fd)

unfoldable pub remove : ℕ → FdTable → FdTable × Option ℕ
remove fd t =
    if is_negative fd
    then (t, none)
    else (record t { slots = set t.slots fd empty }, file_of (get_elem? t.slots fd))

unfoldable pub dup_to : ℕ → ℕ → ℕ → FdTable → FdTable × KResult (ℕ × Option ℕ)
dup_to src dst fd_flags t =
    if is_negative src || leb t.soft_cap src || is_negative dst || leb t.soft_cap dst
    then (t, err badf)
    else elim (file_of (get_elem? t.slots src)) [
      | none ↦ (t, err badf)
      | some entry ↦ if src == dst then (t, ok (dst, none)) else (
        record t {
          slots =
              set (ensure_len (dst + 1) t.slots) dst
                (record { file = some entry; fd_flags = fd_flags });
        },
        ok (dst, file_of (get_elem? t.slots dst)),
      )
    ]

abbrev pub flags_of : Option Slot → Option ℕ
flags_of none = none
flags_of (some s) = if is_some s.file then some s.fd_flags else none

unfoldable pub fd_flags_of : ℕ → FdTable → Option ℕ
fd_flags_of fd t = if is_negative fd then none else flags_of (get_elem? t.slots fd)

unfoldable pub set_fd_flags : ℕ → ℕ → FdTable → FdTable × KResult (Unit {0})
set_fd_flags fd flags t =
    if is_negative fd then (t, err badf) else elim (file_of (get_elem? t.slots fd)) [
      | none ↦ (t, err badf)
      | some f ↦
          (record t { slots = set t.slots fd (record { file = some f; fd_flags = flags }) }, ok tt)
    ]

abbrev pub is_cloexec : Slot → Bool
is_cloexec s = not (bit_and s.fd_flags fd_cloexec == 0)

abbrev pub taken_of : Option ℕ → List ℕ
taken_of none = []
taken_of (some f) = f ∷ []

-- the loop of `close_cloexec`: the slots, and the files that are taken out
unfoldable pub close_where : (Slot → Bool) → List Slot → List Slot × List ℕ
close_where test [] = ([], [])
close_where test (s ∷ ss) =
    let (rest, taken) = close_where test ss in
    if test s then (empty ∷ rest, taken_of s.file ++ taken) else (s ∷ rest, taken)

unfoldable pub close_cloexec : FdTable → FdTable × List ℕ
close_cloexec t =
    let (slots, taken) = close_where is_cloexec t.slots in (record t { slots = slots }, taken)

-- What it takes out is dropped.
unfoldable pub close_all : FdTable → FdTable × List ℕ
close_all t =
    let (slots, taken) = close_where (λ s. true) t.slots in (record t { slots = slots }, taken)

abbrev pub clone_for_child : FdTable → FdTable
clone_for_child t = record { slots = t.slots; soft_cap = t.soft_cap }
