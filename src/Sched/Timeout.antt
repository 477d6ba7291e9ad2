-- ===== src/Sched/Timeout.antt =====
-- kernel/src/core/timeout.rs: the sorted tables of deadlines, `DEADLINES` with processes to wake
-- and `CALLBACK_DEADLINES` with functions to call. An entry has a deadline, the process id or key
-- that it is registered under, and the function, which is nothing for a process. Where a deadline
-- stands in the table `binary_search_by_key` finds any place among its equals: `position`.
pub mod Order
mod Tests
use cyphera_kernel.Prelude.{
  ℕ, ◌+◌, ◌-◌, ◌≤◌, ◌<◌, Bool, true, false, not, ◌&&◌, List, [], ◌∷◌, ◌++◌, Option, none, some, ltb,
  leb, ◌==◌, if◌then◌else◌, take, drop, length, All,
}

pub record CallbackEntry (C : Type 0) : Type 0 where
  pub deadline : ℕ
  pub key : ℕ
  pub callback : C

module _ {C : Type 0} where
  -- no entry stands before one with an earlier deadline
  abbrev pub IsSorted : List (CallbackEntry C) → Type 0
  IsSorted [] = Unit
  IsSorted (e ∷ table) = All (λ f. e.deadline ≤ f.deadline) table × IsSorted table

  unfoldable pub retain_others : ℕ → List (CallbackEntry C) → List (CallbackEntry C)
  retain_others key [] = []
  retain_others key (e ∷ table) =
      let rest = retain_others key table in if e.key == key then rest else e ∷ rest

  -- `unregister` and `drop_pid`, `cancel_callback`; and whether something was registered
  unfoldable pub unregister : ℕ → List (CallbackEntry C) → List (CallbackEntry C) × Bool
  unregister key table =
      let rest = retain_others key table in (rest, not (length rest == length table))

  unfoldable pub next_deadline_ns : List (CallbackEntry C) → Option ℕ
  next_deadline_ns [] = none
  next_deadline_ns (e ∷ table) = some e.deadline

  -- what has expired, in order, and what is left
  unfoldable pub take_expired :
      ℕ → List (CallbackEntry C) → List (CallbackEntry C) × List (CallbackEntry C)
  take_expired now [] = ([], [])
  take_expired now (e ∷ table) =
      let (out, left) = take_expired now table in
      if ltb now e.deadline then ([], e ∷ table) else (e ∷ out, left)

  module _ (position : ℕ → List (CallbackEntry C) → ℕ) where
    -- `register` and `register_callback`
    unfoldable pub register : CallbackEntry C → List (CallbackEntry C) → List (CallbackEntry C)
    register e table =
        let others = retain_others e.key table in
        let pos = position e.deadline others in take pos others ++ (e ∷ drop pos others)

-- What `binary_search_by_key` promises of a sorted table, found or not: what stands before the place
-- is not later, and what stands from it on is not earlier.
pub record IsPosition {C : Type 0} (position : ℕ → List (CallbackEntry C) → ℕ) : Type 0 where
  pub before :
      (d : ℕ) (table : List (CallbackEntry C))
      → IsSorted table
      → All (λ e. e.deadline ≤ d) (take (position d table) table)
  pub behind :
      (d : ℕ) (table : List (CallbackEntry C))
      → IsSorted table
      → All (λ e. d ≤ e.deadline) (drop (position d table) table)
