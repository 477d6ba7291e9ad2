-- ===== src/Mm/MmapState/Gap.antt =====
-- kernel/src/process_model/memory_map.rs, `find_gap`: the addresses that mmap picks are free, and
-- where it picks none there is no room in the arena.
use cyphera_kernel.Prelude.{
  ℕ, ◌+◌, ◌-◌, ◌^◌, ◌≤◌, ◌<◌, max, ◌≡◌, refl, true, false, List, [], ◌∷◌, none, some, arith, All,
}
use cyphera_kernel.Mm.Vma.{Vma}
use cyphera_kernel.Mm.MmapState.Order.{Above}
use cyphera_kernel.Mm.MmapState.{MmapState, meets, overlaps, try_find, find_gap}

-- no range reaches the top of the address space
abbrev pub IsLow : List Vma → Type 0
IsLow = All (λ v. v.end < 2 ^ 64)

-- nothing of ranges that start at `lo` or above is below it
pub meets-Above : (lo a b : ℕ) (vs : List Vma) → Above lo vs → b ≤ lo → meets a b vs ≡ false
unfolding meets
meets-Above lo a b [] h k = refl
meets-Above lo a b (v ∷ vs) (p, q, h) k = ground (arith, meets-Above v.end a b vs h)

module _ (len hi : ℕ) (some_len : 0 < len) (hi_low : hi < 2 ^ 64 - 1) where
  try_find-free :
      (low prev_end : ℕ) (vs : List Vma) (a : ℕ)
      → Above low vs
      → IsLow vs
      → try_find len hi prev_end vs ≡ some a
      → (prev_end ≤ a) × (meets a (a + len) vs ≡ false)
  unfolding try_find meets
  try_find-free low prev_end [] a h l e = ground arith
  try_find-free low prev_end (v ∷ vs) a (p, q, h) (l, ls) e = ground (
    arith,
    try_find-free v.end prev_end vs a h ls,
    try_find-free v.end (max prev_end v.end) vs a h ls,
    meets-Above v.end prev_end (prev_end + len) vs h,
  )

  -- A result ends within the arena, unless it stands below some range that starts above its end.
  try_find-fits :
      (low prev_end : ℕ) (vs : List Vma) (a : ℕ)
      → Above low vs
      → All (λ v. v.start ≤ hi) vs
      → try_find len hi prev_end vs ≡ some a
      → a + len ≤ hi
  unfolding try_find
  try_find-fits low prev_end [] a h l e = ground arith
  try_find-fits low prev_end (v ∷ vs) a (p, q, h) (l, ls) e = ground (
    arith,
    try_find-fits v.end prev_end vs a h ls,
    try_find-fits v.end (max prev_end v.end) vs a h ls,
  )

  try_find-full :
      (low prev_end : ℕ) (vs : List Vma) (a : ℕ)
      → Above low vs
      → IsLow vs
      → try_find len hi prev_end vs ≡ none
      → prev_end ≤ a
      → a + len ≤ hi
      → meets a (a + len) vs ≡ true
  unfolding try_find meets
  try_find-full low prev_end [] a h l e k fits = absurd (ground arith)
  try_find-full low prev_end (v ∷ vs) a (p, q, h) (l, ls) e k fits = ground (
    arith,
    try_find-full v.end prev_end vs a h ls,
    try_find-full v.end (max prev_end v.end) vs a h ls,
  )

module _ (len : ℕ) (m : MmapState) (some_len : 0 < len) (hi_low : m.arena_hi < 2 ^ 64 - 1)
    (ordered : Above 0 m.vmas) (low : IsLow m.vmas) where
  -- The start that `find_gap` picks for `len` bytes, at least one, is not below the arena, and no
  -- range meets the `len` addresses from it. (The ranges are in order, none reaches 2^64, and the arena ends below
  -- 2^64 - 1.)
  pub find_gap-free :
      {a : ℕ} → find_gap len m ≡ some a → (m.arena_lo ≤ a) × (overlaps a (a + len) m ≡ false)
  unfolding find_gap overlaps
  find_gap-free {a} e = ground (
    arith,
    try_find-free len m.arena_hi some_len hi_low 0 (max m.last_end m.arena_lo) m.vmas a ordered low,
    try_find-free len m.arena_hi some_len hi_low 0 m.arena_lo m.vmas a ordered low,
  )

  -- If moreover no range starts above the end of the arena, the gap ends within the arena.
  pub find_gap-fits :
      {a : ℕ}
      → All (λ v. v.start ≤ m.arena_hi) m.vmas
      → find_gap len m ≡ some a
      → a + len ≤ m.arena_hi
  unfolding find_gap
  find_gap-fits {a} starts e = ground (
    arith,
    try_find-fits len m.arena_hi some_len hi_low 0 (max m.last_end m.arena_lo) m.vmas a ordered
        starts,
    try_find-fits len m.arena_hi some_len hi_low 0 m.arena_lo m.vmas a ordered starts,
  )

  -- Where `find_gap` picks none, there is no room: some range meets every stretch of `len` addresses
  -- of the arena.
  pub find_gap-full :
      (a : ℕ)
      → find_gap len m ≡ none
      → m.arena_lo ≤ a
      → a + len ≤ m.arena_hi
      → overlaps a (a + len) m ≡ true
  unfolding find_gap overlaps
  find_gap-full a e k fits =
      ground (arith, try_find-full len m.arena_hi some_len hi_low 0 m.arena_lo m.vmas a ordered low)
