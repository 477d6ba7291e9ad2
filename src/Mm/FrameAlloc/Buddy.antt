-- ===== src/Mm/FrameAlloc/Buddy.antt =====
-- The crate `buddy_system_allocator`, which frame/src/mm/frame_alloc.rs keeps its free frames in:
-- the operations that it calls, and what the crate documents of them.
use cyphera_kernel.Prelude.{
  ℕ, ◌+◌, ◌<◌, ◌≡◌, Bool, false, true, ◌&&◌, ◌||◌, not, Option, some, ltb, leb,
}

abbrev pub within : ℕ → ℕ → ℕ → Bool
within first count f = leb first f && ltb f (first + count)

pub record Buddy (B : Type 0) : Type 0 where
  pub none_free : B
  pub add_frame : ℕ → ℕ → B → B
  pub alloc : ℕ → B → Option (ℕ × B)
  pub dealloc : ℕ → ℕ → B → B

-- `is_free b f`: frame `f` is in a block that `b` has free. A request of `count` frames is served
-- by a block of `block count` frames, at least one.
pub record IsBuddy {B : Type 0} (buddy : Buddy B) : Type 0 where
  pub is_free : B → ℕ → Bool
  pub block : ℕ → ℕ
  pub block_pos : (count : ℕ) → 0 < block count
  pub block_one : block 1 ≡ 1
  pub none_free_lem : (f : ℕ) → is_free buddy.none_free f ≡ false
  pub add_frame_lem :
      (first last : ℕ) (b : B) (f : ℕ)
      → is_free (buddy.add_frame first last b) f ≡ (is_free b f || (leb first f && ltb f last))
  pub alloc_free :
      (count first : ℕ) (b b' : B) (f : ℕ)
      → buddy.alloc count b ≡ some (first, b')
      → within first (block count) f ≡ true
      → is_free b f ≡ true
  pub alloc_lem :
      (count first : ℕ) (b b' : B) (f : ℕ)
      → buddy.alloc count b ≡ some (first, b')
      → is_free b' f ≡ (is_free b f && not (within first (block count) f))
  pub dealloc_lem :
      (first count : ℕ) (b : B) (f : ℕ)
      → is_free (buddy.dealloc first count b) f ≡ (is_free b f || within first (block count) f)
