-- ===== src/Mm/FrameAlloc/Boot/Pool.antt =====
-- frame/src/mm/frame_alloc.rs: the pool of low frames, with `alloc_low_frame` and
-- `release_low_pool`.
use cyphera_kernel.Prelude.{
  ℕ, zero, suc, ◌+◌, ◌-◌, ◌*◌, ◌/◌, ◌≤◌, ◌<◌, ◌≡◌, refl, true, ◌&&◌, List, [], ◌∷◌, ltb, leb, arith,
  length, All, some, none, Option, Bool-cases, inl, inr, if_cases,
}
use cyphera_kernel.Mm.FrameAlloc.Buddy.{Buddy, IsBuddy}
use cyphera_kernel.Mm.FrameAlloc.Regions.{
  MemoryRegion, is_usable, subtract_reserved, align_up, align_down,
}
use cyphera_kernel.Mm.FrameAlloc.Boot.{
  Donation, Module, fill_low_pool, give_to_buddy, donate_range, donate_ranges, donate_regions, init,
  reserved_buf, low_limit, low_pool_cap,
}
use cyphera_kernel.Mm.FrameAlloc.Boot.Donated.{contains, is_given}

-- The last frame of the pool, and the pool without it.
unfoldable pub alloc_low_frame : List ℕ → Option (ℕ × List ℕ)
alloc_low_frame [] = none
alloc_low_frame (frame ∷ frames) = some (frame, frames)

module _ {B : Type 0} (buddy : Buddy B) where
  -- The pool is handed on from its first frame to its last.
  unfoldable pub release_each : List ℕ → B → B
  release_each [] b = b
  release_each (frame ∷ frames) b =
      buddy.add_frame (frame / 4096) (frame / 4096 + 1) (release_each frames b)

  unfoldable pub release_low_pool : Donation B → Donation B
  release_low_pool d = record d {
    frames = release_each d.low_pool d.frames;
    low_pool = [];
    total_donated_frames = d.total_donated_frames + length d.low_pool;
  }

-- The pool is within its array, and each of its frames is a page below the limit.
pub record IsLowPool (pool : List ℕ) : Type 0 where
  pub fits_array : length pool ≤ low_pool_cap
  pub low : All (λ frame. frame < low_limit) pool

fill_low_pool-IsLowPool :
    (room start end : ℕ) (frames : List ℕ)
    → length frames + room ≤ low_pool_cap
    → All (λ frame. frame < low_limit) frames
    → IsLowPool (fill_low_pool room start end frames).0
unfolding fill_low_pool
fill_low_pool-IsLowPool zero start end frames h l = record { fits_array = omega arith; low = l }
fill_low_pool-IsLowPool (suc room) start end frames h l =
    elim (Bool-cases (ltb start low_limit && leb (start + 4096) end)) [
      | inr stop ↦ rw stop record { fits_array = omega arith; low = l }
      | inl more ↦ rw more (
          fill_low_pool-IsLowPool room (start + 4096) end (start ∷ frames) (omega arith)
            (ground arith, l))
    ]

module _ {B : Type 0} (buddy : Buddy B) where
  donate_range-IsLowPool :
      (start end : ℕ) (d : Donation B)
      → IsLowPool d.low_pool
      → IsLowPool (donate_range buddy start end d).low_pool
  unfolding donate_range give_to_buddy
  donate_range-IsLowPool start end d h = elim (Bool-cases (leb end start)) [
    | inl none_left ↦ rw none_left h
    | inr some_left ↦
        let room = low_pool_cap - length d.low_pool in
        let filled =
          fill_low_pool-IsLowPool room start end d.low_pool (omega (arith, h.fits_array)) h.low in
        rw some_left (
          if_cases (λ (r : Donation B). IsLowPool r.low_pool)
            (leb end (fill_low_pool room start end d.low_pool).1) (λ _. filled) (λ _. filled))
  ]

  donate_ranges-IsLowPool :
      (ranges : List (ℕ × ℕ)) (d : Donation B)
      → IsLowPool d.low_pool
      → IsLowPool (donate_ranges buddy ranges d).low_pool
  unfolding donate_ranges
  donate_ranges-IsLowPool [] d h = h
  donate_ranges-IsLowPool ((s, e) ∷ ranges) d h =
      donate_ranges-IsLowPool ranges (donate_range buddy (align_up s) (align_down e) d)
        (donate_range-IsLowPool (align_up s) (align_down e) d h)

  donate_regions-IsLowPool :
      (reserved : List (ℕ × ℕ)) (regions : List MemoryRegion) (d : Donation B)
      → IsLowPool d.low_pool
      → IsLowPool (donate_regions buddy reserved regions d).low_pool
  unfolding donate_regions
  donate_regions-IsLowPool reserved [] d h = h
  donate_regions-IsLowPool reserved (r ∷ regions) d h =
      donate_regions-IsLowPool reserved regions _ (
        if_cases (λ (e : Donation B). IsLowPool e.low_pool) (is_usable r)
          (λ _. donate_ranges-IsLowPool (subtract_reserved r reserved) d h) (λ _. h))

  -- After `init` the pool holds at most 520 frames, each of them below 1 GiB.
  pub init-IsLowPool :
      (kernel_start kernel_end : ℕ) (modules : List Module) (memory_map : List MemoryRegion)
      → IsLowPool (init buddy kernel_start kernel_end modules memory_map).low_pool
  unfolding init
  init-IsLowPool kernel_start kernel_end modules memory_map =
      donate_regions-IsLowPool (reserved_buf kernel_start kernel_end modules) memory_map _
        (record { fits_array = omega arith; low = tt })

module _ {B : Type 0} (buddy : Buddy B) (laws : IsBuddy buddy) where
  release_each-is_free :
      (frames : List ℕ) (b : B) (f : ℕ)
      → laws.is_free b f ≡ true
      → laws.is_free (release_each buddy frames b) f ≡ true
  unfolding release_each
  release_each-is_free [] b f h = h
  release_each-is_free (frame ∷ frames) b f h = ground (
    arith,
    release_each-is_free frames b f h,
    laws.add_frame_lem (frame / 4096) (frame / 4096 + 1) (release_each buddy frames b) f,
  )

  release_each-contains :
      (frames : List ℕ) (b : B) (f : ℕ)
      → contains (f * 4096) frames ≡ true
      → laws.is_free (release_each buddy frames b) f ≡ true
  unfolding release_each contains
  release_each-contains [] b f h = cc
  release_each-contains (frame ∷ frames) b f h = ground (
    arith,
    λ (t : contains (f * 4096) frames ≡ true). release_each-contains frames b f t,
    laws.add_frame_lem (frame / 4096) (frame / 4096 + 1) (release_each buddy frames b) f,
  )

  -- A frame that was in the pool or free is free once the pool is released, and the pool is empty.
  pub release_low_pool-is_free :
      (d : Donation B) (f : ℕ)
      → is_given buddy laws f d ≡ true
      → (laws.is_free (release_low_pool buddy d).frames f ≡ true)
        × ((release_low_pool buddy d).low_pool ≡ [])
  unfolding release_low_pool is_given
  release_low_pool-is_free d f h = (
    ground (
      arith,
      λ (t : contains (f * 4096) d.low_pool ≡ true). release_each-contains d.low_pool d.frames f t,
      λ (t : laws.is_free d.frames f ≡ true). release_each-is_free d.low_pool d.frames f t,
    ),
    refl,
  )
