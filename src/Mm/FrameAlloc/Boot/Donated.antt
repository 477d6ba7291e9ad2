-- ===== src/Mm/FrameAlloc/Boot/Donated.antt =====
-- frame/src/mm/frame_alloc.rs: which frames `init` gives to the pool or to the buddy allocator.
use cyphera_kernel.Prelude.{
  ℕ, zero, suc, ◌+◌, ◌-◌, ◌*◌, ◌/◌, ◌%◌, ◌^◌, ◌≤◌, ◌<◌, max, ◌≡◌, Bool, false, ◌&&◌, ◌||◌, List, [],
  ◌∷◌, ◌++◌, All, if_cases, ltb, leb, ◌==◌, if◌then◌else◌, arith, length, Bool-cases, inl, inr,
}
use cyphera_kernel.Mm.FrameAlloc.Buddy.{Buddy, IsBuddy}
use cyphera_kernel.Mm.FrameAlloc.Regions.{
  MemoryRegion, is_usable, subtract_reserved, cut_range, cut_ranges, cut_holes, reserved_low_end,
  align_up, align_down,
}
use cyphera_kernel.Mm.FrameAlloc.Regions.Align.{align_up_lem, align_down_lem}
use cyphera_kernel.Mm.FrameAlloc.Boot.{
  Donation, Module, fill_low_pool, give_to_buddy, donate_range, donate_ranges, donate_regions, init,
  reserved_buf, low_limit, low_pool_cap,
}

unfoldable pub contains : ℕ → List ℕ → Bool
contains f [] = false
contains f (x ∷ xs) = f == x || contains f xs

-- whether one of the ranges holds the whole page of the frame
unfoldable pub fits : ℕ → List (ℕ × ℕ) → Bool
fits f [] = false
fits f ((s, e) ∷ ranges) = (leb s (f * 4096) && leb (f * 4096 + 4096) e) || fits f ranges

-- whether a usable region has room for the frame beside the reserved ranges
unfoldable pub usable_frame : List (ℕ × ℕ) → ℕ → List MemoryRegion → Bool
usable_frame reserved f [] = false
usable_frame reserved f (r ∷ regions) =
    (is_usable r && fits f (subtract_reserved r reserved)) || usable_frame reserved f regions

record Filled (start end : ℕ) (frames pool : List ℕ) (next room : ℕ) : Type 0 where
  from : start ≤ next
  to : next ≤ end
  aligned : next % 4096 ≡ 0
  bounded : length pool ≤ length frames + room
  has :
      (f : ℕ)
      → contains (f * 4096) pool
        ≡ (contains (f * 4096) frames || (leb start (f * 4096) && ltb (f * 4096) next))

fill_low_pool-Filled :
    (room start end : ℕ) (frames : List ℕ)
    → start % 4096 ≡ 0
    → start ≤ end
    → let r = fill_low_pool room start end frames in Filled start end frames r.0 r.1 room
unfolding fill_low_pool contains
fill_low_pool-Filled zero start end frames h l = record {
  from = omega arith;
  to = l;
  aligned = h;
  bounded = omega arith;
  has = λ f. ground arith;
}
fill_low_pool-Filled (suc room) start end frames h l =
    elim (Bool-cases (ltb start low_limit && leb (start + 4096) end)) [
      | inr stop ↦ rw stop record {
        from = omega arith;
        to = l;
        aligned = h;
        bounded = omega arith;
        has = λ f. ground arith;
      }
      | inl more ↦
          let ih =
            fill_low_pool-Filled room (start + 4096) end (start ∷ frames) (omega arith)
              (ground arith) in
          rw more record {
            from = omega (arith, ih.from);
            to = ih.to;
            aligned = ih.aligned;
            bounded = omega (arith, ih.bounded);
            has = λ f. ground (arith, ih.has f, ih.from);
          }
    ]

-- Each range stands within memory that page rounding does not wrap.
abbrev pub Ends : List (ℕ × ℕ) → Type 0
Ends [] = Unit
Ends ((s, e) ∷ ranges) = (s + 4095 < 2 ^ 64) × (e + 4095 < 2 ^ 64) × Ends ranges

Ends-append : (xs ys : List (ℕ × ℕ)) → Ends xs → Ends ys → Ends (xs ++ ys)
Ends-append [] ys hx hy = hy
Ends-append ((s, e) ∷ xs) ys (hs, he, hx) hy = (hs, he, Ends-append xs ys hx hy)

Ends-cut_range :
    (rs re s e : ℕ) → s + 4095 < 2 ^ 64 → e + 4095 < 2 ^ 64 → Ends (cut_range rs re (s, e))
unfolding cut_range
Ends-cut_range rs re s e hs he = ground arith

Ends-cut_ranges : (rs re : ℕ) (ranges : List (ℕ × ℕ)) → Ends ranges → Ends (cut_ranges rs re ranges)
unfolding cut_ranges
Ends-cut_ranges rs re [] h = tt
Ends-cut_ranges rs re ((s, e) ∷ ranges) (hs, he, h) =
    Ends-append (cut_range rs re (s, e)) (cut_ranges rs re ranges) (Ends-cut_range rs re s e hs he)
      (Ends-cut_ranges rs re ranges h)

Ends-cut_holes : (holes ranges : List (ℕ × ℕ)) → Ends ranges → Ends (cut_holes holes ranges)
unfolding cut_holes
Ends-cut_holes [] ranges h = h
Ends-cut_holes ((rs, re) ∷ holes) ranges h =
    Ends-cut_holes holes (if leb re rs then ranges else cut_ranges rs re ranges)
      (if_cases Ends (leb re rs) (λ _. h) (λ _. Ends-cut_ranges rs re ranges h))

subtract_reserved-Ends :
    (region : MemoryRegion) (reserved : List (ℕ × ℕ))
    → region.end + 4095 < 2 ^ 64
    → Ends (subtract_reserved region reserved)
unfolding subtract_reserved
subtract_reserved-Ends region reserved h = Ends-cut_holes reserved _ (
    if_cases Ends (ltb (max region.start reserved_low_end) region.end) (λ l. (ground arith, h, tt))
      (λ _. tt))

-- Every usable region of the map ends a page below 2^64.
abbrev pub Mapped : List MemoryRegion → Type 0
Mapped = All (λ r. r.end + 4095 < 2 ^ 64)

module _ {B : Type 0} (buddy : Buddy B) (laws : IsBuddy buddy) where
  -- whether the frame is in the pool or free in the buddy allocator
  unfoldable pub is_given : ℕ → Donation B → Bool
  is_given f d = contains (f * 4096) d.low_pool || laws.is_free d.frames f

  donate_range-given :
      (start end : ℕ) (d : Donation B) (f : ℕ)
      → start % 4096 ≡ 0
      → end % 4096 ≡ 0
      → is_given f (donate_range buddy start end d)
        ≡ (is_given f d || (leb start (f * 4096) && leb (f * 4096 + 4096) end))
  unfolding is_given donate_range give_to_buddy
  donate_range-given start end d f hs he = elim (Bool-cases (leb end start)) [
    | inl none_left ↦ rw none_left (ground arith)
    | inr some_left ↦
        let r = fill_low_pool (low_pool_cap - length d.low_pool) start end d.low_pool in
        let filled =
          fill_low_pool-Filled (low_pool_cap - length d.low_pool) start end d.low_pool hs
            (ground arith) in
        rw some_left (
          ground (
            arith,
            filled.from,
            filled.to,
            filled.aligned,
            filled.has f,
            laws.add_frame_lem (r.1 / 4096) (end / 4096) d.frames f,
          ))
  ]

  donate_ranges-given :
      (ranges : List (ℕ × ℕ)) (d : Donation B) (f : ℕ)
      → Ends ranges
      → is_given f (donate_ranges buddy ranges d) ≡ (is_given f d || fits f ranges)
  unfolding donate_ranges fits
  donate_ranges-given [] d f h = ground arith
  donate_ranges-given ((s, e) ∷ ranges) d f (hs, he, h) =
      let up = align_up_lem s hs in
      let down = align_down_lem e (omega arith) in
      ground (
        arith,
        up,
        down,
        donate_range-given (align_up s) (align_down e) d f (omega (arith, up))
            (omega (arith, down)),
        donate_ranges-given ranges (donate_range buddy (align_up s) (align_down e) d) f h,
      )

  donate_regions-given :
      (reserved : List (ℕ × ℕ)) (regions : List MemoryRegion) (d : Donation B) (f : ℕ)
      → Mapped regions
      → is_given f (donate_regions buddy reserved regions d)
        ≡ (is_given f d || usable_frame reserved f regions)
  unfolding donate_regions usable_frame
  donate_regions-given reserved [] d f h = ground arith
  donate_regions-given reserved (r ∷ regions) d f (hr, h) = elim (Bool-cases (is_usable r)) [
    | inr other ↦ rw other (donate_regions-given reserved regions d f h)
    | inl here ↦ rw here (
        ground (
          arith,
          donate_regions-given reserved regions
              (donate_ranges buddy (subtract_reserved r reserved) d) f h,
          donate_ranges-given (subtract_reserved r reserved) d f
              (subtract_reserved-Ends r reserved hr),
        ))
  ]

  -- After `init` a frame is in the pool or free in the buddy allocator exactly where a usable region
  -- of the memory map holds its whole page, above 1 MiB and beside the reserved ranges.
  pub init-given :
      (kernel_start kernel_end : ℕ) (modules : List Module) (memory_map : List MemoryRegion) (f : ℕ)
      → Mapped memory_map
      → is_given f (init buddy kernel_start kernel_end modules memory_map)
        ≡ usable_frame (reserved_buf kernel_start kernel_end modules) f memory_map
  unfolding init is_given contains
  init-given kernel_start kernel_end modules memory_map f h = ground (
    arith,
    donate_regions-given (reserved_buf kernel_start kernel_end modules) memory_map
        (record { frames = buddy.none_free; low_pool = []; total_donated_frames = 0 }) f h,
    laws.none_free_lem f,
  )
