-- ===== src/Mm/FrameAlloc/Regions.antt =====
-- frame/src/mm/frame_alloc.rs: rounding to page bounds, and what is left of a region of memory once
-- the reserved ranges are taken out of it. Addresses are below 2^64.
pub mod Survives
pub mod Align
use cyphera_kernel.Prelude.{
  ℕ, ◌+◌, ◌-◌, ◌%◌, ◌^◌, max, bit_and, Bool, true, false, ◌||◌, List, [], ◌∷◌, ◌++◌, ltb, leb,
  if◌then◌else◌,
}

abbrev pub reserved_low_end : ℕ
reserved_low_end = 1048576

-- `!(align - 1)` on `u64`, of pages
abbrev pub page_mask : ℕ
page_mask = 2 ^ 64 - 1 - 4095

unfoldable pub align_down : ℕ → ℕ
align_down addr = bit_and addr page_mask

-- The sum is exact: `+` panics where it reaches 2^64, and no value is given then.
unfoldable pub align_up : ℕ → ℕ
align_up addr = bit_and (addr + 4096 - 1) page_mask

pub data E820Type : Type 0 where
  usable reserved acpi_reclaimable acpi_nvs unusable pmem_disabled pmem : E820Type

pub record MemoryRegion : Type 0 where
  pub start : ℕ
  pub end : ℕ
  pub kind : E820Type

abbrev pub is_usable_kind : E820Type → Bool
is_usable_kind usable = true
is_usable_kind reserved = false
is_usable_kind acpi_reclaimable = false
is_usable_kind acpi_nvs = false
is_usable_kind unusable = false
is_usable_kind pmem_disabled = false
is_usable_kind pmem = false

unfoldable pub is_usable : MemoryRegion → Bool
is_usable region = is_usable_kind region.kind

-- one range that survives, less the hole
unfoldable pub cut_range : ℕ → ℕ → ℕ × ℕ → List (ℕ × ℕ)
cut_range rs re (s, e) =
    if leb re s || leb e rs
    then (s, e) ∷ []
    else (if ltb s rs then (s, rs) ∷ [] else []) ++ (if ltb re e then (re, e) ∷ [] else [])

unfoldable pub cut_ranges : ℕ → ℕ → List (ℕ × ℕ) → List (ℕ × ℕ)
cut_ranges rs re [] = []
cut_ranges rs re (r ∷ surviving) = cut_range rs re r ++ cut_ranges rs re surviving

unfoldable pub cut_holes : List (ℕ × ℕ) → List (ℕ × ℕ) → List (ℕ × ℕ)
cut_holes [] surviving = surviving
cut_holes ((rs, re) ∷ holes) surviving =
    cut_holes holes (if leb re rs then surviving else cut_ranges rs re surviving)

unfoldable pub subtract_reserved : MemoryRegion → List (ℕ × ℕ) → List (ℕ × ℕ)
subtract_reserved region holes =
    let r0 = max region.start reserved_low_end in
    cut_holes holes (if ltb r0 region.end then (r0, region.end) ∷ [] else [])
