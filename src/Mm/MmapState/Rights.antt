-- ===== src/Mm/MmapState/Rights.antt =====
-- kernel/src/process_model/memory_map.rs, `protect_range` and `lock_range`: what they do to the map
-- from addresses, and the gaps that they report.
use cyphera_kernel.Prelude.{
  ℕ, ◌≤◌, ◌<◌, min, max, ◌≡◌, refl, Bool, true, false, ◌&&◌, ◌||◌, List, [], ◌∷◌, ◌++◌, Option,
  none, some, arith, ltb, leb, if◌then◌else◌, if_cases, ◌∙◌, ap, All,
}
use cyphera_kernel.Mm.Vma.{Perms, Vma, Attached, cut, Page, page_at, page_at-cut, page_at-end}
use cyphera_kernel.Mm.MmapState.Cases.{change_parts_cases}
use cyphera_kernel.Mm.MmapState.Order.{Above, sort_by_start-Above, change_loop-Above}
use cyphera_kernel.Mm.MmapState.View.{page, within, page-below}
use cyphera_kernel.Mm.MmapState.Checked.{IsBackedBelow, protect_range_checked, change_fits_lem}
use cyphera_kernel.Mm.MmapState.{
  Change, MmapState, change_parts, change_loop, protect_range, lock_range, set_prot, set_locked,
}

abbrev pub turn_page : (Page → Page) → Option Page → Option Page
turn_page turn none = none
turn_page turn (some p) = some (turn p)

abbrev pub is_none : Option Page → Bool
is_none none = true
is_none (some p) = false

abbrev pub in_gaps : ℕ → List (ℕ × ℕ) → Bool
in_gaps a [] = false
in_gaps a ((lo, hi) ∷ gaps) = within lo hi a || in_gaps a gaps

module _ (lo hi a : ℕ) (proper : lo < hi) (change : Vma → Vma) (turn : Page → Page)
    (same : (w : Vma) → ((change w).start ≡ w.start) × ((change w).end ≡ w.end))
    (turns : (w : Vma) → page_at (change w) a ≡ turn (page_at w a)) where
  -- what the ranges say behind the change
  abbrev turned : List Vma → Option Page
  turned vs = if within lo hi a then turn_page turn (page vs a) else page vs a

  change_parts-page :
      (v : Vma) (vs rest : List Vma)
      → Above v.end vs
      → v.start < v.end
      → lo < v.end
      → v.start < hi
      → page rest a ≡ turned vs
      → page (change_parts change lo hi v ++ rest) a ≡ turned (v ∷ vs)
  unfolding cut
  change_parts-page v vs rest h q in_lo in_hi ih =
      change_parts_cases lo hi v change (λ ps. page (ps ++ rest) a ≡ turned (v ∷ vs))
        (λ p r. ground (
          arith,
          page-below v.end a vs h,
          same (cut v v.start v.end),
          turns (cut v v.start v.end),
          page_at-cut v v.start v.end a,
        ))
        (λ p r. ground (
          arith,
          page-below v.end a vs h,
          same (cut v lo hi),
          turns (cut v lo hi),
          page_at-cut v lo hi a,
          page_at-cut v hi v.end a,
          page_at-end v lo a,
        ))
        (λ p r. ground (
          arith,
          page-below v.end a vs h,
          same (cut v lo v.end),
          turns (cut v lo v.end),
          page_at-cut v lo v.end a,
          page_at-end v lo a,
        ))
        (λ p r. ground (
          arith,
          page-below v.end a vs h,
          same (cut v v.start hi),
          turns (cut v v.start hi),
          page_at-cut v v.start hi a,
          page_at-cut v hi v.end a,
        ))

  pub change_loop-page :
      (low covered_to : ℕ) (vs : List Vma) (counts : Attached)
      → Above low vs
      → page (change_loop change lo hi covered_to vs counts).vmas a ≡ turned vs
  unfolding change_loop
  change_loop-page low covered_to [] counts h = ground arith
  change_loop-page low covered_to (v ∷ vs) counts (p, q, h) =
      if_cases {A = Change} (λ c. page c.vmas a ≡ turned (v ∷ vs)) (leb v.end lo || leb hi v.start)
        (λ out.
          ground (arith, change_loop-page v.end covered_to vs counts h, page-below v.end a vs h))
        (λ meets.
          change_parts-page v vs _ h q (ground arith) (ground arith)
            (change_loop-page v.end _ vs _ h))

in_gaps-head :
    (a lo hi : ℕ) (gaps : List (ℕ × ℕ))
    → in_gaps a ((if ltb lo hi then (lo, hi) ∷ [] else []) ++ gaps)
      ≡ (within lo hi a || in_gaps a gaps)
in_gaps-head a lo hi gaps =
    if_cases (λ g. in_gaps a (g ++ gaps) ≡ (within lo hi a || in_gaps a gaps)) (ltb lo hi)
      (λ _. refl) (λ h. ground arith)

module _ (lo hi a : ℕ) (proper : lo < hi) (change : Vma → Vma) where
  gaps_meet :
      (v : Vma) (vs : List Vma) (covered_to : ℕ)
      → Above v.end vs
      → v.start < v.end
      → lo ≤ covered_to
      → (leb v.end lo || leb hi v.start) ≡ false
      → (within covered_to v.start a
          || (within (max covered_to (min v.end hi)) hi a && is_none (page vs a)))
        ≡ (within covered_to hi a && is_none (page (v ∷ vs) a))
  gaps_meet v vs covered_to h q k meets = ground (arith, page-below v.end a vs h)

  pub change_loop-gaps :
      (low covered_to : ℕ) (vs : List Vma) (counts : Attached)
      → Above low vs
      → lo ≤ covered_to
      → in_gaps a (change_loop change lo hi covered_to vs counts).gaps
        ≡ (within covered_to hi a && is_none (page vs a))
  unfolding change_loop
  change_loop-gaps low covered_to [] counts h k = ground arith
  change_loop-gaps low covered_to (v ∷ vs) counts (p, q, h) k =
      if_cases {A = Change}
        (λ c. in_gaps a c.gaps ≡ (within covered_to hi a && is_none (page (v ∷ vs) a)))
        (leb v.end lo || leb hi v.start)
        (λ out.
          ground (arith, change_loop-gaps v.end covered_to vs counts h k, page-below v.end a vs h))
        (λ meets.
          in_gaps-head a covered_to v.start _
          ∙ (ap (◌||◌ (within covered_to v.start a))
                (change_loop-gaps v.end (max covered_to (min v.end hi)) vs _ h (omega arith))
              ∙ gaps_meet v vs covered_to h q k meets))

turn_prot :
    (prot : Perms) (a : ℕ) (w : Vma)
    → page_at (set_prot prot w) a ≡ record (page_at w a) { prot = prot }
unfolding page_at
turn_prot prot a w = refl

turn_locked :
    (set : Bool) (a : ℕ) (w : Vma)
    → page_at (set_locked set w) a
      ≡ record (page_at w a) { flags = record ((page_at w a).flags) { locked = set } }
unfolding page_at
turn_locked set a w = refl

-- Where the ranges are in order, and what each maps ends below 2^64 in its file or segment, the change
-- of rights in a window that is not empty returns, without a panic: the new rights hold exactly in
-- the window, where something is mapped, and nothing else changes; the gaps that are reported are
-- exactly the addresses of the window at which nothing is mapped.
pub protect_range-page :
    (lo hi : ℕ) (prot : Perms) (m : MmapState) (counts : Attached) (a : ℕ)
    → Above 0 m.vmas
    → All IsBackedBelow m.vmas
    → lo < hi
    → (protect_range_checked lo hi prot m counts ≡ some (protect_range lo hi prot m counts))
      × (page (protect_range lo hi prot m counts).state.vmas a ≡ (
          if within lo hi a
          then turn_page (λ p. record p { prot = prot }) (page m.vmas a)
          else page m.vmas a))
      × (in_gaps a (protect_range lo hi prot m counts).gaps
          ≡ (within lo hi a && is_none (page m.vmas a)))
unfolding protect_range_checked protect_range
protect_range-page lo hi prot m counts a h backed proper = (
  rw (change_fits_lem lo hi m.vmas backed),
  rw
      (sort_by_start-Above 0 _
        (change_loop-Above lo hi proper (set_prot prot) (λ w. (refl, refl)) 0 lo m.vmas counts h))
      (change_loop-page lo hi a proper (set_prot prot) (λ p. record p { prot = prot })
        (λ w. (refl, refl)) (turn_prot prot a) 0 lo m.vmas counts h),
  change_loop-gaps lo hi a proper (set_prot prot) 0 lo m.vmas counts h (omega arith),
)

-- Locking or unlocking sets the flag exactly in the window, where something is mapped, and changes
-- nothing else; the gaps are the addresses of the window at which nothing is mapped.
pub lock_range-page :
    (lo hi : ℕ) (set : Bool) (m : MmapState) (counts : Attached) (a : ℕ)
    → Above 0 m.vmas
    → lo < hi
    → (page (lock_range lo hi set m counts).state.vmas a ≡ (
        if within lo hi a
        then turn_page (λ p. record p { flags = record (p.flags) { locked = set } }) (page m.vmas a)
        else page m.vmas a))
      × (in_gaps a (lock_range lo hi set m counts).gaps
          ≡ (within lo hi a && is_none (page m.vmas a)))
unfolding lock_range
lock_range-page lo hi set m counts a h proper = (
  rw
      (sort_by_start-Above 0 _
        (change_loop-Above lo hi proper (set_locked set) (λ w. (refl, refl)) 0 lo m.vmas counts h))
      (change_loop-page lo hi a proper (set_locked set)
        (λ p. record p { flags = record (p.flags) { locked = set } }) (λ w. (refl, refl))
        (turn_locked set a) 0 lo m.vmas counts h),
  change_loop-gaps lo hi a proper (set_locked set) 0 lo m.vmas counts h (omega arith),
)
