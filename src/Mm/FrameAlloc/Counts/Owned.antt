-- ===== src/Mm/FrameAlloc/Counts/Owned.antt =====
-- frame/src/mm/frame_alloc.rs: who holds the frames. The holders keep `held f` references to frame
-- `f`, which the code does not see; the table counts them, until a count sticks at 65535.
use cyphera_kernel.Prelude.{
  ℕ, zero, suc, ◌≤◌, ◌<◌, ◌≡◌, refl, ap, subst, true, false, ◌&&◌, List, [], ◌∷◌, ltb, ◌==◌,
  if◌then◌else◌, arith, length, some, Option-cases, inl, inr, get_elem?, set, length-set,
  get_elem?-lt, lt_of_get_elem?,
}
use cyphera_kernel.Mm.FrameAlloc.Buddy.{Buddy, IsBuddy}
use cyphera_kernel.Mm.FrameAlloc.Counts.{
  FrameState, refcount_slot, slot_of, store_count, take_block, u16_max,
}

-- the references once those to `frame` are `count`
abbrev pub with_held : ℕ → ℕ → (ℕ → ℕ) → ℕ → ℕ
with_held frame count held f = if f == frame then count else held f

pub get_elem?-set :
    (table : List ℕ) (i f v : ℕ)
    → get_elem? (set table i v) f
      ≡ (if f == i && ltb i (length table) then some v else get_elem? table f)
get_elem?-set [] i f v = ground arith
get_elem?-set (c ∷ table) zero zero v = ground arith
get_elem?-set (c ∷ table) zero (suc f) v = ground arith
get_elem?-set (c ∷ table) (suc i) zero v = ground arith
get_elem?-set (c ∷ table) (suc i) (suc f) v = ground (arith, get_elem?-set table i f v)

module _ {B : Type 0} (buddy : Buddy B) (laws : IsBuddy buddy) where
  pub record IsCounted (s : FrameState B) (held : ℕ → ℕ) : Type 0 where
    pub table : List ℕ
    pub is_table : s.refcounts ≡ some table
    pub covered : (f : ℕ) → laws.is_free s.frames f ≡ true → f < length table
    pub unheld : (f : ℕ) → laws.is_free s.frames f ≡ true → held f ≡ 0
    pub tracked : (f : ℕ) → 0 < held f → f < length table
    pub counted :
        (f c : ℕ) → get_elem? table f ≡ some c → (c ≤ u16_max) × (c < u16_max → c ≡ held f)

  take_block-IsCounted :
      (count in_use frame : ℕ) (frames : B) (s : FrameState B) (held : ℕ → ℕ)
      → buddy.alloc count s.frames ≡ some (frame, frames)
      → IsCounted s held
      → IsCounted (take_block buddy in_use s (some (frame, frames))).0 (with_held frame 1 held)
  unfolding take_block store_count
  take_block-IsCounted count in_use frame frames s held e h =
      let first : laws.is_free s.frames frame ≡ true =
        laws.alloc_free count frame s.frames frames frame e
          (ground (arith, laws.block_pos count)) in
      record {
        table = set h.table frame 1;
        is_table = rw h.is_table refl;
        covered = λ f p. ground (
          arith,
          length-set h.table frame 1,
          laws.alloc_lem count frame s.frames frames f e,
          h.covered f,
        );
        unheld = λ f p. ground (
          arith,
          laws.block_pos count,
          laws.alloc_lem count frame s.frames frames f e,
          h.unheld f,
        );
        tracked =
            λ f p. ground (arith, length-set h.table frame 1, h.tracked f, h.covered frame first);
        counted = λ f c p.
            ground (arith, get_elem?-set h.table frame f 1, h.counted f c, h.covered frame first);
      }

  pub taken-IsCounted :
      (count in_use frame : ℕ) (s s' : FrameState B) (held : ℕ → ℕ)
      → take_block buddy in_use s (buddy.alloc count s.frames) ≡ (s', some frame)
      → IsCounted s held
      → IsCounted s' (with_held frame 1 held)
  unfolding take_block
  taken-IsCounted count in_use frame s s' held e h =
      elim (Option-cases (buddy.alloc count s.frames)) [
        | inl full ↦ absurd (ground arith)
        | inr ((got, frames), found) ↦
            let step : (take_block buddy in_use s (some (got, frames))) ≡ (s', some frame) =
              subst (λ o. take_block buddy in_use s o ≡ (s', some frame)) found e in
            let same : got ≡ frame = cc in
            let state : (take_block buddy in_use s (some (got, frames))).0 ≡ s' =
              ap (λ r. r.0) step in
            subst (λ x. IsCounted x (with_held frame 1 held)) state
              (subst
                (λ x.
                  IsCounted (take_block buddy in_use s (some (got, frames))).0 (with_held x 1 held))
                same (take_block-IsCounted count in_use got frames s held found h))
      ]

  -- A count and the free frames, changed along with the references.
  pub IsCounted-with :
      (s : FrameState B) (frame v n cur in_use : ℕ) (b : B) (held : ℕ → ℕ) (h : IsCounted s held)
      → get_elem? h.table frame ≡ some cur
      → (v ≤ u16_max) × (v < u16_max → v ≡ n)
      → ((f : ℕ) → laws.is_free b f ≡ true → (f < length h.table) × (with_held frame n held f ≡ 0))
      → IsCounted
          (record s {
            frames = b;
            frames_in_use = in_use;
            refcounts = store_count s.refcounts frame v;
          })
          (with_held frame n held)
  unfolding store_count
  IsCounted-with s frame v n cur in_use b held h found (small, is_n) free = record {
    table = set h.table frame v;
    is_table = rw h.is_table refl;
    covered = λ f q. ground (arith, length-set h.table frame v, free f);
    unheld = λ f q. (free f q).1;
    tracked = λ f q.
        ground
          (arith, length-set h.table frame v, h.tracked f, lt_of_get_elem? h.table frame found);
    counted = λ f c q. ground (
      arith,
      get_elem?-set h.table frame f v,
      h.counted f c,
      is_n,
      lt_of_get_elem? h.table frame found,
    );
  }

  pub IsCounted-as :
      (s : FrameState B) (frame v n cur : ℕ) (held : ℕ → ℕ) (h : IsCounted s held)
      → get_elem? h.table frame ≡ some cur
      → (v ≤ u16_max) × (v < u16_max → v ≡ n)
      → laws.is_free s.frames frame ≡ false
      → IsCounted
          (record s { refcounts = store_count s.refcounts frame v })
          (with_held frame n held)
  IsCounted-as s frame v n cur held h found is_n out =
      IsCounted-with s frame v n cur s.frames_in_use s.frames held h found is_n
        (λ f q. ground (arith, h.covered f, h.unheld f, out))

  -- A count that sticks says nothing of the references.
  pub stuck_as :
      (s : FrameState B) (frame n : ℕ) (held : ℕ → ℕ) (h : IsCounted s held)
      → get_elem? h.table frame ≡ some u16_max
      → (laws.is_free s.frames frame ≡ true → n ≡ 0)
      → IsCounted s (with_held frame n held)
  stuck_as s frame n held h found free = record {
    table = h.table;
    is_table = h.is_table;
    covered = h.covered;
    unheld = λ f q. ground (arith, free, h.unheld f);
    tracked = λ f q. ground (arith, h.tracked f, lt_of_get_elem? h.table frame found);
    counted = λ f c q. ground (arith, h.counted f c);
  }

  pub slot_found :
      (s : FrameState B) (frame : ℕ) (held : ℕ → ℕ) (h : IsCounted s held)
      → 0 < held frame
      → (cur : ℕ) × (get_elem? h.table frame ≡ some cur)
        × (refcount_slot buddy frame s ≡ some cur)
        × (laws.is_free s.frames frame ≡ false)
  unfolding refcount_slot slot_of
  slot_found s frame held h p =
      let (cur, found) = get_elem?-lt h.table frame (h.tracked frame p) in
      (cur, found, rw h.is_table found, ground (arith, h.unheld frame))
