-- ===== src/Files/FdTable/Lookup.antt =====
-- kernel/src/vfs/fd.rs: what stands at a descriptor after a write, a growth of the table, or a close.
use cyphera_kernel.Prelude.{
  ℕ, zero, suc, ◌+◌, ◌-◌, ◌≤◌, ◌<◌, ◌≡◌, refl, true, not, ◌&&◌, List, [], ◌∷◌, ◌++◌, none, some,
  arith, leb, ◌==◌, if◌then◌else◌, length, get_elem?, set, replicate, ap, Bool-cases, inl, inr,
}
use cyphera_kernel.Files.FdTable.{Slot, empty, is_some, ensure_len, free_from, file_of}

pub file_at-set :
    (slots : List Slot) (i j : ℕ) (s : Slot)
    → i < length slots
    → file_of (get_elem? (set slots i s) j)
      ≡ (if j == i then s.file else file_of (get_elem? slots j))
file_at-set [] i j s h = absurd (omega arith)
file_at-set (r ∷ rs) zero zero s h = refl
file_at-set (r ∷ rs) zero (suc j) s h = ground arith
file_at-set (r ∷ rs) (suc i) zero s h = ground arith
file_at-set (r ∷ rs) (suc i) (suc j) s h = ground (arith, file_at-set rs i j s)

file_at-replicate : (n j : ℕ) → file_of (get_elem? (replicate n empty) j) ≡ none
file_at-replicate zero j = refl
file_at-replicate (suc n) zero = refl
file_at-replicate (suc n) (suc j) = file_at-replicate n j

file_at-append :
    (slots : List Slot) (n j : ℕ)
    → file_of (get_elem? (slots ++ replicate n empty) j) ≡ file_of (get_elem? slots j)
file_at-append [] n j = file_at-replicate n j
file_at-append (s ∷ ss) n zero = refl
file_at-append (s ∷ ss) n (suc j) = file_at-append ss n j

-- Growing the table opens nothing.
pub file_at-ensure_len :
    (len : ℕ) (slots : List Slot) (j : ℕ)
    → file_of (get_elem? (ensure_len len slots) j) ≡ file_of (get_elem? slots j)
unfolding ensure_len
file_at-ensure_len len slots j = file_at-append slots (len - length slots) j

length-replicate : (n : ℕ) → length (replicate n empty) ≡ n
length-replicate zero = refl
length-replicate (suc n) = ap suc (length-replicate n)

length-append_slots : (slots rest : List Slot) → length (slots ++ rest) ≡ length slots + length rest
length-append_slots [] rest = omega arith
length-append_slots (s ∷ ss) rest = omega (arith, length-append_slots ss rest)

pub length-ensure_len : (len : ℕ) (slots : List Slot) → len ≤ length (ensure_len len slots)
unfolding ensure_len
length-ensure_len len slots = omega (
  arith,
  length-append_slots slots (replicate (len - length slots) empty),
  length-replicate (len - length slots),
)

-- what the search for a free slot says, from place `i` on
pub free_from-some :
    (i start : ℕ) (slots : List Slot) (n : ℕ)
    → free_from i start slots ≡ some n
    → (k : ℕ) × (n ≡ i + k)
      × (start ≤ n)
      × (k < length slots)
      × (file_of (get_elem? slots k) ≡ none)
unfolding free_from
free_from-some i start [] n e = absurd (ground arith)
free_from-some i start (s ∷ ss) n e = elim (Bool-cases (leb start i && not (is_some s.file))) [
  | inl h ↦ (0, ground arith, ground arith, omega arith, ground arith)
  | inr h ↦
      let (k, at, above, short, free) = free_from-some (suc i) start ss n (ground arith) in
      (suc k, omega arith, above, omega arith, free)
]

pub free_from-below :
    (i start : ℕ) (slots : List Slot) (n j : ℕ)
    → free_from i start slots ≡ some n
    → start ≤ i + j
    → i + j < n
    → is_some (file_of (get_elem? slots j)) ≡ true
unfolding free_from
free_from-below i start [] n j e h k = absurd (ground arith)
free_from-below i start (s ∷ ss) n zero e h k = ground (arith, free_from-some (suc i) start ss n)
free_from-below i start (s ∷ ss) n (suc j) e h k =
    ground (arith, free_from-below (suc i) start ss n j)

pub free_from-none :
    (i start : ℕ) (slots : List Slot) (j : ℕ)
    → free_from i start slots ≡ none
    → start ≤ i + j
    → j < length slots
    → is_some (file_of (get_elem? slots j)) ≡ true
unfolding free_from
free_from-none i start [] j e h k = absurd (omega arith)
free_from-none i start (s ∷ ss) zero e h k = ground arith
free_from-none i start (s ∷ ss) (suc j) e h k = ground (arith, free_from-none (suc i) start ss j)
