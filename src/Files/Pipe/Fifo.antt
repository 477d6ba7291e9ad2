-- ===== src/Files/Pipe/Fifo.antt =====
-- kernel/src/vfs/pipe.rs: what goes in comes out, in order, and whom a close wakes.
use cyphera_kernel.Prelude.{
  ℕ, zero, suc, ◌-◌, ◌≤◌, min, ◌≡◌, refl, ◌≢◌, Bool, true, List, [], ◌∷◌, ◌++◌, arith, length, take,
  drop, length-append, ap, sym, ◌∙◌, inl, inr, Bool-cases,
}
use cyphera_kernel.Files.Pipe.{
  PipeState, new, bump_open, drop_close, is_empty, ReadStep, drained, eof, read_would_park,
  read_step, WriteStep, wrote, broken_pipe, write_would_park, write_step, set_capacity,
}

-- the bytes that a read takes out
abbrev pub taken : ReadStep → List ℕ
taken (drained bytes) = bytes
taken eof = []
taken read_would_park = []

-- the bytes that a write puts in
abbrev pub accepted : List ℕ → WriteStep → List ℕ
accepted bytes (wrote n) = take n bytes
accepted bytes broken_pipe = []
accepted bytes write_would_park = []

-- an operation, with the bytes that it puts in and takes out
pub data Step (s s' : PipeState) (put got : List ℕ) : Type 0 where
  opens : (r w : Bool) → s' ≡ bump_open r w s → put ≡ [] → got ≡ [] → Step s s' put got
  closes : (r w : Bool) → s' ≡ (drop_close r w s).0 → put ≡ [] → got ≡ [] → Step s s' put got
  reads :
      (len : ℕ)
      → s' ≡ (read_step len s).0
      → put ≡ []
      → got ≡ taken (read_step len s).1
      → Step s s' put got
  writes :
      (bytes : List ℕ)
      → s' ≡ (write_step bytes s).0
      → put ≡ accepted bytes (write_step bytes s).1
      → got ≡ []
      → Step s s' put got
  resizes : (want : ℕ) → s' ≡ (set_capacity want s).0 → put ≡ [] → got ≡ [] → Step s s' put got

-- a state, with all the bytes put in and taken out on the way to it
pub data Reach : PipeState → List ℕ → List ℕ → Type 0 where
  fresh : Reach new [] []
  next :
      {s s' : PipeState} {ins outs put got : List ℕ}
      → Reach s ins outs
      → Step s s' put got
      → Reach s' (ins ++ put) (outs ++ got)

append_assoc : (xs ys zs : List ℕ) → (xs ++ ys) ++ zs ≡ xs ++ (ys ++ zs)
append_assoc [] ys zs = refl
append_assoc (x ∷ xs) ys zs = ap (λ r. x ∷ r) (append_assoc xs ys zs)

append_none : (xs : List ℕ) → xs ++ [] ≡ xs
append_none [] = refl
append_none (x ∷ xs) = ap (λ r. x ∷ r) (append_none xs)

take-drop : (n : ℕ) (xs : List ℕ) → take n xs ++ drop n xs ≡ xs
take-drop zero xs = refl
take-drop (suc n) [] = refl
take-drop (suc n) (x ∷ xs) = ap (λ r. x ∷ r) (take-drop n xs)

length-take : (n : ℕ) (xs : List ℕ) → length (take n xs) ≤ n
length-take zero xs = omega arith
length-take (suc n) [] = omega arith
length-take (suc n) (x ∷ xs) = omega (arith, length-take n xs)

length-drop : (n : ℕ) (xs : List ℕ) → length (drop n xs) ≤ length xs
length-drop zero xs = omega arith
length-drop (suc n) [] = omega arith
length-drop (suc n) (x ∷ xs) = omega (arith, length-drop n xs)

-- what a step does to the buffer, between what it puts in and what it takes out
Step-buf : (s s' : PipeState) (put got : List ℕ) → Step s s' put got → s.buf ++ put ≡ got ++ s'.buf
unfolding bump_open drop_close read_step write_step set_capacity
Step-buf s s' put got (opens r w e p g) = rw (e, p, g) (append_none s.buf)
Step-buf s s' put got (closes r w e p g) = rw (e, p, g) (append_none s.buf)
Step-buf s s' put got (reads len e p g) =
    rw (e, p, g) (append_none s.buf ∙ ground (arith, take-drop len s.buf))
Step-buf s s' put got (writes bytes e p g) = rw (e, p, g) (ground (arith, append_none s.buf))
Step-buf s s' put got (resizes want e p g) = rw (e, p, g) (append_none s.buf ∙ ground arith)

Step-cap :
    (s s' : PipeState) (put got : List ℕ)
    → Step s s' put got
    → length s.buf ≤ s.cap
    → length s'.buf ≤ s'.cap
unfolding bump_open drop_close read_step write_step set_capacity
Step-cap s s' put got (opens r w e p g) h = rw e h
Step-cap s s' put got (closes r w e p g) h = rw e h
Step-cap s s' put got (reads len e p g) h = rw e (ground (arith, length-drop len s.buf))
Step-cap s s' put got (writes bytes e p g) h =
    let n = min (length bytes) (s.cap - length s.buf) in
    rw e (ground (arith, length-append s.buf (take n bytes), length-take n bytes))
Step-cap s s' put got (resizes want e p g) h = rw e (ground arith)

-- In every state that opens, closes, reads, writes and changes of the capacity reach, the bytes put in
-- are, in order, those taken out and then those in the buffer, which is within its capacity.
pub reachable_fifo :
    {s : PipeState} {ins outs : List ℕ}
    → Reach s ins outs
    → (ins ≡ outs ++ s.buf) × (length s.buf ≤ s.cap)
unfolding new
reachable_fifo fresh = (refl, omega arith)
reachable_fifo (next {s} {s'} {ins} {outs} {put} {got} r st) =
    let (same, fits) = reachable_fifo r in
    let step = Step-buf s s' put got st in
    (
      ap (λ l. l ++ put) same
          ∙ append_assoc outs s.buf put
          ∙ ap (λ l. outs ++ l) step
          ∙ sym (append_assoc outs got s'.buf),
      Step-cap s s' put got st fits,
    )

-- A close wakes the readers if a read that had to wait before it need not after it.
pub drop_close-wakes_readers :
    (readable writable : Bool) (len : ℕ) (s : PipeState)
    → (read_step len s).1 ≡ read_would_park
    → (read_step len (drop_close readable writable s).0).1 ≢ read_would_park
    → (drop_close readable writable s).1 ≡ true
unfolding drop_close read_step
drop_close-wakes_readers readable writable len s h k = elim (Bool-cases (is_empty s.buf)) [
  | inl e ↦ ground arith
  | inr e ↦ ground arith
]

-- A close wakes the writers if a write that had to wait before it need not after it; the write then
-- finds the pipe broken.
pub drop_close-wakes_writers :
    (readable writable : Bool) (bytes : List ℕ) (s : PipeState)
    → (write_step bytes s).1 ≡ write_would_park
    → (write_step bytes (drop_close readable writable s).0).1 ≢ write_would_park
    → ((drop_close readable writable s).2 ≡ true)
      × ((write_step bytes (drop_close readable writable s).0).1 ≡ broken_pipe)
unfolding drop_close write_step
drop_close-wakes_writers readable writable bytes s h k = ground arith
