-- ===== src/Files/Pipe.antt =====
-- kernel/src/vfs/pipe.rs: a pipe. Each operation takes the state and gives it back, under its spin
-- lock; a wait queue that is woken is named in the result. `usize` is not bounded here: no length
-- comes near 2^64.
pub mod Fifo
mod Tests
use cyphera_kernel.Prelude.{
  ℕ, ◌+◌, ◌-◌, ◌*◌, ◌/◌, ◌%◌, ◌^◌, min, max, Bool, true, false, not, ◌&&◌, ◌||◌, List, [], ◌∷◌,
  ◌++◌, Option, none, some, ltb, leb, ◌==◌, if◌then◌else◌, length, take, drop,
}

abbrev pub pipe_capacity : ℕ
pipe_capacity = 65536

abbrev pub pipe_min_capacity : ℕ
pipe_min_capacity = 4096

abbrev pub pipe_max_capacity : ℕ
pipe_max_capacity = 2 ^ 20

pub record PipeState : Type 0 where
  pub buf : List ℕ
  pub readers : ℕ
  pub writers : ℕ
  pub cap : ℕ

unfoldable pub new : PipeState
new = record { buf = []; readers = 0; writers = 0; cap = pipe_capacity }

-- The counts are exact: `+=` panics at 2^32, a number of ends that no kernel has open.
unfoldable pub bump_open : Bool → Bool → PipeState → PipeState
bump_open readable writable s = record s {
  readers = if readable then s.readers + 1 else s.readers;
  writers = if writable then s.writers + 1 else s.writers;
}

-- the state, and whether the readers and the writers are to be woken
unfoldable pub drop_close : Bool → Bool → PipeState → PipeState × Bool × Bool
drop_close readable writable s =
    let writers = if writable then s.writers - 1 else s.writers in
    let readers = if readable then s.readers - 1 else s.readers in
    (
      record s { readers = readers; writers = writers },
      writable && writers == 0,
      readable && readers == 0,
    )

-- the bytes that `peek_inner` copies to a buffer of `len` bytes
unfoldable pub peek_inner : ℕ → PipeState → List ℕ
peek_inner len s = take len s.buf

-- what a read gives: the bytes that it takes out, the end of the file, or nothing yet
pub data ReadStep : Type 0 where
  drained : List ℕ → ReadStep
  eof : ReadStep
  read_would_park : ReadStep

abbrev pub is_empty : List ℕ → Bool
is_empty [] = true
is_empty (b ∷ bs) = false

-- a read into a buffer of `len` bytes
unfoldable pub read_step : ℕ → PipeState → PipeState × ReadStep
read_step len s =
    if not (is_empty s.buf)
    then (record s { buf = drop len s.buf }, drained (take len s.buf))
    else if s.writers == 0
    then (s, eof)
    else (s, read_would_park)

pub data WriteStep : Type 0 where
  wrote : ℕ → WriteStep
  broken_pipe : WriteStep
  write_would_park : WriteStep

unfoldable pub write_step : List ℕ → PipeState → PipeState × WriteStep
write_step bytes s =
    if s.readers == 0
    then (s, broken_pipe)
    else (let room = s.cap - length s.buf in
        if ltb 0 room
        then (let n = min (length bytes) room in
            (record s { buf = s.buf ++ take n bytes }, wrote n))
        else (s, write_would_park))

-- readable, writable, and hung up
unfoldable pub poll_in_out_hup : PipeState → Bool × Bool × Bool
poll_in_out_hup s = (
  not (is_empty s.buf) || s.writers == 0,
  ltb (length s.buf) s.cap || s.readers == 0,
  s.writers == 0 && is_empty s.buf,
)

-- `next_multiple_of(PIPE_MIN_CAPACITY)`
abbrev pub round_up : ℕ → ℕ
round_up n = (n + (pipe_min_capacity - 1)) / pipe_min_capacity * pipe_min_capacity

unfoldable pub set_capacity : ℕ → PipeState → PipeState × Option ℕ
set_capacity want s =
    let rounded = round_up (min (max want pipe_min_capacity) pipe_max_capacity) in
    if ltb rounded (length s.buf) then (s, none) else (record s { cap = rounded }, some rounded)
