-- ===== src/Files/Pipe/Tests.antt =====
-- kernel/src/vfs/pipe.rs on a short pipe.
use cyphera_kernel.Prelude.{
  ℕ, ◌≤◌, ◌≡◌, refl, ◌≢◌, true, false, List, [], ◌∷◌, ◌++◌, some, length, arith,
}
use cyphera_kernel.Files.Pipe.{
  PipeState, new, bump_open, drop_close, drained, eof, read_would_park, read_step, wrote,
  broken_pipe, write_would_park, write_step, set_capacity, poll_in_out_hup, peek_inner,
}
use cyphera_kernel.Files.Pipe.Fifo.{
  opens, reads, writes, Reach, fresh, next, reachable_fifo, drop_close-wakes_writers,
}

-- four bytes of room, one reader and one writer
abbrev short : List ℕ → PipeState
short bytes = record { buf = bytes; readers = 1; writers = 1; cap = 4 }

partial_write :
    write_step (1 ∷ 2 ∷ 3 ∷ []) (short (7 ∷ 8 ∷ [])) ≡ (short (7 ∷ 8 ∷ 1 ∷ 2 ∷ []), wrote 2)
unfolding write_step
partial_write = refl

full : (write_step (1 ∷ []) (short (5 ∷ 6 ∷ 7 ∷ 8 ∷ []))).1 ≡ write_would_park
unfolding write_step
full = refl

read_two : read_step 2 (short (5 ∷ 6 ∷ 7 ∷ [])) ≡ (short (7 ∷ []), drained (5 ∷ 6 ∷ []))
unfolding read_step
read_two = refl

waits : (read_step 2 (short [])).1 ≡ read_would_park
unfolding read_step
waits = refl

ends : (read_step 2 (drop_close false true (short [])).0).1 ≡ eof
unfolding read_step drop_close
ends = refl

breaks :
    (write_step (1 ∷ []) (drop_close true false (short (5 ∷ 6 ∷ 7 ∷ 8 ∷ []))).0).1 ≡ broken_pipe
unfolding write_step drop_close
breaks = refl

rounds_up : (set_capacity 5000 new).1 ≡ some 8192
unfolding set_capacity new
rounds_up = refl

too_small : (set_capacity 1 (record new { buf = [] })).1 ≡ some 4096
unfolding set_capacity new
too_small = refl

hung_up : poll_in_out_hup new ≡ (true, true, true)
unfolding poll_in_out_hup new
hung_up = refl

peeked : peek_inner 2 (short (5 ∷ 6 ∷ 7 ∷ [])) ≡ 5 ∷ 6 ∷ []
unfolding peek_inner
peeked = refl

read_goes_on : (read_step 2 (drop_close false true (short [])).0).1 ≢ read_would_park
unfolding read_step drop_close
read_goes_on = ground arith

write_goes_on :
    (write_step (1 ∷ []) (drop_close true false (short (5 ∷ 6 ∷ 7 ∷ 8 ∷ []))).0).1
    ≢ write_would_park
unfolding write_step drop_close
write_goes_on = ground arith

abbrev used : PipeState
used = record { buf = 3 ∷ []; readers = 1; writers = 1; cap = 65536 }

used-Reach : Reach used (1 ∷ 2 ∷ 3 ∷ []) (1 ∷ 2 ∷ [])
unfolding new bump_open read_step write_step
used-Reach =
    next
      (next (next fresh (opens true true refl refl refl)) (writes (1 ∷ 2 ∷ 3 ∷ []) refl refl refl))
      (reads 2 refl refl refl)

reachable_fifo_example :
    (◌≡◌ {A = List ℕ} (1 ∷ 2 ∷ 3 ∷ []) ((1 ∷ 2 ∷ []) ++ (3 ∷ []))) × (length used.buf ≤ 65536)
reachable_fifo_example = reachable_fifo used-Reach

drop_close-wakes_writers_example :
    ((drop_close true false (short (5 ∷ 6 ∷ 7 ∷ 8 ∷ []))).2 ≡ true)
    × ((write_step (1 ∷ []) (drop_close true false (short (5 ∷ 6 ∷ 7 ∷ 8 ∷ []))).0).1 ≡ broken_pipe)
drop_close-wakes_writers_example =
    drop_close-wakes_writers true false (1 ∷ []) (short (5 ∷ 6 ∷ 7 ∷ 8 ∷ [])) full write_goes_on
