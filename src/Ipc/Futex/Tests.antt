-- ===== src/Ipc/Futex/Tests.antt =====
-- kernel/src/ipc/futex at concrete inputs: the processes 3, 4 and 5 wait at one address, 4 is more
-- urgent, and 3 is no longer asleep.
use cyphera_kernel.Prelude.{
  ℕ, Bool, true, false, ◌≡◌, refl, List, [], ◌∷◌, none, some, ◌==◌, if◌then◌else◌, ok, arith,
}
use cyphera_kernel.Ipc.Futex.{
  Waker, Key, Futexes, get_queue, drain, enqueue, queue_for, mask_of, is_meant, insert_by,
  order_by_priority, wake_one, wake_each, wake_queue, wake, wake_bitset, requeue_one, requeue_each,
  requeue_queue, requeue,
}
use cyphera_kernel.Ipc.Futex.Served.{IsServed, wake_bitset-IsServed}
use cyphera_kernel.Ipc.Futex.Requeue.{IsRequeued, requeue-IsRequeued}
use cyphera_kernel.Ipc.Futex.Wait.{wait_begin, IsDecided, wait_begin-IsDecided}
use cyphera_kernel.Ipc.Futex.Best.{
  pop_highest_priority, take_at, best_from, IsNext, pop_highest_priority-IsNext,
}

abbrev is_in : ℕ → List ℕ → Bool
is_in p [] = false
is_in p (q ∷ qs) = if p == q then true else is_in p qs

abbrev all_but : ℕ → List ℕ → List ℕ
all_but p [] = []
all_but p (q ∷ qs) = if p == q then all_but p qs else q ∷ all_but p qs

-- The state is the processes that sleep.
abbrev sleepers : Waker (List ℕ)
sleepers = record {
  wake_pid = λ p s. (all_but p s, is_in p s);
  futex_wake_priority = λ p s. if p == 4 then 210 else 0;
}

abbrev here : Key
here = record { vmspace_id = 1; vaddr = 4096 }

abbrev there : Key
there = record { vmspace_id = 1; vaddr = 8192 }

abbrev waiting : List ℕ
waiting = 3 ∷ 4 ∷ 5 ∷ []

abbrev futexes : Futexes
futexes = record { queues = (here, waiting) ∷ []; masks = (5, 2) ∷ [] }

abbrev asleep : List ℕ
asleep = 4 ∷ 5 ∷ []

wakes_urgent_first : (wake sleepers here 1 futexes asleep).1 ≡ 5 ∷ []
unfolding wake wake_queue wake_each wake_one order_by_priority insert_by get_queue drain enqueue
wakes_urgent_first = refl

-- A process that does not sleep any more is taken off, but does not count.
passes_over_woken : (wake sleepers here 2 futexes asleep).2 ≡ ok 2
unfolding wake wake_queue wake_each wake_one order_by_priority insert_by get_queue drain enqueue
passes_over_woken = refl

skips_other_masks : (wake_bitset sleepers here 3 1 futexes asleep).2 ≡ ok 1
unfolding wake_bitset wake_queue wake_each wake_one order_by_priority insert_by get_queue drain
    enqueue is_meant mask_of
skips_other_masks = refl

wake_bitset-IsServed_example :
    IsServed sleepers
      (is_meant futexes.masks 1)
      here
      3
      waiting
      futexes
      asleep
      (wake_bitset sleepers here 3 1 futexes asleep)
unfolding get_queue
wake_bitset-IsServed_example =
    wake_bitset-IsServed sleepers here 3 1 futexes asleep waiting refl (omega arith) refl
      (omega arith)

moves_the_rest :
    get_queue there (requeue sleepers here there 1 1 none none futexes asleep).0.queues
    ≡ some (3 ∷ [])
unfolding requeue requeue_queue requeue_each requeue_one wake_one order_by_priority insert_by
    get_queue queue_for drain enqueue
moves_the_rest = refl

requeue-IsRequeued_example :
    IsRequeued sleepers here there 1 1 waiting futexes asleep
      (requeue sleepers here there 1 1 none none futexes asleep)
unfolding get_queue
requeue-IsRequeued_example =
    requeue-IsRequeued sleepers here there 1 1 none none futexes asleep waiting refl refl refl

abbrev urgency : ℕ → ℕ
urgency p = if p == 4 then 210 else 0

pops_four : pop_highest_priority urgency waiting ≡ (some 4, 3 ∷ 5 ∷ [])
unfolding pop_highest_priority take_at best_from
pops_four = refl

pop_highest_priority-IsNext_example : IsNext urgency waiting (pop_highest_priority urgency waiting)
pop_highest_priority-IsNext_example = pop_highest_priority-IsNext urgency waiting

wait_begin-IsDecided_example :
    IsDecided here 6 futexes.queues 9 (some 8) (wait_begin here 9 (some 8) 6 futexes.queues)
wait_begin-IsDecided_example = wait_begin-IsDecided here 6 futexes.queues 9 (some 8) refl
