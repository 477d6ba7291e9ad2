-- ===== src/Ipc/Futex.antt =====
-- kernel/src/ipc/futex, state.rs and wake.rs: the queues of processes that wait at an address. The
-- table is an association list; a queue keeps its place in it, so that a queue that is reached under
-- two addresses of one key is one queue. What an operation does to a queue is done at once. The
-- process table, which says how urgent a process is and takes the order to wake it, is the
-- parameter `Waker`.
pub mod Order
pub mod Woken
pub mod Table
pub mod Served
pub mod Best
pub mod Requeue
pub mod Wait
pub mod Moved
mod Tests
use cyphera_kernel.Prelude.{
  ℕ, ◌+◌, ◌-◌, ◌%◌, ◌^◌, bit_and, bit_or, Bool, true, false, not, ◌&&◌, ◌||◌, List, [], ◌∷◌, ◌++◌,
  Option, none, some, ltb, leb, ◌==◌, if◌then◌else◌, KResult, ok, err, inval, again, fault,
}

pub record Waker (S : Type 0) : Type 0 where
  pub wake_pid : ℕ → S → S × Bool
  pub futex_wake_priority : ℕ → S → ℕ

-- an address in an address space
pub record Key : Type 0 where
  pub vmspace_id : ℕ
  pub vaddr : ℕ

abbrev pub same_key : Key → Key → Bool
same_key j k = j.vmspace_id == k.vmspace_id && j.vaddr == k.vaddr

abbrev pub Queues : Type 0
Queues = List (Key × List ℕ)

unfoldable pub get_queue : Key → Queues → Option (List ℕ)
get_queue k [] = none
get_queue k ((j, q) ∷ queues) = if same_key j k then some q else get_queue k queues

-- `FUTEXES` and `BITSET_MASKS`
pub record Futexes : Type 0 where
  pub queues : Queues
  pub masks : List (ℕ × ℕ)

-- `queue_for`: the queue of the key is there from then on.
unfoldable pub queue_for : Key → Queues → Queues
queue_for k [] = (k, []) ∷ []
queue_for k ((j, q) ∷ queues) =
    let rest = queue_for k queues in if same_key j k then (j, q) ∷ queues else (j, q) ∷ rest

-- `WaitQueue::drain`
unfoldable pub drain : Key → Queues → Queues
drain k [] = []
drain k ((j, q) ∷ queues) =
    let rest = drain k queues in if same_key j k then (j, []) ∷ queues else (j, q) ∷ rest

-- `WaitQueue::enqueue`
unfoldable pub enqueue : Key → ℕ → Queues → Queues
enqueue k pid [] = []
enqueue k pid ((j, q) ∷ queues) =
    let rest = enqueue k pid queues in
    if same_key j k then (j, q ++ (pid ∷ [])) ∷ queues else (j, q) ∷ rest

unfoldable pub mask_of : ℕ → List (ℕ × ℕ) → Option ℕ
mask_of pid [] = none
mask_of pid ((p, mask) ∷ masks) = if p == pid then some mask else mask_of pid masks

-- `unwrap_or(u32::MAX)`
abbrev pub or_any : Option ℕ → ℕ
or_any none = 2 ^ 32 - 1
or_any (some mask) = mask

unfoldable pub is_meant : List (ℕ × ℕ) → ℕ → ℕ → Bool
is_meant masks mask pid = not (bit_and (or_any (mask_of pid masks)) mask == 0)

-- The place of a process is before those that are as urgent and came later: the sort is stable.
unfoldable pub insert_by : (ℕ → ℕ) → ℕ → List ℕ → List ℕ
insert_by priority pid [] = pid ∷ []
insert_by priority pid (p ∷ ps) =
    if ltb (priority pid) (priority p) then p ∷ insert_by priority pid ps else pid ∷ p ∷ ps

unfoldable pub order_by_priority : (ℕ → ℕ) → List ℕ → List ℕ
order_by_priority priority [] = []
order_by_priority priority (p ∷ ps) = insert_by priority p (order_by_priority priority ps)

-- the variables of the loops
pub record Waking (S : Type 0) : Type 0 where
  pub procs : S
  pub queues : Queues
  pub woken : ℕ

pub record Moving (S : Type 0) : Type 0 where
  pub waking : Waking S
  pub requeued : ℕ

abbrev pub one_more : Bool → ℕ → ℕ
one_more true n = n + 1
one_more false n = n

-- whether the value at the first address, which the caller may have read, is the one expected
abbrev pub compared : Option ℕ → Option ℕ → KResult (Unit {0})
compared none value = ok tt
compared (some expected) none = err fault
compared (some expected) (some value) = if value == expected then ok tt else err again

module _ {S : Type 0} (core : Waker S) where
  unfoldable pub wake_one : ℕ → Waking S → Waking S
  wake_one pid w =
      let (procs, woke) = core.wake_pid pid w.procs in
      record w { procs = procs; woken = one_more woke w.woken }

  -- The loop of `wake_bitset`, and of `wake`, which means every waiter; the count is cast to `u32`.
  unfoldable pub wake_each : (ℕ → Bool) → Key → ℕ → List ℕ → Waking S → Waking S
  wake_each meant key n [] w = w
  wake_each meant key n (pid ∷ waiters) w = wake_each meant key n waiters (
      if not (meant pid) || leb n (w.woken % 2 ^ 32)
      then record w { queues = enqueue key pid w.queues }
      else wake_one pid w)

  abbrev pub WakeReply : Type 0
  WakeReply = Futexes × S × KResult ℕ

  abbrev pub woken_reply : Futexes → Waking S → WakeReply
  woken_reply f w = (record f { queues = w.queues }, w.procs, ok w.woken)

  unfoldable pub wake_queue : (ℕ → Bool) → Key → ℕ → Futexes → S → Option (List ℕ) → WakeReply
  wake_queue meant key n f s none = (f, s, ok 0)
  wake_queue meant key n f s (some q) = woken_reply f (
      wake_each meant key n (order_by_priority (λ p. core.futex_wake_priority p s) q)
        (record { procs = s; queues = drain key f.queues; woken = 0 }))

  unfoldable pub wake : Key → ℕ → Futexes → S → WakeReply
  wake key n f s =
      if not (bit_and key.vaddr 3 == 0)
      then (f, s, err inval)
      else wake_queue (λ p. true) key n f s (get_queue key f.queues)

  unfoldable pub wake_bitset : Key → ℕ → ℕ → Futexes → S → WakeReply
  wake_bitset key n mask f s =
      if not (bit_and key.vaddr 3 == 0)
      then (f, s, err inval)
      else if mask == 0
      then (f, s, err inval)
      else wake_queue (is_meant f.masks mask) key n f s (get_queue key f.queues)

  unfoldable pub requeue_one : Key → Key → ℕ → ℕ → ℕ → Moving S → Moving S
  requeue_one key1 key2 n_wake n_requeue pid m =
      if ltb m.waking.woken n_wake
      then record m { waking = wake_one pid m.waking }
      else if ltb m.requeued n_requeue
      then record m {
        waking = record m.waking { queues = enqueue key2 pid m.waking.queues };
        requeued = m.requeued + 1;
      }
      else record m { waking = record m.waking { queues = enqueue key1 pid m.waking.queues } }

  unfoldable pub requeue_each : Key → Key → ℕ → ℕ → List ℕ → Moving S → Moving S
  requeue_each key1 key2 n_wake n_requeue [] m = m
  requeue_each key1 key2 n_wake n_requeue (pid ∷ waiters) m =
      requeue_each key1 key2 n_wake n_requeue waiters (requeue_one key1 key2 n_wake n_requeue pid m)

  -- The sum is exact: `+` panics at 2^32, and so many processes never wait.
  abbrev pub moved_reply : Futexes → Moving S → WakeReply
  moved_reply f m =
      (record f { queues = m.waking.queues }, m.waking.procs, ok (m.waking.woken + m.requeued))

  unfoldable pub requeue_queue : Key → Key → ℕ → ℕ → Futexes → S → Option (List ℕ) → WakeReply
  requeue_queue key1 key2 n_wake n_requeue f s none = (f, s, ok 0)
  requeue_queue key1 key2 n_wake n_requeue f s (some q) = moved_reply f (
      requeue_each key1 key2 n_wake n_requeue
        (order_by_priority (λ p. core.futex_wake_priority p s) q)
        (record {
          waking = record { procs = s; queues = drain key1 (queue_for key2 f.queues); woken = 0 };
          requeued = 0;
        }))

  abbrev pub after_compare : Futexes → S → KResult (Unit {0}) → WakeReply → WakeReply
  after_compare f s (err e) reply = (f, s, err e)
  after_compare f s (ok u) reply = reply

  -- `value` is what `copy_from_user` reads, where it can
  unfoldable pub requeue : Key → Key → ℕ → ℕ → Option ℕ → Option ℕ → Futexes → S → WakeReply
  requeue key1 key2 n_wake n_requeue cmp value f s =
      if not (bit_and (bit_or key1.vaddr key2.vaddr) 3 == 0)
      then (f, s, err inval)
      else after_compare f s (compared cmp value)
          (requeue_queue key1 key2 n_wake n_requeue f s (get_queue key1 f.queues))
