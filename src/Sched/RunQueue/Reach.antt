-- ===== src/Sched/RunQueue/Reach.antt =====
-- kernel/src/core/runqueue.rs: the states that the queues of a processor reach. A process may be
-- put in them while it is in one; the weights in the fair queue sum up to less than 2^64.
use cyphera_kernel.Prelude.{ℕ, ◌+◌, ◌^◌, ◌<◌, ◌≡◌, refl, sym, subst, Bool, true, false, arith}
use cyphera_kernel.Sched.RunQueue.{
  RunQueues, EnqueueData, CfsPlace, new, enqueue, admit_dl_bandwidth, release_dl_bandwidth,
}
use cyphera_kernel.Sched.RunQueue.Pick.{pick_next, count_bands, remove_pid}
use cyphera_kernel.Sched.RunQueue.Sorted.{total}
use cyphera_kernel.Sched.RunQueue.Chosen.{Choice, pick_next-Choice}
use cyphera_kernel.Sched.RunQueue.Kept.{
  IsConsistent, enqueue_as-IsConsistent, pick_deadline-IsConsistent, pick_cfs-IsConsistent,
  remove_pid-IsConsistent, admit_dl_bandwidth-IsConsistent, release_dl_bandwidth-IsConsistent,
}

pub data Step (q q' : RunQueues) : Type 0 where
  enqueued :
      (pid : ℕ) (d : EnqueueData) (kind : CfsPlace)
      → q.cfs_load + d.weight < 2 ^ 64
      → q' ≡ (enqueue pid d kind q).0
      → Step q q'
  picked : (rt_ok : Bool) → q' ≡ (pick_next rt_ok q).0 → Step q q'
  removed : (pid : ℕ) → q' ≡ (remove_pid pid q).0 → Step q q'
  dl_admitted :
      (runtime_ns period_ns : ℕ) → q' ≡ (admit_dl_bandwidth runtime_ns period_ns q).0 → Step q q'
  dl_released :
      (runtime_ns period_ns : ℕ) → q' ≡ release_dl_bandwidth runtime_ns period_ns q → Step q q'

pub data Reach : RunQueues → Type 0 where
  begin : {q : RunQueues} → q ≡ new → Reach q
  then_step : {q q' : RunQueues} → Reach q → Step q q' → Reach q'

step-IsConsistent : {q q' : RunQueues} → Step q q' → IsConsistent q → IsConsistent q'
unfolding enqueue pick_next
step-IsConsistent {q} (enqueued pid d kind fits e) h =
    subst IsConsistent (sym e) (enqueue_as-IsConsistent d.class pid d kind q fits h)
step-IsConsistent {q} (picked true e) h =
    subst IsConsistent (sym e) (pick_deadline-IsConsistent q.dl_map q refl h)
step-IsConsistent {q} (picked false e) h =
    subst IsConsistent (sym e) (pick_cfs-IsConsistent q.cfs_map q refl h)
step-IsConsistent {q} (removed pid e) h =
    subst IsConsistent (sym e) (remove_pid-IsConsistent pid q h)
step-IsConsistent {q} (dl_admitted runtime_ns period_ns e) h =
    subst IsConsistent (sym e) (admit_dl_bandwidth-IsConsistent runtime_ns period_ns q h)
step-IsConsistent {q} (dl_released runtime_ns period_ns e) h =
    subst IsConsistent (sym e) (release_dl_bandwidth-IsConsistent runtime_ns period_ns q h)

-- In every state that the queues reach while the weights in the fair queue sum up to less than 2^64,
-- the maps are in the order of their keys and hold a key at most once, the load is the sum of the
-- weights, there are 99 real-time queues and the count is that of the processes in them, and the
-- deadline bandwidth that is admitted is within its bound. (A process may be in the maps more than
-- once, under several times.)
pub reachable-IsConsistent : {q : RunQueues} → Reach q → IsConsistent q
unfolding new total count_bands
reachable-IsConsistent (begin e) = subst IsConsistent (sym e) (record {
  cfs_sorted = tt;
  cfs_loaded = refl;
  dl_sorted = tt;
  bands = refl;
  counted = refl;
  admitted = omega arith;
})
reachable-IsConsistent (then_step r step) = step-IsConsistent step (reachable-IsConsistent r)

-- `pick_next` chooses by class, and then by deadline, priority or virtual run time.
pub reachable-Choice :
    {q : RunQueues}
    → Reach q
    → (rt_ok : Bool) → Choice rt_ok q (pick_next rt_ok q).0 (pick_next rt_ok q).1
reachable-Choice {q} r rt_ok =
    let h = reachable-IsConsistent r in pick_next-Choice rt_ok q h.dl_sorted h.cfs_sorted h.counted
