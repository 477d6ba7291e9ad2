-- ===== src/Sched/RunQueue/Floor.antt =====
-- kernel/src/core/runqueue.rs: the floor under virtual run times, `cfs_min_vruntime`.
use cyphera_kernel.Prelude.{
  ℕ, ◌≤◌, true, false, List, [], ◌∷◌, ltb, Option, none, some, if_cases, arith,
}
use cyphera_kernel.Sched.Params.{SchedClass, cfs, rt, deadline}
use cyphera_kernel.Sched.RunQueue.{
  RunQueues, Timed, EnqueueData, CfsPlace, raise_floor, enqueue, enqueue_as, enqueue_cfs,
  enqueue_rt, enqueue_deadline, admit_dl_bandwidth, release_dl_bandwidth,
}
use cyphera_kernel.Sched.RunQueue.Pick.{
  pick_cfs, pick_rt, pick_deadline, pick_next, pop_band, remove_pid,
}
use cyphera_kernel.Sched.RunQueue.Reach.{Step, enqueued, picked, removed, dl_admitted, dl_released}

raise_floor-le : (entries : List Timed) (floor : ℕ) → floor ≤ raise_floor entries floor
raise_floor-le [] floor = omega arith
raise_floor-le (e ∷ entries) floor = omega arith

enqueue_as-floor :
    (class : SchedClass) (pid : ℕ) (d : EnqueueData) (kind : CfsPlace) (q : RunQueues)
    → q.cfs_min_vruntime ≤ (enqueue_as class pid d kind q).0.cfs_min_vruntime
unfolding enqueue_as enqueue_cfs enqueue_rt enqueue_deadline
enqueue_as-floor cfs pid d kind q = raise_floor-le _ q.cfs_min_vruntime
enqueue_as-floor (rt priority round_robin) pid d kind q = omega arith
enqueue_as-floor (deadline runtime due period) pid d kind q = omega arith

pick_cfs-floor :
    (entries : List Timed) (q : RunQueues)
    → q.cfs_min_vruntime ≤ (pick_cfs entries q).0.cfs_min_vruntime
unfolding pick_cfs
pick_cfs-floor [] q = omega arith
pick_cfs-floor (e ∷ entries) q = ground (arith, raise_floor-le entries q.cfs_min_vruntime)

pick_rt-floor :
    (o : Option (ℕ × List (List ℕ))) (q : RunQueues)
    → q.cfs_min_vruntime ≤ (pick_rt o q).0.cfs_min_vruntime
unfolding pick_rt
pick_rt-floor none q = pick_cfs-floor q.cfs_map q
pick_rt-floor (some (pid, bands)) q = omega arith

pick_deadline-floor :
    (entries : List Timed) (q : RunQueues)
    → q.cfs_min_vruntime ≤ (pick_deadline entries q).0.cfs_min_vruntime
unfolding pick_deadline
pick_deadline-floor [] q =
    if_cases (λ (r : RunQueues × Option ℕ). q.cfs_min_vruntime ≤ r.0.cfs_min_vruntime)
      (ltb 0 q.rt_count) (λ _. pick_rt-floor (pop_band q.rt_bands) q)
      (λ _. pick_cfs-floor q.cfs_map q)
pick_deadline-floor (e ∷ entries) q = omega arith

-- No operation lowers the floor.
pub step-floor : {q q' : RunQueues} → Step q q' → q.cfs_min_vruntime ≤ q'.cfs_min_vruntime
unfolding enqueue pick_next remove_pid admit_dl_bandwidth release_dl_bandwidth
step-floor {q} (enqueued pid d kind fits e) = rw e (enqueue_as-floor d.class pid d kind q)
step-floor {q} (picked true e) = rw e (pick_deadline-floor q.dl_map q)
step-floor {q} (picked false e) = rw e (pick_cfs-floor q.cfs_map q)
step-floor {q} (removed pid e) = rw e (omega arith)
step-floor {q} (dl_admitted runtime_ns period_ns e) = rw e (ground arith)
step-floor {q} (dl_released runtime_ns period_ns e) = rw e (ground arith)
