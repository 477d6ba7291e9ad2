-- ===== src/Sched/RunQueue/Tests.antt =====
-- The queues of a processor at concrete inputs.
use cyphera_kernel.Prelude.{◌≡◌, refl, true, [], ◌∷◌, arith, some, replicate}
use cyphera_kernel.Sched.Params.{cfs}
use cyphera_kernel.Sched.RunQueue.{
  RunQueues, EnqueueData, new, enqueue, enqueue_as, enqueue_cfs, place_cfs, insert_timed, replaced,
  fresh,
}
use cyphera_kernel.Sched.RunQueue.Pick.{
  contains_pid, has_pid, in_bands, in_band, pick_next, pick_deadline, pick_rt, pick_cfs, remove_pid,
  remove_first,
}
use cyphera_kernel.Sched.RunQueue.Chosen.{Choice}
use cyphera_kernel.Sched.RunQueue.Kept.{IsConsistent}
use cyphera_kernel.Sched.RunQueue.Reach.{
  Reach, begin, then_step, Step, enqueued, reachable-IsConsistent, reachable-Choice,
}

abbrev ordinary : EnqueueData
ordinary = record { class = cfs; vruntime = 100; weight = 1024; dl_deadline = 0 }

abbrev one : RunQueues
one = record {
  cfs_map = record { time = 100; pid = 7; weight = 1024 } ∷ [];
  cfs_min_vruntime = 100;
  cfs_load = 1024;
  rt_bands = replicate 99 [];
  rt_count = 0;
  dl_map = [];
  dl_total_bw = 0;
}

one_step : Step new one
unfolding new enqueue enqueue_as enqueue_cfs place_cfs insert_timed replaced contains_pid has_pid
    in_bands in_band
one_step = enqueued 7 ordinary fresh (omega arith) refl

one_reached : Reach one
one_reached = then_step (begin refl) one_step

reachable-IsConsistent_example : IsConsistent one
reachable-IsConsistent_example = reachable-IsConsistent one_reached

reachable-Choice_example : Choice true one (pick_next true one).0 (pick_next true one).1
reachable-Choice_example = reachable-Choice one_reached true

picks_seven : (pick_next true one).1 ≡ some 7
unfolding pick_next pick_deadline pick_rt pick_cfs
picks_seven = refl

-- A deadline process that is replenished while it waits is in the map twice, and removed once.
abbrev twice : RunQueues
twice = record one {
  dl_map = record { time = 5; pid = 8; weight = 0 } ∷ record { time = 9; pid = 8; weight = 0 } ∷ [];
}

stays_once : contains_pid 8 (remove_pid 8 twice).0 ≡ true
unfolding remove_pid remove_first contains_pid has_pid
stays_once = refl
