-- ===== src/Sched/RunQueue.antt =====
-- kernel/src/core/runqueue.rs: the queues of one processor. A map sorted by (time, process id) is
-- the list of its entries in that order; `rt` has the queue of priority p at index p - 1.
pub mod Pick
pub mod Sorted
pub mod Chosen
pub mod Kept
pub mod Reach
pub mod Absent
pub mod Floor
mod Tests
use cyphera_kernel.Prelude.{
  ℕ, zero, suc, ◌+◌, ◌-◌, ◌*◌, ◌/◌, min, max, Bool, true, false, ◌&&◌, ◌||◌, List, [], ◌∷◌, ◌++◌,
  Option, none, some, ltb, leb, ◌==◌, if◌then◌else◌, length, get_elem?, set, replicate,
}
use cyphera_kernel.Sched.Params.{SchedClass, cfs, rt, deadline, saturating_add, saturating_mul}

abbrev pub sched_latency_ns : ℕ
sched_latency_ns = 24000000

abbrev pub sched_min_granularity_ns : ℕ
sched_min_granularity_ns = 3000000

abbrev pub sched_wakeup_vruntime_thresh_ns : ℕ
sched_wakeup_vruntime_thresh_ns = sched_latency_ns / 2

abbrev pub rt_prio_count : ℕ
rt_prio_count = 99

abbrev pub rt_prio_min : ℕ
rt_prio_min = 1

abbrev pub rt_prio_max : ℕ
rt_prio_max = 99

abbrev pub dl_bw_scale : ℕ
dl_bw_scale = 1000000

abbrev pub dl_bw_max : ℕ
dl_bw_max = 950000

pub data CfsPlace : Type 0 where
  fresh wake continuing : CfsPlace

pub record EnqueueData : Type 0 where
  pub class : SchedClass
  pub vruntime : ℕ
  pub weight : ℕ
  pub dl_deadline : ℕ

-- an entry of a sorted map: the time and the process that are its key, and its value
pub record Timed : Type 0 where
  pub time : ℕ
  pub pid : ℕ
  pub weight : ℕ

pub record RunQueues : Type 0 where
  pub cfs_map : List Timed
  pub cfs_min_vruntime : ℕ
  pub cfs_load : ℕ
  pub rt_bands : List (List ℕ)
  pub rt_count : ℕ
  pub dl_map : List Timed
  pub dl_total_bw : ℕ

unfoldable pub new : RunQueues
new = record {
  cfs_map = [];
  cfs_min_vruntime = 0;
  cfs_load = 0;
  rt_bands = replicate rt_prio_count [];
  rt_count = 0;
  dl_map = [];
  dl_total_bw = 0;
}

abbrev pub same_key : Timed → Timed → Bool
same_key e f = e.time == f.time && e.pid == f.pid

abbrev pub before : Timed → Timed → Bool
before e f = ltb e.time f.time || (e.time == f.time && ltb e.pid f.pid)

-- `BTreeMap::insert`
unfoldable pub insert_timed : Timed → List Timed → List Timed
insert_timed e [] = e ∷ []
insert_timed e (f ∷ entries) =
    if same_key e f
    then e ∷ entries
    else if before e f
    then e ∷ f ∷ entries
    else f ∷ insert_timed e entries

-- the weight that `insert` replaces
unfoldable pub replaced : Timed → List Timed → ℕ
replaced e [] = 0
replaced e (f ∷ entries) = if same_key e f then f.weight else replaced e entries

-- the floor once the leftmost entry is seen
abbrev pub raise_floor : List Timed → ℕ → ℕ
raise_floor [] floor = floor
raise_floor (e ∷ entries) floor = max floor e.time

unfoldable pub place_cfs : ℕ → CfsPlace → RunQueues → ℕ
place_cfs vruntime fresh q = max vruntime q.cfs_min_vruntime
place_cfs vruntime wake q = max vruntime (q.cfs_min_vruntime - sched_wakeup_vruntime_thresh_ns)
place_cfs vruntime continuing q = vruntime

unfoldable pub enqueue_cfs : ℕ → ℕ → ℕ → CfsPlace → RunQueues → RunQueues × ℕ
enqueue_cfs pid vruntime weight kind q =
    let placed = place_cfs vruntime kind q in
    let e : Timed = record { time = placed; pid = pid; weight = weight } in
    let entries = insert_timed e q.cfs_map in
    (
      record q {
        cfs_map = entries;
        cfs_load = saturating_add q.cfs_load weight - replaced e q.cfs_map;
        cfs_min_vruntime = raise_floor entries q.cfs_min_vruntime;
      },
      placed,
    )

unfoldable pub cfs_slice_for : ℕ → RunQueues → ℕ
cfs_slice_for weight q =
    let total = saturating_add q.cfs_load weight in
    if total == 0
    then sched_latency_ns
    else max (saturating_mul sched_latency_ns weight / total) sched_min_granularity_ns

-- The queue at index `i` gets one more at its back.
unfoldable pub push_band : ℕ → ℕ → List (List ℕ) → List (List ℕ)
push_band i pid [] = []
push_band zero pid (b ∷ bands) = (b ++ (pid ∷ [])) ∷ bands
push_band (suc i) pid (b ∷ bands) = b ∷ push_band i pid bands

abbrev pub clamp_priority : ℕ → ℕ
clamp_priority priority = min (max priority rt_prio_min) rt_prio_max

unfoldable pub enqueue_rt : ℕ → ℕ → RunQueues → RunQueues
enqueue_rt pid priority q = record q {
  rt_bands = push_band (clamp_priority priority - 1) pid q.rt_bands;
  rt_count = q.rt_count + 1;
}

abbrev pub is_empty {ℓ} : {A : Type ℓ} → List A → Bool
is_empty [] = true
is_empty (x ∷ xs) = false

-- one past the index of the last queue that is not empty, counted on from `i`
unfoldable pub top_from : ℕ → List (List ℕ) → Option ℕ
top_from i [] = none
top_from i (b ∷ bands) = elim (top_from (i + 1) bands) [
  | some p ↦ some p
  | none ↦ if is_empty b then none else some (i + 1)
]

unfoldable pub rt_top_priority : RunQueues → Option ℕ
rt_top_priority q = if q.rt_count == 0 then none else top_from 0 q.rt_bands

unfoldable pub enqueue_deadline : ℕ → ℕ → RunQueues → RunQueues
enqueue_deadline pid absolute_deadline q = record q {
  dl_map = insert_timed (record { time = absolute_deadline; pid = pid; weight = 0 }) q.dl_map;
}

abbrev pub bandwidth : ℕ → ℕ → ℕ
bandwidth runtime_ns period_ns = saturating_mul runtime_ns dl_bw_scale / period_ns

unfoldable pub admit_dl_bandwidth : ℕ → ℕ → RunQueues → RunQueues × Bool
admit_dl_bandwidth runtime_ns period_ns q =
    if period_ns == 0 || ltb period_ns runtime_ns
    then (q, false)
    else (let bw = bandwidth runtime_ns period_ns in
        if ltb dl_bw_max (saturating_add q.dl_total_bw bw)
        then (q, false)
        else (record q { dl_total_bw = saturating_add q.dl_total_bw bw }, true))

unfoldable pub release_dl_bandwidth : ℕ → ℕ → RunQueues → RunQueues
release_dl_bandwidth runtime_ns period_ns q =
    if period_ns == 0
    then q
    else record q { dl_total_bw = q.dl_total_bw - bandwidth runtime_ns period_ns }

unfoldable pub enqueue_as : SchedClass → ℕ → EnqueueData → CfsPlace → RunQueues → RunQueues × ℕ
enqueue_as cfs pid d kind q = enqueue_cfs pid d.vruntime d.weight kind q
enqueue_as (rt priority round_robin) pid d kind q = (enqueue_rt pid priority q, d.vruntime)
enqueue_as (deadline runtime due period) pid d kind q =
    (enqueue_deadline pid d.dl_deadline q, d.vruntime)

unfoldable pub enqueue : ℕ → EnqueueData → CfsPlace → RunQueues → RunQueues × ℕ
enqueue pid d kind q = enqueue_as d.class pid d kind q
