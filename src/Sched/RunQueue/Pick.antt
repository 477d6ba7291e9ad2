-- ===== src/Sched/RunQueue/Pick.antt =====
-- kernel/src/core/runqueue.rs: taking processes out of the queues.
use cyphera_kernel.Prelude.{
  ℕ, ◌+◌, ◌-◌, max, Bool, true, false, ◌&&◌, ◌||◌, List, [], ◌∷◌, Option, none, some, ltb, ◌==◌,
  if◌then◌else◌, length,
}
use cyphera_kernel.Sched.RunQueue.{RunQueues, Timed, is_empty, raise_floor}

unfoldable pub pop_front : List ℕ → List (List ℕ) → Option (ℕ × List (List ℕ))
pop_front [] bands = none
pop_front (p ∷ ps) bands = some (p, ps ∷ bands)

abbrev pub pop_or : List ℕ → List (List ℕ) → Option (ℕ × List (List ℕ)) → Option (ℕ × List (List ℕ))
pop_or b bands none = pop_front b bands
pop_or b bands (some (p, rest)) = some (p, b ∷ rest)

-- the front of the last queue that is not empty, and the queues without it
unfoldable pub pop_band : List (List ℕ) → Option (ℕ × List (List ℕ))
pop_band [] = none
pop_band (b ∷ bands) = pop_or b bands (pop_band bands)

unfoldable pub pick_cfs : List Timed → RunQueues → RunQueues × Option ℕ
pick_cfs [] q = (q, none)
pick_cfs (e ∷ entries) q = (
  record q {
    cfs_map = entries;
    cfs_load = q.cfs_load - e.weight;
    cfs_min_vruntime =
        if is_empty entries
        then max q.cfs_min_vruntime e.time
        else raise_floor entries q.cfs_min_vruntime;
  },
  some e.pid,
)

unfoldable pub pick_rt : Option (ℕ × List (List ℕ)) → RunQueues → RunQueues × Option ℕ
pick_rt none q = pick_cfs q.cfs_map q
pick_rt (some (pid, bands)) q = (record q { rt_bands = bands; rt_count = q.rt_count - 1 }, some pid)

unfoldable pub pick_deadline : List Timed → RunQueues → RunQueues × Option ℕ
pick_deadline [] q =
    if ltb 0 q.rt_count then pick_rt (pop_band q.rt_bands) q else pick_cfs q.cfs_map q
pick_deadline (e ∷ entries) q = (record q { dl_map = entries }, some e.pid)

unfoldable pub pick_next : Bool → RunQueues → RunQueues × Option ℕ
pick_next rt_ok q = if rt_ok then pick_deadline q.dl_map q else pick_cfs q.cfs_map q

unfoldable pub is_idle : RunQueues → Bool
is_idle q = q.rt_count == 0 && is_empty q.dl_map && is_empty q.cfs_map

unfoldable pub has_pid : ℕ → List Timed → Bool
has_pid pid [] = false
has_pid pid (e ∷ entries) = e.pid == pid || has_pid pid entries

unfoldable pub in_band : ℕ → List ℕ → Bool
in_band pid [] = false
in_band pid (p ∷ ps) = p == pid || in_band pid ps

unfoldable pub in_bands : ℕ → List (List ℕ) → Bool
in_bands pid [] = false
in_bands pid (b ∷ bands) = in_band pid b || in_bands pid bands

unfoldable pub contains_pid : ℕ → RunQueues → Bool
contains_pid pid q =
    has_pid pid q.cfs_map || has_pid pid q.dl_map || (ltb 0 q.rt_count && in_bands pid q.rt_bands)

unfoldable pub retain_others : ℕ → List ℕ → List ℕ
retain_others pid [] = []
retain_others pid (p ∷ ps) = let rest = retain_others pid ps in if p == pid then rest else p ∷ rest

unfoldable pub retain_bands : ℕ → List (List ℕ) → List (List ℕ)
retain_bands pid [] = []
retain_bands pid (b ∷ bands) = retain_others pid b ∷ retain_bands pid bands

unfoldable pub count_bands : List (List ℕ) → ℕ
count_bands [] = 0
count_bands (b ∷ bands) = length b + count_bands bands

-- the first entry of the process, and the map without it
unfoldable pub remove_first : ℕ → List Timed → List Timed
remove_first pid [] = []
remove_first pid (e ∷ entries) = if e.pid == pid then entries else e ∷ remove_first pid entries

unfoldable pub weight_of : ℕ → List Timed → ℕ
weight_of pid [] = 0
weight_of pid (e ∷ entries) = if e.pid == pid then e.weight else weight_of pid entries

abbrev pub one_if : Bool → ℕ
one_if true = 1
one_if false = 0

-- the queues without the process, and how many entries it had in each class
unfoldable pub remove_pid : ℕ → RunQueues → RunQueues × ℕ × ℕ × ℕ
remove_pid pid q =
    let bands = retain_bands pid q.rt_bands in
    let rt_removed = count_bands q.rt_bands - count_bands bands in
    (
      record q {
        rt_bands = bands;
        rt_count = q.rt_count - rt_removed;
        dl_map = remove_first pid q.dl_map;
        cfs_map = remove_first pid q.cfs_map;
        cfs_load = q.cfs_load - weight_of pid q.cfs_map;
      },
      rt_removed,
      one_if (has_pid pid q.dl_map),
      one_if (has_pid pid q.cfs_map),
    )

abbrev pub leftmost : List Timed → ℕ → ℕ
leftmost [] floor = floor
leftmost (e ∷ entries) floor = e.time

unfoldable pub cfs_leftmost_vruntime : RunQueues → ℕ
cfs_leftmost_vruntime q = leftmost q.cfs_map q.cfs_min_vruntime
