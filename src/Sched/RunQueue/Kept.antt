-- ===== src/Sched/RunQueue/Kept.antt =====
-- kernel/src/core/runqueue.rs: each operation keeps the queues consistent.
use cyphera_kernel.Prelude.{
  ℕ, zero, suc, ◌+◌, ◌-◌, ◌^◌, ◌≤◌, ◌<◌, ◌≡◌, refl, ap, subst, Bool, ◌||◌, List, [], ◌∷◌, ltb, ◌==◌,
  arith, if_cases, Option, none, some, length, length-append,
}
use cyphera_kernel.Sched.Params.{saturating_add, SchedClass, cfs, rt, deadline}
use cyphera_kernel.Sched.RunQueue.{
  Timed, RunQueues, EnqueueData, CfsPlace, place_cfs, enqueue_as, enqueue_cfs, enqueue_rt,
  enqueue_deadline, push_band, clamp_priority, rt_prio_count, admit_dl_bandwidth,
  release_dl_bandwidth, dl_bw_max, bandwidth,
}
use cyphera_kernel.Sched.RunQueue.Pick.{
  pop_band, pick_cfs, pick_rt, pick_deadline, count_bands, remove_pid, retain_bands, retain_others,
}
use cyphera_kernel.Sched.RunQueue.Sorted.{
  Sorted, total, insert-Sorted, total-insert, remove_first-Sorted, total-remove_first,
}
use cyphera_kernel.Sched.RunQueue.Chosen.{Popped, front, pop_band-Popped}

pub record IsConsistent (q : RunQueues) : Type 0 where
  pub cfs_sorted : Sorted q.cfs_map
  pub cfs_loaded : q.cfs_load ≡ total q.cfs_map
  pub dl_sorted : Sorted q.dl_map
  pub bands : length q.rt_bands ≡ rt_prio_count
  pub counted : q.rt_count ≡ count_bands q.rt_bands
  pub admitted : q.dl_total_bw ≤ dl_bw_max

count_bands-push_band :
    (i pid : ℕ) (bands : List (List ℕ))
    → i < length bands
    → (count_bands (push_band i pid bands) ≡ count_bands bands + 1)
      × (length (push_band i pid bands) ≡ length bands)
unfolding count_bands push_band
count_bands-push_band i pid [] l = absurd (omega arith)
count_bands-push_band zero pid (b ∷ bands) l = (omega (arith, length-append b (pid ∷ [])), refl)
count_bands-push_band (suc i) pid (b ∷ bands) l =
    omega (arith, count_bands-push_band i pid bands (omega arith))

enqueue_cfs-IsConsistent :
    (pid vruntime weight : ℕ) (kind : CfsPlace) (q : RunQueues)
    → q.cfs_load + weight < 2 ^ 64
    → IsConsistent q
    → IsConsistent (enqueue_cfs pid vruntime weight kind q).0
unfolding enqueue_cfs
enqueue_cfs-IsConsistent pid vruntime weight kind q fits h =
    let e : Timed = record { time = place_cfs vruntime kind q; pid = pid; weight = weight } in
    record {
      cfs_sorted = insert-Sorted e q.cfs_map h.cfs_sorted;
      cfs_loaded = omega (arith, total-insert e q.cfs_map h.cfs_sorted, h.cfs_loaded);
      dl_sorted = h.dl_sorted;
      bands = h.bands;
      counted = h.counted;
      admitted = h.admitted;
    }

enqueue_rt-IsConsistent :
    (pid priority : ℕ) (q : RunQueues) → IsConsistent q → IsConsistent (enqueue_rt pid priority q)
unfolding enqueue_rt
enqueue_rt-IsConsistent pid priority q h =
    let (count, len) =
      count_bands-push_band (clamp_priority priority - 1) pid q.rt_bands (omega (arith, h.bands)) in
    record {
      cfs_sorted = h.cfs_sorted;
      cfs_loaded = h.cfs_loaded;
      dl_sorted = h.dl_sorted;
      bands = omega (arith, len, h.bands);
      counted = omega (arith, count, h.counted);
      admitted = h.admitted;
    }

enqueue_deadline-IsConsistent :
    (pid due : ℕ) (q : RunQueues) → IsConsistent q → IsConsistent (enqueue_deadline pid due q)
unfolding enqueue_deadline
enqueue_deadline-IsConsistent pid due q h = record {
  cfs_sorted = h.cfs_sorted;
  cfs_loaded = h.cfs_loaded;
  dl_sorted = insert-Sorted _ q.dl_map h.dl_sorted;
  bands = h.bands;
  counted = h.counted;
  admitted = h.admitted;
}

pub enqueue_as-IsConsistent :
    (class : SchedClass) (pid : ℕ) (d : EnqueueData) (kind : CfsPlace) (q : RunQueues)
    → q.cfs_load + d.weight < 2 ^ 64
    → IsConsistent q
    → IsConsistent (enqueue_as class pid d kind q).0
unfolding enqueue_as
enqueue_as-IsConsistent cfs pid d kind q fits h =
    enqueue_cfs-IsConsistent pid d.vruntime d.weight kind q fits h
enqueue_as-IsConsistent (rt priority round_robin) pid d kind q fits h =
    enqueue_rt-IsConsistent pid priority q h
enqueue_as-IsConsistent (deadline runtime due period) pid d kind q fits h =
    enqueue_deadline-IsConsistent pid d.dl_deadline q h

-- The rest of a map that an entry is taken off the front of.
pub pick_cfs-IsConsistent :
    (entries : List Timed) (q : RunQueues)
    → q.cfs_map ≡ entries
    → IsConsistent q
    → IsConsistent (pick_cfs entries q).0
unfolding pick_cfs total
pick_cfs-IsConsistent [] q e h = h
pick_cfs-IsConsistent (f ∷ entries) q e h =
    let sorted : Sorted (f ∷ entries) = subst Sorted e h.cfs_sorted in
    let loaded : q.cfs_load ≡ total (f ∷ entries) =
      subst (λ es. q.cfs_load ≡ total es) e h.cfs_loaded in
    record {
      cfs_sorted = sorted.1;
      cfs_loaded = omega arith;
      dl_sorted = h.dl_sorted;
      bands = h.bands;
      counted = h.counted;
      admitted = h.admitted;
    }

pick_rt-IsConsistent :
    (o : Option (ℕ × List (List ℕ))) (q : RunQueues)
    → Popped q.rt_bands o
    → IsConsistent q
    → IsConsistent (pick_rt o q).0
unfolding pick_rt
pick_rt-IsConsistent none q p h = pick_cfs-IsConsistent q.cfs_map q refl h
pick_rt-IsConsistent (some (pid, bands)) q (front top n l) h = record {
  cfs_sorted = h.cfs_sorted;
  cfs_loaded = h.cfs_loaded;
  dl_sorted = h.dl_sorted;
  bands = omega (arith, l, h.bands);
  counted = omega (arith, n, h.counted);
  admitted = h.admitted;
}

pub pick_deadline-IsConsistent :
    (entries : List Timed) (q : RunQueues)
    → q.dl_map ≡ entries
    → IsConsistent q
    → IsConsistent (pick_deadline entries q).0
unfolding pick_deadline
pick_deadline-IsConsistent [] q e h =
    if_cases (λ (r : RunQueues × Option ℕ). IsConsistent r.0) (ltb 0 q.rt_count)
      (λ _. pick_rt-IsConsistent (pop_band q.rt_bands) q (pop_band-Popped q.rt_bands) h)
      (λ _. pick_cfs-IsConsistent q.cfs_map q refl h)
pick_deadline-IsConsistent (f ∷ entries) q e h = record {
  cfs_sorted = h.cfs_sorted;
  cfs_loaded = h.cfs_loaded;
  dl_sorted = (subst Sorted e h.dl_sorted).1;
  bands = h.bands;
  counted = h.counted;
  admitted = h.admitted;
}

length-retain_bands :
    (pid : ℕ) (bands : List (List ℕ)) → length (retain_bands pid bands) ≡ length bands
unfolding retain_bands
length-retain_bands pid [] = refl
length-retain_bands pid (b ∷ bands) = ap suc (length-retain_bands pid bands)

length-retain_others : (pid : ℕ) (ps : List ℕ) → length (retain_others pid ps) ≤ length ps
unfolding retain_others
length-retain_others pid [] = omega arith
length-retain_others pid (p ∷ ps) = ground (arith, length-retain_others pid ps)

pub count_bands-retain_bands :
    (pid : ℕ) (bands : List (List ℕ)) → count_bands (retain_bands pid bands) ≤ count_bands bands
unfolding retain_bands count_bands
count_bands-retain_bands pid [] = omega arith
count_bands-retain_bands pid (b ∷ bands) =
    omega (arith, length-retain_others pid b, count_bands-retain_bands pid bands)

pub remove_pid-IsConsistent :
    (pid : ℕ) (q : RunQueues) → IsConsistent q → IsConsistent (remove_pid pid q).0
unfolding remove_pid
remove_pid-IsConsistent pid q h = record {
  cfs_sorted = remove_first-Sorted pid q.cfs_map h.cfs_sorted;
  cfs_loaded = omega (arith, total-remove_first pid q.cfs_map, h.cfs_loaded);
  dl_sorted = remove_first-Sorted pid q.dl_map h.dl_sorted;
  bands = omega (arith, length-retain_bands pid q.rt_bands, h.bands);
  counted = omega (arith, count_bands-retain_bands pid q.rt_bands, h.counted);
  admitted = h.admitted;
}

with_bandwidth :
    (bw : ℕ) (q : RunQueues)
    → bw ≤ dl_bw_max
    → IsConsistent q
    → IsConsistent (record q { dl_total_bw = bw })
with_bandwidth bw q l h = record {
  cfs_sorted = h.cfs_sorted;
  cfs_loaded = h.cfs_loaded;
  dl_sorted = h.dl_sorted;
  bands = h.bands;
  counted = h.counted;
  admitted = l;
}

pub admit_dl_bandwidth-IsConsistent :
    (runtime_ns period_ns : ℕ) (q : RunQueues)
    → IsConsistent q
    → IsConsistent (admit_dl_bandwidth runtime_ns period_ns q).0
unfolding admit_dl_bandwidth
admit_dl_bandwidth-IsConsistent runtime_ns period_ns q h =
    let P : RunQueues × Bool → Type 0 = λ r. IsConsistent r.0 in
    if_cases P (period_ns == 0 || ltb period_ns runtime_ns) (λ _. h)
      (λ _.
        if_cases P (ltb dl_bw_max (saturating_add q.dl_total_bw (bandwidth runtime_ns period_ns)))
          (λ _. h)
          (λ fits.
            with_bandwidth (saturating_add q.dl_total_bw (bandwidth runtime_ns period_ns)) q
              (ground arith) h))

pub release_dl_bandwidth-IsConsistent :
    (runtime_ns period_ns : ℕ) (q : RunQueues)
    → IsConsistent q
    → IsConsistent (release_dl_bandwidth runtime_ns period_ns q)
unfolding release_dl_bandwidth
release_dl_bandwidth-IsConsistent runtime_ns period_ns q h =
    if_cases IsConsistent (period_ns == 0) (λ _. h)
      (λ _. with_bandwidth _ q (omega (arith, h.admitted)) h)
