-- ===== src/Sched/Params.antt =====
-- kernel/src/process_model/sched_params.rs and kernel/src/core/cfs.rs: scheduling classes, weights,
-- and the virtual run time that a slice costs.
use cyphera_kernel.Prelude.{
  ℕ, ◌+◌, ◌-◌, ◌*◌, ◌/◌, ◌^◌, min, max, Bool, List, [], ◌∷◌, Option, none, some, ◌==◌,
  if◌then◌else◌, get_elem?,
}

pub data SchedClass : Type 0 where
  cfs : SchedClass
  rt : ℕ → Bool → SchedClass
  -- the run time, the deadline and the period, in nanoseconds
  deadline : ℕ → ℕ → ℕ → SchedClass

unfoldable pub band : SchedClass → ℕ
band (deadline runtime due period) = 300
band (rt priority round_robin) = 200 + priority
band cfs = 0

abbrev pub u64_max : ℕ
u64_max = 2 ^ 64 - 1

abbrev pub saturating_add : ℕ → ℕ → ℕ
saturating_add a b = min (a + b) u64_max

abbrev pub saturating_mul : ℕ → ℕ → ℕ
saturating_mul a b = min (a * b) u64_max

abbrev pub nice_0_load : ℕ
nice_0_load = 1024

abbrev pub prio_to_weight : List ℕ
prio_to_weight =
    88761 ∷ 71755 ∷ 56483 ∷ 46273 ∷ 36291 ∷ 29154 ∷ 23254 ∷ 18705 ∷ 14949 ∷ 11916 ∷ 9548 ∷ 7620
    ∷ 6100 ∷ 4904 ∷ 3906 ∷ 3121 ∷ 2501 ∷ 1991 ∷ 1586 ∷ 1277 ∷ 1024 ∷ 820 ∷ 655 ∷ 526 ∷ 423 ∷ 335
    ∷ 272 ∷ 215 ∷ 172 ∷ 137 ∷ 110 ∷ 87 ∷ 70 ∷ 56 ∷ 45 ∷ 36 ∷ 29 ∷ 23 ∷ 18 ∷ 15 ∷ []

abbrev pub or_nice_0 : Option ℕ → ℕ
or_nice_0 none = nice_0_load
or_nice_0 (some weight) = weight

-- `idx` is the nice value plus twenty; one below zero is a `usize` past the table.
unfoldable pub nice_to_weight : ℕ → ℕ
nice_to_weight idx = or_nice_0 (get_elem? prio_to_weight idx)

unfoldable pub calc_delta_vruntime : ℕ → ℕ → ℕ
calc_delta_vruntime delta_ns weight =
    if weight == 0 then delta_ns else saturating_mul delta_ns nice_0_load / weight

unfoldable pub cgroup_scaled_weight : ℕ → ℕ → ℕ
cgroup_scaled_weight weight cg_weight = saturating_mul weight cg_weight / 100

-- what a slice of `delta_ns` adds to the virtual run time of a process in the fair class
unfoldable pub charged_vruntime : ℕ → ℕ → ℕ → ℕ → ℕ → ℕ
charged_vruntime idx weight cg_weight delta_ns vruntime =
    let raw = if weight == 0 then nice_to_weight idx else weight in
    saturating_add vruntime
      (calc_delta_vruntime delta_ns (max (cgroup_scaled_weight raw cg_weight) 1))
