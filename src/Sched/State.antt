-- ===== src/Sched/State.antt =====
-- kernel/src/sched_state.rs, and `set_state` and `set_sched_owner` of kernel/src/core/mod.rs: the
-- states of a process, who owns it, and which changes the kernel lets pass. A panic is `none`. A
-- site is its number.
pub mod Changes
mod Tests
use cyphera_kernel.Prelude.{
  ℕ, Bool, true, false, not, ◌&&◌, List, [], ◌∷◌, Option, none, some, ◌==◌, if◌then◌else◌,
}

pub data SchedOwner : Type 0 where
  owner_none owner_stopped owner_traced owner_zombie owner_reaping : SchedOwner
  owner_running owner_runnable owner_parked : ℕ → SchedOwner

pub data ProcessState : Type 0 where
  runnable running parked stopped dl_throttled cgroup_throttled traced : ProcessState
  zombie : ℕ → ProcessState
  killed_by_fault : ℕ → ℕ → ℕ → ProcessState
  killed_by_signal : ℕ → ProcessState

-- A process that is put on a run queue keeps its processor only if it runs or has just run there.
unfoldable pub sched_owner_transition_ok : SchedOwner → SchedOwner → Bool
sched_owner_transition_ok owner_none new = elim new [
  | owner_runnable b ↦ true
  | owner_running b ↦ true
  | owner_none ↦ true
  | _ ↦ false
]
sched_owner_transition_ok (owner_runnable a) new = elim new [
  | owner_running b ↦ a == b
  | owner_runnable b ↦ true
  | owner_zombie ↦ true
  | _ ↦ false
]
sched_owner_transition_ok (owner_running a) new = elim new [
  | owner_runnable b ↦ a == b
  | owner_parked q ↦ true
  | owner_stopped ↦ true
  | owner_traced ↦ true
  | owner_zombie ↦ true
  | owner_running b ↦ a == b
  | _ ↦ false
]
sched_owner_transition_ok (owner_parked q) new = elim new [
  | owner_runnable b ↦ true
  | owner_running b ↦ true
  | owner_zombie ↦ true
  | owner_parked r ↦ q == r
  | _ ↦ false
]
sched_owner_transition_ok owner_stopped new = elim new [
  | owner_runnable b ↦ true
  | owner_zombie ↦ true
  | owner_stopped ↦ true
  | _ ↦ false
]
sched_owner_transition_ok owner_traced new = elim new [
  | owner_runnable b ↦ true
  | owner_zombie ↦ true
  | owner_traced ↦ true
  | _ ↦ false
]
sched_owner_transition_ok owner_zombie new = elim new [
  | owner_reaping ↦ true
  | owner_zombie ↦ true
  | _ ↦ false
]
sched_owner_transition_ok owner_reaping new = elim new [
  | owner_none ↦ true
  | owner_reaping ↦ true
  | _ ↦ false
]

unfoldable pub state_is_terminal : ProcessState → Bool
state_is_terminal s = elim s [
  | zombie code ↦ true
  | killed_by_fault vector addr error ↦ true
  | killed_by_signal signal ↦ true
  | _ ↦ false
]

-- the match of `state_transition_ok`, on states that are not terminal
unfoldable pub live_transition_ok : ProcessState → ProcessState → Bool
live_transition_ok cur new = elim cur [
  | running ↦ elim new [
    | runnable ↦ true
    | parked ↦ true
    | stopped ↦ true
    | traced ↦ true
    | cgroup_throttled ↦ true
    | dl_throttled ↦ true
    | running ↦ true
    | _ ↦ false
  ]
  | runnable ↦ elim new [ running ↦ true | cgroup_throttled ↦ true | runnable ↦ true | _ ↦ false ]
  | parked ↦ elim new [ runnable ↦ true | parked ↦ true | _ ↦ false ]
  | stopped ↦ elim new [ runnable ↦ true | traced ↦ true | stopped ↦ true | _ ↦ false ]
  | traced ↦ elim new [ runnable ↦ true | traced ↦ true | _ ↦ false ]
  | cgroup_throttled ↦ elim new [ runnable ↦ true | cgroup_throttled ↦ true | _ ↦ false ]
  | dl_throttled ↦ elim new [ runnable ↦ true | dl_throttled ↦ true | _ ↦ false ]
  | _ ↦ false
]

unfoldable pub state_transition_ok : ProcessState → ProcessState → Bool
state_transition_ok cur new =
    if state_is_terminal new
    then true
    else if state_is_terminal cur
    then false
    else live_transition_ok cur new

abbrev pub is_dying : SchedOwner → Bool
is_dying owner = elim owner [ owner_zombie ↦ true | owner_reaping ↦ true | _ ↦ false ]

-- the last `matches!` of `state_owner_consistent`
unfoldable pub live_consistent : ProcessState → SchedOwner → Bool
live_consistent state owner = elim state [
  | runnable ↦ elim owner [
    | owner_runnable cpu ↦ true
    | owner_none ↦ true
    | owner_running cpu ↦ true
    | owner_parked q ↦ true
    | owner_stopped ↦ true
    | owner_traced ↦ true
    | _ ↦ false
  ]
  | running ↦ elim owner [ owner_running cpu ↦ true | owner_runnable cpu ↦ true | _ ↦ false ]
  | parked ↦ elim owner [ owner_parked q ↦ true | owner_running cpu ↦ true | _ ↦ false ]
  | stopped ↦ elim owner [ owner_stopped ↦ true | owner_running cpu ↦ true | _ ↦ false ]
  | traced ↦ elim owner [
    | owner_traced ↦ true
    | owner_running cpu ↦ true
    | owner_stopped ↦ true
    | _ ↦ false
  ]
  | dl_throttled ↦ elim owner [
    | owner_parked q ↦ true
    | owner_running cpu ↦ true
    | owner_runnable cpu ↦ true
    | _ ↦ false
  ]
  | cgroup_throttled ↦ elim owner [
    | owner_parked q ↦ true
    | owner_running cpu ↦ true
    | owner_runnable cpu ↦ true
    | _ ↦ false
  ]
  | _ ↦ false
]

unfoldable pub state_owner_consistent : ProcessState → SchedOwner → Bool
state_owner_consistent state owner =
    if state_is_terminal state
    then true
    else if is_dying owner
    then true
    else live_consistent state owner

-- what `set_state` and `set_sched_owner` read and write of a `Process`
pub record Proc : Type 0 where
  pub state : ProcessState
  pub sched_owner : SchedOwner
  pub parking_unsaved : Bool
  pub park_site : Option ℕ

unfoldable pub set_state : ProcessState → Proc → Option Proc
set_state new p =
    if not (state_transition_ok p.state new)
    then none
    else if not (state_owner_consistent new p.sched_owner)
    then none
    else some (record p { state = new })

-- the last match of `set_sched_owner`
unfoldable pub note_parking : ℕ → SchedOwner → Proc → Proc
note_parking site new p = elim new [
  | owner_stopped ↦ record p { parking_unsaved = true; park_site = some site }
  | owner_traced ↦ record p { parking_unsaved = true; park_site = some site }
  | owner_parked q ↦ record p { parking_unsaved = true; park_site = some site }
  | owner_running cpu ↦ record p { parking_unsaved = false; park_site = none }
  | _ ↦ p
]

unfoldable pub set_sched_owner : SchedOwner → ℕ → Proc → Option Proc
set_sched_owner new site p =
    if not (sched_owner_transition_ok p.sched_owner new)
    then none
    else if not (state_owner_consistent p.state new)
    then none
    else some (record (note_parking site new p) { sched_owner = new })
