-- ===== src/Sched/State/Tests.antt =====
-- kernel/src/sched_state.rs at concrete inputs: a process exits while it runs, and is reaped.
use cyphera_kernel.Prelude.{false, [], ◌∷◌, List, none, ◌≡◌, refl}
use cyphera_kernel.Sched.State.{
  owner_zombie, owner_running, owner_runnable, running, runnable, zombie, sched_owner_transition_ok,
  state_is_terminal, state_transition_ok, state_owner_consistent, Proc, set_state, note_parking,
  set_sched_owner,
}
use cyphera_kernel.Sched.State.Changes.{
  Transition, to_state, to_owner, apply_change, Changes, stay, change, IsKept, Changes-IsKept,
}

abbrev busy : Proc
busy = record {
  state = running;
  sched_owner = owner_running 0;
  parking_unsaved = false;
  park_site = none;
}

abbrev exited : Proc
exited = record busy { state = zombie 1 }

abbrev left_over : Proc
left_over = record exited { sched_owner = owner_zombie }

abbrev exit : List Transition
exit = to_state (zombie 1) ∷ to_owner owner_zombie 7 ∷ []

exits : Changes busy left_over exit
unfolding apply_change set_state set_sched_owner state_transition_ok state_is_terminal
    state_owner_consistent sched_owner_transition_ok note_parking
exits =
    change (to_state (zombie 1)) exited refl (change (to_owner owner_zombie 7) left_over refl stay)

stays_dead : set_state runnable left_over ≡ none
unfolding set_state state_transition_ok state_is_terminal
stays_dead = refl

keeps_processor : set_sched_owner (owner_runnable 1) 7 busy ≡ none
unfolding set_sched_owner sched_owner_transition_ok
keeps_processor = refl

Changes-IsKept_example : IsKept busy left_over exit
Changes-IsKept_example = Changes-IsKept exits
