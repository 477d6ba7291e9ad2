-- ===== src/Sched/State/Changes.antt =====
-- kernel/src/sched_state.rs: what no sequence of changes that the kernel lets pass can do.
use cyphera_kernel.Prelude.{
  ℕ, Bool, true, false, not, List, [], ◌∷◌, Option, none, some, if◌then◌else◌, ◌≡◌, refl, sym,
  subst, inl, inr, Bool-cases, arith,
}
use mathlib.Core.Option.{some-injective}
use cyphera_kernel.Sched.State.{
  SchedOwner, owner_none, owner_stopped, owner_traced, owner_zombie, owner_reaping, owner_running,
  owner_runnable, owner_parked, ProcessState, sched_owner_transition_ok, state_is_terminal,
  state_transition_ok, is_dying, state_owner_consistent, Proc, set_state, note_parking,
  set_sched_owner,
}

pub data Transition : Type 0 where
  to_state : ProcessState → Transition
  to_owner : SchedOwner → ℕ → Transition

unfoldable pub apply_change : Transition → Proc → Option Proc
apply_change (to_state s) p = set_state s p
apply_change (to_owner o site) p = set_sched_owner o site p

-- The changes that are let pass one after another, and the processes that they make.
pub data Changes : Proc → Proc → List Transition → Type 0 where
  stay : {p : Proc} → Changes p p []
  change :
      {p r : Proc} {cs : List Transition} (c : Transition) (q : Proc)
      → apply_change c p ≡ some q
      → Changes q r cs
      → Changes p r (c ∷ cs)

abbrev pub is_consistent : Proc → Bool
is_consistent p = state_owner_consistent p.state p.sched_owner

guards :
    (a b : Bool) {p q : Proc}
    → (if not a then none else if not b then none else some p) ≡ some q
    → (p ≡ q) × (a ≡ true) × (b ≡ true)
guards true true e = (some-injective _ _ e, refl, refl)
guards true false e = absurd (ground arith)
guards false b e = absurd (ground arith)

set_state-parts :
    (s : ProcessState) (p q : Proc)
    → set_state s p ≡ some q
    → (record p { state = s } ≡ q)
      × (state_transition_ok p.state s ≡ true)
      × (state_owner_consistent s p.sched_owner ≡ true)
unfolding set_state
set_state-parts s p q e =
    guards (state_transition_ok p.state s) (state_owner_consistent s p.sched_owner) e

set_sched_owner-parts :
    (o : SchedOwner) (site : ℕ) (p q : Proc)
    → set_sched_owner o site p ≡ some q
    → (record (note_parking site o p) { sched_owner = o } ≡ q)
      × (sched_owner_transition_ok p.sched_owner o ≡ true)
      × (state_owner_consistent p.state o ≡ true)
unfolding set_sched_owner
set_sched_owner-parts o site p q e =
    guards (sched_owner_transition_ok p.sched_owner o) (state_owner_consistent p.state o) e

note_parking-state :
    (site : ℕ) (o : SchedOwner) (p : Proc) → (note_parking site o p).state ≡ p.state
unfolding note_parking
note_parking-state site owner_none p = refl
note_parking-state site owner_stopped p = refl
note_parking-state site owner_traced p = refl
note_parking-state site owner_zombie p = refl
note_parking-state site owner_reaping p = refl
note_parking-state site (owner_running cpu) p = refl
note_parking-state site (owner_runnable cpu) p = refl
note_parking-state site (owner_parked w) p = refl

-- some change takes the owner away, as the reaper does
unfoldable pub is_let_go : List Transition → Bool
is_let_go [] = false
is_let_go (to_state s ∷ cs) = is_let_go cs
is_let_go (to_owner owner_none site ∷ cs) = true
is_let_go (to_owner owner_stopped site ∷ cs) = is_let_go cs
is_let_go (to_owner owner_traced site ∷ cs) = is_let_go cs
is_let_go (to_owner owner_zombie site ∷ cs) = is_let_go cs
is_let_go (to_owner owner_reaping site ∷ cs) = is_let_go cs
is_let_go (to_owner (owner_running cpu) site ∷ cs) = is_let_go cs
is_let_go (to_owner (owner_runnable cpu) site ∷ cs) = is_let_go cs
is_let_go (to_owner (owner_parked w) site ∷ cs) = is_let_go cs

-- What changes keep of a process.
pub record IsKept (p r : Proc) (cs : List Transition) : Type 0 where
  pub agrees : is_consistent p ≡ true → is_consistent r ≡ true
  pub dead : state_is_terminal p.state ≡ true → state_is_terminal r.state ≡ true
  pub dying : is_dying p.sched_owner ≡ true → is_let_go cs ≡ false → is_dying r.sched_owner ≡ true

terminal-stays :
    (s t : ProcessState)
    → state_transition_ok s t ≡ true
    → state_is_terminal s ≡ true
    → state_is_terminal t ≡ true
unfolding state_transition_ok
terminal-stays s t ok dead = elim (Bool-cases (state_is_terminal t)) [
  | inl e ↦ e
  | inr e ↦ absurd (ground arith)
]

dying-stays :
    (o n : SchedOwner) (site : ℕ) (cs : List Transition)
    → sched_owner_transition_ok o n ≡ true
    → is_dying o ≡ true
    → is_let_go (to_owner n site ∷ cs) ≡ false
    → (is_dying n ≡ true) × (is_let_go cs ≡ false)
unfolding sched_owner_transition_ok is_let_go
dying-stays owner_none n site cs ok dying kept = absurd (ground arith)
dying-stays owner_stopped n site cs ok dying kept = absurd (ground arith)
dying-stays owner_traced n site cs ok dying kept = absurd (ground arith)
dying-stays owner_zombie owner_none site cs ok dying kept = absurd (ground arith)
dying-stays owner_zombie owner_stopped site cs ok dying kept = absurd (ground arith)
dying-stays owner_zombie owner_traced site cs ok dying kept = absurd (ground arith)
dying-stays owner_zombie owner_zombie site cs ok dying kept = (refl, kept)
dying-stays owner_zombie owner_reaping site cs ok dying kept = (refl, kept)
dying-stays owner_zombie (owner_running cpu) site cs ok dying kept = absurd (ground arith)
dying-stays owner_zombie (owner_runnable cpu) site cs ok dying kept = absurd (ground arith)
dying-stays owner_zombie (owner_parked w) site cs ok dying kept = absurd (ground arith)
dying-stays owner_reaping owner_none site cs ok dying kept = absurd (ground arith)
dying-stays owner_reaping owner_stopped site cs ok dying kept = absurd (ground arith)
dying-stays owner_reaping owner_traced site cs ok dying kept = absurd (ground arith)
dying-stays owner_reaping owner_zombie site cs ok dying kept = absurd (ground arith)
dying-stays owner_reaping owner_reaping site cs ok dying kept = (refl, kept)
dying-stays owner_reaping (owner_running cpu) site cs ok dying kept = absurd (ground arith)
dying-stays owner_reaping (owner_runnable cpu) site cs ok dying kept = absurd (ground arith)
dying-stays owner_reaping (owner_parked w) site cs ok dying kept = absurd (ground arith)
dying-stays (owner_running cpu) n site cs ok dying kept = absurd (ground arith)
dying-stays (owner_runnable cpu) n site cs ok dying kept = absurd (ground arith)
dying-stays (owner_parked w) n site cs ok dying kept = absurd (ground arith)

step_state-IsKept :
    (s : ProcessState) (p q r : Proc) (cs : List Transition)
    → set_state s p ≡ some q
    → IsKept q r cs
    → IsKept p r (to_state s ∷ cs)
unfolding is_let_go
step_state-IsKept s p q r cs e k =
    let (eq, ok, agrees) = set_state-parts s p q e in
    let k' : IsKept (record p { state = s }) r cs = subst (λ x. IsKept x r cs) (sym eq) k in
    record {
      agrees = λ h. k'.agrees agrees;
      dead = λ h. k'.dead (terminal-stays p.state s ok h);
      dying = λ h l. k'.dying h l;
    }

step_owner-IsKept :
    (o : SchedOwner) (site : ℕ) (p q r : Proc) (cs : List Transition)
    → set_sched_owner o site p ≡ some q
    → IsKept q r cs
    → IsKept p r (to_owner o site ∷ cs)
step_owner-IsKept o site p q r cs e k =
    let (eq, ok, agrees) = set_sched_owner-parts o site p q e in
    let same = note_parking-state site o p in
    let k' : IsKept (record (note_parking site o p) { sched_owner = o }) r cs =
      subst (λ x. IsKept x r cs) (sym eq) k in
    record {
      agrees = λ h. k'.agrees (subst (λ x. state_owner_consistent x o ≡ true) (sym same) agrees);
      dead = λ h. k'.dead (subst (λ x. state_is_terminal x ≡ true) (sym same) h);
      dying = λ h l. let (d, rest) = dying-stays p.sched_owner o site cs ok h l in k'.dying d rest;
    }

-- Whatever changes of state and owner the kernel lets pass one after another: a process whose state
-- and owner agree is left with a state and owner that agree, a dead process stays dead, and one that
-- is a zombie or being reaped stays that until a change takes its owner away.
pub Changes-IsKept : {p r : Proc} {cs : List Transition} → Changes p r cs → IsKept p r cs
unfolding apply_change
Changes-IsKept stay = record { agrees = λ h. h; dead = λ h. h; dying = λ h k. h }
Changes-IsKept (change {p} {r} {cs} (to_state s) q e rest) =
    step_state-IsKept s p q r cs e (Changes-IsKept rest)
Changes-IsKept (change {p} {r} {cs} (to_owner o site) q e rest) =
    step_owner-IsKept o site p q r cs e (Changes-IsKept rest)
