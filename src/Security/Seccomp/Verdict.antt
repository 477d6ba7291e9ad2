-- ===== src/Security/Seccomp/Verdict.antt =====
-- kernel/src/security/seccomp.rs, `evaluate_chain`: which filter's result it takes.
use cyphera_kernel.Prelude.{
  ℕ, ◌≤◌, bit_and, ◌≡◌, refl, ◌≢◌, ◌⊎◌, inl, inr, List, [], ◌∷◌, map, arith, All, ok, ltb,
  if◌then◌else◌,
}
use cyphera_kernel.Security.Bpf.Code.{SockFilter, FitsWord}
use cyphera_kernel.Security.Bpf.Verify.{verify}
use cyphera_kernel.Security.Bpf.Machine.Safety.{IsByte, run-returns}
use cyphera_kernel.Security.Seccomp.Layout.{to_bytes-IsByte}
use cyphera_kernel.Security.Bpf.Machine.{Outcome, returns, panics, stuck, run}
use cyphera_kernel.Security.Seccomp.{
  SeccompData, Chain, to_bytes, evaluate_from, evaluate_chain, seccomp_ret_allow,
  seccomp_ret_action, seccomp_ret_kill_process,
}

abbrev pub action : ℕ → ℕ
action r = bit_and r seccomp_ret_action

abbrev IsOneOf : ℕ → List ℕ → Type 0
IsOneOf v [] = ⊥
IsOneOf v (r ∷ rs) = (v ≡ r) ⊎ IsOneOf v rs

-- `v` is one of the results, or `best`, and no result has a lower action.
pub record IsLeast (best : ℕ) (rs : List ℕ) (v : ℕ) : Type 0 where
  pub taken : (v ≡ best) ⊎ IsOneOf v rs
  pub below_best : action v ≤ action best
  pub below_all : All (λ r. action v ≤ action r) rs

IsLeast-cons :
    (best r : ℕ) (rs : List ℕ) (v : ℕ)
    → IsLeast (if ltb (action r) (action best) then r else best) rs v
    → IsLeast best (r ∷ rs) v
IsLeast-cons best r rs v h = record {
  taken = ground arith;
  below_best = ground arith;
  below_all = (ground arith, h.below_all);
}

evaluate_from-IsLeast :
    (chain : Chain) (bytes : List ℕ) (best : ℕ) (rs : List ℕ)
    → map (λ prog. run prog bytes) chain ≡ map returns rs
    → (v : ℕ) × (evaluate_from chain bytes best ≡ returns v) × IsLeast best rs v
unfolding evaluate_from
evaluate_from-IsLeast [] bytes best [] h = (best, refl, ground arith)
evaluate_from-IsLeast [] bytes best (r ∷ rs) h = absurd (ground arith)
evaluate_from-IsLeast (prog ∷ rest) bytes best [] h = absurd (ground arith)
evaluate_from-IsLeast (prog ∷ rest) bytes best (r ∷ rs) h =
    let e : run prog bytes ≡ returns r = cc in
    let e' : map (λ p. run p bytes) rest ≡ map returns rs = cc in
    let next_best : ℕ = if ltb (action r) (action best) then r else best in
    let (v, q, least) = evaluate_from-IsLeast rest bytes next_best rs e' in
    (v, rw (e, evaluate_from) q, IsLeast-cons best r rs v least)

-- When every filter of the chain returns, the verdict is ALLOW or one of their results, and its
-- action, read as an unsigned number, is the least of ALLOW's and theirs.
pub evaluate_chain-IsLeast :
    (chain : Chain) (d : SeccompData) (rs : List ℕ)
    → map (λ prog. run prog (to_bytes d)) chain ≡ map returns rs
    → (v : ℕ) × (evaluate_chain chain d ≡ returns v) × IsLeast seccomp_ret_allow rs v
unfolding evaluate_chain
evaluate_chain-IsLeast [] d [] h = (seccomp_ret_allow, refl, ground arith)
evaluate_chain-IsLeast [] d (r ∷ rs) h = absurd (ground arith)
evaluate_chain-IsLeast (prog ∷ rest) d rs h =
    evaluate_from-IsLeast (prog ∷ rest) (to_bytes d) seccomp_ret_allow rs h

-- what SECCOMP_SET_MODE_FILTER lets into a chain: a program of words that `verify` accepts for the
-- 64 bytes of `SeccompData`
pub record IsFilter (prog : List SockFilter) : Type 0 where
  pub admitted : verify prog 64 ≡ ok prog
  pub words : All FitsWord prog

runs_return :
    (chain : Chain) (packet : List ℕ)
    → All IsByte packet
    → All IsFilter chain
    → (rs : List ℕ) × (map (λ prog. run prog packet) chain ≡ map returns rs)
runs_return [] packet bytes h = ([], refl)
runs_return (prog ∷ rest) packet bytes (h, hs) =
    let (r, e, fits) = run-returns prog prog 64 packet (omega arith) h.admitted h.words bytes in
    let (rs, es) = runs_return rest packet bytes hs in (r ∷ rs, cc)

-- A chain of verified programs always comes to a verdict: every filter returns, and the verdict is
-- ALLOW or one of their results, its action, read as an unsigned number, the least of ALLOW's and
-- theirs.
pub evaluate_chain-admitted :
    (chain : Chain) (d : SeccompData)
    → All IsFilter chain
    → (v : ℕ) × (rs : List ℕ) × (map (λ prog. run prog (to_bytes d)) chain ≡ map returns rs)
      × (evaluate_chain chain d ≡ returns v)
      × IsLeast seccomp_ret_allow rs v
evaluate_chain-admitted chain d h =
    let (rs, e) = runs_return chain (to_bytes d) (to_bytes-IsByte d) h in
    let (v, q, least) = evaluate_chain-IsLeast chain d rs e in (v, rs, e, q, least)

Outcome-cases : (o : Outcome) → ((r : ℕ) × (o ≡ returns r)) ⊎ (o ≡ panics) ⊎ (o ≡ stuck)
Outcome-cases (returns r) = inl (r, refl)
Outcome-cases panics = inr (inl refl)
Outcome-cases stuck = inr (inr refl)

panics-ne-returns : {v : ℕ} → panics ≢ returns v
panics-ne-returns h = cc

stuck-ne-returns : {v : ℕ} → stuck ≢ returns v
stuck-ne-returns h = cc

min_best : (r best : ℕ) → action (if ltb (action r) (action best) then r else best) ≤ action best
min_best r best = ground arith

-- The best result only ever goes down.
evaluate_from-le :
    (chain : Chain) (bytes : List ℕ) (best v : ℕ)
    → evaluate_from chain bytes best ≡ returns v
    → action v ≤ action best
unfolding evaluate_from
evaluate_from-le [] bytes best v h = ground arith
evaluate_from-le (prog ∷ rest) bytes best v h = elim (Outcome-cases (run prog bytes)) [
  | inl (r, e) ↦ omega (
    arith,
    evaluate_from-le rest bytes (if ltb (action r) (action best) then r else best) v
        (rw (e, evaluate_from) at h),
    min_best r best,
  )
  | inr (inl e) ↦ absurd (panics-ne-returns (rw (e, evaluate_from) at h))
  | inr (inr e) ↦ absurd (stuck-ne-returns (rw (e, evaluate_from) at h))
]

-- No verdict has the action KILL_PROCESS, whatever the filters return: its number, 0x80000000, is
-- above ALLOW's, and the verdict's action is at most ALLOW's.
pub evaluate_chain-ne-kill_process :
    (chain : Chain) (d : SeccompData) {v : ℕ}
    → evaluate_chain chain d ≡ returns v
    → action v ≢ seccomp_ret_kill_process
unfolding evaluate_chain
evaluate_chain-ne-kill_process [] d h = ground arith
evaluate_chain-ne-kill_process (prog ∷ rest) d h =
    omega (arith, evaluate_from-le (prog ∷ rest) (to_bytes d) seccomp_ret_allow _ h)
