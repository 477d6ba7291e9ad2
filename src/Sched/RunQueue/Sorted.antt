-- ===== src/Sched/RunQueue/Sorted.antt =====
-- kernel/src/core/runqueue.rs: the sorted maps, and how often they hold a process.
use cyphera_kernel.Prelude.{
  ℕ, ◌+◌, ◌-◌, ◌≡◌, refl, true, List, [], ◌∷◌, ◌==◌, arith, All, if_cases, if◌then◌else◌,
}
use cyphera_kernel.Sched.RunQueue.{Timed, same_key, before, insert_timed, replaced}
use cyphera_kernel.Sched.RunQueue.Pick.{remove_first, weight_of}

abbrev pub Sorted : List Timed → Type 0
Sorted [] = Unit
Sorted (e ∷ entries) = All (λ f. before e f ≡ true) entries × Sorted entries

unfoldable pub total : List Timed → ℕ
total [] = 0
total (e ∷ entries) = e.weight + total entries

All-insert {κ} :
    (P : Timed → Type κ) (e : Timed) (entries : List Timed)
    → P e
    → All P entries
    → All P (insert_timed e entries)
unfolding insert_timed
All-insert P e [] he h = (he, tt)
All-insert P e (f ∷ entries) he h =
    if_cases (All P) (same_key e f) (λ _. (he, h.1))
      (λ _.
        if_cases (All P) (before e f) (λ _. (he, h)) (λ _. (h.0, All-insert P e entries he h.1)))

before_trans :
    (e f : Timed) (entries : List Timed)
    → before e f ≡ true
    → All (λ g. before f g ≡ true) entries
    → All (λ g. before e g ≡ true) entries
before_trans e f [] h all = tt
before_trans e f (g ∷ entries) h (hg, all) = (ground arith, before_trans e f entries h all)

same_before :
    (e f : Timed) (entries : List Timed)
    → same_key e f ≡ true
    → All (λ g. before f g ≡ true) entries
    → All (λ g. before e g ≡ true) entries
same_before e f [] h all = tt
same_before e f (g ∷ entries) h (hg, all) = (ground arith, same_before e f entries h all)

pub insert-Sorted :
    (e : Timed) (entries : List Timed) → Sorted entries → Sorted (insert_timed e entries)
unfolding insert_timed
insert-Sorted e [] h = (tt, tt)
insert-Sorted e (f ∷ entries) (hf, h) =
    if_cases Sorted (same_key e f) (λ s. (same_before e f entries s hf, h))
      (λ s.
        if_cases Sorted (before e f) (λ b. ((b, before_trans e f entries b hf), (hf, h)))
          (λ b. (
            All-insert (λ g. before f g ≡ true) e entries (ground arith) hf,
            insert-Sorted e entries h,
          )))

replaced-none :
    (e : Timed) (entries : List Timed)
    → All (λ f. before e f ≡ true) entries
    → replaced e entries ≡ 0
unfolding replaced
replaced-none e [] h = refl
replaced-none e (f ∷ entries) (hf, h) = ground (arith, replaced-none e entries h)

pub total-insert :
    (e : Timed) (entries : List Timed)
    → Sorted entries
    → total (insert_timed e entries) + replaced e entries ≡ e.weight + total entries
unfolding insert_timed total replaced
total-insert e [] h = omega arith
total-insert e (f ∷ entries) (hf, h) = ground (
  arith,
  total-insert e entries h,
  λ (t : before e f ≡ true). replaced-none e entries (before_trans e f entries t hf),
)

-- how often a process is in a map
unfoldable pub times : ℕ → List Timed → ℕ
times p [] = 0
times p (e ∷ entries) = let rest = times p entries in if e.pid == p then 1 + rest else rest

pub times-remove_first :
    (pid p : ℕ) (entries : List Timed)
    → times p (remove_first pid entries) ≡ times p entries - (if p == pid then 1 else 0)
unfolding times remove_first
times-remove_first pid p [] = ground arith
times-remove_first pid p (e ∷ entries) = ground (arith, times-remove_first pid p entries)

All-remove_first {κ} :
    (P : Timed → Type κ) (pid : ℕ) (entries : List Timed)
    → All P entries
    → All P (remove_first pid entries)
unfolding remove_first
All-remove_first P pid [] h = tt
All-remove_first P pid (e ∷ entries) (he, h) =
    if_cases (All P) (e.pid == pid) (λ _. h) (λ _. (he, All-remove_first P pid entries h))

pub remove_first-Sorted :
    (pid : ℕ) (entries : List Timed) → Sorted entries → Sorted (remove_first pid entries)
unfolding remove_first
remove_first-Sorted pid [] h = tt
remove_first-Sorted pid (e ∷ entries) (he, h) =
    if_cases Sorted (e.pid == pid) (λ _. h)
      (λ _. (All-remove_first _ pid entries he, remove_first-Sorted pid entries h))

pub total-remove_first :
    (pid : ℕ) (entries : List Timed)
    → total (remove_first pid entries) + weight_of pid entries ≡ total entries
unfolding remove_first weight_of total
total-remove_first pid [] = refl
total-remove_first pid (e ∷ entries) = ground (arith, total-remove_first pid entries)
