-- ===== src/Sched/RunQueue/Chosen.antt =====
-- kernel/src/core/runqueue.rs: which process `pick_next` chooses.
use mathlib.Core.Option.{some-injective}
use cyphera_kernel.Prelude.{
  ℕ, zero, suc, ◌+◌, ◌≤◌, ◌<◌, ◌≡◌, refl, ap, sym, subst, ◌∙◌, Bool, true, false, List, [], ◌∷◌,
  ltb, arith, All, if_cases, Option, none, some, length, get_elem?, set,
}
use cyphera_kernel.Sched.RunQueue.{Timed, RunQueues, before}
use cyphera_kernel.Sched.RunQueue.Pick.{
  pop_front, pop_or, pop_band, pick_cfs, pick_rt, pick_deadline, pick_next, count_bands,
}
use cyphera_kernel.Sched.RunQueue.Sorted.{Sorted}

-- `p` is at the front of the last queue that is not empty, and `after` are the queues without it.
pub record IsTop (bands after : List (List ℕ)) (p : ℕ) : Type 0 where
  pub index : ℕ
  pub behind : List ℕ
  pub found : get_elem? bands index ≡ some (p ∷ behind)
  pub taken : after ≡ set bands index behind
  pub above : (j : ℕ) (b : List ℕ) → index < j → get_elem? bands j ≡ some b → b ≡ []

pub data Popped (bands : List (List ℕ)) : Option (ℕ × List (List ℕ)) → Type 0 where
  no_front :
      ((j : ℕ) (b : List ℕ) → get_elem? bands j ≡ some b → b ≡ [])
      → count_bands bands ≡ 0
      → Popped bands none
  front :
      {p : ℕ} {after : List (List ℕ)}
      → IsTop bands after p
      → count_bands bands ≡ count_bands after + 1
      → length after ≡ length bands
      → Popped bands (some (p, after))

-- Every queue with an index in `P` is empty, if that holds of the first and of those behind it.
empty_cons {κ} :
    (P : ℕ → Type κ) (b : List ℕ) (bands : List (List ℕ))
    → (P zero → b ≡ [])
    → ((j : ℕ) (c : List ℕ) → P (suc j) → get_elem? bands j ≡ some c → c ≡ [])
    → (j : ℕ) (c : List ℕ) → P j
    → get_elem? (b ∷ bands) j ≡ some c
    → c ≡ []
empty_cons P b bands first h zero c q e = sym (some-injective _ _ e) ∙ first q
empty_cons P b bands first h (suc j) c q e = h j c q e

pop_front-Popped :
    (b : List ℕ) (bands : List (List ℕ))
    → ((j : ℕ) (c : List ℕ) → get_elem? bands j ≡ some c → c ≡ [])
    → count_bands bands ≡ 0
    → Popped (b ∷ bands) (pop_front b bands)
unfolding pop_front count_bands
pop_front-Popped [] bands h n =
    no_front
      (λ j c e. empty_cons (λ _. Unit {0}) [] bands (λ _. refl) (λ i d _ f. h i d f) j c tt e)
      (omega arith)
pop_front-Popped (p ∷ ps) bands h n =
    front
      (record {
        index = 0;
        behind = ps;
        found = refl;
        taken = refl;
        above =
            empty_cons (λ j. 0 < j) (p ∷ ps) bands (λ l. absurd (omega arith)) (λ j c _ e. h j c e);
      })
      (omega arith) refl

pop_or-Popped :
    (b : List ℕ) (bands : List (List ℕ)) (o : Option (ℕ × List (List ℕ)))
    → Popped bands o
    → Popped (b ∷ bands) (pop_or b bands o)
unfolding count_bands
pop_or-Popped b bands none (no_front h n) = pop_front-Popped b bands h n
pop_or-Popped b bands (some (p, after)) (front top n l) =
    front
      (record {
        index = suc top.index;
        behind = top.behind;
        found = top.found;
        taken = ap (λ r. b ∷ r) top.taken;
        above =
            empty_cons (λ j. suc top.index < j) b bands (λ l. absurd (omega arith))
              (λ j c m e. top.above j c (omega arith) e);
      })
      (omega (arith, n)) (omega (arith, l))

pub pop_band-Popped : (bands : List (List ℕ)) → Popped bands (pop_band bands)
unfolding pop_band count_bands
pop_band-Popped [] = no_front (λ j c e. absurd (ground arith)) refl
pop_band-Popped (b ∷ bands) = pop_or-Popped b bands (pop_band bands) (pop_band-Popped bands)

-- No queue of the first two classes has a process.
abbrev pub NoneUrgent : RunQueues → Type 0
NoneUrgent q = (q.dl_map ≡ []) × ((j : ℕ) (b : List ℕ) → get_elem? q.rt_bands j ≡ some b → b ≡ [])

-- What `pick_next` may do, the queues being `q` before and `q'` after it: the earliest deadline goes
-- first, then the front of the highest priority, then the least virtual run time. Where the budget
-- of the first two classes is used up (`rt_ok` is false) they are passed over.
pub data Choice (rt_ok : Bool) (q q' : RunQueues) : Option ℕ → Type 0 where
  earliest_deadline :
      (e : Timed)
      → rt_ok ≡ true
      → q.dl_map ≡ e ∷ q'.dl_map
      → All (λ f. e.time ≤ f.time) q.dl_map
      → (q'.rt_bands ≡ q.rt_bands) × (q'.cfs_map ≡ q.cfs_map)
      → Choice rt_ok q q' (some e.pid)
  highest_priority :
      (p : ℕ)
      → rt_ok ≡ true
      → q.dl_map ≡ []
      → IsTop q.rt_bands q'.rt_bands p
      → (q'.dl_map ≡ q.dl_map) × (q'.cfs_map ≡ q.cfs_map)
      → Choice rt_ok q q' (some p)
  least_vruntime :
      (e : Timed)
      → (rt_ok ≡ true → NoneUrgent q)
      → q.cfs_map ≡ e ∷ q'.cfs_map
      → All (λ f. e.time ≤ f.time) q.cfs_map
      → (q'.dl_map ≡ q.dl_map) × (q'.rt_bands ≡ q.rt_bands)
      → Choice rt_ok q q' (some e.pid)
  nothing_to_run : (rt_ok ≡ true → NoneUrgent q) → q.cfs_map ≡ [] → q' ≡ q → Choice rt_ok q q' none

least :
    (e : Timed) (entries : List Timed)
    → All (λ f. before e f ≡ true) entries
    → All (λ f. e.time ≤ f.time) entries
least e [] h = tt
least e (f ∷ entries) (hf, h) = (ground arith, least e entries h)

pick_cfs-Choice :
    (rt_ok : Bool) (q : RunQueues) (entries : List Timed)
    → q.cfs_map ≡ entries
    → Sorted entries
    → (rt_ok ≡ true → NoneUrgent q)
    → let r = pick_cfs entries q in Choice rt_ok q r.0 r.1
unfolding pick_cfs
pick_cfs-Choice rt_ok q [] e h none_urgent = nothing_to_run none_urgent e refl
pick_cfs-Choice rt_ok q (f ∷ entries) e (hf, h) none_urgent =
    least_vruntime f none_urgent e
      (subst (All (λ g. f.time ≤ g.time)) (sym e) (omega arith, least f entries hf)) (refl, refl)

pick_rt-Choice :
    (q : RunQueues) (o : Option (ℕ × List (List ℕ)))
    → Sorted q.cfs_map
    → q.dl_map ≡ []
    → Popped q.rt_bands o
    → let r = pick_rt o q in Choice true q r.0 r.1
unfolding pick_rt
pick_rt-Choice q none h d (no_front empty n) =
    pick_cfs-Choice true q q.cfs_map refl h (λ _. (d, empty))
pick_rt-Choice q (some (p, bands)) h d (front top n l) = highest_priority p refl d top (refl, refl)

no_bands :
    (bands : List (List ℕ)) (o : Option (ℕ × List (List ℕ)))
    → Popped bands o
    → count_bands bands ≡ 0
    → (j : ℕ) (b : List ℕ) → get_elem? bands j ≡ some b
    → b ≡ []
no_bands bands none (no_front empty n) z = empty
no_bands bands (some r) (front top n l) z = absurd (omega arith)

pick_deadline-Choice :
    (q : RunQueues) (entries : List Timed)
    → q.dl_map ≡ entries
    → Sorted entries
    → Sorted q.cfs_map
    → q.rt_count ≡ count_bands q.rt_bands
    → let r = pick_deadline entries q in Choice true q r.0 r.1
unfolding pick_deadline
pick_deadline-Choice q [] e hd hc n =
    if_cases (λ (r : RunQueues × Option ℕ). Choice true q r.0 r.1) (ltb 0 q.rt_count)
      (λ _. pick_rt-Choice q (pop_band q.rt_bands) hc e (pop_band-Popped q.rt_bands))
      (λ idle. pick_cfs-Choice true q q.cfs_map refl hc (λ _.
        (e, no_bands q.rt_bands (pop_band q.rt_bands) (pop_band-Popped q.rt_bands) (ground arith))))
pick_deadline-Choice q (f ∷ entries) e (hf, h) hc n =
    earliest_deadline f refl e
      (subst (All (λ g. f.time ≤ g.time)) (sym e) (omega arith, least f entries hf)) (refl, refl)

pub pick_next-Choice :
    (rt_ok : Bool) (q : RunQueues)
    → Sorted q.dl_map
    → Sorted q.cfs_map
    → q.rt_count ≡ count_bands q.rt_bands
    → let r = pick_next rt_ok q in Choice rt_ok q r.0 r.1
unfolding pick_next
pick_next-Choice true q hd hc n = pick_deadline-Choice q q.dl_map refl hd hc n
pick_next-Choice false q hd hc n = pick_cfs-Choice false q q.cfs_map refl hc (λ e. cc)
