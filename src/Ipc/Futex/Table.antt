-- ===== src/Ipc/Futex/Table.antt =====
-- kernel/src/ipc/futex/state.rs: what the operations on a queue leave in the table of queues.
use cyphera_kernel.Prelude.{
  ℕ, true, false, List, [], ◌∷◌, ◌++◌, Option, none, some, if◌then◌else◌, ◌≡◌, refl, sym, ap, ◌∙◌,
  subst, if_cases, arith,
}
use mathlib.Core.Option.{some-injective}
use cyphera_kernel.Ipc.Futex.{Key, same_key, Queues, get_queue, queue_for, drain, enqueue}
use cyphera_kernel.Ipc.Futex.Woken.{enqueue_all}

-- An operation that puts `q` where the key's queue was.
pub record IsStored (key : Key) (q : List ℕ) (before after : Queues) : Type 0 where
  pub here : get_queue key after ≡ some q
  pub others : (k : Key) → same_key key k ≡ false → get_queue k after ≡ get_queue k before

-- the queue of a key under an entry of another, and under its own
get_queue-other :
    (k j : Key) (q : List ℕ) (queues : Queues)
    → same_key j k ≡ false
    → get_queue k ((j, q) ∷ queues) ≡ get_queue k queues
unfolding get_queue
get_queue-other k j q queues e = ground arith

get_queue-own :
    (k j : Key) (q : List ℕ) (queues : Queues)
    → same_key j k ≡ true
    → get_queue k ((j, q) ∷ queues) ≡ some q
unfolding get_queue
get_queue-own k j q queues e = ground arith

same_key-other :
    (j key k : Key) → same_key j key ≡ true → same_key key k ≡ false → same_key j k ≡ false
same_key-other j key k hj hk = ground arith

cons-others :
    (k j : Key) (q : List ℕ) (before after : Queues)
    → get_queue k after ≡ get_queue k before
    → get_queue k ((j, q) ∷ after) ≡ get_queue k ((j, q) ∷ before)
unfolding get_queue
cons-others k j q before after h = ap (λ o. if same_key j k then some q else o) h

cons-IsStored :
    (key j : Key) (q r : List ℕ) (before after : Queues)
    → same_key j key ≡ false
    → IsStored key q before after
    → IsStored key q ((j, r) ∷ before) ((j, r) ∷ after)
cons-IsStored key j q r before after e s = record {
  here = get_queue-other key j r after e ∙ s.here;
  others = λ k h. cons-others k j r before after (s.others k h);
}

head-IsStored :
    (key j : Key) (q r : List ℕ) (queues : Queues)
    → same_key j key ≡ true
    → IsStored key q ((j, r) ∷ queues) ((j, q) ∷ queues)
head-IsStored key j q r queues e = record {
  here = get_queue-own key j q queues e;
  others = λ k h.
      get_queue-other k j q queues (same_key-other j key k e h)
      ∙ sym (get_queue-other k j r queues (same_key-other j key k e h));
}

trans-IsStored :
    (key : Key) {q r : List ℕ} (t u v : Queues)
    → IsStored key q t u
    → IsStored key r u v
    → IsStored key r t v
trans-IsStored key t u v s s' = record {
  here = s'.here;
  others = λ k h. s'.others k h ∙ s.others k h;
}

pub drain-IsStored :
    (key : Key) (queues : Queues) {q : List ℕ}
    → get_queue key queues ≡ some q
    → IsStored key [] queues (drain key queues)
unfolding get_queue drain
drain-IsStored key [] e = absurd (ground arith)
drain-IsStored key ((j, r) ∷ queues) e =
    if_cases (IsStored key [] ((j, r) ∷ queues)) (same_key j key)
      (λ t. head-IsStored key j [] r queues t)
      (λ t.
        cons-IsStored key j [] r queues (drain key queues) t
          (drain-IsStored key queues (sym (get_queue-other key j r queues t) ∙ e)))

pub enqueue-IsStored :
    (key : Key) (pid : ℕ) (queues : Queues) (q : List ℕ)
    → get_queue key queues ≡ some q
    → IsStored key (q ++ (pid ∷ [])) queues (enqueue key pid queues)
unfolding get_queue enqueue
enqueue-IsStored key pid [] q e = absurd (ground arith)
enqueue-IsStored key pid ((j, r) ∷ queues) q e =
    if_cases (IsStored key (q ++ (pid ∷ [])) ((j, r) ∷ queues)) (same_key j key)
      (λ t.
        subst
          (λ x. IsStored key (q ++ (pid ∷ [])) ((j, r) ∷ queues) ((j, x ++ (pid ∷ [])) ∷ queues))
          (some-injective _ _ (sym e ∙ get_queue-own key j r queues t))
          (head-IsStored key j (q ++ (pid ∷ [])) r queues t))
      (λ t.
        cons-IsStored key j (q ++ (pid ∷ [])) r queues (enqueue key pid queues) t
          (enqueue-IsStored key pid queues q (sym (get_queue-other key j r queues t) ∙ e)))

append-cons : (q : List ℕ) (p : ℕ) (ps : List ℕ) → (q ++ (p ∷ [])) ++ ps ≡ q ++ (p ∷ ps)
append-cons [] p ps = refl
append-cons (x ∷ q) p ps = ap (λ t. x ∷ t) (append-cons q p ps)

append-nil : (q : List ℕ) → q ≡ q ++ []
append-nil [] = refl
append-nil (x ∷ q) = ap (λ t. x ∷ t) (append-nil q)

pub enqueue_all-IsStored :
    (key : Key) (ps : List ℕ) (queues : Queues) (q : List ℕ)
    → get_queue key queues ≡ some q
    → IsStored key (q ++ ps) queues (enqueue_all key ps queues)
unfolding enqueue_all
enqueue_all-IsStored key [] queues q e = record {
  here = e ∙ ap some (append-nil q);
  others = λ k h. refl;
}
enqueue_all-IsStored key (p ∷ ps) queues q e =
    let s = enqueue-IsStored key p queues q e in
    subst (λ x. IsStored key x queues (enqueue_all key ps (enqueue key p queues)))
      (append-cons q p ps)
      (trans-IsStored key queues (enqueue key p queues) (enqueue_all key ps (enqueue key p queues))
        s (enqueue_all-IsStored key ps (enqueue key p queues) (q ++ (p ∷ [])) s.here))

-- After a drain, what is put back is the queue.
pub refill-IsStored :
    (key : Key) (ps : List ℕ) (queues : Queues) {q : List ℕ}
    → get_queue key queues ≡ some q
    → IsStored key ps queues (enqueue_all key ps (drain key queues))
refill-IsStored key ps queues e =
    let s = drain-IsStored key queues e in
    trans-IsStored key queues (drain key queues) (enqueue_all key ps (drain key queues)) s
      (enqueue_all-IsStored key ps (drain key queues) [] s.here)

abbrev pub waiting_or_none : Option (List ℕ) → List ℕ
waiting_or_none none = []
waiting_or_none (some q) = q

-- The queue of the key is there, as it was, or empty.
pub queue_for-IsStored :
    (key : Key) (queues : Queues)
    → IsStored key (waiting_or_none (get_queue key queues)) queues (queue_for key queues)
unfolding get_queue queue_for
queue_for-IsStored key [] = record { here = ground arith; others = λ k h. ground arith }
queue_for-IsStored key ((j, r) ∷ queues) =
    if_cases (IsStored key (waiting_or_none (get_queue key ((j, r) ∷ queues))) ((j, r) ∷ queues))
      (same_key j key)
      (λ t.
        subst (λ o. IsStored key (waiting_or_none o) ((j, r) ∷ queues) ((j, r) ∷ queues))
          (sym (get_queue-own key j r queues t)) (head-IsStored key j r r queues t))
      (λ t.
        subst
          (λ o. IsStored key (waiting_or_none o) ((j, r) ∷ queues) ((j, r) ∷ queue_for key queues))
          (sym (get_queue-other key j r queues t))
          (cons-IsStored key j (waiting_or_none (get_queue key queues)) r queues
            (queue_for key queues) t (queue_for-IsStored key queues)))
