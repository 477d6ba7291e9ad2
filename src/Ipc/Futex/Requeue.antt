-- ===== src/Ipc/Futex/Requeue.antt =====
-- kernel/src/ipc/futex/wake.rs: `requeue` of two queues as a whole, which may be one.
use cyphera_kernel.Prelude.{
  ℕ, ◌+◌, ◌≤◌, bit_and, bit_or, true, false, List, [], ◌++◌, Option, some, KResult, ok, ◌≡◌, ◌≢◌,
  refl, sym, ap, ◌∙◌, subst, ◌⊎◌, inl, inr, length, Bool-cases, arith,
}
use cyphera_kernel.Ipc.Futex.{
  Waker, Key, same_key, Queues, Futexes, Moving, get_queue, drain, queue_for, requeue_queue,
  requeue, compared, order_by_priority,
}
use cyphera_kernel.Ipc.Futex.Order.{
  occurs, occurs-append, order_by_priority-occurs, IsByPriority, order_by_priority-IsByPriority,
}
use cyphera_kernel.Ipc.Futex.Woken.{wake_all, count_woken, enqueue_all}
use cyphera_kernel.Ipc.Futex.Moved.{requeue_each-IsMoved}
use cyphera_kernel.Ipc.Futex.Table.{
  waiting_or_none, drain-IsStored, queue_for-IsStored, enqueue_all-IsStored,
}

-- The queues after some of the waiters at `key1` moved to `key2` and others stayed.
pub record IsSplit (key1 key2 : Key) (moved kept : List ℕ) (before after : Queues) : Type 0 where
  pub apart :
      same_key key1 key2 ≡ false
      → (get_queue key1 after ≡ some kept)
        × (get_queue key2 after ≡ some (waiting_or_none (get_queue key2 before) ++ moved))
  pub one : same_key key1 key2 ≡ true → get_queue key1 after ≡ some (moved ++ kept)
  pub others :
      (k : Key)
      → same_key key1 k ≡ false
      → same_key key2 k ≡ false
      → get_queue k after ≡ get_queue k before

not_self : (k : Key) → same_key k k ≢ false
not_self k h = ground arith

same_key-sym : (j k : Key) → same_key j k ≡ false → same_key k j ≡ false
same_key-sym j k h = ground arith

abbrev key_at : ℕ → ℕ → Key
key_at a b = record { vmspace_id = a; vaddr = b }

same_key-eq : (j k : Key) → same_key j k ≡ true → j ≡ k
same_key-eq j k h =
    let e : j.vmspace_id ≡ k.vmspace_id = ground arith in
    let e' : j.vaddr ≡ k.vaddr = ground arith in
    ap (λ (a : ℕ). key_at a j.vaddr) e ∙ ap (λ (b : ℕ). key_at k.vmspace_id b) e'

-- the queues once the loop is over
abbrev after_all : Key → Key → List ℕ → List ℕ → Queues → Queues
after_all key1 key2 moved kept queues =
    enqueue_all key1 kept (enqueue_all key2 moved (drain key1 (queue_for key2 queues)))

module _ (moved kept : List ℕ) (queues : Queues) {q : List ℕ} where
  module _ (key1 key2 : Key) where
    IsSplit-apart :
        get_queue key1 queues ≡ some q
        → same_key key1 key2 ≡ false
        → IsSplit key1 key2 moved kept queues (after_all key1 key2 moved kept queues)
    IsSplit-apart e h =
        let f = queue_for-IsStored key2 queues in
        let d =
          drain-IsStored key1 (queue_for key2 queues)
            (f.others key1 (same_key-sym key1 key2 h) ∙ e) in
        let m =
          enqueue_all-IsStored key2 moved (drain key1 (queue_for key2 queues))
            (waiting_or_none (get_queue key2 queues)) (d.others key2 h ∙ f.here) in
        let k =
          enqueue_all-IsStored key1 kept
            (enqueue_all key2 moved (drain key1 (queue_for key2 queues))) []
            (m.others key1 (same_key-sym key1 key2 h) ∙ d.here) in
        record {
          apart = λ t. (k.here, k.others key2 h ∙ m.here);
          one = λ t. absurd (ground arith);
          others = λ i h1 h2. k.others i h1 ∙ m.others i h2 ∙ d.others i h1 ∙ f.others i h2;
        }

  IsSplit-one :
      (key : Key)
      → get_queue key queues ≡ some q
      → IsSplit key key moved kept queues (after_all key key moved kept queues)
  IsSplit-one key e =
      let f = queue_for-IsStored key queues in
      let d = drain-IsStored key (queue_for key queues) f.here in
      let m = enqueue_all-IsStored key moved (drain key (queue_for key queues)) [] d.here in
      let k =
        enqueue_all-IsStored key kept (enqueue_all key moved (drain key (queue_for key queues)))
          moved m.here in
      record {
        apart = λ t. absurd (not_self key t);
        one = λ t. k.here;
        others = λ i h1 h2. k.others i h1 ∙ m.others i h2 ∙ d.others i h1 ∙ f.others i h2;
      }

  moved-IsSplit :
      (key1 key2 : Key)
      → get_queue key1 queues ≡ some q
      → IsSplit key1 key2 moved kept queues (after_all key1 key2 moved kept queues)
  moved-IsSplit key1 key2 e = elim (Bool-cases (same_key key1 key2)) [
    | inl t ↦
        subst (λ k. IsSplit key1 k moved kept queues (after_all key1 k moved kept queues))
          (same_key-eq key1 key2 t) (IsSplit-one key1 e)
    | inr t ↦ IsSplit-apart key1 key2 e t
  ]

module _ {S : Type 0} (core : Waker S) where
  -- What a call makes of the waiters `q` at `key1`: `woken` are woken in turn, `moved` wait at
  -- `key2` from then on, `kept` wait on.
  pub record IsRequeued (key1 key2 : Key) (n_wake n_requeue : ℕ) (q : List ℕ) (f : Futexes) (s : S)
      (out : Futexes × S × KResult ℕ) : Type 0 where
    pub woken : List ℕ
    pub moved : List ℕ
    pub kept : List ℕ
    pub everyone : (p : ℕ) → occurs p woken + (occurs p moved + occurs p kept) ≡ occurs p q
    pub by_priority : IsByPriority (λ p. core.futex_wake_priority p s) (woken ++ (moved ++ kept))
    pub queues : IsSplit key1 key2 moved kept f.queues out.0.queues
    pub masks : out.0.masks ≡ f.masks
    pub procs : out.1 ≡ wake_all core woken s
    pub result : out.2 ≡ ok (count_woken core woken s + length moved)
    pub wake_bound : count_woken core woken s ≤ n_wake
    pub move_bound : length moved ≤ n_requeue
    pub moved_last : (moved ≡ []) ⊎ (count_woken core woken s ≡ n_wake)
    pub kept_last : (kept ≡ []) ⊎ ((count_woken core woken s ≡ n_wake) × (length moved ≡ n_requeue))

  requeue_queue-IsRequeued :
      (key1 key2 : Key) (n_wake n_requeue : ℕ) (f : Futexes) (s : S) (q : List ℕ)
      → get_queue key1 f.queues ≡ some q
      → IsRequeued key1 key2 n_wake n_requeue q f s
          (requeue_queue core key1 key2 n_wake n_requeue f s (some q))
  unfolding requeue_queue
  requeue_queue-IsRequeued key1 key2 n_wake n_requeue f s q e =
      let priority = λ (p : ℕ). core.futex_wake_priority p s in
      let waiters = order_by_priority priority q in
      let start : Moving S = record {
        waking = record { procs = s; queues = drain key1 (queue_for key2 f.queues); woken = 0 };
        requeued = 0;
      } in
      let r = requeue_each-IsMoved core key1 key2 n_wake n_requeue waiters start in
      record {
        woken = r.woken;
        moved = r.moved;
        kept = r.kept;
        everyone = λ p. omega (
          arith,
          occurs-append p r.woken (r.moved ++ r.kept),
          occurs-append p r.moved r.kept,
          ap (occurs p) r.parts,
          order_by_priority-occurs priority p q,
        );
        by_priority =
            subst (IsByPriority priority) r.parts (order_by_priority-IsByPriority priority q);
        queues =
            subst (IsSplit key1 key2 r.moved r.kept f.queues) (sym r.queues)
              (moved-IsSplit r.moved r.kept f.queues key1 key2 e);
        masks = refl;
        procs = r.procs;
        result = ap ok (omega (arith, r.count, r.requeued));
        wake_bound = omega (arith, r.count, r.wake_bound (omega arith));
        move_bound = omega (arith, r.requeued, r.move_bound (omega arith));
        moved_last = elim r.moved_last [
          | inl h ↦ inl h
          | inr h ↦ inr (omega (arith, r.count, r.wake_bound (omega arith)))
        ];
        kept_last = elim r.kept_last [
          | inl h ↦ inl h
          | inr (h, h') ↦ inr (
            omega (arith, r.count, r.wake_bound (omega arith)),
            omega (arith, r.requeued, r.move_bound (omega arith)),
          )
        ];
      }

  -- Where the addresses are aligned, the value at the first is the expected one if one is, and
  -- processes wait there, `requeue` takes them by priority: it wakes the first in turn until `n_wake`
  -- were asleep, moves at most `n_requeue` of the next to the back of the second queue, and leaves
  -- the others where they were, also where the two queues are one; it gives the number of those
  -- woken and moved, and changes no other queue.
  pub requeue-IsRequeued :
      (key1 key2 : Key) (n_wake n_requeue : ℕ) (cmp value : Option ℕ) (f : Futexes) (s : S)
      (q : List ℕ)
      → bit_and (bit_or key1.vaddr key2.vaddr) 3 ≡ 0
      → compared cmp value ≡ ok tt
      → get_queue key1 f.queues ≡ some q
      → IsRequeued key1 key2 n_wake n_requeue q f s
          (requeue core key1 key2 n_wake n_requeue cmp value f s)
  unfolding requeue
  requeue-IsRequeued key1 key2 n_wake n_requeue cmp value f s q a c e =
      rw (a, c, e) (requeue_queue-IsRequeued key1 key2 n_wake n_requeue f s q e)
