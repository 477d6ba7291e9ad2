-- ===== src/Ipc/Futex/Served.antt =====
-- kernel/src/ipc/futex/wake.rs: `wake` and `wake_bitset` of a queue as a whole.
use cyphera_kernel.Prelude.{
  ℕ, ◌+◌, ◌^◌, ◌≤◌, ◌<◌, bit_and, Bool, true, false, List, [], ◌∷◌, some, ◌==◌, KResult, ok, ◌≡◌,
  ◌≢◌, refl, sym, ap, ◌∙◌, subst, ◌⊎◌, inl, inr, All, length, arith,
}
use cyphera_kernel.Ipc.Futex.{
  Waker, Key, Futexes, Waking, get_queue, drain, wake_each, wake_queue, order_by_priority, is_meant,
  wake, wake_bitset,
}
use cyphera_kernel.Ipc.Futex.Order.{
  occurs, order_by_priority-occurs, order_by_priority-length, order_by_priority-IsByPriority,
}
use cyphera_kernel.Ipc.Futex.Woken.{wake_all, count_woken, occurs-Merge, wake_each-IsWoken}
use cyphera_kernel.Ipc.Futex.Table.{IsStored, refill-IsStored}

module _ {S : Type 0} (core : Waker S) where
  -- What a call makes of the waiters `q` at `key`: `woken` are woken in turn, `kept` wait on.
  pub record IsServed (meant : ℕ → Bool) (key : Key) (n : ℕ) (q : List ℕ) (f : Futexes) (s : S)
      (out : Futexes × S × KResult ℕ) : Type 0 where
    pub woken : List ℕ
    pub kept : List ℕ
    pub everyone : (p : ℕ) → occurs p woken + occurs p kept ≡ occurs p q
    pub stored : IsStored key kept f.queues out.0.queues
    pub masks : out.0.masks ≡ f.masks
    pub procs : out.1 ≡ wake_all core woken s
    pub result : out.2 ≡ ok (count_woken core woken s)
    pub bound : count_woken core woken s ≤ n
    pub only_meant : All (λ p. meant p ≡ true) woken
    pub rest : All (λ p. (meant p ≡ false) ⊎ (count_woken core woken s ≡ n)) kept
    pub urgent :
        All
          (λ p.
            All
              (λ r.
                (meant r ≡ false) ⊎ (core.futex_wake_priority r s ≤ core.futex_wake_priority p s))
              kept)
          woken

  served_rest :
      (meant : ℕ → Bool) (c n m : ℕ) (kept : List ℕ)
      → m ≡ 0 + c
      → c ≤ n
      → All (λ p. (meant p ≡ false) ⊎ (n ≤ m)) kept
      → All (λ p. (meant p ≡ false) ⊎ (c ≡ n)) kept
  served_rest meant c n m [] e le all = tt
  served_rest meant c n m (p ∷ ps) e le (h, all) =
      (elim h [ inl x ↦ inl x | inr x ↦ inr (omega arith) ], served_rest meant c n m ps e le all)

  wake_queue-IsServed :
      (meant : ℕ → Bool) (key : Key) (n : ℕ) (f : Futexes) (s : S) (q : List ℕ)
      → get_queue key f.queues ≡ some q
      → length q < 2 ^ 32
      → IsServed meant key n q f s (wake_queue core meant key n f s (some q))
  unfolding wake_queue
  wake_queue-IsServed meant key n f s q e small =
      let priority = λ (p : ℕ). core.futex_wake_priority p s in
      let waiters = order_by_priority priority q in
      let start : Waking S = record { procs = s; queues = drain key f.queues; woken = 0 } in
      let r =
        wake_each-IsWoken core meant priority key n waiters start
          (order_by_priority-IsByPriority priority q)
          (omega (arith, order_by_priority-length priority q)) in
      let le : count_woken core r.woken s ≤ n = omega (arith, r.count, r.bound (omega arith)) in
      record {
        woken = r.woken;
        kept = r.kept;
        everyone = λ p. occurs-Merge p r.parts ∙ order_by_priority-occurs priority p q;
        stored =
            subst (IsStored key r.kept f.queues) (sym r.queues)
              (refill-IsStored key r.kept f.queues e);
        masks = refl;
        procs = r.procs;
        result = ap ok (omega (arith, r.count));
        bound = le;
        only_meant = r.only_meant;
        rest =
            served_rest meant (count_woken core r.woken s) n
              (wake_each core meant key n waiters start).woken r.kept r.count le r.rest;
        urgent = r.urgent;
      }

  -- Where the address is aligned and processes wait at it, fewer than 2^32, `wake` wakes the most
  -- urgent of them in turn, until `n` were asleep or none is left; it gives the number of them; the
  -- others stay in the queue, and no other queue changes.
  pub wake-IsServed :
      (key : Key) (n : ℕ) (f : Futexes) (s : S) (q : List ℕ)
      → bit_and key.vaddr 3 ≡ 0
      → get_queue key f.queues ≡ some q
      → length q < 2 ^ 32
      → IsServed (λ p. true) key n q f s (wake core key n f s)
  unfolding wake
  wake-IsServed key n f s q a e small =
      rw (a, e) (wake_queue-IsServed (λ p. true) key n f s q e small)

  -- Where the address is aligned, the mask is not 0, and processes wait at the address, fewer than
  -- 2^32, `wake_bitset` wakes in turn the most urgent of those whose mask meets the given one, until
  -- `n` were asleep or none is left; it gives the number of them; every other process stays in the
  -- queue, and no other queue changes.
  pub wake_bitset-IsServed :
      (key : Key) (n mask : ℕ) (f : Futexes) (s : S) (q : List ℕ)
      → bit_and key.vaddr 3 ≡ 0
      → mask ≢ 0
      → get_queue key f.queues ≡ some q
      → length q < 2 ^ 32
      → IsServed (is_meant f.masks mask) key n q f s (wake_bitset core key n mask f s)
  unfolding wake_bitset
  wake_bitset-IsServed key n mask f s q a m e small =
      let none_zero : (mask == 0) ≡ false = ground arith in
      rw (a, none_zero, e) (wake_queue-IsServed (is_meant f.masks mask) key n f s q e small)
