-- ===== src/Ipc/Futex/Moved.antt =====
-- kernel/src/ipc/futex/wake.rs: which waiters `requeue` wakes, which it moves, and which stay.
use cyphera_kernel.Prelude.{
  ℕ, ◌+◌, ◌≤◌, ◌<◌, Bool, true, false, List, [], ◌∷◌, ◌++◌, ltb, ◌≡◌, refl, ap, ◌∙◌, ◌⊎◌, inl, inr,
  length, if_cases, arith,
}
use cyphera_kernel.Ipc.Futex.{
  Waker, Key, Queues, Moving, enqueue, wake_one, one_more, requeue_one, requeue_each,
}
use cyphera_kernel.Ipc.Futex.Woken.{wake_all, count_woken, enqueue_all}

-- Another one in front, where none was taken before it.
parts-moved :
    (p : ℕ) (woken rest : List ℕ) {ps : List ℕ}
    → woken ≡ []
    → ps ≡ woken ++ rest
    → (p ∷ ps) ≡ woken ++ (p ∷ rest)
parts-moved p [] rest e h = ap (λ t. p ∷ t) h
parts-moved p (x ∷ woken) rest e h = absurd (ground arith)

parts-kept :
    (p : ℕ) (woken moved kept : List ℕ) {ps : List ℕ}
    → woken ≡ []
    → moved ≡ []
    → ps ≡ woken ++ (moved ++ kept)
    → (p ∷ ps) ≡ woken ++ (moved ++ (p ∷ kept))
parts-kept p [] [] kept e e' h = ap (λ t. p ∷ t) h
parts-kept p [] (x ∷ moved) kept e e' h = absurd (ground arith)
parts-kept p (x ∷ woken) moved kept e e' h = absurd (ground arith)

queues-kept :
    (key1 key2 : Key) (p : ℕ) (moved kept : List ℕ) (queues : Queues)
    → moved ≡ []
    → enqueue_all key1 kept (enqueue_all key2 moved (enqueue key1 p queues))
      ≡ enqueue_all key1 (p ∷ kept) (enqueue_all key2 moved queues)
unfolding enqueue_all
queues-kept key1 key2 p [] kept queues e = refl
queues-kept key1 key2 p (x ∷ moved) kept queues e = absurd (ground arith)

module _ {S : Type 0} (core : Waker S) (key1 key2 : Key) (n_wake n_requeue : ℕ) where
  -- What the loop makes of `waiters`: the first are woken, the next are moved, the last stay.
  pub record IsMoved (waiters : List ℕ) (m out : Moving S) : Type 0 where
    pub woken : List ℕ
    pub moved : List ℕ
    pub kept : List ℕ
    pub parts : waiters ≡ woken ++ (moved ++ kept)
    pub procs : out.waking.procs ≡ wake_all core woken m.waking.procs
    pub count : out.waking.woken ≡ m.waking.woken + count_woken core woken m.waking.procs
    pub requeued : out.requeued ≡ m.requeued + length moved
    pub queues : out.waking.queues ≡ enqueue_all key1 kept (enqueue_all key2 moved m.waking.queues)
    pub wake_bound : m.waking.woken ≤ n_wake → out.waking.woken ≤ n_wake
    pub move_bound : m.requeued ≤ n_requeue → out.requeued ≤ n_requeue
    pub woken_first : n_wake ≤ m.waking.woken → woken ≡ []
    pub moved_first : n_wake ≤ m.waking.woken → n_requeue ≤ m.requeued → moved ≡ []
    pub moved_last : (moved ≡ []) ⊎ (n_wake ≤ out.waking.woken)
    pub kept_last : (kept ≡ []) ⊎ ((n_wake ≤ out.waking.woken) × (n_requeue ≤ out.requeued))

  one_more-add : (b : Bool) (a c : ℕ) → one_more b a + c ≡ a + one_more b c
  one_more-add true a c = omega arith
  one_more-add false a c = refl

  one_more-le : (b : Bool) (a n : ℕ) → a < n → one_more b a ≤ n
  one_more-le true a n h = omega arith
  one_more-le false a n h = omega arith

  wake_head :
      (p : ℕ) (ps : List ℕ) (m out : Moving S)
      → m.waking.woken < n_wake
      → IsMoved ps (record m { waking = wake_one core p m.waking }) out
      → IsMoved (p ∷ ps) m out
  unfolding wake_one wake_all count_woken
  wake_head p ps m out lt r =
      let b = (core.wake_pid p m.waking.procs).1 in
      record {
        woken = p ∷ r.woken;
        moved = r.moved;
        kept = r.kept;
        parts = ap (λ t. p ∷ t) r.parts;
        procs = r.procs;
        count =
            r.count
            ∙ one_more-add b m.waking.woken
                (count_woken core r.woken (core.wake_pid p m.waking.procs).0);
        requeued = r.requeued;
        queues = r.queues;
        wake_bound = λ h. r.wake_bound (one_more-le b m.waking.woken n_wake lt);
        move_bound = r.move_bound;
        woken_first = λ h. absurd (omega arith);
        moved_first = λ h h'. absurd (omega arith);
        moved_last = r.moved_last;
        kept_last = r.kept_last;
      }

  move_head :
      (p : ℕ) (ps : List ℕ) (m out : Moving S)
      → n_wake ≤ m.waking.woken
      → m.requeued < n_requeue
      → IsMoved ps
          (record m {
            waking = record m.waking { queues = enqueue key2 p m.waking.queues };
            requeued = m.requeued + 1;
          })
          out
      → IsMoved (p ∷ ps) m out
  unfolding enqueue_all
  move_head p ps m out full lt r = record {
    woken = r.woken;
    moved = p ∷ r.moved;
    kept = r.kept;
    parts = parts-moved p r.woken (r.moved ++ r.kept) (r.woken_first full) r.parts;
    procs = r.procs;
    count = r.count;
    requeued = omega (arith, r.requeued);
    queues = r.queues;
    wake_bound = r.wake_bound;
    move_bound = λ h. r.move_bound (omega arith);
    woken_first = r.woken_first;
    moved_first = λ h h'. absurd (omega arith);
    moved_last = inr (omega (arith, r.count));
    kept_last = r.kept_last;
  }

  keep_head :
      (p : ℕ) (ps : List ℕ) (m out : Moving S)
      → n_wake ≤ m.waking.woken
      → n_requeue ≤ m.requeued
      → IsMoved ps
          (record m { waking = record m.waking { queues = enqueue key1 p m.waking.queues } })
          out
      → IsMoved (p ∷ ps) m out
  keep_head p ps m out full full' r = record {
    woken = r.woken;
    moved = r.moved;
    kept = p ∷ r.kept;
    parts =
        parts-kept p r.woken r.moved r.kept (r.woken_first full) (r.moved_first full full') r.parts;
    procs = r.procs;
    count = r.count;
    requeued = r.requeued;
    queues =
        r.queues
        ∙ queues-kept key1 key2 p r.moved r.kept m.waking.queues (r.moved_first full full');
    wake_bound = r.wake_bound;
    move_bound = r.move_bound;
    woken_first = r.woken_first;
    moved_first = r.moved_first;
    moved_last = r.moved_last;
    kept_last = inr (omega (arith, r.count), omega (arith, r.requeued));
  }

  pub requeue_each-IsMoved :
      (waiters : List ℕ) (m : Moving S)
      → IsMoved waiters m (requeue_each core key1 key2 n_wake n_requeue waiters m)
  unfolding requeue_each requeue_one wake_all count_woken enqueue_all
  requeue_each-IsMoved [] m = record {
    woken = [];
    moved = [];
    kept = [];
    parts = refl;
    procs = refl;
    count = omega arith;
    requeued = omega arith;
    queues = refl;
    wake_bound = λ h. h;
    move_bound = λ h. h;
    woken_first = λ h. refl;
    moved_first = λ h h'. refl;
    moved_last = inl refl;
    kept_last = inl refl;
  }
  requeue_each-IsMoved (p ∷ ps) m =
      let run = λ (v : Moving S). requeue_each core key1 key2 n_wake n_requeue ps v in
      if_cases (λ v. IsMoved (p ∷ ps) m (run v)) (ltb m.waking.woken n_wake)
        (λ t. wake_head p ps m _ (ground arith) (requeue_each-IsMoved ps _))
        (λ t.
          if_cases (λ v. IsMoved (p ∷ ps) m (run v)) (ltb m.requeued n_requeue)
            (λ t'. move_head p ps m _ (ground arith) (ground arith) (requeue_each-IsMoved ps _))
            (λ t'. keep_head p ps m _ (ground arith) (ground arith) (requeue_each-IsMoved ps _)))
