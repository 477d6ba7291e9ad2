-- ===== src/Sched/Timeout/Order.antt =====
-- kernel/src/core/timeout.rs: the tables of deadlines stay sorted, and what has expired is taken out
-- of them.
use cyphera_kernel.Prelude.{
  ℕ, zero, suc, ◌≤◌, ◌<◌, ◌≡◌, refl, ap, sym, subst, List, [], ◌∷◌, ◌++◌, Option, none, some, ltb,
  ◌==◌, if◌then◌else◌, take, drop, All, arith, if_cases,
}
use cyphera_kernel.Sched.Timeout.{
  CallbackEntry, IsSorted, IsPosition, register, unregister, retain_others, take_expired,
}

module _ {C : Type 0} where
  -- the deadline that a key is registered for
  unfoldable pub deadline_of : ℕ → List (CallbackEntry C) → Option ℕ
  deadline_of key [] = none
  deadline_of key (e ∷ table) = if e.key == key then some e.deadline else deadline_of key table

  -- A key is registered at most once.
  abbrev pub IsSingle : List (CallbackEntry C) → Type 0
  IsSingle [] = Unit
  IsSingle (e ∷ table) = (deadline_of e.key table ≡ none) × IsSingle table

  pub deadline_of-retain_others :
      (k key : ℕ) (table : List (CallbackEntry C))
      → deadline_of k (retain_others key table) ≡ (if k == key then none else deadline_of k table)
  unfolding deadline_of retain_others
  deadline_of-retain_others k key [] = ground arith
  deadline_of-retain_others k key (e ∷ table) =
      ground (arith, deadline_of-retain_others k key table)

  deadline_of-put :
      (k n : ℕ) (e : CallbackEntry C) (table : List (CallbackEntry C))
      → deadline_of e.key table ≡ none
      → deadline_of k (take n table ++ (e ∷ drop n table))
        ≡ (if e.key == k then some e.deadline else deadline_of k table)
  unfolding deadline_of
  deadline_of-put k zero e table h = refl
  deadline_of-put k (suc n) e [] h = refl
  deadline_of-put k (suc n) e (f ∷ table) h = ground (arith, deadline_of-put k n e table)

  All-retain_others {κ} :
      (P : CallbackEntry C → Type κ) (key : ℕ) (table : List (CallbackEntry C))
      → All P table
      → All P (retain_others key table)
  unfolding retain_others
  All-retain_others P key [] h = tt
  All-retain_others P key (e ∷ table) (he, h) =
      if_cases (All P) (e.key == key) (λ _. All-retain_others P key table h)
        (λ _. (he, All-retain_others P key table h))

  retain_others-IsSorted :
      (key : ℕ) (table : List (CallbackEntry C))
      → IsSorted table
      → IsSorted (retain_others key table)
  unfolding retain_others
  retain_others-IsSorted key [] h = tt
  retain_others-IsSorted key (e ∷ table) (he, h) =
      if_cases IsSorted (e.key == key) (λ _. retain_others-IsSorted key table h)
        (λ _. (All-retain_others _ key table he, retain_others-IsSorted key table h))

  retain_others-IsSingle :
      (key : ℕ) (table : List (CallbackEntry C))
      → IsSingle table
      → IsSingle (retain_others key table)
  unfolding retain_others
  retain_others-IsSingle key [] h = tt
  retain_others-IsSingle key (e ∷ table) (he, h) =
      if_cases IsSingle (e.key == key) (λ _. retain_others-IsSingle key table h)
        (λ _. (
          ground (arith, deadline_of-retain_others e.key key table),
          retain_others-IsSingle key table h,
        ))

  All-put {κ} :
      (P : CallbackEntry C → Type κ) (n : ℕ) (e : CallbackEntry C) (table : List (CallbackEntry C))
      → P e
      → All P table
      → All P (take n table ++ (e ∷ drop n table))
  All-put P zero e table he h = (he, h)
  All-put P (suc n) e [] he h = (he, tt)
  All-put P (suc n) e (f ∷ table) he (hf, h) = (hf, All-put P n e table he h)

  put-IsSorted :
      (n : ℕ) (e : CallbackEntry C) (table : List (CallbackEntry C))
      → All (λ f. f.deadline ≤ e.deadline) (take n table)
      → All (λ f. e.deadline ≤ f.deadline) (drop n table)
      → IsSorted table
      → IsSorted (take n table ++ (e ∷ drop n table))
  put-IsSorted zero e table early late h = (late, h)
  put-IsSorted (suc n) e [] early late h = (tt, tt)
  put-IsSorted (suc n) e (f ∷ table) (ef, early) late (hf, h) =
      (All-put _ n e table ef hf, put-IsSorted n e table early late h)

  put-IsSingle :
      (n : ℕ) (e : CallbackEntry C) (table : List (CallbackEntry C))
      → deadline_of e.key table ≡ none
      → IsSingle table
      → IsSingle (take n table ++ (e ∷ drop n table))
  unfolding deadline_of
  put-IsSingle zero e table n_e h = (n_e, h)
  put-IsSingle (suc n) e [] n_e h = (refl, tt)
  put-IsSingle (suc n) e (f ∷ table) n_e (hf, h) =
      (ground (arith, deadline_of-put f.key n e table), put-IsSingle n e table (ground arith) h)

  pub record IsTable (table : List (CallbackEntry C)) : Type 0 where
    pub sorted : IsSorted table
    pub single : IsSingle table

  -- What `wake_expired` does: it takes out the entries that are due, the earliest first, and leaves
  -- those that are not.
  pub record IsExpired (now : ℕ) (table out left : List (CallbackEntry C)) : Type 0 where
    pub in_order : table ≡ out ++ left
    pub due : All (λ e. e.deadline ≤ now) out
    pub not_due : All (λ e. now < e.deadline) left
    pub kept : IsTable left

  later :
      (now : ℕ) (e : CallbackEntry C) (table : List (CallbackEntry C))
      → now < e.deadline
      → All (λ f. e.deadline ≤ f.deadline) table
      → All (λ f. now < f.deadline) table
  later now e [] l h = tt
  later now e (f ∷ table) l (hf, h) = (omega arith, later now e table l h)

  take_expired-IsExpired :
      (now : ℕ) (table : List (CallbackEntry C))
      → IsTable table
      → let r = take_expired now table in IsExpired now table r.0 r.1
  unfolding take_expired
  take_expired-IsExpired now [] h = record { in_order = refl; due = tt; not_due = tt; kept = h }
  take_expired-IsExpired now (e ∷ table) h =
      let rest =
        take_expired-IsExpired now table (record { sorted = h.sorted.1; single = h.single.1 }) in
      if_cases
        (λ (r : List (CallbackEntry C) × List (CallbackEntry C)). IsExpired now (e ∷ table) r.0 r.1)
        (ltb now e.deadline)
        (λ l. record {
          in_order = refl;
          due = tt;
          not_due = (ground arith, later now e table (ground arith) h.sorted.0);
          kept = h;
        })
        (λ l. record {
          in_order = ap (λ t. e ∷ t) rest.in_order;
          due = (ground arith, rest.due);
          not_due = rest.not_due;
          kept = rest.kept;
        })

  module _ (position : ℕ → List (CallbackEntry C) → ℕ) where
    -- Registering an entry replaces what its key was registered for, and no other key's.
    pub deadline_of-register :
        (k : ℕ) (e : CallbackEntry C) (table : List (CallbackEntry C))
        → deadline_of k (register position e table)
          ≡ (if e.key == k then some e.deadline else deadline_of k table)
    unfolding register
    deadline_of-register k e table =
        let others = retain_others e.key table in
        ground (
          arith,
          deadline_of-retain_others e.key e.key table,
          deadline_of-retain_others k e.key table,
          deadline_of-put k (position e.deadline others) e others,
        )

    pub data Reach : List (CallbackEntry C) → Type 0 where
      begin : {table : List (CallbackEntry C)} → table ≡ [] → Reach table
      registered :
          {table after : List (CallbackEntry C)} (e : CallbackEntry C)
          → Reach table
          → after ≡ register position e table
          → Reach after
      unregistered :
          {table after : List (CallbackEntry C)} (key : ℕ)
          → Reach table
          → after ≡ (unregister key table).0
          → Reach after
      expired :
          {table after : List (CallbackEntry C)} (now : ℕ)
          → Reach table
          → after ≡ (take_expired now table).1
          → Reach after

    module _ (found : IsPosition position) where
      register-IsTable :
          (e : CallbackEntry C) (table : List (CallbackEntry C))
          → IsTable table
          → IsTable (register position e table)
      unfolding register
      register-IsTable e table h =
          let others = retain_others e.key table in
          let sorted = retain_others-IsSorted e.key table h.sorted in
          record {
            sorted =
                put-IsSorted (position e.deadline others) e others
                  (found.before e.deadline others sorted) (found.behind e.deadline others sorted)
                  sorted;
            single =
                put-IsSingle (position e.deadline others) e others
                  (ground (arith, deadline_of-retain_others e.key e.key table))
                  (retain_others-IsSingle e.key table h.single);
          }

      reachable-IsTable : {table : List (CallbackEntry C)} → Reach table → IsTable table
      unfolding unregister
      reachable-IsTable (begin e) = subst IsTable (sym e) (record { sorted = tt; single = tt })
      reachable-IsTable (registered e r h) =
          subst IsTable (sym h) (register-IsTable e _ (reachable-IsTable r))
      reachable-IsTable (unregistered {table} key r h) =
          let old = reachable-IsTable r in
          subst IsTable (sym h) (record {
            sorted = retain_others-IsSorted key table old.sorted;
            single = retain_others-IsSingle key table old.single;
          })
      reachable-IsTable (expired {table} now r h) =
          subst IsTable (sym h) (take_expired-IsExpired now table (reachable-IsTable r)).kept

      -- In every table that is reached, `wake_expired` takes out exactly the entries that are due,
      -- the earliest first.
      pub reachable-IsExpired :
          {table : List (CallbackEntry C)}
          → Reach table
          → (now : ℕ) → IsExpired now table (take_expired now table).0 (take_expired now table).1
      reachable-IsExpired {table} r now = take_expired-IsExpired now table (reachable-IsTable r)
