-- ===== src/Ipc/Futex/Best.antt =====
-- kernel/src/ipc/futex/state.rs: `pop_highest_priority`, which takes the most urgent waiter.
use cyphera_kernel.Prelude.{
  ℕ, ◌+◌, ◌≤◌, ◌<◌, true, false, List, [], ◌∷◌, Option, none, some, ltb, ◌==◌, if◌then◌else◌, ◌≡◌,
  refl, sym, ap, ◌∙◌, if_cases, le→ltb, All, ◌⊎◌, inl, inr, subst, lt→ltb, arith,
}
use cyphera_kernel.Ipc.Futex.{insert_by, order_by_priority}

-- The place of the first of the most urgent, from place `i` on, where `best` is the place so far.
unfoldable pub best_from : (ℕ → ℕ) → ℕ → ℕ → ℕ → List ℕ → ℕ
best_from priority i best best_prio [] = best
best_from priority i best best_prio (p ∷ ps) =
    let p_prio = priority p in
    if ltb best_prio p_prio
    then best_from priority (i + 1) i p_prio ps
    else best_from priority (i + 1) best best_prio ps

-- the one at the place, and the others in their order
unfoldable pub take_at : ℕ → ℕ → List ℕ → Option ℕ × List ℕ
take_at i best [] = (none, [])
take_at i best (p ∷ ps) =
    let (winner, left) = take_at (i + 1) best ps in
    if i == best then (some p, left) else (winner, p ∷ left)

unfoldable pub pop_highest_priority : (ℕ → ℕ) → List ℕ → Option ℕ × List ℕ
pop_highest_priority priority [] = (none, [])
pop_highest_priority priority (p ∷ ps) = take_at 0 (best_from priority 1 0 (priority p) ps) (p ∷ ps)

-- the first of the most urgent, by recursion, and the others
unfoldable pub pick_with : (ℕ → ℕ) → ℕ → List ℕ → Option (ℕ × List ℕ) → Option (ℕ × List ℕ)
pick_with priority p ps none = some (p, [])
pick_with priority p ps (some (w, left)) =
    if ltb (priority p) (priority w) then some (w, p ∷ left) else some (p, ps)

unfoldable pub pick : (ℕ → ℕ) → List ℕ → Option (ℕ × List ℕ)
pick priority [] = none
pick priority (p ∷ ps) = pick_with priority p ps (pick priority ps)

-- The order that `rest` is taken in, one after another.
abbrev pub IsPicked : (ℕ → ℕ) → List ℕ → Option (ℕ × List ℕ) → Type 0
IsPicked priority ps none = ps ≡ []
IsPicked priority ps (some (w, left)) =
    order_by_priority priority ps ≡ (w ∷ order_by_priority priority left)

module _ (priority : ℕ → ℕ) where
  insert_by-behind :
      (p w : ℕ) (xs : List ℕ)
      → ltb (priority p) (priority w) ≡ true
      → insert_by priority p (w ∷ xs) ≡ w ∷ insert_by priority p xs
  unfolding insert_by
  insert_by-behind p w xs t = rw t

  insert_by-before :
      (p w : ℕ) (xs : List ℕ)
      → ltb (priority p) (priority w) ≡ false
      → insert_by priority p (w ∷ xs) ≡ p ∷ w ∷ xs
  unfolding insert_by
  insert_by-before p w xs t = rw t

  insert-IsPicked :
      (p : ℕ) (ps : List ℕ) (o : Option (ℕ × List ℕ))
      → IsPicked priority ps o
      → IsPicked priority (p ∷ ps) (pick_with priority p ps o)
  unfolding order_by_priority insert_by pick_with
  insert-IsPicked p ps none e = ap (λ t. insert_by priority p (order_by_priority priority t)) e
  insert-IsPicked p ps (some (w, left)) e =
      if_cases (IsPicked priority (p ∷ ps)) (ltb (priority p) (priority w))
        (λ t.
          ap (insert_by priority p) e ∙ insert_by-behind p w (order_by_priority priority left) t)
        (λ t.
          ap (insert_by priority p) e
          ∙ insert_by-before p w (order_by_priority priority left) t
          ∙ ap (λ xs. p ∷ xs) (sym e))

  pick-IsPicked : (ps : List ℕ) → IsPicked priority ps (pick priority ps)
  unfolding pick
  pick-IsPicked [] = refl
  pick-IsPicked (p ∷ ps) = insert-IsPicked p ps (pick priority ps) (pick-IsPicked ps)

  abbrev IsTop : ℕ → List ℕ → Type 0
  IsTop p ps = All (λ q. priority q ≤ p) ps

  IsTop-trans : (a b : ℕ) (ps : List ℕ) → a ≤ b → IsTop a ps → IsTop b ps
  IsTop-trans a b [] h all = tt
  IsTop-trans a b (p ∷ ps) h (hp, all) = (omega arith, IsTop-trans a b ps h all)

  abbrev IsWorse : ℕ → Option (ℕ × List ℕ) → Type 0
  IsWorse a none = Unit
  IsWorse a (some (w, left)) = priority w ≤ a

  pick_with-IsWorse :
      (a p : ℕ) (ps : List ℕ) (o : Option (ℕ × List ℕ))
      → priority p ≤ a
      → IsWorse a o
      → IsWorse a (pick_with priority p ps o)
  unfolding pick_with
  pick_with-IsWorse a p ps none h h' = h
  pick_with-IsWorse a p ps (some (w, left)) h h' =
      if_cases (IsWorse a) (ltb (priority p) (priority w)) (λ t. h') (λ t. h)

  pick-IsWorse : (a : ℕ) (ps : List ℕ) → IsTop a ps → IsWorse a (pick priority ps)
  unfolding pick
  pick-IsWorse a [] all = tt
  pick-IsWorse a (p ∷ ps) (h, all) =
      pick_with-IsWorse a p ps (pick priority ps) h (pick-IsWorse a ps all)

  pick_with-top :
      (p : ℕ) (ps : List ℕ) (o : Option (ℕ × List ℕ))
      → IsPicked priority ps o
      → IsWorse (priority p) o
      → pick_with priority p ps o ≡ some (p, ps)
  unfolding pick_with
  pick_with-top p ps none e h = ap (λ t. some (p, t)) (sym e)
  pick_with-top p ps (some (w, left)) e h = rw (le→ltb (priority p) (priority w) h)

  -- One that is as urgent as all behind it is picked.
  pick-top : (p : ℕ) (ps : List ℕ) → IsTop (priority p) ps → pick priority (p ∷ ps) ≡ some (p, ps)
  unfolding pick
  pick-top p ps all =
      pick_with-top p ps (pick priority ps) (pick-IsPicked ps) (pick-IsWorse (priority p) ps all)

  take_at-past : (i best : ℕ) (ps : List ℕ) → best < i → take_at i best ps ≡ (none, ps)
  unfolding take_at
  take_at-past i best [] h = refl
  take_at-past i best (p ∷ ps) h = rw (take_at-past (i + 1) best ps (omega arith)) (ground arith)

  take_at-here :
      (i : ℕ) (p : ℕ) (ps : List ℕ) → take_at i i (p ∷ ps) ≡ (some p, (take_at (i + 1) i ps).1)
  unfolding take_at
  take_at-here i p ps = ground arith

  take_at-later :
      (i best p : ℕ) (ps : List ℕ) (w : ℕ) (left : List ℕ)
      → i < best
      → take_at (i + 1) best ps ≡ (some w, left)
      → take_at i best (p ∷ ps) ≡ (some w, p ∷ left)
  unfolding take_at
  take_at-later i best p ps w left h e = rw e (ground arith)

  pick_with-later :
      (p : ℕ) (ps : List ℕ) (w : ℕ) (left : List ℕ)
      → priority p < priority w
      → pick priority ps ≡ some (w, left)
      → pick priority (p ∷ ps) ≡ some (w, p ∷ left)
  unfolding pick pick_with
  pick_with-later p ps w left h e = rw (e, lt→ltb (priority p) (priority w) h)

  -- What `best_from` finds behind place `i`: nothing more urgent, or the pick.
  record Found (best_prio i k : ℕ) (ps : List ℕ) : Type 0 where
    winner : ℕ
    left : List ℕ
    picked : pick priority ps ≡ some (winner, left)
    more : best_prio < priority winner
    behind : i ≤ k
    taken : take_at i k ps ≡ (some winner, left)

  -- Found behind the next place, with more than what the place itself has.
  Found-later :
      (a b i k p : ℕ) (ps : List ℕ)
      → b ≤ a
      → priority p ≤ a
      → Found a (i + 1) k ps
      → Found b i k (p ∷ ps)
  Found-later a b i k p ps hb hp r = record {
    winner = r.winner;
    left = p ∷ r.left;
    picked = pick_with-later p ps r.winner r.left (omega (arith, r.more)) r.picked;
    more = omega (arith, r.more);
    behind = omega (arith, r.behind);
    taken = take_at-later i k p ps r.winner r.left (omega (arith, r.behind)) r.taken;
  }

  take_at-first : (i p : ℕ) (ps : List ℕ) → take_at i i (p ∷ ps) ≡ (some p, ps)
  take_at-first i p ps =
      take_at-here i p ps
      ∙ ap (λ (r : Option ℕ × List ℕ). (some p, r.1)) (take_at-past (i + 1) i ps (omega arith))

  Found-here :
      (b i p : ℕ) (ps : List ℕ) → b < priority p → IsTop (priority p) ps → Found b i i (p ∷ ps)
  Found-here b i p ps h top = record {
    winner = p;
    left = ps;
    picked = pick-top p ps top;
    more = h;
    behind = omega arith;
    taken = take_at-first i p ps;
  }

  best_from-finds :
      (i best best_prio : ℕ) (ps : List ℕ)
      → ((best_from priority i best best_prio ps ≡ best) × IsTop best_prio ps)
        ⊎ Found best_prio i (best_from priority i best best_prio ps) ps
  unfolding best_from
  best_from-finds i best best_prio [] = inl (refl, tt)
  best_from-finds i best best_prio (p ∷ ps) =
      if_cases (λ k. ((k ≡ best) × IsTop best_prio (p ∷ ps)) ⊎ Found best_prio i k (p ∷ ps))
        (ltb best_prio (priority p))
        (λ t. inr (elim (best_from-finds (i + 1) i (priority p) ps) [
          | inl (e, top) ↦
              subst (λ k. Found best_prio i k (p ∷ ps)) (sym e)
                (Found-here best_prio i p ps (ground arith) top)
          | inr r ↦ Found-later (priority p) best_prio i _ p ps (ground arith) (omega arith) r
        ]))
        (λ t. elim (best_from-finds (i + 1) best best_prio ps) [
          | inl (e, top) ↦ inl (e, (ground arith, top))
          | inr r ↦ inr (Found-later best_prio best_prio i _ p ps (omega arith) (ground arith) r)
        ])

  picks :
      (ps : List ℕ) (o : Option (ℕ × List ℕ)) {w : ℕ} {left : List ℕ}
      → IsPicked priority ps o
      → o ≡ some (w, left)
      → order_by_priority priority ps ≡ (w ∷ order_by_priority priority left)
  picks ps o h e = subst (IsPicked priority ps) e h

  abbrev pub IsNext : List ℕ → Option ℕ × List ℕ → Type 0
  IsNext ps (none, left) = ps ≡ []
  IsNext ps (some w, left) = order_by_priority priority ps ≡ (w ∷ order_by_priority priority left)

  -- `pop_highest_priority` takes from a queue that is not empty the process that is first in
  -- `order_by_priority` of it, and leaves a queue whose order is the rest of that order.
  pub pop_highest_priority-IsNext : (ps : List ℕ) → IsNext ps (pop_highest_priority priority ps)
  unfolding pop_highest_priority
  pop_highest_priority-IsNext [] = refl
  pop_highest_priority-IsNext (p ∷ ps) = elim (best_from-finds 1 0 (priority p) ps) [
    | inl (e, top) ↦
        subst (λ r. IsNext (p ∷ ps) r)
          (sym (ap (λ k. take_at 0 k (p ∷ ps)) e ∙ take_at-first 0 p ps))
          (picks (p ∷ ps) _ (pick-IsPicked (p ∷ ps)) (pick-top p ps top))
    | inr r ↦
        subst (λ r. IsNext (p ∷ ps) r)
          (sym (take_at-later 0 _ p ps r.winner r.left (omega (arith, r.behind)) r.taken))
          (picks (p ∷ ps) _ (pick-IsPicked (p ∷ ps))
            (pick_with-later p ps r.winner r.left r.more r.picked))
  ]
