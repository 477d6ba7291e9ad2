-- ===== src/Ipc/Futex/Order.antt =====
-- kernel/src/ipc/futex/state.rs: the order in which waiters are taken, the most urgent first.
use cyphera_kernel.Prelude.{
  ℕ, ◌+◌, ◌≤◌, List, [], ◌∷◌, ◌++◌, ltb, ◌==◌, if◌then◌else◌, ◌≡◌, refl, All, length, if_cases,
  arith,
}
use cyphera_kernel.Ipc.Futex.{insert_by, order_by_priority}

-- how often a process is in a queue
unfoldable pub occurs : ℕ → List ℕ → ℕ
occurs p [] = 0
occurs p (q ∷ qs) = let rest = occurs p qs in if q == p then 1 + rest else rest

pub occurs-cons : (p x : ℕ) (xs : List ℕ) → occurs p (x ∷ xs) ≡ occurs p (x ∷ []) + occurs p xs
unfolding occurs
occurs-cons p x xs = ground arith

pub occurs-append : (p : ℕ) (xs ys : List ℕ) → occurs p (xs ++ ys) ≡ occurs p xs + occurs p ys
unfolding occurs
occurs-append p [] ys = omega arith
occurs-append p (x ∷ xs) ys = ground (arith, occurs-append p xs ys)

module _ (priority : ℕ → ℕ) where
  abbrev pub IsFirst : ℕ → List ℕ → Type 0
  IsFirst p ps = All (λ q. priority q ≤ priority p) ps

  abbrev pub IsByPriority : List ℕ → Type 0
  IsByPriority [] = Unit
  IsByPriority (p ∷ ps) = IsFirst p ps × IsByPriority ps

  insert_by-occurs :
      (a p : ℕ) (ps : List ℕ) → occurs a (insert_by priority p ps) ≡ occurs a (p ∷ []) + occurs a ps
  unfolding insert_by occurs
  insert_by-occurs a p [] = ground arith
  insert_by-occurs a p (q ∷ qs) =
      if_cases (λ x. occurs a x ≡ occurs a (p ∷ []) + occurs a (q ∷ qs))
        (ltb (priority p) (priority q)) (λ h. ground (arith, insert_by-occurs a p qs))
        (λ h. ground arith)

  pub order_by_priority-occurs :
      (a : ℕ) (ps : List ℕ) → occurs a (order_by_priority priority ps) ≡ occurs a ps
  unfolding order_by_priority
  order_by_priority-occurs a [] = refl
  order_by_priority-occurs a (p ∷ ps) = omega (
    arith,
    insert_by-occurs a p (order_by_priority priority ps),
    order_by_priority-occurs a ps,
    occurs-cons a p ps,
  )

  insert_by-length : (p : ℕ) (ps : List ℕ) → length (insert_by priority p ps) ≡ 1 + length ps
  unfolding insert_by
  insert_by-length p [] = omega arith
  insert_by-length p (q ∷ qs) = ground (arith, insert_by-length p qs)

  pub order_by_priority-length : (ps : List ℕ) → length (order_by_priority priority ps) ≡ length ps
  unfolding order_by_priority
  order_by_priority-length [] = refl
  order_by_priority-length (p ∷ ps) =
      omega (arith, insert_by-length p (order_by_priority priority ps), order_by_priority-length ps)

  insert_by-IsFirst :
      (b p : ℕ) (ps : List ℕ)
      → priority p ≤ priority b
      → IsFirst b ps
      → IsFirst b (insert_by priority p ps)
  unfolding insert_by
  insert_by-IsFirst b p [] h all = (h, tt)
  insert_by-IsFirst b p (q ∷ qs) h (hq, all) =
      if_cases (IsFirst b) (ltb (priority p) (priority q))
        (λ t. (hq, insert_by-IsFirst b p qs h all)) (λ t. (h, (hq, all)))

  IsFirst-trans : (b p : ℕ) (ps : List ℕ) → priority p ≤ priority b → IsFirst p ps → IsFirst b ps
  IsFirst-trans b p [] h all = tt
  IsFirst-trans b p (q ∷ qs) h (hq, all) = (omega arith, IsFirst-trans b p qs h all)

  insert_by-IsByPriority :
      (p : ℕ) (ps : List ℕ) → IsByPriority ps → IsByPriority (insert_by priority p ps)
  unfolding insert_by
  insert_by-IsByPriority p [] h = (tt, tt)
  insert_by-IsByPriority p (q ∷ qs) (first, rest) =
      if_cases IsByPriority (ltb (priority p) (priority q))
        (λ t. (insert_by-IsFirst q p qs (ground arith) first, insert_by-IsByPriority p qs rest))
        (λ t. ((ground arith, IsFirst-trans p q qs (ground arith) first), (first, rest)))

  pub order_by_priority-IsByPriority : (ps : List ℕ) → IsByPriority (order_by_priority priority ps)
  unfolding order_by_priority
  order_by_priority-IsByPriority [] = tt
  order_by_priority-IsByPriority (p ∷ ps) =
      insert_by-IsByPriority p (order_by_priority priority ps) (order_by_priority-IsByPriority ps)
