-- ===== src/Ipc/Futex/Woken.antt =====
-- kernel/src/ipc/futex/wake.rs: which waiters `wake` and `wake_bitset` take, and which stay.
use cyphera_kernel.Prelude.{
  ℕ, ◌+◌, ◌%◌, ◌^◌, ◌≤◌, ◌<◌, Bool, true, false, not, ◌||◌, List, [], ◌∷◌, leb, ◌≡◌, refl, ◌∙◌, ◌⊎◌,
  inl, inr, All, length, Bool-cases, if_cases, arith,
}
use cyphera_kernel.Ipc.Futex.{Waker, Key, Queues, Waking, enqueue, wake_one, wake_each, one_more}
use cyphera_kernel.Ipc.Futex.Order.{occurs, occurs-cons, IsFirst, IsByPriority}

unfoldable pub enqueue_all : Key → List ℕ → Queues → Queues
enqueue_all key [] queues = queues
enqueue_all key (p ∷ ps) queues = enqueue_all key ps (enqueue key p queues)

-- `xs` and `ys` put together keep their order.
pub data Merge : List ℕ → List ℕ → List ℕ → Type 0 where
  done : Merge [] [] []
  left : {xs ys zs : List ℕ} (x : ℕ) → Merge xs ys zs → Merge (x ∷ xs) ys (x ∷ zs)
  right : {xs ys zs : List ℕ} (y : ℕ) → Merge xs ys zs → Merge xs (y ∷ ys) (y ∷ zs)

pub occurs-Merge :
    (p : ℕ) {xs ys zs : List ℕ} → Merge xs ys zs → occurs p xs + occurs p ys ≡ occurs p zs
unfolding occurs
occurs-Merge p done = refl
occurs-Merge p (left {xs} {ys} {zs} x m) =
    omega (arith, occurs-Merge p m, occurs-cons p x xs, occurs-cons p x zs)
occurs-Merge p (right {xs} {ys} {zs} y m) =
    omega (arith, occurs-Merge p m, occurs-cons p y ys, occurs-cons p y zs)

All-Merge {κ} : (P : ℕ → Type κ) {xs ys zs : List ℕ} → Merge xs ys zs → All P zs → All P ys
All-Merge P done h = tt
All-Merge P (left x m) (h, all) = All-Merge P m all
All-Merge P (right y m) (h, all) = (h, All-Merge P m all)

module _ {S : Type 0} (core : Waker S) where
  -- the processes woken in turn, and how many were asleep
  unfoldable pub wake_all : List ℕ → S → S
  wake_all [] s = s
  wake_all (p ∷ ps) s = wake_all ps (core.wake_pid p s).0

  unfoldable pub count_woken : List ℕ → S → ℕ
  count_woken [] s = 0
  count_woken (p ∷ ps) s = one_more (core.wake_pid p s).1 (count_woken ps (core.wake_pid p s).0)

  module _ (meant : ℕ → Bool) (priority : ℕ → ℕ) (key : Key) (n : ℕ) where
    -- What a loop over `waiters` does: those that are woken, and those that stay.
    pub record IsWoken (waiters : List ℕ) (w out : Waking S) : Type 0 where
      pub woken : List ℕ
      pub kept : List ℕ
      pub parts : Merge woken kept waiters
      pub procs : out.procs ≡ wake_all woken w.procs
      pub queues : out.queues ≡ enqueue_all key kept w.queues
      pub count : out.woken ≡ w.woken + count_woken woken w.procs
      pub bound : w.woken ≤ n → out.woken ≤ n
      pub enough : n ≤ w.woken → woken ≡ []
      pub only_meant : All (λ p. meant p ≡ true) woken
      pub rest : All (λ p. (meant p ≡ false) ⊎ (n ≤ out.woken)) kept
      pub urgent : All (λ p. All (λ q. (meant q ≡ false) ⊎ (priority q ≤ priority p)) kept) woken

    weaken :
        (p : ℕ) (qs : List ℕ)
        → IsFirst priority p qs
        → All (λ q. (meant q ≡ false) ⊎ (priority q ≤ priority p)) qs
    weaken p [] h = tt
    weaken p (q ∷ qs) (h, all) = (inr h, weaken p qs all)

    -- Another one stays that is not meant, or once enough are woken.
    beside :
        (p : ℕ) (kept woken : List ℕ)
        → (meant p ≡ false) ⊎ (woken ≡ [])
        → All (λ a. All (λ q. (meant q ≡ false) ⊎ (priority q ≤ priority a)) kept) woken
        → All (λ a. All (λ q. (meant q ≡ false) ⊎ (priority q ≤ priority a)) (p ∷ kept)) woken
    beside p kept [] h all = tt
    beside p kept (a ∷ more) (inr e) all = absurd (ground arith)
    beside p kept (a ∷ more) (inl e) (h, all) = ((inl e, h), beside p kept more (inl e) all)

    count-bound : (w : Waking S) (b : Bool) → w.woken < n → one_more b w.woken ≤ n
    count-bound w true h = omega arith
    count-bound w false h = omega arith

    one_more-add : (b : Bool) (a c : ℕ) → one_more b a + c ≡ a + one_more b c
    one_more-add true a c = omega arith
    one_more-add false a c = refl

    one_more-ge : (b : Bool) (a : ℕ) → a ≤ one_more b a
    one_more-ge true a = omega arith
    one_more-ge false a = omega arith

    one_more-le : (b : Bool) (a : ℕ) → one_more b a ≤ a + 1
    one_more-le true a = omega arith
    one_more-le false a = omega arith

    keep_one :
        (p : ℕ) (ps : List ℕ) (w out : Waking S)
        → (meant p ≡ false) ⊎ (n ≤ w.woken)
        → IsWoken ps (record w { queues = enqueue key p w.queues }) out
        → IsWoken (p ∷ ps) w out
    unfolding enqueue_all
    keep_one p ps w out h r = record {
      woken = r.woken;
      kept = p ∷ r.kept;
      parts = right p r.parts;
      procs = r.procs;
      queues = r.queues;
      count = r.count;
      bound = r.bound;
      enough = r.enough;
      only_meant = r.only_meant;
      rest = (elim h [ inl e ↦ inl e | inr e ↦ inr (omega (arith, r.count)) ], r.rest);
      urgent =
          beside p r.kept r.woken (elim h [ inl e ↦ inl e | inr e ↦ inr (r.enough e) ]) r.urgent;
    }

    take_one :
        (p : ℕ) (ps : List ℕ) (w out : Waking S)
        → meant p ≡ true
        → w.woken < n
        → IsFirst priority p ps
        → IsWoken ps (wake_one core p w) out
        → IsWoken (p ∷ ps) w out
    unfolding wake_one wake_all count_woken
    take_one p ps w out hm hn first r =
        let b = (core.wake_pid p w.procs).1 in
        record {
          woken = p ∷ r.woken;
          kept = r.kept;
          parts = left p r.parts;
          procs = r.procs;
          queues = r.queues;
          count =
              r.count ∙ one_more-add b w.woken (count_woken r.woken (core.wake_pid p w.procs).0);
          bound = λ h. r.bound (count-bound w b hn);
          enough = λ h. absurd (omega arith);
          only_meant = (hm, r.only_meant);
          rest = r.rest;
          urgent =
              (weaken p r.kept (All-Merge (λ q. priority q ≤ priority p) r.parts first), r.urgent);
        }

    stays :
        (p woken : ℕ)
        → woken < 2 ^ 32
        → (not (meant p) || leb n (woken % 2 ^ 32)) ≡ true
        → (meant p ≡ false) ⊎ (n ≤ woken)
    stays p woken small t = elim (Bool-cases (meant p)) [
      | inl e ↦ inr (ground arith)
      | inr e ↦ inl e
    ]

    goes :
        (p woken : ℕ)
        → woken < 2 ^ 32
        → (not (meant p) || leb n (woken % 2 ^ 32)) ≡ false
        → (meant p ≡ true) × (woken < n)
    goes p woken small t = elim (Bool-cases (meant p)) [
      | inl e ↦ (e, ground arith)
      | inr e ↦ absurd (ground arith)
    ]

    grown :
        (p : ℕ) (ps : List ℕ) (w : Waking S)
        → w.woken + length (p ∷ ps) < 2 ^ 32
        → (wake_one core p w).woken + length ps < 2 ^ 32
    unfolding wake_one
    grown p ps w small = omega (arith, one_more-le (core.wake_pid p w.procs).1 w.woken)

    pub wake_each-IsWoken :
        (waiters : List ℕ) (w : Waking S)
        → IsByPriority priority waiters
        → w.woken + length waiters < 2 ^ 32
        → IsWoken waiters w (wake_each core meant key n waiters w)
    unfolding wake_each wake_all enqueue_all count_woken
    wake_each-IsWoken [] w h small = record {
      woken = [];
      kept = [];
      parts = done;
      procs = refl;
      queues = refl;
      count = omega arith;
      bound = λ h. h;
      enough = λ h. refl;
      only_meant = tt;
      rest = tt;
      urgent = tt;
    }
    wake_each-IsWoken (p ∷ ps) w (first, h) small =
        if_cases (λ v. IsWoken (p ∷ ps) w (wake_each core meant key n ps v))
          (not (meant p) || leb n (w.woken % 2 ^ 32))
          (λ t.
            keep_one p ps w _ (stays p w.woken (omega arith) t)
              (wake_each-IsWoken ps (record w { queues = enqueue key p w.queues }) h (omega arith)))
          (λ t.
            let (m, lt) = goes p w.woken (omega arith) t in
            take_one p ps w _ m lt first
              (wake_each-IsWoken ps (wake_one core p w) h (grown p ps w small)))
