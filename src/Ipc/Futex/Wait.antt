-- ===== src/Ipc/Futex/Wait.antt =====
-- kernel/src/ipc/futex, wait.rs and state.rs: a process that begins to wait and that ends, and what a
-- thread that dies leaves. Sleeping in between, with its deadline, is left out.
use cyphera_kernel.Prelude.{
  ℕ, ◌+◌, bit_and, Bool, true, false, not, ◌&&◌, List, [], ◌∷◌, ◌++◌, Option, none, some, ◌==◌,
  if◌then◌else◌, KResult, ok, err, inval, again, fault, ◌≡◌, ◌≢◌, refl, ap, ◌∙◌, subst, if_cases,
  arith,
}
use cyphera_kernel.Ipc.Futex.{Key, same_key, Queues, Futexes, get_queue, queue_for, enqueue}
use cyphera_kernel.Ipc.Futex.Order.{occurs, occurs-append}
use cyphera_kernel.Ipc.Futex.Table.{IsStored, waiting_or_none, queue_for-IsStored, enqueue-IsStored}

-- `WaitQueue::dequeue`
unfoldable pub retain_others : ℕ → List ℕ → List ℕ
retain_others pid [] = []
retain_others pid (p ∷ ps) = let rest = retain_others pid ps in if p == pid then rest else p ∷ rest

unfoldable pub dequeue : Key → ℕ → Queues → Queues
dequeue k pid [] = []
dequeue k pid ((j, q) ∷ queues) =
    let rest = dequeue k pid queues in
    if same_key j k then (j, retain_others pid q) ∷ queues else (j, q) ∷ rest

-- the value at the address, which `copy_from_user` may have read, against the expected one
abbrev checked : ℕ → Option ℕ → KResult (Unit {0})
checked expected none = err fault
checked expected (some value) = if value == expected then ok tt else err again

unfoldable pub leave_on_error : Key → ℕ → Queues → KResult (Unit {0}) → Queues × KResult (Unit {0})
leave_on_error key pid queues (err e) = (dequeue key pid queues, err e)
leave_on_error key pid queues (ok u) = (queues, ok u)

-- `wait` up to where the process goes to sleep: it is in the queue before the value is read.
unfoldable pub wait_begin : Key → ℕ → Option ℕ → ℕ → Queues → Queues × KResult (Unit {0})
wait_begin key expected value pid queues =
    if not (bit_and key.vaddr 3 == 0)
    then (queues, err inval)
    else leave_on_error key pid (enqueue key pid (queue_for key queues)) (checked expected value)

-- `wait` from where the process wakes
unfoldable pub wait_end : Key → ℕ → Queues → Queues
wait_end key pid queues = dequeue key pid queues

unfoldable pub remove_mask : ℕ → List (ℕ × ℕ) → List (ℕ × ℕ)
remove_mask pid [] = []
remove_mask pid ((p, mask) ∷ masks) =
    let rest = remove_mask pid masks in if p == pid then rest else (p, mask) ∷ rest

-- `wait_bitset` as far as `wait_begin`; where that fails the mask is removed.
abbrev unmask_on_error : ℕ → Futexes → Queues × KResult (Unit {0}) → Futexes × KResult (Unit {0})
unmask_on_error pid f (queues, err e) =
    (record { queues = queues; masks = remove_mask pid f.masks }, err e)
unmask_on_error pid f (queues, ok u) = (record f { queues = queues }, ok u)

unfoldable pub wait_bitset_begin :
    Key → ℕ → ℕ → Option ℕ → ℕ → Futexes → Futexes × KResult (Unit {0})
wait_bitset_begin key mask expected value pid f =
    if mask == 0
    then (f, err inval)
    else unmask_on_error pid (record f { masks = (pid, mask) ∷ remove_mask pid f.masks })
        (wait_begin key expected value pid f.queues)

unfoldable pub wait_bitset_end : Key → ℕ → Futexes → Futexes
wait_bitset_end key pid f = record {
  queues = wait_end key pid f.queues;
  masks = remove_mask pid f.masks;
}

unfoldable pub drop_vmspace : ℕ → Queues → Queues
drop_vmspace vmspace_id [] = []
drop_vmspace vmspace_id ((j, q) ∷ queues) =
    let rest = drop_vmspace vmspace_id queues in
    if j.vmspace_id == vmspace_id then rest else (j, q) ∷ rest

unfoldable pub scrub_queues : ℕ → ℕ → Queues → Queues
scrub_queues vmspace_id pid [] = []
scrub_queues vmspace_id pid ((j, q) ∷ queues) =
    (j, if j.vmspace_id == vmspace_id then retain_others pid q else q)
    ∷ scrub_queues vmspace_id pid queues

unfoldable pub scrub_plain_waiter : ℕ → ℕ → Futexes → Futexes
scrub_plain_waiter vmspace_id pid f = record {
  queues = scrub_queues vmspace_id pid f.queues;
  masks = remove_mask pid f.masks;
}

-- how often a process waits at a key
abbrev pub waits : Key → ℕ → Queues → ℕ
waits key pid queues = occurs pid (waiting_or_none (get_queue key queues))

retain_others-occurs :
    (p pid : ℕ) (q : List ℕ) → occurs p (retain_others pid q) ≡ (if p == pid then 0 else occurs p q)
unfolding occurs retain_others
retain_others-occurs p pid [] = ground arith
retain_others-occurs p pid (x ∷ q) = ground (arith, retain_others-occurs p pid q)

waits-nil : (k : Key) (p : ℕ) → waits k p [] ≡ 0
unfolding get_queue occurs
waits-nil k p = refl

waits-cons :
    (k j : Key) (p : ℕ) (q : List ℕ) (queues : Queues)
    → waits k p ((j, q) ∷ queues) ≡ (if same_key j k then occurs p q else waits k p queues)
unfolding get_queue
waits-cons k j p q queues =
    if_cases
      (λ o. occurs p (waiting_or_none o) ≡ (if same_key j k then occurs p q else waits k p queues))
      (same_key j k) (λ t. rw t) (λ t. rw t)

-- `dequeue` takes the process out of the one queue, however often it is in it.
dequeue-waits :
    (k key : Key) (p pid : ℕ) (queues : Queues)
    → waits k p (dequeue key pid queues)
      ≡ (if same_key key k && p == pid then 0 else waits k p queues)
unfolding dequeue
dequeue-waits k key p pid [] = ground (arith, waits-nil k p)
dequeue-waits k key p pid ((j, q) ∷ queues) =
    if_cases
      (λ qs. waits k p qs ≡ (if same_key key k && p == pid then 0 else waits k p ((j, q) ∷ queues)))
      (same_key j key)
      (λ t. ground (
        arith,
        waits-cons k j p q queues,
        waits-cons k j p (retain_others pid q) queues,
        retain_others-occurs p pid q,
      ))
      (λ t. ground (
        arith,
        waits-cons k j p q queues,
        waits-cons k j p q (dequeue key pid queues),
        dequeue-waits k key p pid queues,
      ))

scrubbed-occurs :
    (test : Bool) (p pid : ℕ) (q : List ℕ)
    → occurs p (if test then retain_others pid q else q)
      ≡ (if test && p == pid then 0 else occurs p q)
scrubbed-occurs true p pid q = retain_others-occurs p pid q
scrubbed-occurs false p pid q = refl

scrub_queues-waits :
    (k : Key) (p vmspace_id pid : ℕ) (queues : Queues)
    → waits k p (scrub_queues vmspace_id pid queues)
      ≡ (if k.vmspace_id == vmspace_id && p == pid then 0 else waits k p queues)
unfolding scrub_queues
scrub_queues-waits k p vmspace_id pid [] = ground (arith, waits-nil k p)
scrub_queues-waits k p vmspace_id pid ((j, q) ∷ queues) = ground (
  arith,
  waits-cons k j p q queues,
  waits-cons k j p (if j.vmspace_id == vmspace_id then retain_others pid q else q)
      (scrub_queues vmspace_id pid queues),
  scrubbed-occurs (j.vmspace_id == vmspace_id) p pid q,
  scrub_queues-waits k p vmspace_id pid queues,
)

-- A thread that dies waits at no address of its address space from then on; every other process
-- waits where it did, and so does the thread itself at an address of another address space.
pub scrub_plain_waiter-waits :
    (k : Key) (p vmspace_id pid : ℕ) (f : Futexes)
    → waits k p (scrub_plain_waiter vmspace_id pid f).queues
      ≡ (if k.vmspace_id == vmspace_id && p == pid then 0 else waits k p f.queues)
unfolding scrub_plain_waiter
scrub_plain_waiter-waits k p vmspace_id pid f = scrub_queues-waits k p vmspace_id pid f.queues

-- What `wait` decides before it sleeps: the process sleeps in the queue, or it is in the queue no
-- more and has an error that says why.
pub data Decided (key : Key) (expected pid : ℕ) (before after : Queues)
    : Option ℕ → KResult (Unit {0}) → Type 0 where
  sleeps :
      waits key pid after ≡ 1 + waits key pid before
      → Decided key expected pid before after (some expected) (ok tt)
  changed :
      (value : ℕ)
      → value ≢ expected
      → waits key pid after ≡ 0
      → Decided key expected pid before after (some value) (err again)
  unreadable : waits key pid after ≡ 0 → Decided key expected pid before after none (err fault)

module _ (key : Key) (pid : ℕ) (queues : Queues) where
  abbrev entered : Queues
  entered = enqueue key pid (queue_for key queues)

  entered-IsStored :
      IsStored key (waiting_or_none (get_queue key queues) ++ (pid ∷ [])) queues entered
  entered-IsStored =
      let f = queue_for-IsStored key queues in
      let e =
        enqueue-IsStored key pid (queue_for key queues) (waiting_or_none (get_queue key queues))
          f.here in
      record { here = e.here; others = λ k h. e.others k h ∙ f.others k h }

  entered-waits : waits key pid entered ≡ 1 + waits key pid queues
  unfolding occurs
  entered-waits =
      let e : waits key pid entered
          ≡ occurs pid (waiting_or_none (get_queue key queues) ++ (pid ∷ [])) =
        ap (λ o. occurs pid (waiting_or_none o)) entered-IsStored.here in
      ground (arith, e, occurs-append pid (waiting_or_none (get_queue key queues)) (pid ∷ []))

  left-waits : waits key pid (dequeue key pid entered) ≡ 0
  left-waits = ground (arith, dequeue-waits key key pid pid entered)

  abbrev pub IsDecided : ℕ → Option ℕ → Queues × KResult (Unit {0}) → Type 0
  IsDecided expected value (after, result) = Decided key expected pid queues after value result

  leave-IsDecided :
      (expected : ℕ) (value : Option ℕ)
      → IsDecided expected value (leave_on_error key pid entered (checked expected value))
  unfolding leave_on_error
  leave-IsDecided expected none = unreadable left-waits
  leave-IsDecided expected (some value) =
      if_cases (λ c. IsDecided expected (some value) (leave_on_error key pid entered c))
        (value == expected)
        (λ t.
          subst (λ v. Decided key expected pid queues entered (some v) (ok tt)) (ground arith)
            (sleeps entered-waits))
        (λ t. changed value (ground arith) left-waits)

  -- Where the address is aligned, `wait` goes to sleep exactly if the value could be read and is the
  -- expected one, and then the process is in the queue once more; if not, the process is in the
  -- queue no more, and the error says whether the value has changed or could not be read.
  pub wait_begin-IsDecided :
      (expected : ℕ) (value : Option ℕ)
      → bit_and key.vaddr 3 ≡ 0
      → IsDecided expected value (wait_begin key expected value pid queues)
  unfolding wait_begin
  wait_begin-IsDecided expected value a = rw a (leave-IsDecided expected value)
