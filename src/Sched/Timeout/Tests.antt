-- ===== src/Sched/Timeout/Tests.antt =====
-- The tables of deadlines at concrete inputs; the place of a deadline is before all its equals.
use cyphera_kernel.Prelude.{
  ℕ, suc, ◌≤◌, ◌≡◌, refl, sym, List, [], ◌∷◌, leb, if◌then◌else◌, take, drop, All, arith, if_cases,
}
use cyphera_kernel.Sched.Timeout.{
  CallbackEntry, IsPosition, IsSorted, register, retain_others, take_expired,
}
use cyphera_kernel.Sched.Timeout.Order.{Reach, begin, registered, IsExpired, reachable-IsExpired}

first_place : ℕ → List (CallbackEntry (Unit {0})) → ℕ
first_place d [] = 0
first_place d (e ∷ table) = let n = first_place d table in if leb d e.deadline then 0 else suc n

all_later :
    (d : ℕ) (e : CallbackEntry Unit) (table : List (CallbackEntry Unit))
    → d ≤ e.deadline
    → All (λ f. e.deadline ≤ f.deadline) table
    → All (λ f. d ≤ f.deadline) table
all_later d e [] l h = tt
all_later d e (f ∷ table) l (hf, h) = (omega arith, all_later d e table l h)

first_place-before :
    (d : ℕ) (table : List (CallbackEntry Unit))
    → IsSorted table
    → All (λ e. e.deadline ≤ d) (take (first_place d table) table)
unfolding first_place
first_place-before d [] h = tt
first_place-before d (e ∷ table) (he, h) =
    if_cases (λ n. All (λ f. f.deadline ≤ d) (take n (e ∷ table))) (leb d e.deadline) (λ _. tt)
      (λ l. (ground arith, first_place-before d table h))

first_place-behind :
    (d : ℕ) (table : List (CallbackEntry Unit))
    → IsSorted table
    → All (λ e. d ≤ e.deadline) (drop (first_place d table) table)
unfolding first_place
first_place-behind d [] h = tt
first_place-behind d (e ∷ table) (he, h) =
    if_cases (λ n. All (λ f. d ≤ f.deadline) (drop n (e ∷ table))) (leb d e.deadline)
      (λ l. (ground arith, all_later d e table (ground arith) he))
      (λ l. first_place-behind d table h)

first_place-IsPosition : IsPosition first_place
first_place-IsPosition = record { before = first_place-before; behind = first_place-behind }

abbrev at : ℕ → ℕ → CallbackEntry Unit
at deadline key = record { deadline = deadline; key = key; callback = tt }

abbrev two : List (CallbackEntry Unit)
two = at 100 2 ∷ at 300 1 ∷ []

two_registered : register first_place (at 100 2) (register first_place (at 300 1) []) ≡ two
unfolding register retain_others first_place
two_registered = refl

two_reached : Reach first_place two
two_reached = registered (at 100 2) (registered (at 300 1) (begin refl) refl) (sym two_registered)

reachable-IsExpired_example : IsExpired 200 two (take_expired 200 two).0 (take_expired 200 two).1
reachable-IsExpired_example = reachable-IsExpired first_place first_place-IsPosition two_reached 200

expires_first : (take_expired 200 two).1 ≡ at 300 1 ∷ []
unfolding take_expired
expires_first = refl
