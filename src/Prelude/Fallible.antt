-- ===== src/Prelude/Fallible.antt =====
-- kapi/src/lib.rs: the kernel's error numbers and fallible results, and the `?` operator on them.
use mathlib.Core.Path.{◌≡◌, refl}

pub data Errno : Type 0 where
  perm inval badf mfile again pipe fault : Errno

pub data KResult {ℓ} (T : Type ℓ) : Type ℓ where
  err : Errno → KResult T
  ok : T → KResult T

-- What follows a `?`: an error goes straight to the caller.
infixl 5 ◌>>=◌ ◌>>◌
abbrev pub ◌>>=◌ {κ ℓ} : {T : Type κ} {U : Type ℓ} → KResult T → (T → KResult U) → KResult U
err e >>= next = err e
ok v >>= next = next v

abbrev pub ◌>>◌ {κ} : {U : Type κ} → KResult (Unit {0}) → KResult U → KResult U
err e >> next = err e
ok v >> next = next

pub >>-eq-ok {κ} :
    {U : Type κ} (r : KResult (Unit {0})) (next : KResult U) {u : U}
    → (r >> next) ≡ ok u
    → (r ≡ ok tt) × (next ≡ ok u)
>>-eq-ok (err e) next h = cc
>>-eq-ok (ok tt) next h = (refl, h)
