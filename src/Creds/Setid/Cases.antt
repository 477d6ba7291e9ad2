-- ===== src/Creds/Setid/Cases.antt =====
-- kernel/src/security/setid.rs: the calls as one type, and the cases of what each does.
use cyphera_kernel.Prelude.{ℕ, ◌≡◌, Bool, Option, none, some, arith, ok, err, inval}
use cyphera_kernel.Creds.Credentials.{Credentials, apply_uid_change_caps}
use cyphera_kernel.Creds.Setid.{
  Reply, with_two, with_three, sys_setresuid, sys_setresgid, sys_setreuid, sys_setregid, sys_setuid,
  sys_setgid, sys_setfsuid, sys_setfsgid,
}

pub data SetidCall : Type 0 where
  resuid : ℕ → ℕ → ℕ → SetidCall
  resgid : ℕ → ℕ → ℕ → SetidCall
  reuid : ℕ → ℕ → SetidCall
  regid : ℕ → ℕ → SetidCall
  uid : ℕ → SetidCall
  gid : ℕ → SetidCall
  fsuid : ℕ → SetidCall
  fsgid : ℕ → SetidCall

-- the calls that give back the old id always succeed
abbrev pub succeed : Credentials × ℕ → Reply
succeed (c, old) = (c, ok tt)

abbrev pub call : Bool → SetidCall → Credentials → Reply
call keep_caps (resuid r e s) c = sys_setresuid keep_caps r e s c
call keep_caps (resgid r e s) c = sys_setresgid r e s c
call keep_caps (reuid r e) c = sys_setreuid keep_caps r e c
call keep_caps (regid r e) c = sys_setregid r e c
call keep_caps (uid u) c = sys_setuid keep_caps u c
call keep_caps (gid g) c = sys_setgid g c
call keep_caps (fsuid u) c = succeed (sys_setfsuid u c)
call keep_caps (fsgid g) c = succeed (sys_setfsgid g c)

-- what holds of a reply that leaves the credentials, and of the replies of the continuation, holds of
-- the whole
pub with_two_cases {ℓ} :
    (P : Reply → Type ℓ) (c : Credentials) (x y : Option ℕ) (f : ℕ → ℕ → Reply)
    → P (c, err inval)
    → ((a b : ℕ) → P (f a b))
    → P (with_two c x y f)
with_two_cases P c none y f h k = h
with_two_cases P c (some a) none f h k = h
with_two_cases P c (some a) (some b) f h k = k a b

pub with_three_cases {ℓ} :
    (P : Reply → Type ℓ) (c : Credentials) (x y z : Option ℕ) (f : ℕ → ℕ → ℕ → Reply)
    → P (c, err inval)
    → ((a b d : ℕ) → P (f a b d))
    → P (with_three c x y z f)
with_three_cases P c none y z f h k = h
with_three_cases P c (some a) none z f h k = h
with_three_cases P c (some a) (some b) none f h k = h
with_three_cases P c (some a) (some b) (some d) f h k = k a b d

-- a change of capabilities by `apply_uid_change_caps` changes nothing else
pub apply_uid_change_caps-ids :
    (r e s f : ℕ) (keep_caps : Bool) (c : Credentials)
    → let c' = apply_uid_change_caps r e s f keep_caps c in
      (c'.ruid ≡ c.ruid)
      × (c'.euid ≡ c.euid)
      × (c'.suid ≡ c.suid)
      × (c'.fsuid ≡ c.fsuid)
      × (c'.rgid ≡ c.rgid)
      × (c'.egid ≡ c.egid)
      × (c'.sgid ≡ c.sgid)
      × (c'.fsgid ≡ c.fsgid)
unfolding apply_uid_change_caps
apply_uid_change_caps-ids r e s f keep_caps c = ground arith
