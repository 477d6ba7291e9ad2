-- ===== src/Creds/Setid/Kept.antt =====
-- kernel/src/security/setid.rs: ids that stay among those that a process has.
use cyphera_kernel.Prelude.{ℕ, ◌≡◌, refl, ◌⊎◌, inl, inr, Bool, true, false, not, ◌||◌, arith}
use cyphera_kernel.Creds.Credentials.{Credentials, apply_uid_change_caps}
use cyphera_kernel.Creds.Setid.{set_or_keep, check_setid_transition}
use cyphera_kernel.Creds.Setid.Cases.{apply_uid_change_caps-ids}

-- a user id, or a group id, that a process has
abbrev pub IsOwnUid : Credentials → ℕ → Type 0
IsOwnUid c id = (id ≡ c.ruid) ⊎ (id ≡ c.euid) ⊎ (id ≡ c.suid)

abbrev pub IsOwnGid : Credentials → ℕ → Type 0
IsOwnGid c id = (id ≡ c.rgid) ⊎ (id ≡ c.egid) ⊎ (id ≡ c.sgid)

-- the ids afterwards are among those before
pub record KeepsIds (c c' : Credentials) : Type 0 where
  pub ruid_own : IsOwnUid c c'.ruid
  pub euid_own : IsOwnUid c c'.euid
  pub suid_own : IsOwnUid c c'.suid
  pub fsuid_own : IsOwnUid c c'.fsuid ⊎ (c'.fsuid ≡ c.fsuid)
  pub rgid_own : IsOwnGid c c'.rgid
  pub egid_own : IsOwnGid c c'.egid
  pub sgid_own : IsOwnGid c c'.sgid
  pub fsgid_own : IsOwnGid c c'.fsgid ⊎ (c'.fsgid ≡ c.fsgid)

pub kept_same : (c : Credentials) → KeepsIds c c
kept_same c = record {
  ruid_own = inl refl;
  euid_own = inr (inl refl);
  suid_own = inr (inr refl);
  fsuid_own = inr refl;
  rgid_own = inl refl;
  egid_own = inr (inl refl);
  sgid_own = inr (inr refl);
  fsgid_own = inr refl;
}

-- `apply_uid_change_caps` leaves the ids
pub kept_caps :
    (c d : Credentials) (r e s f : ℕ) (keep_caps : Bool)
    → KeepsIds c d
    → KeepsIds c (apply_uid_change_caps r e s f keep_caps d)
kept_caps c d r e s f keep_caps h =
    let (q1, q2, q3, q4, q5, q6, q7, q8) = apply_uid_change_caps-ids r e s f keep_caps d in
    record {
      ruid_own = rw q1 h.ruid_own;
      euid_own = rw q2 h.euid_own;
      suid_own = rw q3 h.suid_own;
      fsuid_own = rw q4 h.fsuid_own;
      rgid_own = rw q5 h.rgid_own;
      egid_own = rw q6 h.egid_own;
      sgid_own = rw q7 h.sgid_own;
      fsgid_own = rw q8 h.fsgid_own;
    }

-- an id that passes the check without privilege
pub own :
    (cur new r e s : ℕ)
    → check_setid_transition cur new r e s false ≡ true
    → (cur ≡ r) ⊎ (cur ≡ e) ⊎ (cur ≡ s)
    → (set_or_keep new cur ≡ r) ⊎ (set_or_keep new cur ≡ e) ⊎ (set_or_keep new cur ≡ s)
unfolding check_setid_transition
own cur new r e s h k = ground arith

pub both : (a b : Bool) → (not a || not b) ≡ false → (a ≡ true) × (b ≡ true)
both a b h = ground arith

pub all_three :
    (a b d : Bool) → (not a || not b || not d) ≡ false → (a ≡ true) × (b ≡ true) × (d ≡ true)
all_three a b d h = ground arith

pub uids_kept :
    (c : Credentials) (r e s f : ℕ)
    → IsOwnUid c r
    → IsOwnUid c e
    → IsOwnUid c s
    → IsOwnUid c f ⊎ (f ≡ c.fsuid)
    → KeepsIds c (record c { ruid = r; euid = e; suid = s; fsuid = f })
uids_kept c r e s f hr he hs hf = record {
  ruid_own = hr;
  euid_own = he;
  suid_own = hs;
  fsuid_own = hf;
  rgid_own = inl refl;
  egid_own = inr (inl refl);
  sgid_own = inr (inr refl);
  fsgid_own = inr refl;
}

pub gids_kept :
    (c : Credentials) (r e s f : ℕ)
    → IsOwnGid c r
    → IsOwnGid c e
    → IsOwnGid c s
    → IsOwnGid c f ⊎ (f ≡ c.fsgid)
    → KeepsIds c (record c { rgid = r; egid = e; sgid = s; fsgid = f })
gids_kept c r e s f hr he hs hf = record {
  rgid_own = hr;
  egid_own = he;
  sgid_own = hs;
  fsgid_own = hf;
  ruid_own = inl refl;
  euid_own = inr (inl refl);
  suid_own = inr (inr refl);
  fsuid_own = inr refl;
}
