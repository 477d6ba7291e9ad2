-- ===== src/Creds/Setid/Unprivileged.antt =====
-- kernel/src/security/setid.rs: what a process without the capabilities can do to its ids.
use cyphera_kernel.Prelude.{
  ℕ, ◌≡◌, refl, inl, inr, Bool, false, not, ◌||◌, arith, ◌==◌, if_cases, Option-cases,
}
use cyphera_kernel.Creds.Credentials.{
  Credentials, has_cap, cap_setuid, cap_setgid, uid_into_kernel, gid_into_kernel,
}
use cyphera_kernel.Creds.Setid.{
  Reply, set_or_keep, check_setid_transition, sys_setresuid, sys_setresgid, sys_setreuid,
  sys_setregid, sys_setuid, sys_setgid, sys_setfsuid, sys_setfsgid, set_resuid, set_resgid,
  set_reuid, set_regid, map_setuid_in, map_setgid_in,
}
use cyphera_kernel.Creds.Setid.Cases.{
  SetidCall, resuid, resgid, reuid, regid, uid, gid, fsuid, fsgid, call, with_two_cases,
  with_three_cases,
}
use cyphera_kernel.Creds.Setid.Kept.{
  IsOwnUid, IsOwnGid, KeepsIds, kept_same, kept_caps, own, both, all_three, uids_kept, gids_kept,
}

module _ (keep_caps : Bool) (c : Credentials) (no_setuid : has_cap cap_setuid c ≡ false)
    (no_setgid : has_cap cap_setgid c ≡ false) where
  abbrev Kept : Reply → Type 0
  Kept r = KeepsIds c r.0

  set_resuid-Kept : (r e s : ℕ) → Kept (set_resuid keep_caps r e s c)
  unfolding set_resuid
  set_resuid-Kept r e s = rw no_setuid (
      if_cases {A = Reply} Kept
        (not (check_setid_transition c.ruid r c.ruid c.euid c.suid false)
          || not (check_setid_transition c.euid e c.ruid c.euid c.suid false)
          || not (check_setid_transition c.suid s c.ruid c.euid c.suid false))
        (λ _. kept_same c)
        (λ h.
          let (p, q, w) = all_three _ _ _ h in
          kept_caps c _ c.ruid c.euid c.suid c.fsuid keep_caps (
            uids_kept c (set_or_keep r c.ruid) (set_or_keep e c.euid) (set_or_keep s c.suid)
              (set_or_keep e c.fsuid) (own c.ruid r c.ruid c.euid c.suid p (inl refl))
              (own c.euid e c.ruid c.euid c.suid q (inr (inl refl)))
              (own c.suid s c.ruid c.euid c.suid w (inr (inr refl)))
              (ground (arith, own c.euid e c.ruid c.euid c.suid q (inr (inl refl)))))))

  set_reuid-Kept : (r e : ℕ) → Kept (set_reuid keep_caps r e c)
  unfolding set_reuid
  set_reuid-Kept r e = rw no_setuid (
      if_cases {A = Reply} Kept
        (not (check_setid_transition c.ruid r c.ruid c.euid c.suid false)
          || not (check_setid_transition c.euid e c.ruid c.euid c.suid false))
        (λ _. kept_same c)
        (λ h.
          let (p, q) = both _ _ h in
          let e_own = own c.euid e c.ruid c.euid c.suid q (inr (inl refl)) in
          kept_caps c _ c.ruid c.euid c.suid c.fsuid keep_caps (
            uids_kept c (set_or_keep r c.ruid) (set_or_keep e c.euid) _ (set_or_keep e c.fsuid)
              (own c.ruid r c.ruid c.euid c.suid p (inl refl)) e_own
              (if_cases {A = ℕ} (IsOwnUid c) _ (λ _. e_own) (λ _. inr (inr refl)))
              (ground (arith, e_own)))))

  sys_setuid-Kept : (new : ℕ) → Kept (sys_setuid keep_caps new c)
  unfolding sys_setuid
  sys_setuid-Kept new = elim (Option-cases (uid_into_kernel c new)) [
    | inl e ↦ rw (e, sys_setuid) (kept_same c)
    | inr (k, e) ↦
        rw (e, sys_setuid, no_setuid)
          (if_cases {A = Reply} Kept (k == c.ruid || k == c.euid || k == c.suid)
            (λ h.
              let k_own : IsOwnUid c k = ground arith in
              kept_caps c _ c.ruid c.euid c.suid c.fsuid keep_caps
                (uids_kept c c.ruid k c.suid k (inl refl) k_own (inr (inr refl)) (inl k_own)))
            (λ _. kept_same c))
  ]

  sys_setfsuid-Kept : (new : ℕ) → KeepsIds c (sys_setfsuid new c).0
  unfolding sys_setfsuid
  sys_setfsuid-Kept new = elim (Option-cases (map_setuid_in c new)) [
    | inl e ↦ rw (e, sys_setfsuid) (kept_same c)
    | inr (k, e) ↦
        rw (e, sys_setfsuid, no_setuid)
          (if_cases {A = Credentials} (KeepsIds c) _
            (λ h.
              uids_kept c c.ruid c.euid c.suid k (inl refl) (inr (inl refl)) (inr (inr refl))
                (ground arith))
            (λ _. kept_same c))
  ]

  set_resgid-Kept : (r e s : ℕ) → Kept (set_resgid r e s c)
  unfolding set_resgid
  set_resgid-Kept r e s = rw no_setgid (
      if_cases {A = Reply} Kept
        (not (check_setid_transition c.rgid r c.rgid c.egid c.sgid false)
          || not (check_setid_transition c.egid e c.rgid c.egid c.sgid false)
          || not (check_setid_transition c.sgid s c.rgid c.egid c.sgid false))
        (λ _. kept_same c)
        (λ h.
          let (p, q, w) = all_three _ _ _ h in
          gids_kept c (set_or_keep r c.rgid) (set_or_keep e c.egid) (set_or_keep s c.sgid)
            (set_or_keep e c.fsgid) (own c.rgid r c.rgid c.egid c.sgid p (inl refl))
            (own c.egid e c.rgid c.egid c.sgid q (inr (inl refl)))
            (own c.sgid s c.rgid c.egid c.sgid w (inr (inr refl)))
            (ground (arith, own c.egid e c.rgid c.egid c.sgid q (inr (inl refl))))))

  set_regid-Kept : (r e : ℕ) → Kept (set_regid r e c)
  unfolding set_regid
  set_regid-Kept r e = rw no_setgid (
      if_cases {A = Reply} Kept
        (not (check_setid_transition c.rgid r c.rgid c.egid c.sgid false)
          || not (check_setid_transition c.egid e c.rgid c.egid c.sgid false))
        (λ _. kept_same c)
        (λ h.
          let (p, q) = both _ _ h in
          let e_own = own c.egid e c.rgid c.egid c.sgid q (inr (inl refl)) in
          gids_kept c (set_or_keep r c.rgid) (set_or_keep e c.egid) _ (set_or_keep e c.fsgid)
            (own c.rgid r c.rgid c.egid c.sgid p (inl refl)) e_own
            (if_cases {A = ℕ} (IsOwnGid c) _ (λ _. e_own) (λ _. inr (inr refl)))
            (ground (arith, e_own))))

  sys_setgid-Kept : (new : ℕ) → Kept (sys_setgid new c)
  unfolding sys_setgid
  sys_setgid-Kept new = elim (Option-cases (gid_into_kernel c new)) [
    | inl e ↦ rw (e, sys_setgid) (kept_same c)
    | inr (k, e) ↦
        rw (e, sys_setgid, no_setgid)
          (if_cases {A = Reply} Kept (k == c.rgid || k == c.egid || k == c.sgid)
            (λ h.
              let k_own : IsOwnGid c k = ground arith in
              gids_kept c c.rgid k c.sgid k (inl refl) k_own (inr (inr refl)) (inl k_own))
            (λ _. kept_same c))
  ]

  sys_setfsgid-Kept : (new : ℕ) → KeepsIds c (sys_setfsgid new c).0
  unfolding sys_setfsgid
  sys_setfsgid-Kept new = elim (Option-cases (map_setgid_in c new)) [
    | inl e ↦ rw (e, sys_setfsgid) (kept_same c)
    | inr (k, e) ↦
        rw (e, sys_setfsgid, no_setgid)
          (if_cases {A = Credentials} (KeepsIds c) _
            (λ h.
              gids_kept c c.rgid c.egid c.sgid k (inl refl) (inr (inl refl)) (inr (inr refl))
                (ground arith))
            (λ _. kept_same c))
  ]

-- Without CAP_SETUID and CAP_SETGID, no call of the family gives a process an id that it did not have:
-- the real, effective and saved ids afterwards are among those before, and the file system id too,
-- unless it stays.
pub call-KeepsIds :
    (keep_caps : Bool) (s : SetidCall) (c : Credentials)
    → has_cap cap_setuid c ≡ false
    → has_cap cap_setgid c ≡ false
    → KeepsIds c (call keep_caps s c).0
unfolding sys_setresuid sys_setresgid sys_setreuid sys_setregid
call-KeepsIds k (resuid r e s) c hu hg =
    with_three_cases (λ x. KeepsIds c x.0) c _ _ _ _ (kept_same c) (set_resuid-Kept k c hu hg)
call-KeepsIds k (resgid r e s) c hu hg =
    with_three_cases (λ x. KeepsIds c x.0) c _ _ _ _ (kept_same c) (set_resgid-Kept k c hu hg)
call-KeepsIds k (reuid r e) c hu hg =
    with_two_cases (λ x. KeepsIds c x.0) c _ _ _ (kept_same c) (set_reuid-Kept k c hu hg)
call-KeepsIds k (regid r e) c hu hg =
    with_two_cases (λ x. KeepsIds c x.0) c _ _ _ (kept_same c) (set_regid-Kept k c hu hg)
call-KeepsIds k (uid u) c hu hg = sys_setuid-Kept k c hu hg u
call-KeepsIds k (gid g) c hu hg = sys_setgid-Kept k c hu hg g
call-KeepsIds k (fsuid u) c hu hg = sys_setfsuid-Kept k c hu hg u
call-KeepsIds k (fsgid g) c hu hg = sys_setfsgid-Kept k c hu hg g
