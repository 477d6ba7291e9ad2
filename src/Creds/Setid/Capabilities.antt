-- ===== src/Creds/Setid/Capabilities.antt =====
-- kernel/src/security/setid.rs: what the calls do to the capabilities, and what they leave where they fail.
use cyphera_kernel.Prelude.{
  ℕ, ◌≡◌, refl, ◌⊎◌, inl, inr, Bool, not, ◌&&◌, ◌||◌, arith, ◌==◌, if_cases, subst, ◌≢◌,
  Option-cases, KResult, ok, err, perm, inval,
}
use cyphera_kernel.Creds.Credentials.{
  Credentials, setid_keep, has_cap, cap_setuid, cap_setgid, apply_uid_change_caps, uid_into_kernel,
  gid_into_kernel,
}
use cyphera_kernel.Creds.Setid.{
  Reply, check_setid_transition, sys_setresuid, sys_setresgid, sys_setreuid, sys_setregid,
  sys_setuid, sys_setgid, sys_setfsuid, sys_setfsgid, set_resuid, set_resgid, set_reuid, set_regid,
  map_setuid_in, map_setgid_in,
}
use cyphera_kernel.Creds.Setid.Cases.{
  SetidCall, resuid, resgid, reuid, regid, uid, gid, fsuid, fsgid, call, with_two_cases,
  with_three_cases, succeed,
}

-- What a call may do to the capability sets, given those before and the effective user id before: the
-- inheritable and the bounding set stay, the permitted set stays or is cleared, and the effective
-- set stays or is cleared, or becomes the permitted set as the effective user id becomes 0.
pub record CapsAfter (euid eff permitted inh bnd : ℕ) (c' : Credentials) : Type 0 where
  pub inh_same : c'.caps_inh ≡ inh
  pub bnd_same : c'.caps_bnd ≡ bnd
  pub after :
      ((c'.caps_eff ≡ 0) × (c'.caps_perm ≡ 0))
      ⊎ ((c'.caps_eff ≡ 0) × (c'.caps_perm ≡ permitted))
      ⊎ ((c'.caps_eff ≡ eff) × (c'.caps_perm ≡ permitted))
      ⊎ ((c'.caps_eff ≡ permitted) × (c'.caps_perm ≡ permitted) × (euid ≢ 0) × (c'.euid ≡ 0))

-- and a call that fails leaves the credentials
pub record IsSafe (c : Credentials) (r : Reply) : Type 0 where
  pub caps : CapsAfter c.euid c.caps_eff c.caps_perm c.caps_inh c.caps_bnd (r.0)
  pub failed : (r.1 ≡ ok tt) ⊎ (r.0 ≡ c)

unchanged : (c : Credentials) (code : KResult (Unit {0})) → IsSafe c (c, code)
unchanged c code = record {
  caps = record { inh_same = refl; bnd_same = refl; after = inr (inr (inl (refl, refl))) };
  failed = inr refl;
}

same_caps :
    (c d : Credentials)
    → d.caps_eff ≡ c.caps_eff
    → d.caps_perm ≡ c.caps_perm
    → d.caps_inh ≡ c.caps_inh
    → d.caps_bnd ≡ c.caps_bnd
    → IsSafe c (d, ok tt)
same_caps c d e p i b = record {
  caps = record { inh_same = i; bnd_same = b; after = inr (inr (inl (e, p))) };
  failed = inl refl;
}

apply_uid_change_caps-CapsAfter :
    (r e s f : ℕ) (keep_caps : Bool) (d : Credentials)
    → CapsAfter e d.caps_eff d.caps_perm d.caps_inh d.caps_bnd
        (apply_uid_change_caps r e s f keep_caps d)
unfolding apply_uid_change_caps
apply_uid_change_caps-CapsAfter r e s f keep_caps d = record {
  inh_same = ground arith;
  bnd_same = ground arith;
  after = ground arith;
}

changed_caps :
    (c d : Credentials) (keep_caps : Bool)
    → d.caps_eff ≡ c.caps_eff
    → d.caps_perm ≡ c.caps_perm
    → d.caps_inh ≡ c.caps_inh
    → d.caps_bnd ≡ c.caps_bnd
    → IsSafe c (apply_uid_change_caps c.ruid c.euid c.suid c.fsuid keep_caps d, ok tt)
changed_caps c d keep_caps e p i b =
    let d' = apply_uid_change_caps c.ruid c.euid c.suid c.fsuid keep_caps d in
    record {
      caps =
          subst (λ n. CapsAfter c.euid n c.caps_perm c.caps_inh c.caps_bnd d') e
            (subst (λ n. CapsAfter c.euid d.caps_eff n c.caps_inh c.caps_bnd d') p
              (subst (λ n. CapsAfter c.euid d.caps_eff d.caps_perm n c.caps_bnd d') i
                (subst (λ n. CapsAfter c.euid d.caps_eff d.caps_perm d.caps_inh n d') b
                  (apply_uid_change_caps-CapsAfter c.ruid c.euid c.suid c.fsuid keep_caps d))));
      failed = inl refl;
    }

module _ (keep_caps : Bool) (c : Credentials) where
  set_resuid-IsSafe : (r e s : ℕ) → IsSafe c (set_resuid keep_caps r e s c)
  unfolding set_resuid
  set_resuid-IsSafe r e s =
      if_cases {A = Reply} (IsSafe c)
        (not (check_setid_transition c.ruid r c.ruid c.euid c.suid (has_cap cap_setuid c))
          || not (check_setid_transition c.euid e c.ruid c.euid c.suid (has_cap cap_setuid c))
          || not (check_setid_transition c.suid s c.ruid c.euid c.suid (has_cap cap_setuid c)))
        (λ _. unchanged c (err perm)) (λ _. changed_caps c _ keep_caps refl refl refl refl)

  set_reuid-IsSafe : (r e : ℕ) → IsSafe c (set_reuid keep_caps r e c)
  unfolding set_reuid
  set_reuid-IsSafe r e =
      if_cases {A = Reply} (IsSafe c)
        (not (check_setid_transition c.ruid r c.ruid c.euid c.suid (has_cap cap_setuid c))
          || not (check_setid_transition c.euid e c.ruid c.euid c.suid (has_cap cap_setuid c)))
        (λ _. unchanged c (err perm)) (λ _. changed_caps c _ keep_caps refl refl refl refl)

  sys_setuid-IsSafe : (new : ℕ) → IsSafe c (sys_setuid keep_caps new c)
  unfolding sys_setuid
  sys_setuid-IsSafe new = elim (Option-cases (uid_into_kernel c new)) [
    | inl e ↦ rw (e, sys_setuid) (unchanged c (err inval))
    | inr (k, e) ↦
        rw (e, sys_setuid)
          (if_cases {A = Reply} (IsSafe c) (has_cap cap_setuid c)
            (λ _. changed_caps c _ keep_caps refl refl refl refl)
            (λ _.
              if_cases {A = Reply} (IsSafe c) (k == c.ruid || k == c.euid || k == c.suid)
                (λ _. changed_caps c _ keep_caps refl refl refl refl)
                (λ _. unchanged c (err perm))))
  ]

  sys_setfsuid-IsSafe : (new : ℕ) → IsSafe c (succeed (sys_setfsuid new c))
  unfolding sys_setfsuid
  sys_setfsuid-IsSafe new = elim (Option-cases (map_setuid_in c new)) [
    | inl e ↦ rw (e, sys_setfsuid) (unchanged c (ok tt))
    | inr (k, e) ↦
        rw (e, sys_setfsuid)
          (if_cases {A = Credentials} (λ d. IsSafe c (d, ok tt))
            ((has_cap cap_setuid c || k == c.ruid || k == c.euid || k == c.suid || k == c.fsuid)
              && not (k == setid_keep))
            (λ _. same_caps c _ refl refl refl refl) (λ _. unchanged c (ok tt)))
  ]

  set_resgid-IsSafe : (r e s : ℕ) → IsSafe c (set_resgid r e s c)
  unfolding set_resgid
  set_resgid-IsSafe r e s =
      if_cases {A = Reply} (IsSafe c)
        (not (check_setid_transition c.rgid r c.rgid c.egid c.sgid (has_cap cap_setgid c))
          || not (check_setid_transition c.egid e c.rgid c.egid c.sgid (has_cap cap_setgid c))
          || not (check_setid_transition c.sgid s c.rgid c.egid c.sgid (has_cap cap_setgid c)))
        (λ _. unchanged c (err perm)) (λ _. same_caps c _ refl refl refl refl)

  set_regid-IsSafe : (r e : ℕ) → IsSafe c (set_regid r e c)
  unfolding set_regid
  set_regid-IsSafe r e =
      if_cases {A = Reply} (IsSafe c)
        (not (check_setid_transition c.rgid r c.rgid c.egid c.sgid (has_cap cap_setgid c))
          || not (check_setid_transition c.egid e c.rgid c.egid c.sgid (has_cap cap_setgid c)))
        (λ _. unchanged c (err perm)) (λ _. same_caps c _ refl refl refl refl)

  sys_setgid-IsSafe : (new : ℕ) → IsSafe c (sys_setgid new c)
  unfolding sys_setgid
  sys_setgid-IsSafe new = elim (Option-cases (gid_into_kernel c new)) [
    | inl e ↦ rw (e, sys_setgid) (unchanged c (err inval))
    | inr (k, e) ↦
        rw (e, sys_setgid)
          (if_cases {A = Reply} (IsSafe c) (has_cap cap_setgid c)
            (λ _. same_caps c _ refl refl refl refl)
            (λ _.
              if_cases {A = Reply} (IsSafe c) (k == c.rgid || k == c.egid || k == c.sgid)
                (λ _. same_caps c _ refl refl refl refl) (λ _. unchanged c (err perm))))
  ]

  sys_setfsgid-IsSafe : (new : ℕ) → IsSafe c (succeed (sys_setfsgid new c))
  unfolding sys_setfsgid
  sys_setfsgid-IsSafe new = elim (Option-cases (map_setgid_in c new)) [
    | inl e ↦ rw (e, sys_setfsgid) (unchanged c (ok tt))
    | inr (k, e) ↦
        rw (e, sys_setfsgid)
          (if_cases {A = Credentials} (λ d. IsSafe c (d, ok tt))
            ((has_cap cap_setgid c || k == c.rgid || k == c.egid || k == c.sgid || k == c.fsgid)
              && not (k == setid_keep))
            (λ _. same_caps c _ refl refl refl refl) (λ _. unchanged c (ok tt)))
  ]

-- A call of the family leaves the inheritable and the bounding set; it leaves the permitted set or
-- clears it, and leaves the effective set or clears it, or, as the effective user id becomes 0, sets
-- it to the permitted set; and a call that fails leaves the credentials as they were.
pub call-IsSafe :
    (keep_caps : Bool) (s : SetidCall) (c : Credentials) → IsSafe c (call keep_caps s c)
unfolding sys_setresuid sys_setresgid sys_setreuid sys_setregid
call-IsSafe k (resuid r e s) c =
    with_three_cases (IsSafe c) c _ _ _ _ (unchanged c (err inval)) (set_resuid-IsSafe k c)
call-IsSafe k (resgid r e s) c =
    with_three_cases (IsSafe c) c _ _ _ _ (unchanged c (err inval)) (set_resgid-IsSafe k c)
call-IsSafe k (reuid r e) c =
    with_two_cases (IsSafe c) c _ _ _ (unchanged c (err inval)) (set_reuid-IsSafe k c)
call-IsSafe k (regid r e) c =
    with_two_cases (IsSafe c) c _ _ _ (unchanged c (err inval)) (set_regid-IsSafe k c)
call-IsSafe k (uid u) c = sys_setuid-IsSafe k c u
call-IsSafe k (gid g) c = sys_setgid-IsSafe k c g
call-IsSafe k (fsuid u) c = sys_setfsuid-IsSafe k c u
call-IsSafe k (fsgid g) c = sys_setfsgid-IsSafe k c g
