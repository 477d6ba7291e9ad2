-- ===== src/Creds/Setid.antt =====
-- kernel/src/security/setid.rs. `c` are the credentials of the current process, under their lock;
-- each function gives them back with what the system call returns, 0 being `ok tt`.
pub mod Cases
pub mod Kept
pub mod Unprivileged
pub mod Capabilities
use cyphera_kernel.Prelude.{
  ℕ, ◌^◌, bit_and, bit_or, Bool, true, false, not, ◌&&◌, ◌||◌, List, [], ◌∷◌, Option, none, some,
  ltb, ◌==◌, if◌then◌else◌, KResult, ok, err, perm, inval,
}
use cyphera_kernel.Creds.Credentials.{
  Credentials, setid_keep, cap_setuid, cap_setgid, cap_audit_control, all_caps_mask, has_cap,
  uid_into_kernel, gid_into_kernel, uid_out_of_kernel, gid_out_of_kernel, apply_uid_change_caps,
}

unfoldable pub check_setid_transition : ℕ → ℕ → ℕ → ℕ → ℕ → Bool → Bool
check_setid_transition current new ruid euid suid privileged =
    if new == setid_keep
    then true
    else if privileged
    then true
    else new == ruid || new == euid || new == suid || new == current

unfoldable pub map_setuid_in : Credentials → ℕ → Option ℕ
map_setuid_in c id = if id == setid_keep then some setid_keep else uid_into_kernel c id

unfoldable pub map_setgid_in : Credentials → ℕ → Option ℕ
map_setgid_in c id = if id == setid_keep then some setid_keep else gid_into_kernel c id

-- an id that is set unless it is `SETID_KEEP`
abbrev pub set_or_keep : ℕ → ℕ → ℕ
set_or_keep new old = if new == setid_keep then old else new

abbrev pub Reply : Type 0
Reply = Credentials × KResult (Unit {0})

-- the match on the mapped ids, of which none may be missing
abbrev pub with_two : Credentials → Option ℕ → Option ℕ → (ℕ → ℕ → Reply) → Reply
with_two c none y f = (c, err inval)
with_two c (some a) none f = (c, err inval)
with_two c (some a) (some b) f = f a b

abbrev pub with_three : Credentials → Option ℕ → Option ℕ → Option ℕ → (ℕ → ℕ → ℕ → Reply) → Reply
with_three c none y z f = (c, err inval)
with_three c (some a) none z f = (c, err inval)
with_three c (some a) (some b) none f = (c, err inval)
with_three c (some a) (some b) (some d) f = f a b d

-- `sys_setresuid`, the ids mapped
unfoldable pub set_resuid : Bool → ℕ → ℕ → ℕ → Credentials → Reply
set_resuid keep_caps k_ruid k_euid k_suid c =
    let priv = has_cap cap_setuid c in
    if not (check_setid_transition c.ruid k_ruid c.ruid c.euid c.suid priv)
      || not (check_setid_transition c.euid k_euid c.ruid c.euid c.suid priv)
      || not (check_setid_transition c.suid k_suid c.ruid c.euid c.suid priv)
    then (c, err perm)
    else (
      apply_uid_change_caps c.ruid c.euid c.suid c.fsuid keep_caps (record c {
        ruid = set_or_keep k_ruid c.ruid;
        euid = set_or_keep k_euid c.euid;
        fsuid = set_or_keep k_euid c.fsuid;
        suid = set_or_keep k_suid c.suid;
      }),
      ok tt,
    )

unfoldable pub sys_setresuid : Bool → ℕ → ℕ → ℕ → Credentials → Reply
sys_setresuid keep_caps new_ruid new_euid new_suid c =
    with_three c (map_setuid_in c new_ruid) (map_setuid_in c new_euid) (map_setuid_in c new_suid)
      (λ k_ruid k_euid k_suid. set_resuid keep_caps k_ruid k_euid k_suid c)

-- `sys_setreuid`, the ids mapped
unfoldable pub set_reuid : Bool → ℕ → ℕ → Credentials → Reply
set_reuid keep_caps k_ruid k_euid c =
    let priv = has_cap cap_setuid c in
    if not (check_setid_transition c.ruid k_ruid c.ruid c.euid c.suid priv)
      || not (check_setid_transition c.euid k_euid c.ruid c.euid c.suid priv)
    then (c, err perm)
    else (let ruid_changing = not (k_ruid == setid_keep) && not (k_ruid == c.ruid) in
        let euid_changing = not (k_euid == setid_keep) && not (k_euid == c.euid) in
        let new_euid = set_or_keep k_euid c.euid in
        let new_suid =
          if ruid_changing || (euid_changing && not (k_euid == c.suid)) then new_euid else c.suid in
        (
          apply_uid_change_caps c.ruid c.euid c.suid c.fsuid keep_caps (record c {
            ruid = set_or_keep k_ruid c.ruid;
            euid = new_euid;
            fsuid = set_or_keep k_euid c.fsuid;
            suid = new_suid;
          }),
          ok tt,
        ))

unfoldable pub sys_setreuid : Bool → ℕ → ℕ → Credentials → Reply
sys_setreuid keep_caps new_ruid new_euid c =
    with_two c (map_setuid_in c new_ruid) (map_setuid_in c new_euid)
      (λ k_ruid k_euid. set_reuid keep_caps k_ruid k_euid c)

unfoldable pub sys_setuid : Bool → ℕ → Credentials → Reply
sys_setuid keep_caps uid c = elim (uid_into_kernel c uid) [
  | none ↦ (c, err inval)
  | some k ↦
      if has_cap cap_setuid c
      then (
        apply_uid_change_caps c.ruid c.euid c.suid c.fsuid keep_caps
            (record c { ruid = k; euid = k; suid = k; fsuid = k }),
        ok tt,
      )
      else if k == c.ruid || k == c.euid || k == c.suid
      then (
        apply_uid_change_caps c.ruid c.euid c.suid c.fsuid keep_caps
            (record c { euid = k; fsuid = k }),
        ok tt,
      )
      else (c, err perm)
]

-- The old id is what the call returns, in every case.
unfoldable pub sys_setfsuid : ℕ → Credentials → Credentials × ℕ
sys_setfsuid new_fsuid c =
    let old = uid_out_of_kernel c c.fsuid in
    elim (map_setuid_in c new_fsuid) [
      | none ↦ (c, old)
      | some k_new ↦
          let allowed =
            has_cap cap_setuid c
            || k_new == c.ruid
            || k_new == c.euid
            || k_new == c.suid
            || k_new == c.fsuid in
          (if allowed && not (k_new == setid_keep) then record c { fsuid = k_new } else c, old)
    ]

-- `sys_setresgid`, the ids mapped
unfoldable pub set_resgid : ℕ → ℕ → ℕ → Credentials → Reply
set_resgid k_rgid k_egid k_sgid c =
    let priv = has_cap cap_setgid c in
    if not (check_setid_transition c.rgid k_rgid c.rgid c.egid c.sgid priv)
      || not (check_setid_transition c.egid k_egid c.rgid c.egid c.sgid priv)
      || not (check_setid_transition c.sgid k_sgid c.rgid c.egid c.sgid priv)
    then (c, err perm)
    else (
      record c {
        rgid = set_or_keep k_rgid c.rgid;
        egid = set_or_keep k_egid c.egid;
        fsgid = set_or_keep k_egid c.fsgid;
        sgid = set_or_keep k_sgid c.sgid;
      },
      ok tt,
    )

unfoldable pub sys_setresgid : ℕ → ℕ → ℕ → Credentials → Reply
sys_setresgid new_rgid new_egid new_sgid c =
    with_three c (map_setgid_in c new_rgid) (map_setgid_in c new_egid) (map_setgid_in c new_sgid)
      (λ k_rgid k_egid k_sgid. set_resgid k_rgid k_egid k_sgid c)

-- `sys_setregid`, the ids mapped
unfoldable pub set_regid : ℕ → ℕ → Credentials → Reply
set_regid k_rgid k_egid c =
    let priv = has_cap cap_setgid c in
    if not (check_setid_transition c.rgid k_rgid c.rgid c.egid c.sgid priv)
      || not (check_setid_transition c.egid k_egid c.rgid c.egid c.sgid priv)
    then (c, err perm)
    else (let rgid_changing = not (k_rgid == setid_keep) && not (k_rgid == c.rgid) in
        let egid_changing = not (k_egid == setid_keep) && not (k_egid == c.egid) in
        let new_egid = set_or_keep k_egid c.egid in
        let new_sgid =
          if rgid_changing || (egid_changing && not (k_egid == c.sgid)) then new_egid else c.sgid in
        (
          record c {
            rgid = set_or_keep k_rgid c.rgid;
            egid = new_egid;
            fsgid = set_or_keep k_egid c.fsgid;
            sgid = new_sgid;
          },
          ok tt,
        ))

unfoldable pub sys_setregid : ℕ → ℕ → Credentials → Reply
sys_setregid new_rgid new_egid c =
    with_two c (map_setgid_in c new_rgid) (map_setgid_in c new_egid)
      (λ k_rgid k_egid. set_regid k_rgid k_egid c)

unfoldable pub sys_setgid : ℕ → Credentials → Reply
sys_setgid gid c = elim (gid_into_kernel c gid) [
  | none ↦ (c, err inval)
  | some k ↦
      if has_cap cap_setgid c
      then (record c { rgid = k; egid = k; sgid = k; fsgid = k }, ok tt)
      else if k == c.rgid || k == c.egid || k == c.sgid
      then (record c { egid = k; fsgid = k }, ok tt)
      else (c, err perm)
]

-- The old id is what the call returns, in every case.
unfoldable pub sys_setfsgid : ℕ → Credentials → Credentials × ℕ
sys_setfsgid new_fsgid c =
    let old = gid_out_of_kernel c c.fsgid in
    elim (map_setgid_in c new_fsgid) [
      | none ↦ (c, old)
      | some k_new ↦
          let allowed =
            has_cap cap_setgid c
            || k_new == c.rgid
            || k_new == c.egid
            || k_new == c.sgid
            || k_new == c.fsgid in
          (if allowed && not (k_new == setid_keep) then record c { fsgid = k_new } else c, old)
    ]
