-- ===== src/Creds/Exec.antt =====
-- kernel/src/security/setid.rs: what exec does to the credentials, supplementary groups, a new user
-- namespace, and the login id.
use cyphera_kernel.Prelude.{
  ℕ, bit_and, bit_or, Bool, true, false, not, ◌&&◌, ◌||◌, List, [], ◌∷◌, Option, none, some, ◌==◌,
  if◌then◌else◌, ok, err, inval, ◌≡◌, Bool-cases, inl, inr, arith,
}
use cyphera_kernel.Creds.Namespace.{UserNamespace}
use cyphera_kernel.Creds.Credentials.{
  Credentials, cap_audit_control, all_caps_mask, has_cap, gid_into_kernel,
}
use cyphera_kernel.Creds.Setid.{Reply}

pub record ExecCredTransition : Type 0 where
  pub post_euid : ℕ
  pub post_egid : ℕ
  pub secure : Bool
  pub suid_owner : Option ℕ
  pub sgid_owner : Option ℕ

abbrev pub unwrap_or : Option ℕ → ℕ → ℕ
unwrap_or none v = v
unwrap_or (some w) v = w

-- `matches!(owner, Some(u) if u != id)`
abbrev pub is_other : Option ℕ → ℕ → Bool
is_other none id = false
is_other (some u) id = not (u == id)

unfoldable pub exec_transition : ℕ → ℕ → ℕ → ℕ → ℕ → ℕ → ℕ → Bool → Bool → ExecCredTransition
exec_transition file_mode file_uid file_gid ruid pre_euid rgid pre_egid nosuid no_new_privs =
    let grant_setid = not nosuid && not no_new_privs in
    let suid_owner =
      if grant_setid && not (bit_and file_mode 2048 == 0) then some file_uid else none in
    let sgid_owner =
      if grant_setid && not (bit_and file_mode 1024 == 0) then some file_gid else none in
    let post_euid = unwrap_or suid_owner pre_euid in
    let post_egid = unwrap_or sgid_owner pre_egid in
    record {
      post_euid = post_euid;
      post_egid = post_egid;
      secure =
          not (ruid == post_euid)
          || not (rgid == post_egid)
          || is_other suid_owner ruid
          || is_other sgid_owner rgid;
      suid_owner = suid_owner;
      sgid_owner = sgid_owner;
    }

-- the first two steps of `apply_exec_transition`
abbrev pub take_owners : Option ℕ → Option ℕ → Credentials → Credentials
take_owners none none c = c
take_owners (some uid) none c = record c { euid = uid; suid = uid; fsuid = uid }
take_owners none (some gid) c = record c { egid = gid; sgid = gid; fsgid = gid }
take_owners (some uid) (some gid) c = record c {
  euid = uid;
  suid = uid;
  fsuid = uid;
  egid = gid;
  sgid = gid;
  fsgid = gid;
}

unfoldable pub apply_exec_transition : ExecCredTransition → Credentials → Credentials
apply_exec_transition t c =
    let c' = take_owners t.suid_owner t.sgid_owner c in
    let privileged = c'.euid == 0 || c'.ruid == 0 in
    let caps_perm = if privileged then bit_or c'.caps_bnd c'.caps_inh else 0 in
    record c' { caps_perm = caps_perm; caps_eff = if c'.euid == 0 then caps_perm else 0 }

-- the loop of `set_supplementary_groups`
unfoldable pub kernel_groups : Credentials → List ℕ → Option (List ℕ)
kernel_groups c [] = some []
kernel_groups c (g ∷ gs) = elim (gid_into_kernel c g) [
  | none ↦ none
  | some k ↦ elim (kernel_groups c gs) [ none ↦ none | some ks ↦ some (k ∷ ks) ]
]

unfoldable pub set_supplementary_groups : List ℕ → Credentials → Reply
unfolding kernel_groups
set_supplementary_groups ns_gids c = elim (kernel_groups c ns_gids) [
  | none ↦ (c, err inval)
  | some kgroups ↦ (record c { groups = kgroups }, ok tt)
]

unfoldable pub clear_supplementary_groups : Credentials → Credentials
clear_supplementary_groups c = record c { groups = [] }

unfoldable pub enter_user_namespace : UserNamespace → Credentials → Credentials
enter_user_namespace new_ns c = record c {
  user_ns = some new_ns;
  caps_eff = all_caps_mask;
  caps_perm = all_caps_mask;
  caps_inh = all_caps_mask;
  caps_bnd = all_caps_mask;
}

unfoldable pub set_loginuid : ℕ → Credentials → Credentials × Bool
set_loginuid val c =
    if has_cap cap_audit_control c then (record c { loginuid = val }, true) else (c, false)

-- Exec sets the effective ids to the file's owner and group where the file asks for it and neither
-- the mount nor the process forbids it, and leaves them otherwise; the real ids stay; and the new
-- program runs in secure mode exactly where an effective id differs from the real one.
pub exec_transition-ids :
    (file_mode file_uid file_gid : ℕ) (nosuid no_new_privs : Bool) (c : Credentials)
    → let t =
        exec_transition file_mode file_uid file_gid c.ruid c.euid c.rgid c.egid nosuid
          no_new_privs in
      let c' = apply_exec_transition t c in
      let granted = not nosuid && not no_new_privs in
      (c'.ruid ≡ c.ruid)
      × (c'.rgid ≡ c.rgid)
      × (c'.euid ≡ (if granted && not (bit_and file_mode 2048 == 0) then file_uid else c.euid))
      × (c'.egid ≡ (if granted && not (bit_and file_mode 1024 == 0) then file_gid else c.egid))
      × (t.secure ≡ not (c'.euid == c.ruid && c'.egid == c.rgid))
unfolding exec_transition apply_exec_transition
exec_transition-ids file_mode file_uid file_gid nosuid no_new_privs c =
    let suid = not nosuid && not no_new_privs && not (bit_and file_mode 2048 == 0) in
    let sgid = not nosuid && not no_new_privs && not (bit_and file_mode 1024 == 0) in
    elim (Bool-cases suid) [
      | inl p ↦ elim (Bool-cases sgid) [
        | inl q ↦ rw (p, q) (ground arith)
        | inr q ↦ rw (p, q) (ground arith)
      ]
      | inr p ↦ elim (Bool-cases sgid) [
        | inl q ↦ rw (p, q) (ground arith)
        | inr q ↦ rw (p, q) (ground arith)
      ]
    ]
