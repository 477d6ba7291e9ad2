-- ===== src/Creds/Credentials.antt =====
-- kernel/src/process_model/creds.rs, `Credentials`, and what the capability sets of
-- kernel/src/security/mod.rs read of it.
use cyphera_kernel.Prelude.{
  ℕ, ◌-◌, ◌/◌, ◌^◌, bit_and, Bool, true, false, not, ◌&&◌, ◌||◌, List, [], ◌∷◌, Option, none, some,
  ltb, ◌==◌, if◌then◌else◌,
}
use cyphera_kernel.Creds.Namespace.{
  UserNamespace, orphan, under, fields, uid_to_kernel, uid_from_kernel, gid_to_kernel,
  gid_from_kernel, overflow_uid, overflow_gid,
}

abbrev pub cap_dac_override : ℕ
cap_dac_override = 1

abbrev pub cap_kill : ℕ
cap_kill = 5

abbrev pub cap_setgid : ℕ
cap_setgid = 6

abbrev pub cap_setuid : ℕ
cap_setuid = 7

abbrev pub cap_audit_control : ℕ
cap_audit_control = 30

abbrev pub cap_last : ℕ
cap_last = 40

abbrev pub all_caps_mask : ℕ
all_caps_mask = 2 ^ 41 - 1

abbrev pub setid_keep : ℕ
setid_keep = 2 ^ 32 - 1

pub record Credentials : Type 0 where
  pub ruid : ℕ
  pub euid : ℕ
  pub suid : ℕ
  pub fsuid : ℕ
  pub rgid : ℕ
  pub egid : ℕ
  pub sgid : ℕ
  pub fsgid : ℕ
  pub groups : List ℕ
  pub caps_eff : ℕ
  pub caps_perm : ℕ
  pub caps_inh : ℕ
  pub caps_bnd : ℕ
  pub user_ns : Option UserNamespace
  pub loginuid : ℕ

unfoldable pub root : Credentials
root = record {
  ruid = 0;
  euid = 0;
  suid = 0;
  fsuid = 0;
  rgid = 0;
  egid = 0;
  sgid = 0;
  fsgid = 0;
  groups = [];
  caps_eff = all_caps_mask;
  caps_perm = all_caps_mask;
  caps_inh = 0;
  caps_bnd = all_caps_mask;
  user_ns = none;
  loginuid = 2 ^ 32 - 1;
}

unfoldable pub has_cap : ℕ → Credentials → Bool
has_cap cap c = if ltb cap_last cap then false else not (bit_and c.caps_eff (2 ^ cap) == 0)

-- the level of a namespace, 0 where there is none
abbrev level_of : Option UserNamespace → ℕ
level_of none = 0
level_of (some ns) = (fields ns).level

unfoldable pub in_host_user_ns : Credentials → Bool
in_host_user_ns c = level_of c.user_ns == 0

unfoldable pub capable_host : ℕ → Credentials → Bool
unfolding has_cap in_host_user_ns
capable_host cap c = has_cap cap c && in_host_user_ns c

-- the loop of `dominates`, up the parents of a namespace
unfoldable pub is_above : UserNamespace → UserNamespace → Bool
is_above caller (orphan f) = f.id == (fields caller).id
is_above caller (under parent f) =
    if f.id == (fields caller).id then true else is_above caller parent

abbrev above_governing : UserNamespace → Option UserNamespace → Bool
above_governing caller none = false
above_governing caller (some ns) = is_above caller ns

unfoldable pub dominates : Credentials → Option UserNamespace → Bool
unfolding is_above
dominates c governing = elim c.user_ns [
  | none ↦ true
  | some caller ↦ if (fields caller).level == 0 then true else above_governing caller governing
]

unfoldable pub capable_in : ℕ → Credentials → Option UserNamespace → Bool
capable_in cap c governing = has_cap cap c && dominates c governing

abbrev is_some : Option ℕ → Bool
is_some none = false
is_some (some v) = true

abbrev unwrap_or : Option ℕ → ℕ → ℕ
unwrap_or none v = v
unwrap_or (some w) v = w

unfoldable pub owns_kuid : Credentials → ℕ → Bool
owns_kuid c kuid = elim c.user_ns [ none ↦ true | some ns ↦ is_some (uid_from_kernel ns kuid) ]

unfoldable pub owns_kgid : Credentials → ℕ → Bool
owns_kgid c kgid = elim c.user_ns [ none ↦ true | some ns ↦ is_some (gid_from_kernel ns kgid) ]

unfoldable pub uid_into_kernel : Credentials → ℕ → Option ℕ
uid_into_kernel c ns_uid = elim c.user_ns [ none ↦ some ns_uid | some ns ↦ uid_to_kernel ns ns_uid ]

unfoldable pub gid_into_kernel : Credentials → ℕ → Option ℕ
gid_into_kernel c ns_gid = elim c.user_ns [ none ↦ some ns_gid | some ns ↦ gid_to_kernel ns ns_gid ]

unfoldable pub uid_out_of_kernel : Credentials → ℕ → ℕ
uid_out_of_kernel c kuid = elim c.user_ns [
  | none ↦ kuid
  | some ns ↦ unwrap_or (uid_from_kernel ns kuid) overflow_uid
]

unfoldable pub gid_out_of_kernel : Credentials → ℕ → ℕ
gid_out_of_kernel c kgid = elim c.user_ns [
  | none ↦ kgid
  | some ns ↦ unwrap_or (gid_from_kernel ns kgid) overflow_gid
]

-- one of the four user ids is 0
abbrev pub any_root : ℕ → ℕ → ℕ → ℕ → Bool
any_root ruid euid suid fsuid = ruid == 0 || euid == 0 || suid == 0 || fsuid == 0

unfoldable pub apply_uid_change_caps : ℕ → ℕ → ℕ → ℕ → Bool → Credentials → Credentials
apply_uid_change_caps old_ruid old_euid old_suid old_fsuid keep_caps c =
    if any_root old_ruid old_euid old_suid old_fsuid && not (any_root c.ruid c.euid c.suid c.fsuid)
    then record c { caps_eff = 0; caps_perm = if keep_caps then c.caps_perm else 0 }
    else if not (old_euid == 0) && c.euid == 0
    then record c { caps_eff = c.caps_perm }
    else if old_euid == 0 && not (c.euid == 0)
    then record c { caps_eff = 0 }
    else c

unfoldable pub contains : ℕ → List ℕ → Bool
contains g [] = false
contains g (h ∷ hs) = h == g || contains g hs

unfoldable pub is_in_group : ℕ → Credentials → Bool
unfolding contains
is_in_group gid c = if c.egid == gid then true else contains gid c.groups

unfoldable pub can_access : Credentials → ℕ → ℕ → ℕ → ℕ → Bool
unfolding capable_host is_in_group
can_access c file_uid file_gid file_mode mode_req =
    if capable_host cap_dac_override c
    then true
    else (let class_bits =
          if c.euid == file_uid
          then bit_and (file_mode / 2 ^ 6) 7
          else if is_in_group file_gid c
          then bit_and (file_mode / 2 ^ 3) 7
          else bit_and file_mode 7 in
        bit_and class_bits mode_req == mode_req)

unfoldable pub can_signal : Credentials → Credentials → Bool
unfolding capable_host
can_signal c target =
    if capable_host cap_kill c
    then true
    else c.ruid == target.ruid
      || c.ruid == target.suid
      || c.euid == target.ruid
      || c.euid == target.suid
