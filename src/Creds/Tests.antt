-- ===== src/Creds/Tests.antt =====
-- kernel/src/process_model/creds.rs, kernel/src/security/setid.rs and kernel/src/security/mod.rs on a
-- few processes.
use cyphera_kernel.Prelude.{
  bit_and, ◌≡◌, refl, true, false, not, ◌&&◌, [], ◌∷◌, none, some, arith, ◌==◌, if◌then◌else◌, ok,
  err, perm,
}
use cyphera_kernel.Prelude.Bits.Digits.{has_bit}
use cyphera_kernel.Creds.Namespace.{
  UserNamespace, orphan, under, host, uid_to_kernel, uid_from_kernel, gid_to_kernel,
  gid_from_kernel, id_map_down,
}
use cyphera_kernel.Creds.Namespace.Roundtrip.{IsMapped, from_kernel-to_kernel}
use cyphera_kernel.Creds.Credentials.{
  Credentials, root, has_cap, cap_setuid, cap_setgid, can_access, capable_host, in_host_user_ns,
  is_in_group, contains, uid_into_kernel, apply_uid_change_caps, all_caps_mask,
}
use cyphera_kernel.Creds.Setid.{sys_setuid}
use cyphera_kernel.Creds.Setid.Cases.{resuid, reuid, call}
use cyphera_kernel.Creds.Setid.Kept.{KeepsIds}
use cyphera_kernel.Creds.Setid.Unprivileged.{call-KeepsIds}
use cyphera_kernel.Creds.Setid.Capabilities.{IsSafe, call-IsSafe}
use cyphera_kernel.Creds.Exec.{exec_transition, apply_exec_transition, exec_transition-ids}
use cyphera_kernel.Creds.Capset.{capset, capset-IsGranted, IsGranted}
use cyphera_kernel.Creds.Reach.{booted, next, sets_caps, reachable_permitted}

-- ids 0 to 999 are 100000 to 100999 outside
abbrev child : UserNamespace
child = under (orphan host) (record host {
  id = 1;
  uid_map = record { inside_start = 0; outside_start = 100000; length = 1000 } ∷ [];
  gid_map = record { inside_start = 0; outside_start = 200000; length = 1000 } ∷ [];
  level = 1;
})

child-IsMapped : IsMapped child
child-IsMapped = ((omega arith, omega arith, tt, tt), (omega arith, omega arith, tt, tt), tt)

uid_mapped : uid_to_kernel child 7 ≡ some 100007
unfolding uid_to_kernel id_map_down
uid_mapped = refl

gid_mapped : gid_to_kernel child 8 ≡ some 200008
unfolding gid_to_kernel id_map_down
gid_mapped = refl

uid_unmapped : uid_to_kernel child 1000 ≡ none
unfolding uid_to_kernel id_map_down
uid_unmapped = refl

-- an ordinary user, as a set-user-id program of root's left it
abbrev user : Credentials
user = record {
  ruid = 1000;
  euid = 1000;
  suid = 0;
  fsuid = 1000;
  rgid = 100;
  egid = 100;
  sgid = 100;
  fsgid = 100;
  groups = 27 ∷ [];
  caps_eff = 0;
  caps_perm = 0x80;
  caps_inh = 0;
  caps_bnd = all_caps_mask;
  user_ns = none;
  loginuid = 1000;
}

no_setuid : has_cap cap_setuid user ≡ false
unfolding has_cap
no_setuid = refl

no_setgid : has_cap cap_setgid user ≡ false
unfolding has_cap
no_setgid = refl

becomes_root : (sys_setuid false 0 user).0.euid ≡ 0
unfolding sys_setuid uid_into_kernel has_cap apply_uid_change_caps
becomes_root = refl

regains : (sys_setuid false 0 user).0.caps_eff ≡ 0x80
unfolding sys_setuid uid_into_kernel has_cap apply_uid_change_caps
regains = refl

refused : sys_setuid false 5 user ≡ (user, err perm)
unfolding sys_setuid uid_into_kernel has_cap
refused = refl

root_drops : (sys_setuid false 1000 root).0.caps_perm ≡ 0
unfolding sys_setuid uid_into_kernel has_cap apply_uid_change_caps root
root_drops = refl

root_keeps : (sys_setuid true 1000 root).0.caps_perm ≡ all_caps_mask
unfolding sys_setuid uid_into_kernel has_cap apply_uid_change_caps root
root_keeps = refl

group_reads : can_access user 0 27 416 4 ≡ true
unfolding can_access capable_host has_cap in_host_user_ns is_in_group contains
group_reads = refl

group_does_not_write : can_access user 0 27 416 2 ≡ false
unfolding can_access capable_host has_cap in_host_user_ns is_in_group contains
group_does_not_write = refl

from_kernel-to_kernel_example :
    (uid_from_kernel child 100007 ≡ some 7) × (gid_from_kernel child 200008 ≡ some 8)
from_kernel-to_kernel_example =
    from_kernel-to_kernel child 7 100007 8 200008 child-IsMapped uid_mapped gid_mapped

call-KeepsIds_example : KeepsIds user (call false (resuid 0 1000 1000) user).0
call-KeepsIds_example = call-KeepsIds false (resuid 0 1000 1000) user no_setuid no_setgid

call-IsSafe_example : IsSafe user (call false (reuid 0 5) user)
call-IsSafe_example = call-IsSafe false (reuid 0 5) user

abbrev fewer : Credentials
fewer = record user { caps_eff = 0x80; caps_perm = 0x80; caps_inh = 0x80 }

granted : capset 0x80 0x80 0x80 user ≡ (fewer, ok tt)
unfolding capset
granted = refl

not_granted : capset 0x40 0x40 0 user ≡ (user, err perm)
unfolding capset
not_granted = refl

capset-IsGranted_example : IsGranted 7 0x80 0x80 0x80 user fewer
capset-IsGranted_example = capset-IsGranted 7 0x80 0x80 0x80 user fewer (omega arith) granted

-- root with one capability left
abbrev narrowed : Credentials
narrowed = record root { caps_eff = 0x80; caps_perm = 0x80; caps_inh = 0 }

narrows : narrowed ≡ (capset 0x80 0x80 0 root).0
unfolding capset root
narrows = refl

keeps_setuid : has_cap cap_setuid narrowed ≡ true
unfolding has_cap
keeps_setuid = refl

reachable_permitted_example : has_bit 7 0x80 ≡ true
reachable_permitted_example =
    reachable_permitted 7 (next booted (sets_caps 0x80 0x80 0 narrows)) keeps_setuid

exec_transition-ids_example :
    let t = exec_transition 2541 0 0 1000 1000 100 100 false false in
    let c' = apply_exec_transition t user in
    (c'.ruid ≡ 1000)
    × (c'.rgid ≡ 100)
    × (c'.euid ≡ (if true && not (bit_and 2541 2048 == 0) then 0 else 1000))
    × (c'.egid ≡ (if true && not (bit_and 2541 1024 == 0) then 0 else 100))
    × (t.secure ≡ not (c'.euid == 1000 && c'.egid == 100))
exec_transition-ids_example = exec_transition-ids 2541 0 0 false false user
