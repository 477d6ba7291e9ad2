-- ===== src/Creds/Namespace.antt =====
-- kernel/src/process_model/creds.rs: the maps of ids between a user namespace and its parent, and
-- through all of them to the kernel's ids. A namespace is its number, for `Arc::ptr_eq`, with what
-- its fields hold.
pub mod Roundtrip
use cyphera_kernel.Prelude.{
  ℕ, ◌+◌, ◌-◌, ◌^◌, min, Bool, true, List, [], ◌∷◌, Option, none, some, ltb, leb, ◌==◌,
  if◌then◌else◌,
}

pub record IdMapping : Type 0 where
  pub inside_start : ℕ
  pub outside_start : ℕ
  pub length : ℕ

-- the fields of `UserNamespace` but for its parent
pub record Fields : Type 0 where
  pub id : ℕ
  pub creator_uid : ℕ
  pub uid_map : List IdMapping
  pub gid_map : List IdMapping
  pub level : ℕ
  pub setgroups_allowed : Bool

-- `UserNamespace`, without a parent and with one
pub data UserNamespace : Type 0 where
  orphan : Fields → UserNamespace
  under : UserNamespace → Fields → UserNamespace

abbrev pub fields : UserNamespace → Fields
fields (orphan f) = f
fields (under parent f) = f

abbrev pub overflow_uid : ℕ
overflow_uid = 65534

abbrev pub overflow_gid : ℕ
overflow_gid = 65534

-- `u32::checked_add`
abbrev pub checked_add : ℕ → ℕ → Option ℕ
checked_add a b = if ltb (a + b) (2 ^ 32) then some (a + b) else none

-- `u32::checked_sub`
abbrev pub checked_sub : ℕ → ℕ → Option ℕ
checked_sub a b = if leb b a then some (a - b) else none

abbrev pub or_else : Option ℕ → Option ℕ → Option ℕ
or_else none rest = rest
or_else (some v) rest = some v

abbrev pub and_then : Option ℕ → (ℕ → Option ℕ) → Option ℕ
and_then none f = none
and_then (some v) f = f v

-- the closure of `id_map_down`
abbrev pub down : IdMapping → ℕ → Option ℕ
down m id =
    and_then (checked_sub id m.inside_start)
      (λ off. if ltb off m.length then checked_add m.outside_start off else none)

unfoldable pub id_map_down : List IdMapping → ℕ → Option ℕ
id_map_down [] id = none
id_map_down (m ∷ ms) id = or_else (down m id) (id_map_down ms id)

-- the closure of `id_map_up`
abbrev pub up : IdMapping → ℕ → Option ℕ
up m id =
    and_then (checked_sub id m.outside_start)
      (λ off. if ltb off m.length then checked_add m.inside_start off else none)

unfoldable pub id_map_up : List IdMapping → ℕ → Option ℕ
id_map_up [] id = none
id_map_up (m ∷ ms) id = or_else (up m id) (id_map_up ms id)

abbrev pub host : Fields
host = record {
  id = 0;
  creator_uid = 0;
  uid_map = [];
  gid_map = [];
  level = 0;
  setgroups_allowed = true;
}

-- `id` is the number of the new namespace; `none` is `UserNsDepthExceeded`.
unfoldable pub new_child : ℕ → UserNamespace → ℕ → Option UserNamespace
new_child id parent creator_uid =
    let level = min ((fields parent).level + 1) (2 ^ 32 - 1) in
    if ltb 32 level
    then none
    else some (under parent (record host { id = id; creator_uid = creator_uid; level = level }))

unfoldable pub uid_to_kernel : UserNamespace → ℕ → Option ℕ
uid_to_kernel (orphan f) ns_uid = if f.level == 0 then some ns_uid else none
uid_to_kernel (under parent f) ns_uid =
    if f.level == 0
    then some ns_uid
    else and_then (id_map_down f.uid_map ns_uid) (uid_to_kernel parent)

unfoldable pub uid_from_kernel : UserNamespace → ℕ → Option ℕ
uid_from_kernel (orphan f) kuid = if f.level == 0 then some kuid else none
uid_from_kernel (under parent f) kuid =
    if f.level == 0 then some kuid else and_then (uid_from_kernel parent kuid) (id_map_up f.uid_map)

unfoldable pub gid_to_kernel : UserNamespace → ℕ → Option ℕ
gid_to_kernel (orphan f) ns_gid = if f.level == 0 then some ns_gid else none
gid_to_kernel (under parent f) ns_gid =
    if f.level == 0
    then some ns_gid
    else and_then (id_map_down f.gid_map ns_gid) (gid_to_kernel parent)

unfoldable pub gid_from_kernel : UserNamespace → ℕ → Option ℕ
gid_from_kernel (orphan f) kgid = if f.level == 0 then some kgid else none
gid_from_kernel (under parent f) kgid =
    if f.level == 0 then some kgid else and_then (gid_from_kernel parent kgid) (id_map_up f.gid_map)
