-- ===== src/Creds/Namespace/Roundtrip.antt =====
-- kernel/src/process_model/creds.rs: an id that is mapped to the kernel and back.
use cyphera_kernel.Prelude.{
  ℕ, ◌+◌, ◌^◌, ◌≤◌, ◌<◌, ◌≡◌, ◌⊎◌, List, [], ◌∷◌, none, some, arith, ◌==◌, All, Option-cases, inl,
  inr, Bool-cases,
}
use cyphera_kernel.Creds.Namespace.{
  IdMapping, UserNamespace, orphan, under, up, id_map_down, id_map_up, uid_to_kernel,
  uid_from_kernel, gid_to_kernel, gid_from_kernel,
}

-- the ranges do not overlap, neither inside nor outside
abbrev pub Apart : IdMapping → IdMapping → Type 0
Apart m n =
    ((m.inside_start + m.length ≤ n.inside_start) ⊎ (n.inside_start + n.length ≤ m.inside_start))
    × ((m.outside_start + m.length ≤ n.outside_start)
        ⊎ (n.outside_start + n.length ≤ m.outside_start))

-- Ranges that do not overlap and stay within `u32`, which is checked as a map is written.
abbrev pub IsMap : List IdMapping → Type 0
IsMap [] = Unit
IsMap (m ∷ ms) =
    (m.inside_start + m.length < 2 ^ 32)
    × (m.outside_start + m.length < 2 ^ 32)
    × All (Apart m) ms
    × IsMap ms

-- every map up to the host is one
abbrev pub IsMapped : UserNamespace → Type 0
IsMapped (orphan f) = Unit
IsMapped (under parent f) = IsMap f.uid_map × IsMap f.gid_map × IsMapped parent

up-Apart :
    (m : IdMapping) (ms : List IdMapping) (id k : ℕ)
    → All (Apart m) ms
    → id_map_down ms id ≡ some k
    → up m k ≡ none
unfolding id_map_down
up-Apart m [] id k h e = absurd (ground arith)
up-Apart m (n ∷ ms) id k (p, h) e = ground (arith, up-Apart m ms id k h)

id_map_up-id_map_down :
    (ms : List IdMapping) (id k : ℕ)
    → IsMap ms
    → id_map_down ms id ≡ some k
    → id_map_up ms k ≡ some id
unfolding id_map_down id_map_up
id_map_up-id_map_down [] id k h e = absurd (ground arith)
id_map_up-id_map_down (m ∷ ms) id k (p, q, apart, h) e =
    ground (arith, up-Apart m ms id k apart, id_map_up-id_map_down ms id k h)

-- A user id and a group id that a namespace maps to the kernel come back as they were, if the maps of
-- the namespace and of those above it are ranges that do not overlap, within `u32`.
pub from_kernel-to_kernel :
    (ns : UserNamespace) (uid ku gid kg : ℕ)
    → IsMapped ns
    → uid_to_kernel ns uid ≡ some ku
    → gid_to_kernel ns gid ≡ some kg
    → (uid_from_kernel ns ku ≡ some uid) × (gid_from_kernel ns kg ≡ some gid)
unfolding uid_to_kernel uid_from_kernel gid_to_kernel gid_from_kernel
from_kernel-to_kernel (orphan f) uid ku gid kg h e e' = ground arith
from_kernel-to_kernel (under parent f) uid ku gid kg (hu, hg, h) e e' =
    elim (Bool-cases (f.level == 0)) [
      | inl q ↦ ground arith
      | inr q ↦ elim (Option-cases (id_map_down f.uid_map uid)) [
        | inl n ↦ absurd (ground arith)
        | inr (pu, u) ↦ elim (Option-cases (id_map_down f.gid_map gid)) [
          | inl n ↦ absurd (ground arith)
          | inr (pg, g) ↦
              let (back_u, back_g) =
                from_kernel-to_kernel parent pu ku pg kg h (ground arith) (ground arith) in
              ground (
                arith,
                id_map_up-id_map_down f.uid_map uid pu hu u,
                id_map_up-id_map_down f.gid_map gid pg hg g,
              )
        ]
      ]
    ]
