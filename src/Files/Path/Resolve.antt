-- ===== src/Files/Path/Resolve.antt =====
-- kernel/src/vfs/path.rs: resolution of a path to an inode. An inode is its identity; what the
-- methods of `dyn Inode` and the table of mounts answer is the parameter `Tree`, as it stands while
-- the path is resolved. A nested call takes one unit of fuel; `none` is that there is none left.
use cyphera_kernel.Prelude.{
  ℕ, zero, suc, ◌+◌, Bool, true, false, ◌&&◌, List, [], ◌∷◌, Option, none, some, ltb, if◌then◌else◌,
  KResult, ok, err, inval,
}
use cyphera_kernel.Files.Path.{
  Text, root_path, components, is_dot, is_dotdot, starts_with_slash, normalize, is_root_path,
  join_canonical, parent_of_canonical,
}

abbrev pub max_symlink_depth : ℕ
max_symlink_depth = 40

-- `Context`, and the methods of its inodes; a mount has a root and a tag
pub record Tree (Inode Tag : Type 0) : Type 0 where
  pub root_inode : Inode
  pub chrooted : Bool
  pub mount_at : Text → Option (Inode × Tag)
  pub lookup_in : Inode → Text → KResult Inode
  pub is_symlink : Inode → Bool
  pub magic_resolve : Inode → Option Inode
  pub read_link : Inode → KResult Text

abbrev pub Outcome : Type 0 → Type 0
Outcome A = Option (KResult A)

-- the `?` operator on what a nested call gives
infixl 5 ◌>>?◌
abbrev pub ◌>>?◌ {κ ℓ} :
    {A : Type κ} {B : Type ℓ} → Option (KResult A) → (A → Option (KResult B)) → Option (KResult B)
none >>? next = none
some (err e) >>? next = some (err e)
some (ok a) >>? next = next a

unfoldable pub drop_dots : List Text → List Text
drop_dots [] = []
drop_dots (c ∷ cs) = let rest = drop_dots cs in if is_dot c then rest else c ∷ rest

abbrev pub is_last : List Text → Bool
is_last [] = true
is_last (c ∷ cs) = false

abbrev pub or_tag {ℓ} : {A : Type ℓ} → Option A → Option A → Option A
or_tag none old = old
or_tag (some t) old = some t

-- One unit more than there are levels, and one for a `..`.
abbrev pub enough : ℕ
enough = max_symlink_depth + 3

-- the loop's variables
pub record Walk (Inode Tag : Type 0) : Type 0 where
  pub current : Inode
  pub canonical : Text
  pub deepest_mount_tag : Option Tag

pub record ResolveResult (Inode Tag : Type 0) : Type 0 where
  pub inode : Inode
  pub mount_tag : Option Tag

module _ {Inode Tag : Type 0} (t : Tree Inode Tag) where
  unfoldable pub mount_of : Text → Option (Inode × Tag)
  mount_of path = if t.chrooted then none else t.mount_at path

  unfoldable pub enter_child : Text → Walk Inode Tag → KResult Inode → KResult (Walk Inode Tag)
  enter_child child_canonical w (err e) = err e
  enter_child child_canonical w (ok child) =
      ok (record w { current = child; canonical = child_canonical })

  -- the child, with the path of the child and the tag so far
  unfoldable pub child_of :
      Text → Text → Walk Inode Tag → Option (Inode × Tag) → KResult (Walk Inode Tag)
  child_of component child_canonical w (some (root, tag)) =
      ok (record { current = root; canonical = child_canonical; deepest_mount_tag = some tag })
  child_of component child_canonical w none =
      enter_child child_canonical w (t.lookup_in w.current component)

  -- where the walk goes once a nested call has resolved `canonical`
  unfoldable pub jump : Text → Option Tag → ResolveResult Inode Tag → Walk Inode Tag
  jump canonical tag r = record {
    current = r.inode;
    canonical = canonical;
    deepest_mount_tag = or_tag r.mount_tag tag;
  }

  module _ (nested : ℕ → Text → Option (KResult (ResolveResult Inode Tag))) where
    unfoldable pub follow_link :
        ℕ → Text → Option Tag → KResult Text → Option (KResult (Walk Inode Tag))
    follow_link depth canonical tag (err e) = some (err e)
    follow_link depth canonical tag (ok target) =
        let there =
          if starts_with_slash target
          then normalize root_path target
          else normalize canonical target in
        nested (depth + 1) there >>? λ r. some (ok (jump there tag r))

    unfoldable pub follow_magic :
        ℕ → Text → Walk Inode Tag → Option Inode → Option (KResult (Walk Inode Tag))
    follow_magic depth canonical child (some inode) = some (ok (record child { current = inode }))
    follow_magic depth canonical child none =
        follow_link depth canonical child.deepest_mount_tag (t.read_link child.current)

    -- `canonical` is the path of the directory that the child is in
    unfoldable pub follow : ℕ → Bool → Text → Walk Inode Tag → Option (KResult (Walk Inode Tag))
    follow depth should_follow canonical child =
        if should_follow && t.is_symlink child.current
        then follow_magic depth canonical child (t.magic_resolve child.current)
        else some (ok child)

    unfoldable pub go_up : ℕ → Walk Inode Tag → Option (KResult (Walk Inode Tag))
    go_up depth w =
        let parent = parent_of_canonical w.canonical in
        if is_root_path w.canonical
        then some (ok w)
        else (nested depth parent >>? λ r. some (ok (jump parent w.deepest_mount_tag r)))

    unfoldable pub go_down : ℕ → Bool → Text → Walk Inode Tag → Option (KResult (Walk Inode Tag))
    go_down depth should_follow component w =
        let there = join_canonical w.canonical component in
        some (child_of component there w (mount_of there)) >>? λ child.
        follow depth should_follow w.canonical child

    unfoldable pub walk : ℕ → Bool → List Text → Walk Inode Tag → Option (KResult (Walk Inode Tag))
    walk depth follow_last [] w = some (ok w)
    walk depth follow_last (c ∷ cs) w =
        (if is_dotdot c
          then go_up depth w
          else go_down depth (if is_last cs then follow_last else true) c w)
        >>? λ next. walk depth follow_last cs next

  abbrev pub found : Walk Inode Tag → ResolveResult Inode Tag
  found w = record { inode = w.current; mount_tag = w.deepest_mount_tag }

  -- An absolute path starts at the root.
  unfoldable pub begin_at : Inode → Text → Text → Walk Inode Tag
  begin_at start start_canonical path =
      if starts_with_slash path
      then record { current = t.root_inode; canonical = root_path; deepest_mount_tag = none }
      else record { current = start; canonical = start_canonical; deepest_mount_tag = none }

  unfoldable pub resolve_with_depth :
      ℕ → Inode → Text → Text → ℕ → Bool → Option (KResult (ResolveResult Inode Tag))
  resolve_with_depth zero start start_canonical path depth follow_last = none
  resolve_with_depth (suc fuel) start start_canonical path depth follow_last =
      let nested = λ (d : ℕ) (p : Text). resolve_with_depth fuel t.root_inode root_path p d true in
      let walked =
        walk nested depth follow_last (drop_dots (components path))
          (begin_at start start_canonical path) in
      if ltb max_symlink_depth depth
      then some (err inval)
      else (walked >>? λ w. some (ok (found w)))

  unfoldable pub resolve : Inode → Text → Option (KResult Inode)
  resolve start path =
      resolve_with_depth enough start root_path path 0 true >>? λ r. some (ok r.inode)

  unfoldable pub resolve_no_follow : Inode → Text → Option (KResult Inode)
  resolve_no_follow start path =
      resolve_with_depth enough start root_path path 0 false >>? λ r. some (ok r.inode)

  unfoldable pub resolve_with_mount : Inode → Text → Option (KResult (Inode × Option Tag))
  resolve_with_mount start path = resolve_with_depth enough start root_path path 0 true >>? λ r.
      some (ok (r.inode, r.mount_tag))

  unfoldable pub resolve_no_follow_with_mount : Inode → Text → Option (KResult (Inode × Option Tag))
  resolve_no_follow_with_mount start path =
      resolve_with_depth enough start root_path path 0 false >>? λ r.
      some (ok (r.inode, r.mount_tag))
