-- ===== src/Files/Path/Confined.antt =====
-- kernel/src/vfs/path.rs: where resolution leads. `..` is resolved on the text of the path, and no
-- directory is asked for an entry of that name.
use cyphera_kernel.Prelude.{
  ℕ, zero, suc, ◌+◌, ◌≡◌, refl, subst, Bool, true, false, ◌&&◌, List, [], ◌∷◌, Option, none, some,
  ltb, if◌then◌else◌, KResult, ok, err, arith, All, Bool-cases, inl, inr, if_cases,
}
use cyphera_kernel.Files.Path.{
  Text, components, is_dot, is_dotdot, starts_with_slash, is_root_path, join_canonical,
  parent_of_canonical, root_path, normalize,
}
use cyphera_kernel.Files.Path.Components.{IsName, components-names}
use cyphera_kernel.Files.Path.Normal.{IsPlain}
use cyphera_kernel.Files.Path.Resolve.{
  Tree, Walk, ResolveResult, ◌>>?◌, drop_dots, is_last, mount_of, enter_child, child_of, jump,
  follow_link, follow_magic, follow, go_up, go_down, walk, found, begin_at, resolve_with_depth,
  max_symlink_depth,
}

-- a component that may be `..`
record IsStep (c : Text) : Type 0 where
  name : IsName c
  not_dot : is_dot c ≡ false

drop_dots-IsStep : (cs : List Text) → All IsName cs → All IsStep (drop_dots cs)
unfolding drop_dots
drop_dots-IsStep [] h = tt
drop_dots-IsStep (c ∷ cs) (hc, h) =
    if_cases (All IsStep) (is_dot c) (λ _. drop_dots-IsStep cs h)
      (λ d. (record { name = hc; not_dot = d }, drop_dots-IsStep cs h))

module _ {Inode Tag : Type 0} (t : Tree Inode Tag) where
  -- The inodes that lie below the root, the directory `start` or, where the context is not in a
  -- chroot, a mount, by entries that are neither `.` nor `..`, and by magic links.
  pub data IsBelow (start : Inode) : Inode → Type 0 where
    at_root : {i : Inode} → i ≡ t.root_inode → IsBelow start i
    at_start : {i : Inode} → i ≡ start → IsBelow start i
    mounted :
        {i : Inode} (path : Text) (tag : Tag)
        → t.chrooted ≡ false
        → t.mount_at path ≡ some (i, tag)
        → IsBelow start i
    entry :
        {i : Inode} (dir : Inode) (name : Text)
        → IsBelow start dir
        → IsPlain name
        → t.lookup_in dir name ≡ ok i
        → IsBelow start i
    magic :
        {i : Inode} (link : Inode)
        → IsBelow start link
        → t.magic_resolve link ≡ some i
        → IsBelow start i

  from_root : (start i : Inode) → IsBelow t.root_inode i → IsBelow start i
  from_root start i (at_root e) = at_root e
  from_root start i (at_start e) = at_root e
  from_root start i (mounted path tag c e) = mounted path tag c e
  from_root start i (entry dir name d n e) = entry dir name (from_root start dir d) n e
  from_root start i (magic link d e) = magic link (from_root start link d) e

  module _ (start : Inode) where
    -- A step of the walk that succeeds stays below.
    abbrev Stays : Option (KResult (Walk Inode Tag)) → Type 0
    Stays none = Unit
    Stays (some (err e)) = Unit
    Stays (some (ok w)) = IsBelow start w.current

    bind-Stays :
        (o : Option (KResult (Walk Inode Tag)))
        (next : Walk Inode Tag → Option (KResult (Walk Inode Tag)))
        → Stays o
        → ((w : Walk Inode Tag) → IsBelow start w.current → Stays (next w))
        → Stays (o >>? next)
    bind-Stays none next h k = tt
    bind-Stays (some (err e)) next h k = tt
    bind-Stays (some (ok w)) next h k = k w h

    enter_child-Stays :
        (component there : Text) (w : Walk Inode Tag) (r : KResult Inode)
        → t.lookup_in w.current component ≡ r
        → IsPlain component
        → IsBelow start w.current
        → Stays (some (enter_child t there w r))
    unfolding enter_child
    enter_child-Stays component there w (err e) h plain below = tt
    enter_child-Stays component there w (ok child) h plain below =
        entry w.current component below plain h

    child_of-Stays :
        (component there : Text) (w : Walk Inode Tag) (m : Option (Inode × Tag))
        → mount_of t there ≡ m
        → IsPlain component
        → IsBelow start w.current
        → Stays (some (child_of t component there w m))
    unfolding child_of mount_of
    child_of-Stays component there w (some (root, tag)) h plain below =
        elim (Bool-cases t.chrooted) [
          | inl c ↦ absurd (ground (arith, h))
          | inr c ↦ mounted there tag c (rw c at h)
        ]
    child_of-Stays component there w none h plain below =
        enter_child-Stays component there w (t.lookup_in w.current component) refl plain below

    module _ (nested : ℕ → Text → Option (KResult (ResolveResult Inode Tag)))
        (inner : (d : ℕ) (p : Text) (r : ResolveResult Inode Tag)
          → nested d p ≡ some (ok r)
          → IsBelow start r.inode) where
      jump-Stays :
          (o : Option (KResult (ResolveResult Inode Tag))) (d : ℕ) (p there : Text)
          (tag : Option Tag)
          → nested d p ≡ o
          → Stays (o >>? λ r. some (ok (jump t there tag r)))
      unfolding jump
      jump-Stays none d p there tag h = tt
      jump-Stays (some (err e)) d p there tag h = tt
      jump-Stays (some (ok r)) d p there tag h = inner d p r h

      follow_link-Stays :
          (depth : ℕ) (canonical : Text) (tag : Option Tag) (r : KResult Text)
          → Stays (follow_link t nested depth canonical tag r)
      unfolding follow_link
      follow_link-Stays depth canonical tag (err e) = tt
      follow_link-Stays depth canonical tag (ok target) =
          let there =
            if starts_with_slash target
            then normalize root_path target
            else normalize canonical target in
          jump-Stays (nested (depth + 1) there) (depth + 1) there there tag refl

      follow_magic-Stays :
          (depth : ℕ) (canonical : Text) (child : Walk Inode Tag) (o : Option Inode)
          → t.magic_resolve child.current ≡ o
          → IsBelow start child.current
          → Stays (follow_magic t nested depth canonical child o)
      unfolding follow_magic
      follow_magic-Stays depth canonical child (some inode) h below = magic child.current below h
      follow_magic-Stays depth canonical child none h below =
          follow_link-Stays depth canonical child.deepest_mount_tag (t.read_link child.current)

      follow-Stays :
          (depth : ℕ) (should_follow : Bool) (canonical : Text) (child : Walk Inode Tag)
          → IsBelow start child.current
          → Stays (follow t nested depth should_follow canonical child)
      unfolding follow
      follow-Stays depth should_follow canonical child below =
          if_cases Stays (should_follow && t.is_symlink child.current)
            (λ _.
              follow_magic-Stays depth canonical child (t.magic_resolve child.current) refl below)
            (λ _. below)

      go_up-Stays :
          (depth : ℕ) (w : Walk Inode Tag)
          → IsBelow start w.current
          → Stays (go_up t nested depth w)
      unfolding go_up
      go_up-Stays depth w below =
          let parent = parent_of_canonical w.canonical in
          if_cases Stays (is_root_path w.canonical) (λ _. below)
            (λ _. jump-Stays (nested depth parent) depth parent parent w.deepest_mount_tag refl)

      go_down-Stays :
          (depth : ℕ) (should_follow : Bool) (component : Text) (w : Walk Inode Tag)
          → IsPlain component
          → IsBelow start w.current
          → Stays (go_down t nested depth should_follow component w)
      unfolding go_down
      go_down-Stays depth should_follow component w plain below =
          let there = join_canonical w.canonical component in
          bind-Stays (some (child_of t component there w (mount_of t there)))
            (λ child. follow t nested depth should_follow w.canonical child)
            (child_of-Stays component there w (mount_of t there) refl plain below)
            (λ child b. follow-Stays depth should_follow w.canonical child b)

      walk-Stays :
          (depth : ℕ) (follow_last : Bool) (cs : List Text) (w : Walk Inode Tag)
          → All IsStep cs
          → IsBelow start w.current
          → Stays (walk t nested depth follow_last cs w)
      unfolding walk
      walk-Stays depth follow_last [] w steps below = below
      walk-Stays depth follow_last (c ∷ cs) w (step, steps) below =
          bind-Stays _ _
            (if_cases Stays (is_dotdot c) (λ d. go_up-Stays depth w below)
              (λ d.
                go_down-Stays depth (if is_last cs then follow_last else true) c w
                  (record { name = step.name; not_dot = step.not_dot; not_dotdot = d }) below))
            (λ next b. walk-Stays depth follow_last cs next steps b)

    begin_at-IsBelow :
        (start_canonical path : Text)
        → IsBelow start (begin_at t start start_canonical path).current
    unfolding begin_at
    begin_at-IsBelow start_canonical path =
        if_cases (λ (w : Walk Inode Tag). IsBelow start w.current) (starts_with_slash path)
          (λ _. at_root refl) (λ _. at_start refl)

    found-IsBelow :
        (o : Option (KResult (Walk Inode Tag))) (r : ResolveResult Inode Tag)
        → Stays o
        → (o >>? λ w. some (ok (found t w))) ≡ some (ok r)
        → IsBelow start r.inode
    found-IsBelow none r h e = absurd (ground arith)
    found-IsBelow (some (err x)) r h e = absurd (ground arith)
    found-IsBelow (some (ok w)) r h e =
        let same : w.current ≡ r.inode = cc in subst (IsBelow start) same h

  -- An inode that a path resolves to lies below the root, the directory that resolution starts at,
  -- or, where the context is not in a chroot, a mount, by entries that are neither `.` nor `..` and by
  -- magic links.
  pub resolve_with_depth-IsBelow :
      (fuel : ℕ) (start : Inode) (start_canonical path : Text) (depth : ℕ) (follow_last : Bool)
      (r : ResolveResult Inode Tag)
      → resolve_with_depth t fuel start start_canonical path depth follow_last ≡ some (ok r)
      → IsBelow start r.inode
  unfolding resolve_with_depth
  resolve_with_depth-IsBelow zero start start_canonical path depth follow_last r e =
      absurd (ground arith)
  resolve_with_depth-IsBelow (suc fuel) start start_canonical path depth follow_last r e =
      let nested =
        λ (d : ℕ) (p : Text). resolve_with_depth t fuel t.root_inode root_path p d true in
      let walked =
        walk t nested depth follow_last (drop_dots (components path))
          (begin_at t start start_canonical path) in
      elim (Bool-cases (ltb max_symlink_depth depth)) [
        | inl deep ↦ absurd (ground (arith, e))
        | inr shallow ↦
            found-IsBelow start walked r
              (walk-Stays start nested
                (λ d p s h.
                  from_root start s.inode
                    (resolve_with_depth-IsBelow fuel t.root_inode root_path p d true s h))
                depth follow_last (drop_dots (components path))
                (begin_at t start start_canonical path)
                (drop_dots-IsStep (components path) (components-names path))
                (begin_at-IsBelow start start_canonical path))
              (rw shallow at e)
      ]
