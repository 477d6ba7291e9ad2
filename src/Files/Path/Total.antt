-- ===== src/Files/Path/Total.antt =====
-- kernel/src/vfs/path.rs: the fuel of `resolve_with_depth` is enough. A nested call for a symbolic
-- link is one level deeper, and its path is normal; a nested call for `..` is at the same level, but
-- the path that it resolves has no `..`.

use cyphera_kernel.Prelude.{
  ℕ, zero, suc, ◌+◌, ◌≤◌, ◌≡◌, ◌≢◌, refl, Bool, true, false, ◌&&◌, List, [], ◌∷◌, Option, none,
  some, ltb, if◌then◌else◌, KResult, ok, err, arith, All, if_cases,
}
use cyphera_kernel.Files.Path.{
  Text, root_path, components, is_dot, is_dotdot, starts_with_slash, normalize, is_root_path,
  join_canonical, parent_of_canonical,
}
use cyphera_kernel.Files.Path.Components.{IsName, components-names}
use cyphera_kernel.Files.Path.Resolve.{
  Tree, Walk, ResolveResult, ◌>>?◌, drop_dots, is_last, mount_of, enter_child, child_of, jump,
  follow_link, follow_magic, follow, go_up, go_down, walk, found, begin_at, resolve_with_depth,
  enough, max_symlink_depth,
}
use cyphera_kernel.Files.Path.Climb.{
  NoUp, root_path-NoUp, normalize-NoUp, parent_of_canonical-NoUp, join_canonical-NoUp,
}

All-drop_dots {κ} : (P : Text → Type κ) (cs : List Text) → All P cs → All P (drop_dots cs)
unfolding drop_dots
All-drop_dots P [] h = tt
All-drop_dots P (c ∷ cs) (hc, h) =
    if_cases (All P) (is_dot c) (λ _. All-drop_dots P cs h) (λ _. (hc, All-drop_dots P cs h))

All-always {κ} : {P : Text → Type κ} → ((c : Text) → P c) → (cs : List Text) → All P cs
All-always h [] = tt
All-always h (c ∷ cs) = (h c, All-always h cs)

not_up {κ} :
    (Q : Type κ) (cs : List Text)
    → All (λ c. is_dotdot c ≡ false) cs
    → All (λ c. is_dotdot c ≡ true → Q) cs
not_up Q [] h = tt
not_up Q (c ∷ cs) (hc, h) = ((λ d. absurd (ground arith)), not_up Q cs h)

module _ {Inode Tag : Type 0} (t : Tree Inode Tag) where
  -- A step of the walk ends, and leaves a path without `..`.
  abbrev pub Keeps : Option (KResult (Walk Inode Tag)) → Type 0
  Keeps none = ⊥
  Keeps (some (err e)) = Unit
  Keeps (some (ok w)) = NoUp w.canonical

  bind-Keeps :
      (o : Option (KResult (Walk Inode Tag)))
      (next : Walk Inode Tag → Option (KResult (Walk Inode Tag)))
      → Keeps o
      → ((w : Walk Inode Tag) → NoUp w.canonical → Keeps (next w))
      → Keeps (o >>? next)
  bind-Keeps none next h k = h
  bind-Keeps (some (err e)) next h k = tt
  bind-Keeps (some (ok w)) next h k = k w h

  jump-Keeps :
      (o : Option (KResult (ResolveResult Inode Tag))) (there : Text) (tag : Option Tag)
      → o ≢ none
      → NoUp there
      → Keeps (o >>? λ r. some (ok (jump t there tag r)))
  unfolding jump
  jump-Keeps none there tag h n = absurd (h refl)
  jump-Keeps (some (err e)) there tag h n = tt
  jump-Keeps (some (ok r)) there tag h n = n

  enter_child-Keeps :
      (there : Text) (w : Walk Inode Tag) (r : KResult Inode)
      → NoUp there
      → Keeps (some (enter_child t there w r))
  unfolding enter_child
  enter_child-Keeps there w (err e) n = tt
  enter_child-Keeps there w (ok child) n = n

  child_of-Keeps :
      (component there : Text) (w : Walk Inode Tag) (m : Option (Inode × Tag))
      → NoUp there
      → Keeps (some (child_of t component there w m))
  unfolding child_of
  child_of-Keeps component there w (some (root, tag)) n = n
  child_of-Keeps component there w none n =
      enter_child-Keeps there w (t.lookup_in w.current component) n

  module _ (nested : ℕ → Text → Option (KResult (ResolveResult Inode Tag))) (depth : ℕ)
      (deeper : (p : Text) → NoUp p → nested (depth + 1) p ≢ none) where
    follow_link-Keeps :
        (canonical : Text) (tag : Option Tag) (r : KResult Text)
        → Keeps (follow_link t nested depth canonical tag r)
    unfolding follow_link
    follow_link-Keeps canonical tag (err e) = tt
    follow_link-Keeps canonical tag (ok target) =
        let there =
          if starts_with_slash target
          then normalize root_path target
          else normalize canonical target in
        let n : NoUp there =
          if_cases NoUp (starts_with_slash target) (λ _. normalize-NoUp root_path target)
            (λ _. normalize-NoUp canonical target) in
        jump-Keeps (nested (depth + 1) there) there tag (deeper there n) n

    follow_magic-Keeps :
        (canonical : Text) (child : Walk Inode Tag) (o : Option Inode)
        → NoUp child.canonical
        → Keeps (follow_magic t nested depth canonical child o)
    unfolding follow_magic
    follow_magic-Keeps canonical child (some inode) n = n
    follow_magic-Keeps canonical child none n =
        follow_link-Keeps canonical child.deepest_mount_tag (t.read_link child.current)

    follow-Keeps :
        (should_follow : Bool) (canonical : Text) (child : Walk Inode Tag)
        → NoUp child.canonical
        → Keeps (follow t nested depth should_follow canonical child)
    unfolding follow
    follow-Keeps should_follow canonical child n =
        if_cases Keeps (should_follow && t.is_symlink child.current)
          (λ _. follow_magic-Keeps canonical child (t.magic_resolve child.current) n) (λ _. n)

    go_up-Keeps :
        (w : Walk Inode Tag)
        → ((p : Text) → NoUp p → nested depth p ≢ none)
        → NoUp w.canonical
        → Keeps (go_up t nested depth w)
    unfolding go_up
    go_up-Keeps w level n =
        let up = parent_of_canonical-NoUp w.canonical n in
        if_cases Keeps (is_root_path w.canonical) (λ _. n)
          (λ _. jump-Keeps _ (parent_of_canonical w.canonical) w.deepest_mount_tag (level _ up) up)

    go_down-Keeps :
        (should_follow : Bool) (component : Text) (w : Walk Inode Tag)
        → IsName component
        → is_dotdot component ≡ false
        → NoUp w.canonical
        → Keeps (go_down t nested depth should_follow component w)
    unfolding go_down
    go_down-Keeps should_follow component w name d n =
        let there = join_canonical w.canonical component in
        bind-Keeps (some (child_of t component there w (mount_of t there)))
          (λ child. follow t nested depth should_follow w.canonical child)
          (child_of-Keeps component there w (mount_of t there)
            (join_canonical-NoUp w.canonical component n name d))
          (λ child m. follow-Keeps should_follow w.canonical child m)

    -- A `..` among the components is one that may be resolved at this level.
    walk-Keeps :
        (follow_last : Bool) (cs : List Text) (w : Walk Inode Tag)
        → All IsName cs
        → All (λ c. is_dotdot c ≡ true → (p : Text) → NoUp p → nested depth p ≢ none) cs
        → NoUp w.canonical
        → Keeps (walk t nested depth follow_last cs w)
    unfolding walk
    walk-Keeps follow_last [] w names level n = n
    walk-Keeps follow_last (c ∷ cs) w (name, names) (up, level) n =
        bind-Keeps _ _
          (if_cases Keeps (is_dotdot c) (λ d. go_up-Keeps w (up d) n)
            (λ d. go_down-Keeps (if is_last cs then follow_last else true) c w name d n))
          (λ next m. walk-Keeps follow_last cs next names level m)

  resolve_step :
      (o : Option (KResult (Walk Inode Tag))) → Keeps o → (o >>? λ w. some (ok (found t w))) ≢ none
  resolve_step none h = absurd h
  resolve_step (some (err e)) h = λ e. cc
  resolve_step (some (ok w)) h = λ e. cc

  begin-NoUp :
      (start : Inode) (start_canonical path : Text)
      → NoUp start_canonical
      → NoUp (begin_at t start start_canonical path).canonical
  unfolding begin_at
  begin-NoUp start start_canonical path n =
      if_cases (λ (w : Walk Inode Tag). NoUp w.canonical) (starts_with_slash path)
        (λ _. root_path-NoUp) (λ _. n)

  -- Without `..` in the path, each level takes one unit of fuel.
  plain_total :
      (fuel depth : ℕ) (start : Inode) (start_canonical path : Text) (follow_last : Bool)
      → depth ≤ max_symlink_depth + 1
      → max_symlink_depth + 2 ≤ fuel + depth
      → NoUp path
      → NoUp start_canonical
      → resolve_with_depth t fuel start start_canonical path depth follow_last ≢ none
  unfolding resolve_with_depth
  plain_total zero depth start start_canonical path follow_last d f n m = absurd (omega arith)
  plain_total (suc fuel) depth start start_canonical path follow_last d f n m =
      let nested =
        λ (e : ℕ) (p : Text). resolve_with_depth t fuel t.root_inode root_path p e true in
      if_cases (λ o. o ≢ none) (ltb max_symlink_depth depth) (λ _. λ e. cc)
        (λ shallow. resolve_step _ (
          walk-Keeps nested depth
            (λ p np.
              plain_total fuel (depth + 1) t.root_inode root_path p true (ground arith)
                (omega arith) np root_path-NoUp)
            follow_last (drop_dots (components path)) (begin_at t start start_canonical path)
            (All-drop_dots IsName (components path) (components-names path))
            (not_up _ _ (All-drop_dots (λ c. is_dotdot c ≡ false) (components path) n))
            (begin-NoUp start start_canonical path m)))

  -- `resolve_with_depth` comes to an end on every path and every tree of inodes and mounts, links
  -- that lead back to themselves included, where its fuel is `enough` or more.
  pub resolve_with_depth_total :
      (fuel : ℕ) (start : Inode) (path : Text) (follow_last : Bool)
      → enough ≤ fuel
      → resolve_with_depth t fuel start root_path path 0 follow_last ≢ none
  unfolding resolve_with_depth
  resolve_with_depth_total zero start path follow_last f = absurd (omega arith)
  resolve_with_depth_total (suc fuel) start path follow_last f =
      let nested =
        λ (e : ℕ) (p : Text). resolve_with_depth t fuel t.root_inode root_path p e true in
      let level : (p : Text) → NoUp p → nested 0 p ≢ none = λ p np.
        plain_total fuel 0 t.root_inode root_path p true (omega arith) (omega arith) np
          root_path-NoUp in
      resolve_step _ (
        walk-Keeps nested 0
          (λ p np.
            plain_total fuel 1 t.root_inode root_path p true (omega arith) (omega arith) np
              root_path-NoUp)
          follow_last (drop_dots (components path)) (begin_at t start root_path path)
          (All-drop_dots IsName (components path) (components-names path))
          (All-always (λ c d. level) (drop_dots (components path)))
          (begin-NoUp start root_path path root_path-NoUp))
