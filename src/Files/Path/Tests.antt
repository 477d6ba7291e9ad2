-- ===== src/Files/Path/Tests.antt =====
-- Paths at concrete inputs, and a small tree: directory 0 is the root with entries `a` (1, a
-- directory with the entry `b`, 3) and `l` (2, a symbolic link to itself).
use cyphera_kernel.Prelude.{
  ℕ, ◌≡◌, ◌≢◌, refl, Bool, true, false, [], ◌∷◌, ◌++◌, none, some, ◌==◌, if◌then◌else◌, KResult, ok,
  err, inval, ◌&&◌, arith,
}
use cyphera_kernel.Files.Path.{
  Text, slash, components, split_slash, keep_nonempty, starts_with_slash, normalize, enter_all,
  enter, is_dot, is_dotdot, join_up, is_root_path, join_canonical, root_path,
}
use cyphera_kernel.Files.Path.Normal.{IsNormal, normalize-IsNormal, normalize-append}
use cyphera_kernel.Files.Path.Resolve.{
  Tree, resolve_with_depth, resolve, walk, drop_dots, begin_at, go_up, go_down, follow,
  follow_magic, follow_link, child_of, enter_child, mount_of, jump,
}
use cyphera_kernel.Files.Path.Total.{resolve_with_depth_total}
use cyphera_kernel.Files.Path.Confined.{IsBelow, resolve_with_depth-IsBelow}

-- "/x/./y", "../z" and "z"
abbrev cwd : Text
cwd = 47 ∷ 120 ∷ 47 ∷ 46 ∷ 47 ∷ 121 ∷ []

abbrev up_z : Text
up_z = 46 ∷ 46 ∷ 47 ∷ 122 ∷ []

abbrev z : Text
z = 122 ∷ []

up_from : normalize cwd up_z ≡ 47 ∷ 120 ∷ 47 ∷ 122 ∷ []
unfolding normalize components split_slash keep_nonempty enter_all enter is_dot is_dotdot join_up
    starts_with_slash
up_from = refl

normalize-IsNormal_example : IsNormal (normalize cwd up_z)
normalize-IsNormal_example = normalize-IsNormal cwd up_z

z_relative : starts_with_slash z ≡ false
unfolding starts_with_slash
z_relative = refl

normalize-append_example : normalize (normalize cwd up_z) z ≡ normalize cwd (up_z ++ (slash ∷ z))
normalize-append_example = normalize-append cwd up_z z (λ e. cc) z_relative

abbrev is_letter : ℕ → Text → Bool
is_letter x [] = false
is_letter x (c ∷ []) = c == x
is_letter x (c ∷ d ∷ s) = false

abbrev look : ℕ → Text → KResult ℕ
look dir name =
    if dir == 0 && is_letter 97 name
    then ok 1
    else if dir == 1 && is_letter 98 name
    then ok 3
    else if dir == 0 && is_letter 108 name
    then ok 2
    else err inval

abbrev tree : Tree ℕ ℕ
tree = record {
  root_inode = 0;
  chrooted = false;
  mount_at = λ path. none;
  lookup_in = look;
  is_symlink = λ i. i == 2;
  magic_resolve = λ i. none;
  read_link = λ i. ok (47 ∷ 108 ∷ []);
}

-- "/a/b" and "/l"
abbrev a_b : Text
a_b = 47 ∷ 97 ∷ 47 ∷ 98 ∷ []

abbrev link : Text
link = 47 ∷ 108 ∷ []

resolves_b :
    resolve_with_depth tree 43 0 root_path a_b 0 true
    ≡ some (ok (record { inode = 3; mount_tag = none }))
unfolding resolve_with_depth walk drop_dots begin_at go_up go_down follow child_of enter_child
    mount_of components split_slash keep_nonempty is_dot is_dotdot starts_with_slash join_canonical
    is_root_path
resolves_b = refl

loop_is_refused : resolve tree 0 link ≡ some (err inval)
unfolding resolve resolve_with_depth walk drop_dots begin_at go_up go_down follow follow_magic
    follow_link child_of enter_child mount_of components split_slash keep_nonempty is_dot is_dotdot
    starts_with_slash join_canonical is_root_path normalize enter_all enter join_up jump
loop_is_refused = refl

resolve_with_depth_total_example : resolve_with_depth tree 43 0 root_path link 0 true ≢ none
resolve_with_depth_total_example = resolve_with_depth_total tree 43 0 link true (omega arith)

resolve_with_depth-IsBelow_example : IsBelow tree 0 3
resolve_with_depth-IsBelow_example =
    resolve_with_depth-IsBelow tree 43 0 root_path a_b 0 true
      (record { inode = 3; mount_tag = none }) resolves_b
