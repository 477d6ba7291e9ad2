-- ===== src/Files/Path.antt =====
-- kernel/src/vfs/path.rs: the text of paths. A path is the list of its bytes, and a component is
-- one too; `parts` is a stack of components, the last one first.
pub mod Components
pub mod Normal
pub mod Resolve
pub mod Climb
pub mod Total
pub mod Confined
mod Tests
use cyphera_kernel.Prelude.{
  ℕ, ◌+◌, Bool, true, false, not, ◌&&◌, ◌||◌, List, [], ◌∷◌, ◌++◌, Option, none, some, ◌==◌,
  if◌then◌else◌,
}

abbrev pub Text : Type 0
Text = List ℕ

abbrev pub slash : ℕ
slash = 47

abbrev pub root_path : Text
root_path = slash ∷ []

abbrev pub cons_head : ℕ → List Text → List Text
cons_head c [] = (c ∷ []) ∷ []
cons_head c (s ∷ ss) = (c ∷ s) ∷ ss

-- `split_slash('/')`
unfoldable pub split_slash : Text → List Text
split_slash [] = [] ∷ []
split_slash (c ∷ cs) =
    let rest = split_slash cs in if c == slash then [] ∷ rest else cons_head c rest

unfoldable pub keep_nonempty : List Text → List Text
keep_nonempty [] = []
keep_nonempty ([] ∷ ss) = keep_nonempty ss
keep_nonempty ((c ∷ s) ∷ ss) = (c ∷ s) ∷ keep_nonempty ss

unfoldable pub components : Text → List Text
components path = keep_nonempty (split_slash path)

unfoldable pub is_dot : Text → Bool
is_dot [] = false
is_dot (c ∷ []) = c == b'.'
is_dot (c ∷ d ∷ s) = false

unfoldable pub is_dotdot : Text → Bool
is_dotdot [] = false
is_dotdot (c ∷ []) = false
is_dotdot (c ∷ d ∷ []) = c == b'.' && d == b'.'
is_dotdot (c ∷ d ∷ e ∷ s) = false

unfoldable pub starts_with_slash : Text → Bool
starts_with_slash [] = false
starts_with_slash (c ∷ cs) = c == slash

abbrev pub pop : List Text → List Text
pop [] = []
pop (p ∷ parts) = parts

unfoldable pub enter : Text → List Text → List Text
enter c parts = if is_dot c then parts else if is_dotdot c then pop parts else c ∷ parts

unfoldable pub enter_all : List Text → List Text → List Text
enter_all [] parts = parts
enter_all (c ∷ cs) parts = enter_all cs (enter c parts)

unfoldable pub join_up : List Text → Text
join_up [] = []
join_up (p ∷ parts) = join_up parts ++ (slash ∷ p)

abbrev pub or_root : List Text → Text
or_root [] = root_path
or_root (p ∷ parts) = join_up (p ∷ parts)

unfoldable pub normalize : Text → Text → Text
normalize cwd target = or_root (
    enter_all (components target)
      (if starts_with_slash target then [] else enter_all (components cwd) []))

unfoldable pub is_root_path : Text → Bool
is_root_path [] = false
is_root_path (c ∷ []) = c == slash
is_root_path (c ∷ d ∷ s) = false

unfoldable pub join_canonical : Text → Text → Text
join_canonical base component =
    if is_root_path base then slash ∷ component else base ++ (slash ∷ component)

abbrev pub or_here : ℕ → Option Text → Option Text
or_here c none = if c == slash then some [] else none
or_here c (some p) = some (c ∷ p)

-- what stands before the last slash
unfoldable pub before_last : Text → Option Text
before_last [] = none
before_last (c ∷ cs) = or_here c (before_last cs)

abbrev pub parent_or_root : Option Text → Text
parent_or_root none = root_path
parent_or_root (some []) = root_path
parent_or_root (some (c ∷ p)) = c ∷ p

unfoldable pub parent_of_canonical : Text → Text
parent_of_canonical canonical = parent_or_root (before_last canonical)
