-- ===== src/Files/Path/Climb.antt =====
-- kernel/src/vfs/path.rs: paths without `..`.
use mathlib.Core.Option.{some-injective}
use cyphera_kernel.Prelude.{
  ◌≡◌, refl, sym, ap, subst, false, List, [], ◌∷◌, ◌++◌, Option, none, some, arith, All, All-append,
  inl, inr, if_cases, Option-cases,
}
use cyphera_kernel.Files.Path.{
  Text, slash, root_path, components, split_slash, keep_nonempty, is_dotdot, normalize,
  is_root_path, join_canonical, parent_of_canonical, parent_or_root, before_last, or_here,
}
use cyphera_kernel.Files.Path.Components.{IsName, components-append, components-IsName}
use cyphera_kernel.Files.Path.Normal.{IsPlain, normalize-IsNormal}

-- No component is `..`.
abbrev pub NoUp : Text → Type 0
NoUp path = All (λ c. is_dotdot c ≡ false) (components path)

pub root_path-NoUp : NoUp root_path
root_path-NoUp = unfold components split_slash keep_nonempty in tt

pub All-prefix {κ} : (P : Text → Type κ) (xs ys : List Text) → All P (xs ++ ys) → All P xs
All-prefix P [] ys h = tt
All-prefix P (x ∷ xs) ys (hx, h) = (hx, All-prefix P xs ys h)

pub plain-NoUp : (cs : List Text) → All IsPlain cs → All (λ c. is_dotdot c ≡ false) cs
plain-NoUp [] h = tt
plain-NoUp (c ∷ cs) (hc, h) = (hc.not_dotdot, plain-NoUp cs h)

pub normalize-NoUp : (cwd target : Text) → NoUp (normalize cwd target)
normalize-NoUp cwd target = plain-NoUp _ (normalize-IsNormal cwd target).plain

before_last-prefix :
    (path p : Text) → before_last path ≡ some p → (rest : Text) × (path ≡ p ++ (slash ∷ rest))
unfolding before_last
before_last-prefix [] p h = absurd (ground arith)
before_last-prefix (c ∷ path) p h = elim (Option-cases (before_last path)) [
  | inl none_behind ↦ (path, ground (arith, none_behind))
  | inr (q, e) ↦
      let (rest, whole) = before_last-prefix path q e in
      let same : c ∷ q ≡ p = some-injective _ _ (subst (λ o. or_here c o ≡ some p) e h) in
      (rest, subst (λ x. c ∷ path ≡ x ++ (slash ∷ rest)) same (ap (λ r. c ∷ r) whole))
]

NoUp-prefix : (p rest : Text) → NoUp (p ++ (slash ∷ rest)) → NoUp p
NoUp-prefix p rest h =
    All-prefix _ (components p) (components rest)
      (subst (All (λ c. is_dotdot c ≡ false)) (components-append p rest) h)

parent_or_root-NoUp :
    (path : Text) (o : Option Text) → before_last path ≡ o → NoUp path → NoUp (parent_or_root o)
parent_or_root-NoUp path none e h = root_path-NoUp
parent_or_root-NoUp path (some []) e h = root_path-NoUp
parent_or_root-NoUp path (some (c ∷ p)) e h =
    let (rest, whole) = before_last-prefix path (c ∷ p) e in
    NoUp-prefix (c ∷ p) rest (subst NoUp whole h)

pub parent_of_canonical-NoUp : (path : Text) → NoUp path → NoUp (parent_of_canonical path)
unfolding parent_of_canonical
parent_of_canonical-NoUp path h = parent_or_root-NoUp path (before_last path) refl h

pub join_canonical-NoUp :
    (base component : Text)
    → NoUp base
    → IsName component
    → is_dotdot component ≡ false
    → NoUp (join_canonical base component)
unfolding join_canonical
join_canonical-NoUp base component h n d =
    let one : NoUp component =
      subst (All (λ c. is_dotdot c ≡ false)) (sym (components-IsName component n)) (d, tt) in
    let joined : (p : Text) → NoUp p → NoUp (p ++ (slash ∷ component)) = λ p hp.
      subst (All (λ c. is_dotdot c ≡ false)) (sym (components-append p component))
        (All-append _ (components p) (components component) hp one) in
    if_cases NoUp (is_root_path base)
      (λ _. joined [] (unfold components split_slash keep_nonempty in tt)) (λ _. joined base h)
