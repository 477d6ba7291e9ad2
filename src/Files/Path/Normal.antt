-- ===== src/Files/Path/Normal.antt =====
-- kernel/src/vfs/path.rs: what `normalize` gives.
use cyphera_kernel.Prelude.{
  ◌≡◌, ◌≢◌, refl, sym, ap, subst, ◌∙◌, true, false, List, [], ◌∷◌, ◌++◌, if◌then◌else◌, All,
  All-append, if_cases,
}
use cyphera_kernel.Files.Path.{
  Text, slash, components, split_slash, keep_nonempty, is_dot, is_dotdot, starts_with_slash, pop,
  enter, enter_all, join_up, or_root, normalize,
}
use cyphera_kernel.Files.Path.Components.{
  IsName, components-append, components-IsName, components-names,
}

-- A component that names an entry of its directory.
pub record IsPlain (c : Text) : Type 0 where
  pub name : IsName c
  pub not_dot : is_dot c ≡ false
  pub not_dotdot : is_dotdot c ≡ false

All-pop {κ} : (P : Text → Type κ) (parts : List Text) → All P parts → All P (pop parts)
All-pop P [] h = tt
All-pop P (p ∷ parts) h = h.1

enter-IsPlain :
    (c : Text) (parts : List Text) → IsName c → All IsPlain parts → All IsPlain (enter c parts)
unfolding enter
enter-IsPlain c parts n h =
    if_cases (All IsPlain) (is_dot c) (λ _. h)
      (λ d.
        if_cases (All IsPlain) (is_dotdot c) (λ _. All-pop IsPlain parts h)
          (λ dd. (record { name = n; not_dot = d; not_dotdot = dd }, h)))

enter_all-IsPlain :
    (cs parts : List Text) → All IsName cs → All IsPlain parts → All IsPlain (enter_all cs parts)
unfolding enter_all
enter_all-IsPlain [] parts hs h = h
enter_all-IsPlain (c ∷ cs) parts (n, hs) h =
    enter_all-IsPlain cs (enter c parts) hs (enter-IsPlain c parts n h)

enter_all-append :
    (xs ys parts : List Text) → enter_all (xs ++ ys) parts ≡ enter_all ys (enter_all xs parts)
unfolding enter_all
enter_all-append [] ys parts = refl
enter_all-append (x ∷ xs) ys parts = enter_all-append xs ys (enter x parts)

-- The components of the joined text lead back to the stack.
enter_all-join_up :
    (parts : List Text) → All IsPlain parts → enter_all (components (join_up parts)) [] ≡ parts
unfolding enter_all join_up enter
enter_all-join_up [] h = unfold components split_slash keep_nonempty in refl
enter_all-join_up (p ∷ parts) (hp, h) =
    let whole : components (join_up parts ++ (slash ∷ p)) ≡ components (join_up parts) ++ (p ∷ []) =
      components-append (join_up parts) p
      ∙ ap (λ r. components (join_up parts) ++ r) (components-IsName p hp.name) in
    ap (λ cs. enter_all cs []) whole
    ∙ (enter_all-append (components (join_up parts)) (p ∷ []) []
        ∙ rw (enter_all-join_up parts h, hp.not_dot, hp.not_dotdot) refl)

enter_all-or_root :
    (parts : List Text) → All IsPlain parts → enter_all (components (or_root parts)) [] ≡ parts
enter_all-or_root [] h = unfold components split_slash keep_nonempty enter_all in refl
enter_all-or_root (p ∷ parts) h = enter_all-join_up (p ∷ parts) h

starts-append : (xs ys : Text) → starts_with_slash xs ≡ true → starts_with_slash (xs ++ ys) ≡ true
unfolding starts_with_slash
starts-append [] ys h = cc
starts-append (x ∷ xs) ys h = h

join_up-starts :
    (parts : List Text) (s : Text) → starts_with_slash (join_up parts ++ (slash ∷ s)) ≡ true
unfolding join_up starts_with_slash
join_up-starts [] s = refl
join_up-starts (p ∷ parts) s =
    starts-append (join_up parts ++ (slash ∷ p)) (slash ∷ s) (join_up-starts parts p)

or_root-starts : (parts : List Text) → starts_with_slash (or_root parts) ≡ true
unfolding join_up starts_with_slash
or_root-starts [] = refl
or_root-starts (p ∷ parts) = join_up-starts parts p

-- the stack that a path leads to
abbrev pub parts_of : Text → Text → List Text
parts_of cwd target =
    enter_all (components target)
      (if starts_with_slash target then [] else enter_all (components cwd) [])

parts_of-IsPlain : (cwd target : Text) → All IsPlain (parts_of cwd target)
parts_of-IsPlain cwd target = enter_all-IsPlain (components target) _ (components-names target) (
    if_cases (All IsPlain) (starts_with_slash target) (λ _. tt)
      (λ _. enter_all-IsPlain (components cwd) [] (components-names cwd) tt))

components-join_up :
    (parts : List Text) → All IsPlain parts → All IsPlain (components (join_up parts))
unfolding join_up
components-join_up [] h = unfold components split_slash keep_nonempty in tt
components-join_up (p ∷ parts) (hp, h) =
    subst (All IsPlain) (sym (components-append (join_up parts) p)) (
      All-append IsPlain (components (join_up parts)) (components p) (components-join_up parts h)
        (subst (All IsPlain) (sym (components-IsName p hp.name)) (hp, tt)))

components-or_root :
    (parts : List Text) → All IsPlain parts → All IsPlain (components (or_root parts))
components-or_root [] h = unfold components split_slash keep_nonempty in tt
components-or_root (p ∷ parts) h = components-join_up (p ∷ parts) h

-- A normal path starts at the root, and no component of it is `.` or `..`.
pub record IsNormal (path : Text) : Type 0 where
  pub absolute : starts_with_slash path ≡ true
  pub plain : All IsPlain (components path)

-- `normalize` gives a normal path, whatever the paths that it is given.
pub normalize-IsNormal : (cwd target : Text) → IsNormal (normalize cwd target)
unfolding normalize
normalize-IsNormal cwd target = record {
  absolute = or_root-starts (parts_of cwd target);
  plain = components-or_root (parts_of cwd target) (parts_of-IsPlain cwd target);
}

enter_all-normalize :
    (cwd target : Text) → enter_all (components (normalize cwd target)) [] ≡ parts_of cwd target
unfolding normalize
enter_all-normalize cwd target =
    enter_all-or_root (parts_of cwd target) (parts_of-IsPlain cwd target)

normalize_absolute :
    (cwd target : Text)
    → starts_with_slash target ≡ true
    → normalize cwd target ≡ or_root (enter_all (components target) [])
unfolding normalize
normalize_absolute cwd target h = rw h refl

normalize_relative :
    (cwd target : Text)
    → starts_with_slash target ≡ false
    → normalize cwd target ≡ or_root (enter_all (components target) (enter_all (components cwd) []))
unfolding normalize
normalize_relative cwd target h = rw h refl

-- A path that is normalised once stays as it is, from whatever directory.
pub normalize_idem :
    (cwd from target : Text) → normalize from (normalize cwd target) ≡ normalize cwd target
unfolding normalize
normalize_idem cwd from target =
    normalize_absolute from (normalize cwd target) (normalize-IsNormal cwd target).absolute
    ∙ ap or_root (enter_all-normalize cwd target)

-- Going to `first` and then to a relative path is going to the two joined by a slash.
pub normalize-append :
    (cwd first next : Text)
    → first ≢ []
    → starts_with_slash next ≡ false
    → normalize (normalize cwd first) next ≡ normalize cwd (first ++ (slash ∷ next))
unfolding normalize starts_with_slash
normalize-append cwd [] next h rel = absurd (h refl)
normalize-append cwd (c ∷ first) next h rel =
    let base = if starts_with_slash (c ∷ first) then [] else enter_all (components cwd) [] in
    let there : enter_all (components next) (enter_all (components (normalize cwd (c ∷ first))) [])
        ≡ enter_all (components next) (enter_all (components (c ∷ first)) base) =
      ap (enter_all (components next)) (enter_all-normalize cwd (c ∷ first)) in
    let joined : enter_all (components ((c ∷ first) ++ (slash ∷ next))) base
        ≡ enter_all (components next) (enter_all (components (c ∷ first)) base) =
      ap (λ cs. enter_all cs base) (components-append (c ∷ first) next)
      ∙ enter_all-append (components (c ∷ first)) (components next) base in
    normalize_relative (normalize cwd (c ∷ first)) next rel ∙ ap or_root (there ∙ sym joined)
