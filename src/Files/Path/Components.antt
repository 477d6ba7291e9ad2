-- ===== src/Files/Path/Components.antt =====
-- kernel/src/vfs/path.rs: the components of a path.
use cyphera_kernel.Prelude.{
  ℕ, ◌≡◌, ◌≢◌, refl, ap, ◌∙◌, false, List, [], ◌∷◌, ◌++◌, ◌==◌, arith, All, Bool-cases, inl, inr,
  if_cases,
}
use cyphera_kernel.Files.Path.{Text, slash, cons_head, split_slash, keep_nonempty, components}

abbrev pub NoSlash : Text → Type 0
NoSlash = All (λ x. (x == slash) ≡ false)

-- A component is not empty and has no slash.
pub record IsName (c : Text) : Type 0 where
  pub nonempty : c ≢ []
  pub no_slash : NoSlash c

split_slash_cons : (p : Text) → (s : Text) × (ss : List Text) × (split_slash p ≡ s ∷ ss)
unfolding split_slash
split_slash_cons [] = ([], [], refl)
split_slash_cons (c ∷ p) =
    let (s, ss, e) = split_slash_cons p in
    elim (Bool-cases (c == slash)) [
      | inl sep ↦ ([], split_slash p, rw sep)
      | inr other ↦ (c ∷ s, ss, rw (other, e))
    ]

split_slash-append : (p q : Text) → split_slash (p ++ (slash ∷ q)) ≡ split_slash p ++ split_slash q
unfolding split_slash
split_slash-append [] q = refl
split_slash-append (c ∷ p) q =
    let (s, ss, e) = split_slash_cons p in ground (arith, split_slash-append p q, e)

keep_nonempty-append :
    (xs ys : List Text) → keep_nonempty (xs ++ ys) ≡ keep_nonempty xs ++ keep_nonempty ys
unfolding keep_nonempty
keep_nonempty-append [] ys = refl
keep_nonempty-append ([] ∷ xs) ys = keep_nonempty-append xs ys
keep_nonempty-append ((c ∷ s) ∷ xs) ys = ap (λ r. (c ∷ s) ∷ r) (keep_nonempty-append xs ys)

-- A slash separates components.
pub components-append : (p q : Text) → components (p ++ (slash ∷ q)) ≡ components p ++ components q
unfolding components
components-append p q =
    ap keep_nonempty (split_slash-append p q) ∙ keep_nonempty-append (split_slash p) (split_slash q)

split_slash-name : (c : Text) → NoSlash c → split_slash c ≡ c ∷ []
unfolding split_slash
split_slash-name [] h = refl
split_slash-name (x ∷ c) (hx, h) = rw (hx, split_slash-name c h)

pub components-IsName : (c : Text) → IsName c → components c ≡ c ∷ []
unfolding components keep_nonempty
components-IsName [] h = absurd (h.nonempty refl)
components-IsName (x ∷ c) h = ap keep_nonempty (split_slash-name (x ∷ c) h.no_slash)

cons_head-NoSlash :
    (c : ℕ) (ss : List Text) → (c == slash) ≡ false → All NoSlash ss → All NoSlash (cons_head c ss)
cons_head-NoSlash c [] h all = ((h, tt), tt)
cons_head-NoSlash c (s ∷ ss) h (hs, all) = ((h, hs), all)

split_slash-NoSlash : (p : Text) → All NoSlash (split_slash p)
unfolding split_slash
split_slash-NoSlash [] = (tt, tt)
split_slash-NoSlash (c ∷ p) =
    let all = split_slash-NoSlash p in
    if_cases (All NoSlash) (c == slash) (λ _. (tt, all))
      (λ h. cons_head-NoSlash c (split_slash p) h all)

keep_nonempty-IsName : (ss : List Text) → All NoSlash ss → All IsName (keep_nonempty ss)
unfolding keep_nonempty
keep_nonempty-IsName [] h = tt
keep_nonempty-IsName ([] ∷ ss) (hs, h) = keep_nonempty-IsName ss h
keep_nonempty-IsName ((c ∷ s) ∷ ss) (hs, h) =
    (record { nonempty = λ e. cc; no_slash = hs }, keep_nonempty-IsName ss h)

pub components-names : (p : Text) → All IsName (components p)
unfolding components
components-names p = keep_nonempty-IsName (split_slash p) (split_slash-NoSlash p)
