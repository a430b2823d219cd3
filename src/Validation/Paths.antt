-- ===== src/Validation/Paths.antt =====
-- Which paths `CheckArgumentPath` lets through, in terms of the components of the path.
use platform_system_vold.Base.{
  ℕ, ◌++◌, ◌≡◌, refl, ◌↔◌, Bool, true, false, ◌||◌, List, [], ◌∷◌, arith, ◌==◌, Text, if◌then◌else◌,
  codes, text_eq, starts_with, ends_with, contains, any, ends_with-cons,
}
use platform_system_vold.Validation.{ok, check_argument_path, ends_line}

-- The components of a path: its text split at each slash. The first stands apart.
abbrev pub split_slash : Text → Text × List Text
split_slash [] = ([], [])
split_slash (c ∷ s) =
    let (first, rest) = split_slash s in if c == b'/' then ([], first ∷ rest) else (c ∷ first, rest)

abbrev pub is_dot_dot : Text → Bool
is_dot_dot s = text_eq s (codes "..")

abbrev shady : Text → Bool
shady s = contains s (codes "/../") || ends_with s (codes "/..")

abbrev is_slash : ℕ → Bool
is_slash c = c == b'/'

-- The first component is `p`: nothing or a slash follows.
first-component :
    (p s : Text)
    → any is_slash p ≡ false
    → text_eq (split_slash s).0 p ≡ (starts_with s (p ++ codes "/") || text_eq s p)
first-component [] [] h = refl
first-component [] (c ∷ s) h = ground arith
first-component (d ∷ p) [] h = refl
first-component (d ∷ p) (c ∷ s) h = ground (arith, first-component p s)

-- Between two slashes or behind the last one: some component behind a slash is `p`.
pub some_component :
    (p s : Text)
    → any is_slash p ≡ false
    → (contains s (b'/' ∷ (p ++ codes "/")) || ends_with s (b'/' ∷ p))
      ≡ any (λ c. text_eq c p) (split_slash s).1
some_component p [] h = ground arith
some_component p (c ∷ s) h =
    ground (arith, ends_with-cons c s (b'/' ∷ p), first-component p s h, some_component p s h)

-- `/../` inside or `/..` at the end: some component behind a slash is "..".
shady-components : (s : Text) → shady s ≡ any is_dot_dot (split_slash s).1
shady-components s = some_component (codes "..") s refl

-- What `CheckArgumentPath` accepts: an absolute path with no component ".." and no byte that
-- ends the text or the line.
abbrev pub IsPlainPath : Text → Type 0
IsPlainPath path =
    (starts_with path (codes "/") ≡ true)
    × (any is_dot_dot (split_slash path).1 ≡ false)
    × (any ends_line path ≡ false)

-- `CheckArgumentPath` returns `Ok` exactly on the absolute paths none of whose components is ".."
-- and that hold no NUL and no newline.
pub check_argument_path_iff : (path : Text) → (check_argument_path path ≡ ok) ↔ IsPlainPath path
unfolding check_argument_path
check_argument_path_iff [] = ground arith
check_argument_path_iff (c ∷ cs) = ground (arith, shady-components (c ∷ cs))
