-- ===== src/Base/Texts.antt =====
-- Byte strings (`std::string`) as lists of byte values, with the tests that the source makes.
use Prim.Native.Nat.{ℕ, suc, ◌-◌, ◌<◌}
use Prim.Native.Char.{code}
use Prim.Native.String.{String}
use mathlib.Core.Path.{◌≡◌, refl, ap}
use mathlib.Core.Bool.{Bool, true, false, ◌&&◌, ◌||◌}
use mathlib.Core.List.{List, [], ◌∷◌}
use native.Mathlib.Omega.{arith}
use native.Mathlib.Decide.{dec_le}
use platform_system_vold.Base.Tests.{◌==◌, leb}
use platform_system_vold.Base.Lists.{length, drop}

abbrev pub Text : Type 0
Text = List ℕ

-- Every element is a byte's value.
abbrev pub IsBytes : Text → Type 0
IsBytes [] = Unit {0}
IsBytes (c ∷ s) = (c < 256) × IsBytes s

-- The byte values of an ASCII literal.
abbrev pub codes : String → Text
codes String.[] = []
codes (String.◌∷◌ c s) = code c ∷ codes s

abbrev pub text_eq : Text → Text → Bool
text_eq [] [] = true
text_eq [] (y ∷ ys) = false
text_eq (x ∷ xs) [] = false
text_eq (x ∷ xs) (y ∷ ys) = x == y && text_eq xs ys

-- `StartsWith`.
abbrev pub starts_with : Text → Text → Bool
starts_with s [] = true
starts_with [] (p ∷ ps) = false
starts_with (c ∷ s) (p ∷ ps) = c == p && starts_with s ps

-- `EndsWith`: the text with its front removed down to the suffix's length is the suffix.
abbrev pub ends_with : Text → Text → Bool
ends_with s p = leb (length p) (length s) && text_eq (drop (length s - length p) s) p

-- `s.find(p) != npos`.
abbrev pub contains : Text → Text → Bool
contains [] p = starts_with [] p
contains (c ∷ s) p = starts_with (c ∷ s) p || contains s p

pub text_eq_refl : (s : Text) → text_eq s s ≡ true
text_eq_refl [] = refl
text_eq_refl (c ∷ s) = ground (arith, text_eq_refl s)

pub text_eq→eq : (s t : Text) → text_eq s t ≡ true → s ≡ t
text_eq→eq [] [] h = refl
text_eq→eq [] (y ∷ ys) h = cc
text_eq→eq (x ∷ xs) [] h = cc
text_eq→eq (x ∷ xs) (y ∷ ys) h = ground (arith, text_eq→eq xs ys)

-- The classes of <cctype> in the C locale.
unfoldable pub is_digit : ℕ → Bool
is_digit c = leb b'0' c && leb c b'9'

unfoldable pub is_alpha : ℕ → Bool
is_alpha c = leb b'a' c && leb c b'z' || leb b'A' c && leb c b'Z'

unfoldable pub is_alnum : ℕ → Bool
unfolding is_digit is_alpha
is_alnum c = is_digit c || is_alpha c

unfoldable pub is_xdigit : ℕ → Bool
unfolding is_digit
is_xdigit c = is_digit c || (leb b'a' c && leb c b'f' || leb b'A' c && leb c b'F')

pub text_eq-length : (s t : Text) → text_eq s t ≡ true → length s ≡ length t
text_eq-length s t h = ap length (text_eq→eq s t h)

-- A suffix of a longer text is the whole text or a suffix of the tail.
pub ends_with-cons :
    (c : ℕ) (s p : Text) → ends_with (c ∷ s) p ≡ (text_eq (c ∷ s) p || ends_with s p)
ends_with-cons c s p = elim (dec_le (length p) (length s)) [
  | yes h ↦
      let cut : suc (length s) - length p ≡ suc (length s - length p) = omega arith in
      rw cut (ground (arith, text_eq-length (c ∷ s) p))
  | no h ↦ ground (arith, text_eq-length (c ∷ s) p)
]
