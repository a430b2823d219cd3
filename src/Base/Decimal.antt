-- ===== src/Base/Decimal.antt =====
-- Numbers as decimal text: `std::to_string` of an `int`, and a reader of such text.
use platform_system_vold.Base.Tests.{◌==◌, if◌then◌else◌, ltb, lt→ltb, Bool-cases}
use platform_system_vold.Base.Texts.{Text, codes, text_eq, text_eq→eq, is_digit}
use platform_system_vold.Base.Lists.{all, length}
use platform_system_vold.Base.Int.{ℤ, pos, negsuc}
use Prim.Native.Nat.{ℕ, zero, suc, ◌+◌, ◌*◌, ◌/◌, ◌%◌, ◌-◌, ◌<◌, ◌≤◌}
use mathlib.Core.Path.{◌≡◌, refl, sym, ap, ◌∙◌}
use mathlib.Core.Bool.{true, false}
use mathlib.Core.Logic.{inl, inr}
use mathlib.Core.Option.{Option, none, some}
use mathlib.Core.List.{[], ◌∷◌}
use native.Mathlib.Omega.{arith}
use native.Mathlib.Decide.{dec_lt}

-- The digits of `n` in front of `out`, on fuel; a number has at most as many digits as its value,
-- or one.
unfoldable pub print_loop : ℕ → ℕ → Text → Text
print_loop zero n out = out
print_loop (suc fuel) n out =
    let rest = print_loop fuel (n / 10) ((b'0' + n % 10) ∷ out) in
    if ltb n 10 then (b'0' + n) ∷ out else rest

unfoldable pub print_ℕ : ℕ → Text
unfolding print_loop
print_ℕ n = print_loop (suc n) n []

-- `std::to_string(int)`.
unfoldable pub to_string : ℤ → Text
unfolding print_ℕ
to_string (pos n) = print_ℕ n
to_string (negsuc n) = b'-' ∷ print_ℕ (suc n)

-- Digits read on from a value; `none` at a character that is no digit.
unfoldable pub read_loop : ℕ → Text → Option ℕ
read_loop acc [] = some acc
read_loop acc (c ∷ s) =
    let rest = read_loop (acc * 10 + (c - b'0')) s in if is_digit c then rest else none

unfoldable pub read_ℕ : Text → Option ℕ
unfolding read_loop
read_ℕ [] = none
read_ℕ (c ∷ s) = read_loop 0 (c ∷ s)

abbrev negate : Option ℕ → Option ℤ
negate none = none
negate (some zero) = some (pos 0)
negate (some (suc n)) = some (negsuc n)

abbrev as_pos : Option ℕ → Option ℤ
as_pos none = none
as_pos (some n) = some (pos n)

-- A reader of decimal integers.
unfoldable pub read_ℤ : Text → Option ℤ
unfolding read_ℕ
read_ℤ [] = none
read_ℤ (c ∷ s) = if c == b'-' then negate (read_ℕ s) else as_pos (read_ℕ (c ∷ s))

digit-is_digit : (d : ℕ) → d < 10 → is_digit (b'0' + d) ≡ true
unfolding is_digit
digit-is_digit d h = ground arith

-- Digits in front of `out` are read before it.
read_loop-print_loop :
    (fuel n acc : ℕ) (out : Text)
    → n < fuel
    → (k : ℕ) × (read_loop acc (print_loop fuel n out) ≡ read_loop (acc * k + n) out)
unfolding print_loop read_loop
read_loop-print_loop zero n acc out h = absurd (omega arith)
read_loop-print_loop (suc fuel) n acc out h = elim (dec_lt n 10) [
  | yes l ↦
      let d = digit-is_digit n l in
      let t : ltb n 10 ≡ true = lt→ltb n 10 l in
      (10, rw (t, d) (ap (λ v. read_loop v out) (omega arith)))
  | no g ↦
      let t : ltb n 10 ≡ false = ground arith in
      let d = digit-is_digit (n % 10) (omega arith) in
      let (k, e) = read_loop-print_loop fuel (n / 10) acc ((b'0' + n % 10) ∷ out) (omega arith) in
      (k * 10, rw (t, e, d) (ap (λ v. read_loop v out) (omega arith)))
]

pub print_loop_digits :
    (fuel n : ℕ) (out : Text)
    → all is_digit out ≡ true
    → all is_digit (print_loop fuel n out) ≡ true
unfolding print_loop
print_loop_digits zero n out h = h
print_loop_digits (suc fuel) n out h = ground (
  arith,
  digit-is_digit n,
  print_loop_digits fuel (n / 10) ((b'0' + n % 10) ∷ out)
      (ground (arith, digit-is_digit (n % 10) (omega arith))),
)

-- A natural number is printed with digits only.
pub to_string_digits : (n : ℕ) → all is_digit (to_string (pos n)) ≡ true
unfolding to_string print_ℕ
to_string_digits n = print_loop_digits (suc n) n [] refl

print_loop_longer : (fuel n : ℕ) (out : Text) → length out ≤ length (print_loop fuel n out)
unfolding print_loop
print_loop_longer zero n out = omega arith
print_loop_longer (suc fuel) n out =
    ground (arith, print_loop_longer fuel (n / 10) ((b'0' + n % 10) ∷ out))

print_ℕ_some : (n : ℕ) → 0 < length (print_ℕ n)
unfolding print_ℕ print_loop
print_ℕ_some n = ground (arith, print_loop_longer n (n / 10) ((b'0' + n % 10) ∷ []))

-- Text of digits that is not empty is read as a natural number.
read_ℤ_digits :
    (s : Text) → all is_digit s ≡ true → 0 < length s → read_ℤ s ≡ as_pos (read_loop 0 s)
unfolding read_ℤ read_ℕ is_digit
read_ℤ_digits [] h l = absurd (omega arith)
read_ℤ_digits (c ∷ s) h l = ground arith

read_ℕ_some : (s : Text) → 0 < length s → read_ℕ s ≡ read_loop 0 s
unfolding read_ℕ
read_ℕ_some [] l = absurd (omega arith)
read_ℕ_some (c ∷ s) l = refl

read_loop-print_ℕ : (n : ℕ) → read_loop 0 (print_ℕ n) ≡ some n
unfolding print_ℕ read_loop
read_loop-print_ℕ n =
    let (k, e) = read_loop-print_loop (suc n) n 0 [] (omega arith) in
    e ∙ ap (λ v. read_loop v []) (omega arith)

-- What is printed is read back.
pub read_ℤ-to_string : (z : ℤ) → read_ℤ (to_string z) ≡ some z
unfolding to_string read_ℤ
read_ℤ-to_string (pos n) =
    read_ℤ_digits (print_ℕ n) (to_string_digits n) (print_ℕ_some n)
    ∙ ap as_pos (read_loop-print_ℕ n)
read_ℤ-to_string (negsuc n) =
    ap negate (read_ℕ_some (print_ℕ (suc n)) (print_ℕ_some (suc n)) ∙ read_loop-print_ℕ (suc n))

zero_read : read_ℤ (codes "0") ≡ some (pos 0)
unfolding read_ℤ read_ℕ read_loop is_digit
zero_read = refl

-- "0" is printed for 0 only.
pub to_string_zero : (n : ℕ) → text_eq (to_string (pos n)) (codes "0") ≡ (n == 0)
unfolding to_string print_ℕ print_loop
to_string_zero zero = refl
to_string_zero (suc n) =
    let s = to_string (pos (suc n)) in
    elim (Bool-cases (text_eq s (codes "0"))) [
      | inl e ↦
          let got : some (pos (suc n)) ≡ some (pos 0) =
            sym (read_ℤ-to_string (pos (suc n)))
            ∙ ap read_ℤ (text_eq→eq s (codes "0") e)
            ∙ zero_read in
          absurd (ground (arith, got))
      | inr e ↦ e ∙ ground arith
    ]
