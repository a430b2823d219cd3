-- ===== src/Hex/Accepts.antt =====
-- Which texts `HexToStr` accepts.
use platform_system_vold.Base.{
  ℕ, ◌+◌, ◌%◌, ◌<◌, ◌≡◌, refl, ◌↔◌, inl, inr, Bool, true, false, not, ◌&&◌, ◌||◌, [], ◌∷◌, arith,
  ◌==◌, check_below, check_below_sound, Text, IsBytes, is_xdigit, all, count_if,
}
use platform_system_vold.Hex.{
  ok, HexChar, skip, bad, digit, hex_char, HexState, hex_digit, hex_loop, hex_to_str,
}
use platform_system_vold.Hex.Loop.{HexChar-cases}

-- The characters that `HexToStr` passes over.
abbrev pub is_separator : ℕ → Bool
is_separator c = c == b' ' || c == b'-' || c == b':'

abbrev fits : HexChar → ℕ → Bool
fits (digit v) c = is_xdigit c && not (is_separator c)
fits skip c = is_separator c && not (is_xdigit c)
fits bad c = not (is_separator c || is_xdigit c)

fits_table : check_below 256 (λ c. fits (hex_char c) c) ≡ true
unfolding check_below hex_char is_xdigit
fits_table = refl

hex_char-fits : (c : ℕ) → c < 256 → fits (hex_char c) c ≡ true
hex_char-fits c h = check_below_sound 256 _ c fits_table h

hex_char-fits_at : (c : ℕ) (d : HexChar) → c < 256 → hex_char c ≡ d → fits d c ≡ true
hex_char-fits_at c d h e = rw e at (hex_char-fits c h)

abbrev pub accepted : Text → Bool
accepted hex = all (λ c. is_separator c || is_xdigit c) hex

abbrev odd : Bool → ℕ
odd true = 0
odd false = 1

hex_loop_accepts :
    (st : HexState) (hex : Text)
    → IsBytes hex
    → ((hex_loop st hex).0 ≡ ok)
      ↔ ((accepted hex ≡ true) × ((odd st.even + count_if is_xdigit hex) % 2 ≡ 0))
unfolding hex_loop hex_digit
hex_loop_accepts st [] h = ground arith
hex_loop_accepts st (c ∷ hex) (hc, h) = elim (HexChar-cases (hex_char c)) [
  | inl e ↦
      rw (e, hex_loop) (ground (arith, hex_char-fits_at c skip hc e, hex_loop_accepts st hex h))
  | inr (inl e) ↦ rw (e, hex_loop) (ground (arith, hex_char-fits_at c bad hc e))
  | inr (inr (v, e)) ↦
      rw (e, hex_loop)
        (ground (arith, hex_char-fits_at c (digit v) hc e, hex_loop_accepts (hex_digit st v) hex h))
]

-- `HexToStr` succeeds exactly on the texts that hold nothing but hexadecimal digits and
-- separators, and an even number of digits.
pub hex_to_str_accepts :
    (hex : Text)
    → IsBytes hex
    → ((hex_to_str hex).0 ≡ ok) ↔ ((accepted hex ≡ true) × (count_if is_xdigit hex % 2 ≡ 0))
unfolding hex_to_str
hex_to_str_accepts hex h =
    ground (arith, hex_loop_accepts (record { even = true; cur = 0; str = [] }) hex h)
