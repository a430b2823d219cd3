-- ===== src/Hex/Loop.antt =====
-- The loop of `HexToStr` on what `StrToHex` prints, one byte at a time.
use Prim.Native.Nat.{bit_and}
use mathlib.Core.List.{append_assoc, append-nil}
use platform_system_vold.Base.{
  ℕ, ◌+◌, ◌*◌, ◌/◌, ◌%◌, ◌<◌, ◌≡◌, refl, ap, ◌∙◌, ◌⊎◌, inl, inr, Bool, true, false, [], ◌∷◌, ◌++◌,
  arith, ◌==◌, check_below, check_below_sound, Text, IsBytes,
}
use platform_system_vold.Hex.{
  ok, HexChar, skip, bad, digit, hex_char, HexState, hex_digit, hex_loop, lookup_char, str_to_hex,
}

pub HexChar-cases : (d : HexChar) → (d ≡ skip) ⊎ ((d ≡ bad) ⊎ ((v : ℕ) × (d ≡ digit v)))
HexChar-cases skip = inl refl
HexChar-cases bad = inr (inl refl)
HexChar-cases (digit v) = inr (inr (v, refl))

abbrev is_value : ℕ → HexChar → Bool
is_value n (digit v) = v == n
is_value n _ = false

is_value→eq : (n : ℕ) (c : HexChar) → is_value n c ≡ true → c ≡ digit n
is_value→eq n (digit v) h = ground arith
is_value→eq n skip h = cc
is_value→eq n bad h = cc

high_table :
    check_below 256 (λ b. is_value (b / 16) (hex_char (lookup_char (bit_and b 0xF0 / 16)))) ≡ true
unfolding check_below hex_char lookup_char
high_table = refl

low_table :
    check_below 256 (λ b. is_value (b % 16) (hex_char (lookup_char (bit_and b 0x0F)))) ≡ true
unfolding check_below hex_char lookup_char
low_table = refl

pub high_digit : (b : ℕ) → b < 256 → hex_char (lookup_char (bit_and b 0xF0 / 16)) ≡ digit (b / 16)
high_digit b h = is_value→eq _ _ (check_below_sound 256 _ b high_table h)

pub low_digit : (b : ℕ) → b < 256 → hex_char (lookup_char (bit_and b 0x0F)) ≡ digit (b % 16)
low_digit b h = is_value→eq _ _ (check_below_sound 256 _ b low_table h)

abbrev at_even : Text → HexState
at_even out = record { even = true; cur = 0; str = out }

pub hex_loop-str_to_hex :
    (s out : Text) → IsBytes s → hex_loop (at_even out) (str_to_hex s) ≡ (ok, out ++ s)
unfolding hex_loop str_to_hex hex_digit
hex_loop-str_to_hex [] out h = rw append-nil
hex_loop-str_to_hex (b ∷ s) out (hb, hs) =
    let byte : (b / 16 * 16 % 256 + b % 16) % 256 ≡ b = omega arith in
    rw (high_digit b hb, hex_loop)
      (rw (low_digit b hb, hex_loop)
        (rw byte (
          hex_loop-str_to_hex s (out ++ b ∷ []) hs
          ∙ ap (λ t. (ok, t)) (append_assoc out (b ∷ []) s))))

append-IsBytes : (s : Text) (b : ℕ) → IsBytes s → b < 256 → IsBytes (s ++ b ∷ [])
append-IsBytes [] b h k = (k, tt)
append-IsBytes (c ∷ s) b h k = (h.0, append-IsBytes s b h.1 k)

hex_digit-IsBytes : (st : HexState) (v : ℕ) → IsBytes st.str → IsBytes (hex_digit st v).str
unfolding hex_digit
hex_digit-IsBytes st v h = ground (arith, append-IsBytes st.str ((st.cur + v) % 256) h)

-- Whatever the text, the loop stores bytes.
pub hex_loop-IsBytes : (st : HexState) (hex : Text) → IsBytes st.str → IsBytes (hex_loop st hex).1
unfolding hex_loop
hex_loop-IsBytes st [] h = h
hex_loop-IsBytes st (c ∷ hex) h = elim (HexChar-cases (hex_char c)) [
  | inl e ↦ rw (e, hex_loop) (hex_loop-IsBytes st hex h)
  | inr (inl e) ↦ rw (e, hex_loop) h
  | inr (inr (v, e)) ↦
      rw (e, hex_loop) (hex_loop-IsBytes (hex_digit st v) hex (hex_digit-IsBytes st v h))
]
