-- ===== src/Validation/Callers.antt =====
-- Who may call, and which identifiers and hexadecimal texts pass.
use platform_system_vold.Base.{
  ℕ, ◌%◌, ◌≡◌, refl, ◌↔◌, ◌≢◌, is_alnum, Bool, true, false, not, ◌||◌, [], ◌∷◌, arith, ◌==◌, Text,
  IsBytes, is_xdigit, all, any, count_if,
}
use platform_system_vold.Hex.{ok as hex_ok, hex_to_str}
use platform_system_vold.Hex.Accepts.{accepted, hex_to_str_accepts}
use platform_system_vold.Validation.{ok, check_argument_id, check_argument_hex, id_char}

any-not : (p : ℕ → Bool) (s : Text) → any (λ c. not (p c)) s ≡ not (all p s)
any-not p [] = refl
any-not p (c ∷ s) = ground (arith, any-not p s)

-- `CheckArgumentHex` allows fewer separators than `HexToStr`, so what it lets through is accepted.
hex_accepted : (hex : Text) → check_argument_hex hex ≡ ok → accepted hex ≡ true
unfolding check_argument_hex
hex_accepted [] h = refl
hex_accepted (c ∷ hex) h = ground (arith, hex_accepted hex)

-- After `CheckArgumentHex` has let a text through, `HexToStr` fails on it only for an odd number
-- of digits.
pub check_argument_hex-hex_to_str :
    (hex : Text)
    → IsBytes hex
    → check_argument_hex hex ≡ ok
    → ((hex_to_str hex).0 ≡ hex_ok) ↔ (count_if is_xdigit hex % 2 ≡ 0)
check_argument_hex-hex_to_str hex b h = ground (arith, hex_to_str_accepts hex b, hex_accepted hex h)

abbrev pub escapes : ℕ → Bool
escapes c = c == b'/' || c == b'.' || c == 0

id_char_safe : (c : ℕ) → id_char c ≡ true → escapes c ≡ false
unfolding id_char is_alnum
id_char_safe c h = ground arith

id_chars_safe : (id : Text) → any (λ c. not (id_char c)) id ≡ false → any escapes id ≡ false
id_chars_safe [] h = refl
id_chars_safe (c ∷ id) h = ground (arith, id_char_safe c, id_chars_safe id)

-- An identifier that passes is not empty and holds no slash, no dot and no NUL, so appended to a
-- directory it names a direct entry of it.
pub check_argument_id_no_slash :
    (id : Text) → check_argument_id id ≡ ok → (any escapes id ≡ false) × (id ≢ [])
unfolding check_argument_id
check_argument_id_no_slash [] h = cc
check_argument_id_no_slash (c ∷ id) h = (id_chars_safe (c ∷ id) (ground arith), λ e. cc)
