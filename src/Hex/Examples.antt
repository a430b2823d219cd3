-- ===== src/Hex/Examples.antt =====
-- Runs of the functions on hexadecimal text, and the theorems about them at these inputs.
use platform_system_vold.Base.{
  ◌≡◌, refl, ◌↔◌, [], ◌∷◌, true, Text, codes, count_if, is_xdigit, ◌%◌, arith,
}
use platform_system_vold.Hex.{
  ok, einval, hex_char, hex_digit, hex_loop, hex_to_str, str_to_hex, normalize_hex,
}
use platform_system_vold.Hex.RoundTrip.{hex_to_str-str_to_hex}
use platform_system_vold.Hex.Accepts.{accepted, hex_to_str_accepts}

abbrev three_bytes : Text
three_bytes = 0 ∷ 171 ∷ 255 ∷ []

prints : str_to_hex three_bytes ≡ codes "00abff"
unfolding str_to_hex
prints = refl

-- On an error the bytes that were read stay behind.
stops_at_bad_character : hex_to_str (codes "AB-c?") ≡ (einval, 171 ∷ [])
unfolding hex_to_str hex_loop hex_char hex_digit
stops_at_bad_character = refl

guid : normalize_hex (codes "0A:bC") [] ≡ (ok, codes "0abc")
unfolding normalize_hex hex_to_str hex_loop hex_char hex_digit str_to_hex
guid = refl

hex_to_str-str_to_hex_example : hex_to_str (str_to_hex three_bytes) ≡ (ok, three_bytes)
hex_to_str-str_to_hex_example = hex_to_str-str_to_hex three_bytes (omega arith)

hex_to_str_accepts_example :
    ((hex_to_str (codes "0A:bC")).0 ≡ ok)
    ↔ ((accepted (codes "0A:bC") ≡ true) × (count_if is_xdigit (codes "0A:bC") % 2 ≡ 0))
hex_to_str_accepts_example = hex_to_str_accepts (codes "0A:bC") (omega arith)
