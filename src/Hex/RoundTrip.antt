-- ===== src/Hex/RoundTrip.antt =====
-- What the printer of hexadecimal text gives back to its reader.
use platform_system_vold.Base.{◌≡◌, [], Text, arith, IsBytes}
use platform_system_vold.Hex.{ok, hex_to_str, str_to_hex, normalize_hex}
use platform_system_vold.Hex.Loop.{hex_loop-str_to_hex, hex_loop-IsBytes}

-- `HexToStr` reads back every byte string that `StrToHex` printed.
pub hex_to_str-str_to_hex : (s : Text) → IsBytes s → hex_to_str (str_to_hex s) ≡ (ok, s)
unfolding hex_to_str
hex_to_str-str_to_hex s h = hex_loop-str_to_hex s [] h

hex_to_str-IsBytes : (hex : Text) → IsBytes (hex_to_str hex).1
unfolding hex_to_str
hex_to_str-IsBytes hex = hex_loop-IsBytes _ hex tt

-- When `NormalizeHex` succeeds, its result is a normal form: normalising it again gives the same.
pub normalize_hex_idempotent :
    (input out out' text : Text)
    → normalize_hex input out ≡ (ok, text)
    → normalize_hex text out' ≡ (ok, text)
unfolding normalize_hex
normalize_hex_idempotent input out out' text h =
    ground (arith, hex_to_str-str_to_hex (hex_to_str input).1 (hex_to_str-IsBytes input))
