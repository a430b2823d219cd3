-- ===== src/Hex.antt =====
-- Utils.cpp: `HexToStr`, `StrToHex` and `NormalizeHex`. A function that fills an out parameter
-- returns its status with the value that the parameter holds then, also on an error.
pub mod Loop
pub mod RoundTrip
pub mod Accepts
mod Examples
use Prim.Native.Nat.{bit_and}
use platform_system_vold.Base.{
  ℕ, ◌+◌, ◌*◌, ◌/◌, ◌%◌, Bool, true, false, not, ◌||◌, Option, none, some, List, [], ◌∷◌, ◌++◌,
  if◌then◌else◌, ◌==◌, Text, codes, get_or,
}

-- The status values of these functions: `OK` and `-EINVAL`.
pub data HexStatus : Type 0 where
  ok einval : HexStatus

-- What the `switch` of `HexToStr` makes of a character.
pub data HexChar : Type 0 where
  skip bad : HexChar
  digit : ℕ → HexChar

unfoldable pub hex_char : ℕ → HexChar
hex_char c =
    if c == b' ' || c == b'-' || c == b':'
    then skip
    else if c == b'f' || c == b'F'
    then digit 15
    else if c == b'e' || c == b'E'
    then digit 14
    else if c == b'd' || c == b'D'
    then digit 13
    else if c == b'c' || c == b'C'
    then digit 12
    else if c == b'b' || c == b'B'
    then digit 11
    else if c == b'a' || c == b'A'
    then digit 10
    else if c == b'9'
    then digit 9
    else if c == b'8'
    then digit 8
    else if c == b'7'
    then digit 7
    else if c == b'6'
    then digit 6
    else if c == b'5'
    then digit 5
    else if c == b'4'
    then digit 4
    else if c == b'3'
    then digit 3
    else if c == b'2'
    then digit 2
    else if c == b'1'
    then digit 1
    else if c == b'0'
    then digit 0
    else bad

-- The variables of the loop of `HexToStr`.
pub record HexState : Type 0 where
  pub even : Bool
  pub cur : ℕ
  pub str : Text

-- The loop's body after the `switch`. `cur` is a `char`.
unfoldable pub hex_digit : HexState → ℕ → HexState
hex_digit s val =
    if s.even
    then record { even = false; cur = val * 16 % 256; str = s.str }
    else record { even = true; cur = 0; str = s.str ++ ((s.cur + val) % 256 ∷ []) }

unfoldable pub hex_loop : HexState → Text → HexStatus × Text
hex_loop s [] = (if s.even then ok else einval, s.str)
hex_loop s (c ∷ hex) = elim (hex_char c) [
  | skip ↦ hex_loop s hex
  | bad ↦ (einval, s.str)
  | digit val ↦ hex_loop (hex_digit s val) hex
]

unfoldable pub hex_to_str : Text → HexStatus × Text
hex_to_str hex = hex_loop (record { even = true; cur = 0; str = [] }) hex

abbrev pub k_lookup : Text
k_lookup = codes "0123456789abcdef"

-- `kLookup[i]`; the callers' index is below 16.
unfoldable pub lookup_char : ℕ → ℕ
lookup_char i = get_or k_lookup i 0

-- Both overloads of `StrToHex`, which always succeed.
unfoldable pub str_to_hex : Text → Text
unfolding lookup_char
str_to_hex [] = []
str_to_hex (b ∷ str) =
    lookup_char (bit_and b 0xF0 / 16) ∷ lookup_char (bit_and b 0x0F) ∷ str_to_hex str

-- `out` is the parameter's value at the call.
unfoldable pub normalize_hex : Text → Text → HexStatus × Text
normalize_hex input out =
    let (res, tmp) = hex_to_str input in
    elim res [ ok ↦ (ok, str_to_hex tmp) | einval ↦ (einval, out) ]
