-- ===== src/Checkpoint/Crc/Bitwise.antt =====
-- The table-driven checksum against the bitwise one for the reflected polynomial 0xEDB88320.
use Prim.Native.Nat.{bit_xor}
use platform_system_vold.Base.{
  ℕ, ◌*◌, ◌/◌, ◌%◌, ◌<◌, ◌≡◌, refl, ap, ◌∙◌, sym, true, List, [], ◌∷◌, arith, if◌then◌else◌, ◌==◌,
  ==_iff, check_below, check_below_sound, get_or,
}
use platform_system_vold.Checkpoint.Crc.{table, crc_byte, crc32}
use platform_system_vold.Checkpoint.Crc.Xor.{
  xor_half, xor_parity, zero-xor, xor_self, xor_comm, xor_assoc, xor_fields,
}

abbrev poly : ℕ
poly = 0xedb88320

-- One bit: a shift, with the polynomial where a one falls out.
unfoldable pub crc_bit : ℕ → ℕ
crc_bit x = if x % 2 == 1 then bit_xor (x / 2) poly else x / 2

unfoldable pub eight_bits : ℕ → ℕ
eight_bits x = crc_bit (crc_bit (crc_bit (crc_bit (crc_bit (crc_bit (crc_bit (crc_bit x)))))))

-- The checksum by the definition of its polynomial, with no table.
unfoldable pub bitwise_crc32 : List ℕ → ℕ → ℕ
bitwise_crc32 [] crc = crc
bitwise_crc32 (byte ∷ bytes) crc = bitwise_crc32 bytes (eight_bits (bit_xor crc byte))

xor_swap : (a b c : ℕ) → bit_xor (bit_xor a b) c ≡ bit_xor (bit_xor a c) b
xor_swap a b c = xor_assoc a b c ∙ ap (bit_xor a) (xor_comm b c) ∙ sym (xor_assoc a c b)

xor_cancel : (a b c : ℕ) → bit_xor (bit_xor a c) (bit_xor b c) ≡ bit_xor a b
xor_cancel a b c =
    xor_assoc a c (bit_xor b c)
    ∙ ap (bit_xor a) (
        ap (bit_xor c) (xor_comm b c)
        ∙ sym (xor_assoc c c b)
        ∙ ap (λ t. bit_xor t b) (xor_self c)
        ∙ zero-xor b)

crc_bit-xor : (a b : ℕ) → crc_bit (bit_xor a b) ≡ bit_xor (crc_bit a) (crc_bit b)
unfolding crc_bit
crc_bit-xor a b = ground (
  arith,
  xor_half a b,
  xor_parity a b,
  xor_swap (a / 2) poly (b / 2),
  xor_assoc (a / 2) (b / 2) poly,
  xor_cancel (a / 2) (b / 2) poly,
)

eight_bits-xor : (a b : ℕ) → eight_bits (bit_xor a b) ≡ bit_xor (eight_bits a) (eight_bits b)
unfolding eight_bits
eight_bits-xor a b = simp crc_bit-xor

crc_bit_even : (h : ℕ) → crc_bit (h * 2) ≡ h
unfolding crc_bit
crc_bit_even h = ground arith

eight_bits_high : (h : ℕ) → eight_bits (h * 256) ≡ h
unfolding eight_bits
eight_bits_high h =
    let split : h * 256 ≡ h * 2 * 2 * 2 * 2 * 2 * 2 * 2 * 2 = omega arith in
    rw split (simp crc_bit_even)

table_rows : check_below 256 (λ i. get_or table i 0 == eight_bits i) ≡ true
unfolding check_below table eight_bits crc_bit
table_rows = refl

table_row : (i : ℕ) → i < 256 → get_or table i 0 ≡ eight_bits i
table_row i h = (==_iff _ _).0 (check_below_sound 256 _ i table_rows h)

crc_byte-eight_bits : (crc byte : ℕ) → crc_byte crc byte ≡ eight_bits (bit_xor crc byte)
unfolding crc_byte
crc_byte-eight_bits crc byte =
    let x = bit_xor crc byte in
    let split : bit_xor (x / 256 * 256) (x % 256) ≡ x =
      xor_fields 8 (x / 256) (x % 256) (omega arith) ∙ omega arith in
    rw (table_row (x % 256) (omega arith)) (
      xor_comm (eight_bits (x % 256)) (x / 256)
      ∙ ap (λ t. bit_xor t (eight_bits (x % 256))) (sym (eight_bits_high (x / 256)))
      ∙ sym (eight_bits-xor (x / 256 * 256) (x % 256))
      ∙ ap eight_bits split)

-- For every start value and every sequence of bytes the table gives the checksum of the polynomial.
pub crc32-bitwise : (bytes : List ℕ) (crc : ℕ) → crc32 bytes crc ≡ bitwise_crc32 bytes crc
unfolding crc32 bitwise_crc32
crc32-bitwise [] crc = refl
crc32-bitwise (byte ∷ bytes) crc =
    ap (crc32 bytes) (crc_byte-eight_bits crc byte)
    ∙ crc32-bitwise bytes (eight_bits (bit_xor crc byte))
