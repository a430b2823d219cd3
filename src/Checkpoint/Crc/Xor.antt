-- ===== src/Checkpoint/Crc/Xor.antt =====
-- The laws of the exclusive or at every number, from its recursion on binary digits.
use Prim.Native.Nat.{digits, differ, bit_xor, bit_xor-bitwise}
use native.Mathlib.Nat.{pow-suc}
use platform_system_vold.Base.{
  ℕ, zero, suc, ◌+◌, ◌*◌, ◌/◌, ◌%◌, ◌^◌, ◌≤◌, ◌<◌, ◌≡◌, refl, arith, ap, sym, ◌∙◌,
}

abbrev xor_digits : ℕ → ℕ → ℕ → ℕ
xor_digits n a b = digits (λ b. b) differ n a b

-- The fuel of the library's recursion makes no difference once it is enough.
enough_fuel : (n m a b : ℕ) → a ≤ n → a ≤ m → xor_digits n a b ≡ xor_digits m a b
enough_fuel zero zero a b p q = refl
enough_fuel zero (suc m) zero b p q = refl
enough_fuel zero (suc m) (suc a) b p q = absurd (omega arith)
enough_fuel (suc n) zero zero b p q = refl
enough_fuel (suc n) zero (suc a) b p q = absurd (omega arith)
enough_fuel (suc n) (suc m) zero b p q = refl
enough_fuel (suc n) (suc m) (suc a) b p q =
    rw (enough_fuel n m (suc a / 2) (b / 2) (omega arith) (omega arith))

differ_lem : (a b : ℕ) → a < 2 → b < 2 → differ a b ≡ (a + b) % 2
differ_lem zero zero h k = refl
differ_lem zero (suc zero) h k = refl
differ_lem (suc zero) zero h k = refl
differ_lem (suc zero) (suc zero) h k = refl
differ_lem zero (suc (suc b)) h k = absurd (omega arith)
differ_lem (suc zero) (suc (suc b)) h k = absurd (omega arith)
differ_lem (suc (suc a)) b h k = absurd (omega arith)

pub zero-xor : (b : ℕ) → bit_xor 0 b ≡ b
zero-xor b = bit_xor-bitwise 0 b

pub xor_step : (a b : ℕ) → bit_xor a b ≡ bit_xor (a / 2) (b / 2) * 2 + (a % 2 + b % 2) % 2
xor_step zero b = omega (arith, zero-xor b, zero-xor (b / 2))
xor_step (suc a) b = omega (
  arith,
  bit_xor-bitwise (suc a) b,
  bit_xor-bitwise (suc a / 2) (b / 2),
  enough_fuel a (suc a / 2) (suc a / 2) (b / 2) (omega arith) (omega arith),
  differ_lem (suc a % 2) (b % 2) (omega arith) (omega arith),
)

below_all : (P : ℕ → Type 0) → ((n : ℕ) → ((m : ℕ) → m < n → P m) → P n) → (k n : ℕ) → n < k → P n
below_all P step zero n h = elim h [ ]
below_all P step (suc k) n h = step n (λ m l. below_all P step k m (omega arith))

-- Strong induction.
by_smaller : (P : ℕ → Type 0) → ((n : ℕ) → ((m : ℕ) → m < n → P m) → P n) → (n : ℕ) → P n
by_smaller P step n = below_all P step (suc n) n (omega arith)

pub xor_half : (a b : ℕ) → bit_xor a b / 2 ≡ bit_xor (a / 2) (b / 2)
xor_half a b = omega (arith, xor_step a b)

pub xor_parity : (a b : ℕ) → bit_xor a b % 2 ≡ (a % 2 + b % 2) % 2
xor_parity a b = omega (arith, xor_step a b)

pub xor-zero : (a : ℕ) → bit_xor a 0 ≡ a
xor-zero = by_smaller (λ a. bit_xor a 0 ≡ a) go
  where
    go : (a : ℕ) → ((m : ℕ) → m < a → bit_xor m 0 ≡ m) → bit_xor a 0 ≡ a
    go zero ih = zero-xor 0
    go (suc a) ih = omega (arith, xor_step (suc a) 0, ih (suc a / 2) (omega arith))

pub xor_self : (a : ℕ) → bit_xor a a ≡ 0
xor_self = by_smaller (λ a. bit_xor a a ≡ 0) go
  where
    go : (a : ℕ) → ((m : ℕ) → m < a → bit_xor m m ≡ 0) → bit_xor a a ≡ 0
    go zero ih = zero-xor 0
    go (suc a) ih = omega (arith, xor_step (suc a) (suc a), ih (suc a / 2) (omega arith))

pub xor_comm : (a b : ℕ) → bit_xor a b ≡ bit_xor b a
xor_comm = by_smaller (λ a. (b : ℕ) → bit_xor a b ≡ bit_xor b a) go
  where
    go :
        (a : ℕ)
        → ((m : ℕ) → m < a → (b : ℕ) → bit_xor m b ≡ bit_xor b m)
        → (b : ℕ) → bit_xor a b ≡ bit_xor b a
    go zero ih b = zero-xor b ∙ sym (xor-zero b)
    go (suc a) ih b =
        omega (arith, xor_step (suc a) b, xor_step b (suc a), ih (suc a / 2) (omega arith) (b / 2))

pub xor_assoc : (a b c : ℕ) → bit_xor (bit_xor a b) c ≡ bit_xor a (bit_xor b c)
xor_assoc = by_smaller (λ a. (b c : ℕ) → bit_xor (bit_xor a b) c ≡ bit_xor a (bit_xor b c)) go
  where
    go :
        (a : ℕ)
        → ((m : ℕ) → m < a → (b c : ℕ) → bit_xor (bit_xor m b) c ≡ bit_xor m (bit_xor b c))
        → (b c : ℕ) → bit_xor (bit_xor a b) c ≡ bit_xor a (bit_xor b c)
    go zero ih b c = rw (zero-xor b, zero-xor (bit_xor b c))
    go (suc a) ih b c = ground (
      arith,
      xor_step (bit_xor (suc a) b) c,
      xor_half (suc a) b,
      xor_parity (suc a) b,
      xor_step (suc a) (bit_xor b c),
      xor_half b c,
      xor_parity b c,
      ih (suc a / 2) (omega arith) (b / 2) (c / 2),
    )

xor_double : (h l : ℕ) → bit_xor (h * 2) l ≡ bit_xor h (l / 2) * 2 + l % 2
xor_double h l =
    let half : h * 2 / 2 ≡ h = omega arith in xor_step (h * 2) l ∙ rw half (omega arith)

-- Bits in disjoint places add up.
pub xor_fields : (k h l : ℕ) → l < 2 ^ k → bit_xor (h * 2 ^ k) l ≡ h * 2 ^ k + l
xor_fields zero h l fits =
    let no_bits : l ≡ 0 = omega arith in rw no_bits (xor-zero (h * 1) ∙ omega arith)
xor_fields (suc k) h l fits =
    let twice : h * 2 ^ suc k ≡ h * 2 ^ k * 2 =
      omega (arith, ap (λ (t : ℕ). h * t) (pow-suc 2 k)) in
    rw twice (
      xor_double (h * 2 ^ k) l ∙ omega (arith, xor_fields k h (l / 2) (omega (arith, pow-suc 2 k))))
