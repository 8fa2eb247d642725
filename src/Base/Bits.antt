-- ===== src/Base/Bits.antt =====
-- `|` and `&` on masks, bit by bit.
use Prim.Native.Nat.{
  ℕ, zero, suc, ◌+◌, ◌-◌, ◌*◌, ◌/◌, ◌%◌, ◌≤◌, ◌<◌, min, max, bit_and, bit_or, digits, bitwise,
  bit_and-bitwise, bit_or-bitwise,
}
use mathlib.Core.Path.{◌≡◌, refl, ap}
use native.Mathlib.Omega.{arith}

-- The operations on words, by the operation on one digit.
module _ (rest : ℕ → ℕ) (digit : ℕ → ℕ → ℕ) where
  -- The count of digits to go does not matter, if the word has no more.
  digits_any : (n m a b : ℕ) → a ≤ n → a ≤ m → digits rest digit n a b ≡ digits rest digit m a b
  digits_any zero zero a b p q = refl
  digits_any zero (suc m) zero b p q = refl
  digits_any (suc n) zero zero b p q = refl
  digits_any (suc n) (suc m) zero b p q = refl
  digits_any zero (suc m) (suc a) b p q = absurd (omega arith)
  digits_any (suc n) zero (suc a) b p q = absurd (omega arith)
  digits_any (suc n) (suc m) (suc a) b p q =
      ap (λ r. r * 2 + digit (suc a % 2) (b % 2))
        (digits_any n m (suc a / 2) (b / 2) (omega arith) (omega arith))

  bitwise_halves :
      (a b : ℕ)
      → bitwise rest digit (suc a) b
        ≡ bitwise rest digit (suc a / 2) (b / 2) * 2 + digit (suc a % 2) (b % 2)
  bitwise_halves a b =
      ap (λ r. r * 2 + digit (suc a % 2) (b % 2))
        (digits_any a (suc a / 2) (suc a / 2) (b / 2) (omega arith) (omega arith))

zero-bit_and : (b : ℕ) → bit_and 0 b ≡ 0
zero-bit_and b = bit_and-bitwise 0 b

pub zero-bit_or : (b : ℕ) → bit_or 0 b ≡ b
zero-bit_or b = bit_or-bitwise 0 b

bit_and_halves : (a b : ℕ) → bit_and a b ≡ bit_and (a / 2) (b / 2) * 2 + min (a % 2) (b % 2)
bit_and_halves zero b = omega (arith, zero-bit_and b, zero-bit_and (b / 2))
bit_and_halves (suc a) b = omega (
  arith,
  bit_and-bitwise (suc a) b,
  bit_and-bitwise (suc a / 2) (b / 2),
  bitwise_halves (λ b. zero) min a b,
)

bit_or_halves : (a b : ℕ) → bit_or a b ≡ bit_or (a / 2) (b / 2) * 2 + max (a % 2) (b % 2)
bit_or_halves zero b = omega (arith, zero-bit_or b, zero-bit_or (b / 2))
bit_or_halves (suc a) b = omega (
  arith,
  bit_or-bitwise (suc a) b,
  bit_or-bitwise (suc a / 2) (b / 2),
  bitwise_halves (λ b. b) max a b,
)

-- 2 ^ n, in steps that `omega` reads.
abbrev pub power : ℕ → ℕ
power zero = 1
power (suc n) = power n * 2

-- A `|` is as long as its operands.
pub bit_or-lt : (n a b : ℕ) → a < power n → b < power n → bit_or a b < power n
bit_or-lt zero zero b p q = omega (arith, zero-bit_or b)
bit_or-lt zero (suc a) b p q = absurd (omega arith)
bit_or-lt (suc n) a b p q =
    omega (arith, bit_or_halves a b, bit_or-lt n (a / 2) (b / 2) (omega arith) (omega arith))

-- A word shares with a `|` what it shares with the left operand, and with the right one.
bit_and-bit_or_count :
    (n a b c : ℕ) → c ≤ n → max (bit_and c a) (bit_and c b) ≤ bit_and c (bit_or a b)
bit_and-bit_or_count n a b zero h = omega (arith, zero-bit_and a, zero-bit_and b)
bit_and-bit_or_count zero a b (suc c) h = absurd (omega arith)
bit_and-bit_or_count (suc n) a b (suc c) h =
    let half : bit_or a b / 2 ≡ bit_or (a / 2) (b / 2) = omega (arith, bit_or_halves a b) in
    omega (
      arith,
      bit_or_halves a b,
      bit_and_halves (suc c) a,
      bit_and_halves (suc c) b,
      bit_and_halves (suc c) (bit_or a b),
      ap (bit_and (suc c / 2)) half,
      bit_and-bit_or_count n (a / 2) (b / 2) (suc c / 2) (omega arith),
    )

pub bit_and-bit_or : (a b c : ℕ) → max (bit_and c a) (bit_and c b) ≤ bit_and c (bit_or a b)
bit_and-bit_or a b c = bit_and-bit_or_count c a b c (omega arith)

-- And nothing more: what it shares with a `|` comes from one of the two.
bit_and-bit_or_upper_count :
    (n a b c : ℕ) → c ≤ n → bit_and c (bit_or a b) ≤ bit_and c a + bit_and c b
bit_and-bit_or_upper_count n a b zero h = omega (arith, zero-bit_and (bit_or a b))
bit_and-bit_or_upper_count zero a b (suc c) h = absurd (omega arith)
bit_and-bit_or_upper_count (suc n) a b (suc c) h =
    let half : bit_or a b / 2 ≡ bit_or (a / 2) (b / 2) = omega (arith, bit_or_halves a b) in
    omega (
      arith,
      bit_or_halves a b,
      bit_and_halves (suc c) a,
      bit_and_halves (suc c) b,
      bit_and_halves (suc c) (bit_or a b),
      ap (bit_and (suc c / 2)) half,
      bit_and-bit_or_upper_count n (a / 2) (b / 2) (suc c / 2) (omega arith),
    )

pub bit_and-bit_or_upper : (a b c : ℕ) → bit_and c (bit_or a b) ≤ bit_and c a + bit_and c b
bit_and-bit_or_upper a b c = bit_and-bit_or_upper_count c a b c (omega arith)

power_pos : (n : ℕ) → 0 < power n
power_pos zero = omega arith
power_pos (suc n) = omega (arith, power_pos n)

-- A word shares the most with a mask of ones.
pub bit_and-ones : (n c m : ℕ) → m < power n → bit_and c m ≤ bit_and c (power n - 1)
bit_and-ones zero c zero h = omega arith
bit_and-ones zero c (suc m) h = absurd (omega arith)
bit_and-ones (suc n) c m h =
    let half : (power n * 2 - 1) / 2 ≡ power n - 1 = omega (arith, power_pos n) in
    omega (
      arith,
      power_pos n,
      bit_and_halves c m,
      bit_and_halves c (power n * 2 - 1),
      ap (bit_and (c / 2)) half,
      bit_and-ones n (c / 2) (m / 2) (omega arith),
    )

pub bit_and-zero : (c : ℕ) → bit_and c 0 ≡ 0
bit_and-zero c = omega (arith, bit_and-zero_count c c (omega arith))
  where
    bit_and-zero_count : (n c : ℕ) → c ≤ n → bit_and c 0 ≡ 0
    bit_and-zero_count n zero h = zero-bit_and 0
    bit_and-zero_count zero (suc c) h = absurd (omega arith)
    bit_and-zero_count (suc n) (suc c) h =
        omega (arith, bit_and_halves (suc c) 0, bit_and-zero_count n (suc c / 2) (omega arith))
