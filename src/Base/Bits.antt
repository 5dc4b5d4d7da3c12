-- ===== src/Base/Bits.antt =====
-- The bit operations on words as the sources use them: a mask keeps the low bits, a shifted field
-- is joined below by `|`, and `^` stays within the width.
use Prim.Native.Nat.{
  ℕ, zero, suc, ◌+◌, ◌*◌, ◌/◌, ◌%◌, ◌^◌, ◌≤◌, ◌<◌, min, max, differ, bit_and, bit_or, bit_xor,
  digits, bitwise, bit_and-bitwise, bit_or-bitwise, bit_xor-bitwise,
}
use mathlib.Core.Path.{◌≡◌, refl, ap}
use native.Mathlib.Omega.{arith}
use native.Mathlib.Nat.{pow-suc}

-- A native operation is a recursion on binary digits, with the first number as its fuel. Any fuel
-- from there on gives the same number.
same_digits :
    (z : ℕ → ℕ) (f : ℕ → ℕ → ℕ) (a b : ℕ) (k l : ℕ)
    → a ≤ k
    → a ≤ l
    → digits z f k a b ≡ digits z f l a b
same_digits z f zero b zero zero hk hl = refl
same_digits z f zero b zero (suc l) hk hl = refl
same_digits z f zero b (suc k) zero hk hl = refl
same_digits z f zero b (suc k) (suc l) hk hl = refl
same_digits z f (suc a) b zero l hk hl = absurd (omega arith)
same_digits z f (suc a) b (suc k) zero hk hl = absurd (omega arith)
same_digits z f (suc a) b (suc k) (suc l) hk hl =
    omega (arith, same_digits z f (suc a / 2) (b / 2) k l (omega arith) (omega arith))

-- So the lowest digit splits off.
bitwise-half :
    (z : ℕ → ℕ) (f : ℕ → ℕ → ℕ) (a b : ℕ)
    → bitwise z f (suc a) b ≡ bitwise z f (suc a / 2) (b / 2) * 2 + f (suc a % 2) (b % 2)
bitwise-half z f a b =
    omega (arith, same_digits z f (suc a / 2) (b / 2) a (suc a / 2) (omega arith) (omega arith))

bit_or-half : (a b : ℕ) → bit_or a b ≡ bit_or (a / 2) (b / 2) * 2 + max (a % 2) (b % 2)
bit_or-half zero b = omega (arith, bit_or-bitwise 0 b, bit_or-bitwise 0 (b / 2))
bit_or-half (suc a) b = omega (
  arith,
  bit_or-bitwise (suc a) b,
  bit_or-bitwise (suc a / 2) (b / 2),
  bitwise-half (λ y. y) max a b,
)

bit_and-half : (a b : ℕ) → bit_and a b ≡ bit_and (a / 2) (b / 2) * 2 + min (a % 2) (b % 2)
bit_and-half zero b = omega (arith, bit_and-bitwise 0 b, bit_and-bitwise 0 (b / 2))
bit_and-half (suc a) b = omega (
  arith,
  bit_and-bitwise (suc a) b,
  bit_and-bitwise (suc a / 2) (b / 2),
  bitwise-half (λ y. 0) min a b,
)

differ_bit : (x y : ℕ) → x < 2 → y < 2 → differ x y < 2
differ_bit zero y hx hy = hy
differ_bit (suc zero) zero hx hy = omega arith
differ_bit (suc zero) (suc zero) hx hy = omega arith
differ_bit (suc zero) (suc (suc y)) hx hy = absurd (omega arith)
differ_bit (suc (suc x)) y hx hy = absurd (omega arith)

xor_digits-lt : (k n a b : ℕ) → a < 2 ^ k → b < 2 ^ k → digits (λ y. y) differ n a b < 2 ^ k
xor_digits-lt k zero a b ha hb = hb
xor_digits-lt k (suc n) zero b ha hb = hb
xor_digits-lt zero (suc n) (suc a) b ha hb = absurd (omega arith)
xor_digits-lt (suc k) (suc n) (suc a) b ha hb = omega (
  arith,
  pow-suc 2 k,
  differ_bit (suc a % 2) (b % 2) (omega arith) (omega arith),
  xor_digits-lt k n (suc a / 2) (b / 2) (omega (arith, pow-suc 2 k)) (omega (arith, pow-suc 2 k)),
)

-- `^` of two k-bit words is a k-bit word.
pub bit_xor-lt : (k a b : ℕ) → a < 2 ^ k → b < 2 ^ k → bit_xor a b < 2 ^ k
bit_xor-lt k a b ha hb = omega (arith, bit_xor-bitwise a b, xor_digits-lt k a a b ha hb)

bit_or-zero_below : (n a : ℕ) → a ≤ n → bit_or a 0 ≡ a
bit_or-zero_below n zero h = refl
bit_or-zero_below zero (suc a) h = absurd (omega arith)
bit_or-zero_below (suc n) (suc a) h =
    omega (arith, bit_or-half (suc a) 0, bit_or-zero_below n (suc a / 2) (omega arith))

scale-pow-suc : (q k : ℕ) → q * 2 ^ suc k ≡ 2 * (q * 2 ^ k)
scale-pow-suc q k = omega (arith, ap (λ (t : ℕ). q * t) (pow-suc 2 k))

-- A field of k bits put by `|` under a shifted value is added to it.
pub bit_or-shifted : (k q r : ℕ) → r < 2 ^ k → bit_or (q * 2 ^ k) r ≡ q * 2 ^ k + r
bit_or-shifted zero q r h = ground (arith, bit_or-zero_below q q (omega arith))
bit_or-shifted (suc k) q r h = ground (
  arith,
  bit_or-half (q * 2 ^ suc k) r,
  scale-pow-suc q k,
  pow-suc 2 k,
  bit_or-shifted k q (r / 2) (omega (arith, pow-suc 2 k)),
)

-- The same for a value that is such a multiple.
pub bit_or-join : (k q s r : ℕ) → s ≡ q * 2 ^ k → r < 2 ^ k → bit_or s r ≡ s + r
bit_or-join k q s r e h = omega (arith, ap (λ (t : ℕ). bit_or t r) e, bit_or-shifted k q r h)

-- The same with the shifted value put over the field.
pub bit_or-under : (k q r : ℕ) → r < 2 ^ k → bit_or r (q * 2 ^ k) ≡ q * 2 ^ k + r
bit_or-under zero q r h = ground (arith, bit_or-bitwise 0 q)
bit_or-under (suc k) q r h = ground (
  arith,
  bit_or-half r (q * 2 ^ suc k),
  scale-pow-suc q k,
  pow-suc 2 k,
  bit_or-under k q (r / 2) (omega (arith, pow-suc 2 k)),
)

bit_and-zero_below : (n a : ℕ) → a ≤ n → bit_and a 0 ≡ 0
bit_and-zero_below n zero h = refl
bit_and-zero_below zero (suc a) h = absurd (omega arith)
bit_and-zero_below (suc n) (suc a) h =
    omega (arith, bit_and-half (suc a) 0, bit_and-zero_below n (suc a / 2) (omega arith))

-- `& 7`
pub bit_and_seven : (a : ℕ) → bit_and a 7 ≡ a % 8
bit_and_seven a = omega (
  arith,
  bit_and-half a 7,
  bit_and-half (a / 2) 3,
  bit_and-half (a / 2 / 2) 1,
  bit_and-zero_below (a / 2 / 2 / 2) (a / 2 / 2 / 2) (omega arith),
)

bit_and_fifteen : (a : ℕ) → bit_and a 15 ≡ a % 16
bit_and_fifteen a = omega (arith, bit_and-half a 15, bit_and_seven (a / 2))

-- `& 0xff`
pub bit_and_byte : (a : ℕ) → bit_and a 0xff ≡ a % 256
bit_and_byte a = omega (
  arith,
  bit_and-half a 255,
  bit_and-half (a / 2) 127,
  bit_and-half (a / 2 / 2) 63,
  bit_and-half (a / 2 / 2 / 2) 31,
  bit_and_fifteen (a / 2 / 2 / 2 / 2),
)

bit_or_two : (a : ℕ) → a < 4 → bit_or a 2 ≡ 2 + a % 2
bit_or_two a h = omega (
  arith,
  bit_or-half a 2,
  bit_or-half (a / 2) 1,
  ap (λ t. bit_or t 0) {x = a / 2 / 2} {y = 0} (omega arith),
)

bit_or_four : (a : ℕ) → a < 8 → bit_or a 4 ≡ 4 + a % 4
bit_or_four a h = omega (arith, bit_or-half a 4, bit_or_two (a / 2) (omega arith))

bit_or_eight : (a : ℕ) → a < 16 → bit_or a 8 ≡ 8 + a % 8
bit_or_eight a h = omega (arith, bit_or-half a 8, bit_or_four (a / 2) (omega arith))

bit_or_sixteen : (a : ℕ) → a < 32 → bit_or a 16 ≡ 16 + a % 16
bit_or_sixteen a h = omega (arith, bit_or-half a 16, bit_or_eight (a / 2) (omega arith))

bit_or_32 : (a : ℕ) → a < 64 → bit_or a 32 ≡ 32 + a % 32
bit_or_32 a h = omega (arith, bit_or-half a 32, bit_or_sixteen (a / 2) (omega arith))

bit_or_64 : (a : ℕ) → a < 128 → bit_or a 64 ≡ 64 + a % 64
bit_or_64 a h = omega (arith, bit_or-half a 64, bit_or_32 (a / 2) (omega arith))

-- `| 0x80` on a byte
pub bit_or_top : (a : ℕ) → a < 256 → bit_or a 0x80 ≡ 128 + a % 128
bit_or_top a h = omega (arith, bit_or-half a 128, bit_or_64 (a / 2) (omega arith))
