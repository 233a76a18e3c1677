-- ===== src/Base/Bits.antt =====
-- The native bit operations at variables: one binary digit at a time, and the consequences that
-- the byte and word arithmetic of the emulator needs.
use Prim.Native.Nat.{
  ℕ, zero, suc, ◌+◌, ◌-◌, ◌*◌, ◌/◌, ◌%◌, ◌^◌, ◌≤◌, ◌<◌, min, max, digits, bitwise, differ, bit_and,
  bit_or, bit_xor, bit_and-bitwise, bit_or-bitwise, bit_xor-bitwise,
}
use mathlib.Core.Path.{◌≡◌, refl, ap, subst, ◌∙◌}
use native.Mathlib.Omega.{arith}
use native.Mathlib.Nat.{le_refl, pow-suc, div-div-eq-div-mul, one-le-pow}

-- The digit recursion gives the same number for every fuel that covers its first argument.
module _ (z : ℕ → ℕ) (f : ℕ → ℕ → ℕ) where
  digits_enough : (n m a b : ℕ) → a ≤ n → a ≤ m → digits z f n a b ≡ digits z f m a b
  digits_enough zero zero a b p q = refl
  digits_enough zero (suc m) zero b p q = refl
  digits_enough zero (suc m) (suc a) b p q = absurd (omega arith)
  digits_enough (suc n) zero zero b p q = refl
  digits_enough (suc n) zero (suc a) b p q = absurd (omega arith)
  digits_enough (suc n) (suc m) zero b p q = refl
  digits_enough (suc n) (suc m) (suc a) b p q =
      rw (digits_enough n m (suc a / 2) (b / 2) (omega arith) (omega arith))

  bitwise_digit :
      (a b : ℕ)
      → bitwise z f (suc a) b ≡ bitwise z f (suc a / 2) (b / 2) * 2 + f (suc a % 2) (b % 2)
  bitwise_digit a b =
      omega (arith, digits_enough a (suc a / 2) (suc a / 2) (b / 2) (omega arith) (le_refl _))

pub bit_or_digit : (a b : ℕ) → bit_or a b ≡ bit_or (a / 2) (b / 2) * 2 + max (a % 2) (b % 2)
bit_or_digit zero b = simp bit_or-bitwise (omega arith)
bit_or_digit (suc a) b = simp bit_or-bitwise (bitwise_digit (λ y. y) max a b)

pub bit_and_digit : (a b : ℕ) → bit_and a b ≡ bit_and (a / 2) (b / 2) * 2 + min (a % 2) (b % 2)
bit_and_digit zero b = simp bit_and-bitwise (omega arith)
bit_and_digit (suc a) b = simp bit_and-bitwise (bitwise_digit (λ y. 0) min a b)

differ_digits : (x y : ℕ) → x < 2 → y < 2 → differ x y ≡ (x + y) % 2
differ_digits zero y p q = omega arith
differ_digits (suc zero) zero p q = refl
differ_digits (suc zero) (suc zero) p q = refl
differ_digits (suc zero) (suc (suc y)) p q = absurd (omega arith)
differ_digits (suc (suc x)) y p q = absurd (omega arith)

pub bit_xor_digit : (a b : ℕ) → bit_xor a b ≡ bit_xor (a / 2) (b / 2) * 2 + (a % 2 + b % 2) % 2
bit_xor_digit zero b = simp bit_xor-bitwise (omega arith)
bit_xor_digit (suc a) b = simp bit_xor-bitwise (
    bitwise_digit (λ y. y) differ a b
    ∙ ap (λ (t : ℕ). bitwise (λ y. y) differ (suc a / 2) (b / 2) * 2 + t)
        (differ_digits (suc a % 2) (b % 2) (omega arith) (omega arith)))

two-mul-pow : (q k : ℕ) → q * 2 ^ suc k ≡ 2 * (q * 2 ^ k)
two-mul-pow q k = omega (arith, ap (λ (t : ℕ). q * t) (pow-suc 2 k))

pub bit_or-zero : (k a : ℕ) → a ≤ k → bit_or a 0 ≡ a
bit_or-zero k zero h = refl
bit_or-zero zero (suc a) h = absurd (omega arith)
bit_or-zero (suc k) (suc a) h =
    omega (arith, bit_or_digit (suc a) 0, bit_or-zero k (suc a / 2) (omega arith))

pub bit_and-zero : (k a : ℕ) → a ≤ k → bit_and a 0 ≡ 0
bit_and-zero k zero h = refl
bit_and-zero zero (suc a) h = absurd (omega arith)
bit_and-zero (suc k) (suc a) h =
    omega (arith, bit_and_digit (suc a) 0, bit_and-zero k (suc a / 2) (omega arith))

-- A high part and a low part of `k` bits that are or-ed together are added.
pub bit_or_parts : (k hi lo : ℕ) → lo < 2 ^ k → bit_or (hi * 2 ^ k) lo ≡ hi * 2 ^ k + lo
bit_or_parts zero hi lo h = ground (arith, bit_or-zero hi hi)
bit_or_parts (suc k) hi lo h = ground (
  arith,
  bit_or_digit (hi * 2 ^ suc k) lo,
  two-mul-pow hi k,
  pow-suc 2 k,
  bit_or_parts k hi (lo / 2),
)

bit_and_double :
    (a p : ℕ)
    → bit_and (a / 2) p ≡ a / 2 / p % 2 * p
    → bit_and a (2 * p) ≡ a / (2 * p) % 2 * (2 * p)
bit_and_double a p h = rw (← div-div-eq-div-mul) (omega (arith, bit_and_digit a (2 * p), halved, h))
  where
    halved : bit_and (a / 2) (2 * p / 2) ≡ bit_and (a / 2) p
    halved = ap (bit_and (a / 2)) (omega arith)

mask_digit : (a n : ℕ) → 1 ≤ n → bit_and (a / 2) (n - 1) ≡ a / 2 → bit_and a (2 * n - 1) ≡ a
mask_digit a n h e = omega (arith, bit_and_digit a (2 * n - 1), halved, e)
  where
    halved : bit_and (a / 2) ((2 * n - 1) / 2) ≡ bit_and (a / 2) (n - 1)
    halved = ap (bit_and (a / 2)) (omega arith)

-- A mask of `k` ones keeps what fits it.
pub bit_and_mask : (k a : ℕ) → a < 2 ^ k → bit_and a (2 ^ k - 1) ≡ a
bit_and_mask zero a h = ground (arith, bit_and-zero a a)
bit_and_mask (suc k) a h =
    subst (λ (t : ℕ). bit_and a (t - 1) ≡ a) (omega (arith, pow-suc 2 k))
      (mask_digit a (2 ^ k) (one-le-pow k 2 (omega arith))
        (bit_and_mask k (a / 2) (omega (arith, pow-suc 2 k))))

-- The test of one bit.
pub bit_and_single : (k a : ℕ) → bit_and a (2 ^ k) ≡ a / 2 ^ k % 2 * 2 ^ k
bit_and_single zero a = ground (arith, bit_and_digit a 1, bit_and-zero (a / 2) (a / 2))
bit_and_single (suc k) a =
    subst (λ (t : ℕ). bit_and a t ≡ a / t % 2 * t) (omega (arith, pow-suc 2 k))
      (bit_and_double a (2 ^ k) (bit_and_single k (a / 2)))

-- The results stay within the width of the arguments.
pub bit_or-lt : (k a b : ℕ) → a < 2 ^ k → b < 2 ^ k → bit_or a b < 2 ^ k
bit_or-lt zero a b p q = ground (arith, bit_or-zero a a)
bit_or-lt (suc k) a b p q =
    ground (arith, bit_or_digit a b, pow-suc 2 k, bit_or-lt k (a / 2) (b / 2))

pub bit_and-lt : (k a b : ℕ) → a < 2 ^ k → b < 2 ^ k → bit_and a b < 2 ^ k
bit_and-lt zero a b p q = ground (arith, bit_and-zero a a)
bit_and-lt (suc k) a b p q =
    ground (arith, bit_and_digit a b, pow-suc 2 k, bit_and-lt k (a / 2) (b / 2))

pub bit_xor-lt : (k a b : ℕ) → a < 2 ^ k → b < 2 ^ k → bit_xor a b < 2 ^ k
bit_xor-lt zero zero zero p q = omega arith
bit_xor-lt zero zero (suc b) p q = absurd (omega arith)
bit_xor-lt zero (suc a) b p q = absurd (omega arith)
bit_xor-lt (suc k) a b p q =
    ground (arith, bit_xor_digit a b, pow-suc 2 k, bit_xor-lt k (a / 2) (b / 2))
