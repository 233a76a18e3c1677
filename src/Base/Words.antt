-- ===== src/Base/Words.antt =====
-- Bytes and 16-bit words: the conversions and shifts of Go on them, and the sums they stand for.
use Prim.Native.Nat.{ℕ, ◌+◌, ◌-◌, ◌*◌, ◌/◌, ◌%◌, ◌^◌, ◌<◌, bit_or, bit_xor}
use mathlib.Core.Path.{◌≡◌}
use native.Mathlib.Omega.{arith}
use retronet.Base.Bits.{bit_or_parts}

-- `byte(n)`, `uint16(n)` and `uint64(n)`.
abbrev pub u8 : ℕ → ℕ
u8 n = n % 2 ^ 8

abbrev pub u16 : ℕ → ℕ
u16 n = n % 2 ^ 16

abbrev pub u64 : ℕ → ℕ
u64 n = n % 2 ^ 64

abbrev pub shr : ℕ → ℕ → ℕ
shr x k = x / 2 ^ k

abbrev pub shl8 : ℕ → ℕ → ℕ
shl8 x k = u8 (x * 2 ^ k)

abbrev pub shl16 : ℕ → ℕ → ℕ
shl16 x k = u16 (x * 2 ^ k)

-- `x + n` and `x - 1` on a uint16.
abbrev pub add16 : ℕ → ℕ → ℕ
add16 x n = u16 (x + n)

abbrev pub dec16 : ℕ → ℕ
dec16 x = u16 (x + 2 ^ 16 - 1)

-- `^x` on a byte: every bit inverted.
abbrev pub complement8 : ℕ → ℕ
complement8 x = bit_xor x 0xFF

-- `uint16(hi)<<8 | uint16(lo)`.
unfoldable pub word : ℕ → ℕ → ℕ
word hi lo = bit_or (shl16 hi 8) lo

pub word_sum : (hi lo : ℕ) → hi < 256 → lo < 256 → word hi lo ≡ hi * 256 + lo
unfolding word
word_sum hi lo p q = ground (arith, bit_or_parts 8 hi lo)

pub word-lt : (hi lo : ℕ) → hi < 256 → lo < 256 → word hi lo < 65536
word-lt hi lo p q = ground (arith, word_sum hi lo)

-- A word is the pair of its bytes.
pub word-high : (hi lo : ℕ) → hi < 256 → lo < 256 → u8 (shr (word hi lo) 8) ≡ hi
word-high hi lo p q = ground (arith, word_sum hi lo)

pub word-low : (hi lo : ℕ) → hi < 256 → lo < 256 → u8 (word hi lo) ≡ lo
word-low hi lo p q = ground (arith, word_sum hi lo)

pub word_bytes : (w : ℕ) → w < 65536 → word (u8 (shr w 8)) (u8 w) ≡ w
word_bytes w p = ground (arith, word_sum (u8 (shr w 8)) (u8 w))
