-- ===== src/Cpu/Alu/Laws.antt =====
-- What the operations of `nativeBackend` compute: exact sums and differences with their flags.
use retronet.Base.{
  ℕ, zero, suc, ◌+◌, ◌-◌, ◌*◌, ◌%◌, ◌<◌, ◌≡◌, arith, Bool, true, false, not, ◌==◌, leb,
  complement8_lem, bit_and, bit_or, bit_xor, bit_and-lt, bit_or-lt, bit_xor-lt, u8, complement8,
}
use retronet.Cpu.Alu.{
  Flags, I8080, IsEncoded, native_add, native_sub, native_logic, native_alu, native_increment,
  native_decrement, native_add16, ones_count, native_parity_even,
}
use retronet.Cpu.Alu.Carry.{carry_into_four, carry_into_eight, sign_bit}

abbrev pub bit : Bool → ℕ
bit true = 1
bit false = 0

-- Sign, zero and parity describe the byte `out`.
pub record Describes (out : ℕ) (f : Flags) : Type 0 where
  pub zero_iff : f.zero_flag ≡ (out == 0)
  pub sign_iff : f.sign ≡ leb 128 out
  pub parity_iff : f.parity ≡ (ones_count 8 out % 2 == 0)

-- `r` is the 9-bit sum of two bytes and a carry, with the carry out of the low digit.
pub record IsSum (a b c : ℕ) (r : ℕ × Flags) : Type 0 where
  pub fits : r.0 < 256
  pub exact : r.0 + 256 * bit r.1.carry ≡ a + b + c
  pub half : r.1.auxiliary_carry ≡ leb 16 (a % 16 + b % 16 + c)
  pub described : Describes r.0 r.1

-- `r` is the difference of two bytes and a borrow; the auxiliary carry says that the low digit
-- needed no borrow.
pub record IsDifference (a b c : ℕ) (r : ℕ × Flags) : Type 0 where
  pub fits : r.0 < 256
  pub exact : r.0 + b + c ≡ a + 256 * bit r.1.carry
  pub half : r.1.auxiliary_carry ≡ leb (b % 16 + c) (a % 16)
  pub described : Describes r.0 r.1

-- `nativeAdd` is exact: the result and the carry make up the sum of the bytes and the carry in.
pub native_add-IsSum :
    (a b : ℕ) (cy : Bool) → a < 256 → b < 256 → IsSum a b (bit cy) (native_add a b cy)
unfolding native_add native_parity_even
native_add-IsSum a b cy p q = ground (
  arith,
  carry_into_eight a b (bit cy),
  carry_into_four a b (bit cy),
  sign_bit (u8 (a + b + bit cy)),
)

-- `nativeSub` is exact: the carry is the borrow of the difference.
pub native_sub-IsDifference :
    (a b : ℕ) (borrow : Bool)
    → a < 256
    → b < 256
    → IsDifference a b (bit borrow) (native_sub a b borrow)
unfolding native_sub native_parity_even
native_sub-IsDifference a b borrow p q = ground (
  arith,
  complement8_lem b,
  carry_into_eight a (complement8 b) (1 - bit borrow),
  carry_into_four a (complement8 b) (1 - bit borrow),
  sign_bit (u8 (a + complement8 b + (1 - bit borrow))),
)

-- A logical operation clears the carry; AND takes the auxiliary carry from bit 3 of either term.
pub record IsLogic (out : ℕ) (aux : Bool) (r : ℕ × Flags) : Type 0 where
  pub result : r.0 ≡ out
  pub cleared : r.1.carry ≡ false
  pub half : r.1.auxiliary_carry ≡ aux
  pub described : Describes out r.1

-- What each of the eight groups does to two bytes and the carry, by its code.
abbrev pub Does : ℕ → ℕ → ℕ → Bool → ℕ × Flags → Type 0
Does zero a b cy = IsSum a b 0
Does (suc zero) a b cy = IsSum a b (bit cy)
Does (suc (suc zero)) a b cy = IsDifference a b 0
Does (suc (suc (suc zero))) a b cy = IsDifference a b (bit cy)
Does (suc (suc (suc (suc zero)))) a b cy =
    IsLogic (bit_and a b) (not (bit_and (bit_or a b) 0x08 == 0))
Does (suc (suc (suc (suc (suc zero))))) a b cy = IsLogic (bit_xor a b) false
Does (suc (suc (suc (suc (suc (suc zero)))))) a b cy = IsLogic (bit_or a b) false
Does (suc (suc (suc (suc (suc (suc (suc _))))))) a b cy = IsDifference a b 0

module _ ⦃i8080 : I8080⦄ (encoded : IsEncoded i8080) where
  -- For a package whose group codes are those of the opcodes, and on bytes, `nativeBackend.ALU` does on
  -- each of the eight groups what the instruction set says: an exact sum or difference with its carry
  -- or borrow and auxiliary carry, or the bitwise result with the carry off, and zero, sign and parity
  -- of the result.
  pub native_alu-Does :
      (g a b : ℕ) (cy : Bool) → g < 8 → a < 256 → b < 256 → Does g a b cy (native_alu g a b cy)
  unfolding native_alu native_logic native_parity_even
  native_alu-Does zero a b cy h p q = ground (arith, native_add-IsSum a b false p q)
  native_alu-Does (suc zero) a b cy h p q = ground (arith, native_add-IsSum a b cy p q)
  native_alu-Does (suc (suc zero)) a b cy h p q =
      ground (arith, native_sub-IsDifference a b false p q)
  native_alu-Does (suc (suc (suc zero))) a b cy h p q =
      ground (arith, native_sub-IsDifference a b cy p q)
  native_alu-Does (suc (suc (suc (suc zero)))) a b cy h p q =
      ground (arith, sign_bit (bit_and a b), bit_and-lt 8 a b)
  native_alu-Does (suc (suc (suc (suc (suc zero))))) a b cy h p q =
      ground (arith, sign_bit (bit_xor a b), bit_xor-lt 8 a b)
  native_alu-Does (suc (suc (suc (suc (suc (suc zero)))))) a b cy h p q =
      ground (arith, sign_bit (bit_or a b), bit_or-lt 8 a b)
  native_alu-Does (suc (suc (suc (suc (suc (suc (suc zero))))))) a b cy h p q =
      ground (arith, native_sub-IsDifference a b false p q)
  native_alu-Does (suc (suc (suc (suc (suc (suc (suc (suc g)))))))) a b cy h p q =
      absurd (omega arith)

  -- On a byte, for a package with the group codes of the opcodes, `nativeBackend.Increment` is the sum
  -- with 1 modulo 256, with the flags of the result, the auxiliary carry when the low digit is 15, and
  -- the carry off.
  pub native_increment_lem :
      (v : ℕ)
      → v < 256
      → ((native_increment v).0 ≡ u8 (v + 1))
        × ((native_increment v).1.carry ≡ false)
        × ((native_increment v).1.auxiliary_carry ≡ (v % 16 == 15))
        × Describes (u8 (v + 1)) (native_increment v).1
  unfolding native_increment native_alu
  native_increment_lem v h = ground (arith, native_add-IsSum v 1 false)

  -- On a byte, for a package with the group codes of the opcodes, `nativeBackend.Decrement` is the
  -- difference with 1 modulo 256, with the flags of the result, the auxiliary carry unless the low digit
  -- is 0, and the carry off.
  pub native_decrement_lem :
      (v : ℕ)
      → v < 256
      → ((native_decrement v).0 ≡ u8 (v + 255))
        × ((native_decrement v).1.carry ≡ false)
        × ((native_decrement v).1.auxiliary_carry ≡ not (v % 16 == 0))
        × Describes (u8 (v + 255)) (native_decrement v).1
  unfolding native_decrement native_alu
  native_decrement_lem v h = ground (arith, native_sub-IsDifference v 1 false)

-- `nativeBackend.Add16` of two words is a word that makes up, with the carry, their exact sum.
pub native_add16_lem :
    (a b : ℕ)
    → a < 65536
    → b < 65536
    → ((native_add16 a b).0 < 65536)
      × ((native_add16 a b).0 + 65536 * bit (native_add16 a b).1 ≡ a + b)
unfolding native_add16
native_add16_lem a b p q = ground arith
