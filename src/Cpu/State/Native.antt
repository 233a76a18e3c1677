-- ===== src/Cpu/State/Native.antt =====
-- The range of what the native backend (cpu/alu_native.go) returns.
use retronet.Base.{ℕ, ◌<◌, arith, Bool, bit_and-lt}
use retronet.Cpu.Alu.{I8080, IsEncoded, native, native_alu}
use retronet.Cpu.Alu.Laws.{
  native_increment_lem, native_decrement_lem, native_add16_lem, native_add-IsSum,
  native_sub-IsDifference,
}
use retronet.Cpu.Alu.{native_logic}
use retronet.Cpu.State.Valid.{IsSound}
use retronet.Base.{bit_or-lt, bit_xor-lt, false}

module _ ⦃i8080 : I8080⦄ (encoded : IsEncoded i8080) where
  native_alu-lt : (g a v : ℕ) (cy : Bool) → a < 256 → v < 256 → (native_alu g a v cy).0 < 256
  unfolding native_alu native_logic
  native_alu-lt g a v cy p q = ground (
    arith,
    native_add-IsSum a v false,
    native_add-IsSum a v cy,
    native_sub-IsDifference a v false,
    native_sub-IsDifference a v cy,
    bit_and-lt 8 a v,
    bit_or-lt 8 a v,
    bit_xor-lt 8 a v,
  )

  -- `Native` keeps the promise of an ALU backend, for a package whose group codes are those of the
  -- opcodes: bytes for bytes, words for words.
  pub native-IsSound : IsSound native
  unfolding native
  native-IsSound = record {
    alu-lt = native_alu-lt;
    increment-lt = λ v h. ground (arith, native_increment_lem encoded v h);
    decrement-lt = λ v h. ground (arith, native_decrement_lem encoded v h);
    add16-lt = λ x y p q. (native_add16_lem x y p q).0;
  }
