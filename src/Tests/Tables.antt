-- ===== src/Tests/Tables.antt =====
-- The arithmetic, the decoder, the encoders and the rotations on sample values.
use retronet.Base.{ℕ, zero, suc, ◌∷◌, [], ◌<◌, ◌≡◌, refl, arith, true, ◌+◌}
use retronet.Cpu.Alu.{native_alu}
use retronet.Cpu.Alu.Laws.{Does, native_alu-Does}
use retronet.Cpu.Codes.{is_unassigned_opcode}
use retronet.Cpu.Dispatch.{select}
use retronet.Cpu.Decoder.{length_for}
use retronet.Cpu.Decoder.{decode}
use retronet.Cpu.Opcode.{Instruction, operand}
use retronet.Cpu.Bus.{flat_memory, ports_io}
use retronet.Cpu.Perform.{execute8080}
use retronet.Cpu.Decoder.Agreement.{operand_bytes}
use retronet.Cpu.Decoder.Operands.{execute8080-length_for}
use retronet.Cpu.Encode.Fields.{reencode, reencode-select}
use retronet.Cpu.State.{backend, chosen}
use retronet.Cpu.Execute.{execute_alu, daa}
use retronet.Cpu.Execute.Decimal.{MakesUp, decimal, daa-decimal}
use retronet.Tests.Samples.{sample_package, sample_package-IsEncoded, sample_cpu}

-- 0x47 - 0x49 - 1, with a borrow
native_alu-Does_example :
    Does 3 0x47 0x49 true (native_alu ⦃i8080 = sample_package⦄ 3 0x47 0x49 true)
native_alu-Does_example =
    native_alu-Does ⦃i8080 = sample_package⦄ sample_package-IsEncoded 3 0x47 0x49 true (omega arith)
      (omega arith) (omega arith)

-- 47 + 38 + 1 = 86
daa-decimal_example :
    let t = daa ⦃i8080 = sample_package⦄ (execute_alu ⦃i8080 = sample_package⦄ 1 0x38 sample_cpu) in
    MakesUp (decimal 0x47 + decimal 0x38 + 1) (t.a, t.carry)
unfolding backend chosen
daa-decimal_example =
    daa-decimal ⦃i8080 = sample_package⦄ sample_package-IsEncoded 0x38 sample_cpu refl (omega arith)
      (omega arith)

-- LDA, with an operand that it does not read behind the two that it reads
abbrev lda_instruction : ℕ → Instruction
lda_instruction last = record {
  pc = 0;
  opcode = decode 0x3A;
  operands = 0x34 ∷ 0x12 ∷ last ∷ [];
  operand_count = 2;
}

lda_operands :
    (k : ℕ)
    → k + 1 < length_for 0x3A
    → operand (lda_instruction 1) k ≡ operand (lda_instruction 2) k
unfolding length_for is_unassigned_opcode
lda_operands zero h = refl
lda_operands (suc zero) h = refl
lda_operands (suc (suc k)) h = absurd (omega arith)

execute8080-length_for_example :
    (length_for 0x3A ≡ 1 + operand_bytes (select 0x3A))
    × (execute8080 ⦃i8080 = sample_package⦄ ⦃memory = flat_memory⦄ ⦃ports = ports_io⦄
          (lda_instruction 1)
        ≡ execute8080 ⦃i8080 = sample_package⦄ ⦃memory = flat_memory⦄ ⦃ports = ports_io⦄
            (lda_instruction 2))
unfolding decode length_for
execute8080-length_for_example =
    execute8080-length_for ⦃i8080 = sample_package⦄ ⦃memory = flat_memory⦄ ⦃ports = ports_io⦄
      (lda_instruction 1) (lda_instruction 2) (omega arith) refl lda_operands

reencode-select_example : reencode (select 0xC4) 0xC4 ≡ 0xC4
unfolding is_unassigned_opcode
reencode-select_example = reencode-select 0xC4 (omega arith) refl
