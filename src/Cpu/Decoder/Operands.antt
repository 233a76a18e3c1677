-- ===== src/Cpu/Decoder/Operands.antt =====
-- The operand bytes that `Step` fetches for an opcode, and those that `execute8080` reads.
use retronet.Base.{ℕ, ◌+◌, ◌<◌, ◌≡◌, refl, arith, word, ap, ap₂, sym, ◌∙◌}
use retronet.Cpu.Alu.{I8080}
use retronet.Cpu.Bus.{Memory, Io}
use retronet.Cpu.Opcode.{Instruction, operand, word_operand}
use retronet.Cpu.Dispatch.{Arm, select}
use retronet.Cpu.Decoder.{length_for}
use retronet.Cpu.Decoder.Agreement.{operand_bytes, length_for-operand_bytes}
use retronet.Cpu.Perform.{perform, execute8080}

-- Two instructions with the same first `n` operands.
abbrev pub SameOperands : ℕ → Instruction → Instruction → Type 0
SameOperands n inst other = (k : ℕ) → k < n → operand inst k ≡ operand other k

same_word :
    (inst other : Instruction) → SameOperands 2 inst other → word_operand inst ≡ word_operand other
unfolding word_operand
same_word inst other h = ap₂ word (h 1 (omega arith)) (h 0 (omega arith))

module _ {M P : Type 0} ⦃i8080 : I8080⦄ ⦃memory : Memory M⦄ ⦃ports : Io P⦄ where
  perform-operand_bytes :
      (arm : Arm) (code : ℕ) (inst other : Instruction)
      → SameOperands (operand_bytes arm) inst other
      → perform {M = M} {P = P} arm code inst ≡ perform arm code other
  unfolding perform
  perform-operand_bytes Arm.mvi code inst other h = rw (h 0 (omega arith)) refl
  perform-operand_bytes Arm.alu_immediate code inst other h = rw (h 0 (omega arith)) refl
  perform-operand_bytes Arm.input code inst other h = rw (h 0 (omega arith)) refl
  perform-operand_bytes Arm.output code inst other h = rw (h 0 (omega arith)) refl
  perform-operand_bytes Arm.lxi code inst other h = rw (same_word inst other h) refl
  perform-operand_bytes Arm.jump_if code inst other h = rw (same_word inst other h) refl
  perform-operand_bytes Arm.call_if code inst other h = rw (same_word inst other h) refl
  perform-operand_bytes Arm.shld code inst other h = rw (same_word inst other h) refl
  perform-operand_bytes Arm.lhld code inst other h = rw (same_word inst other h) refl
  perform-operand_bytes Arm.sta code inst other h = rw (same_word inst other h) refl
  perform-operand_bytes Arm.lda code inst other h = rw (same_word inst other h) refl
  perform-operand_bytes Arm.jmp code inst other h = rw (same_word inst other h) refl
  perform-operand_bytes Arm.call code inst other h = rw (same_word inst other h) refl
  perform-operand_bytes _ code inst other h = refl

  -- What `execute8080` does depends on no more of the instruction than its opcode and the operand bytes
  -- that the length in the decoder's table counts; and that length is one more than the operand bytes
  -- of the case: two instructions of one opcode, with the same operands up to that length, have the same
  -- results and effects on every processor, memory and bus.
  pub execute8080-length_for :
      (inst other : Instruction)
      → inst.opcode.code < 256
      → other.opcode.code ≡ inst.opcode.code
      → ((k : ℕ) → k + 1 < length_for inst.opcode.code → operand inst k ≡ operand other k)
      → (length_for inst.opcode.code ≡ 1 + operand_bytes (select inst.opcode.code))
        × (execute8080 {M = M} {P = P} inst ≡ execute8080 other)
  unfolding execute8080
  execute8080-length_for inst other byte same agree =
      let code = inst.opcode.code in
      let long = length_for-operand_bytes code byte in
      (
        long,
        perform-operand_bytes (select code) code inst other (λ k h. agree k (omega (arith, long)))
            ∙ ap (λ c. perform {M = M} {P = P} (select c) c other) (sym same),
      )
