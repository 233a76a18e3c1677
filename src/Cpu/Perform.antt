-- ===== src/Cpu/Perform.antt =====
-- cpu/execute.go: the body of each case of the switches of `execute8080`.
use retronet.Base.{ℕ, true, false, not, if◌then◌else◌, shl16, add16, dec16, complement8}
use retronet.Cpu.Errors.{Error}
use retronet.Cpu.Alu.{I8080}
use retronet.Cpu.Opcode.{Instruction, operand, word_operand}
use retronet.Cpu.Bus.{Memory, Io}
use retronet.Cpu.Dispatch.{Arm, select}
use retronet.Cpu.Decoder.{dst_field, src_field, pair_field}
use retronet.Cpu.State.{set_pc, hl, bc, de, pair_value, set_pair, condition_taken}
use retronet.Cpu.Core.{
  Run, ◌>>=◌, ◌>>◌, pure, fail, get, modify, mem_read, mem_write, io_input, io_output,
}
use retronet.Cpu.Execute.{
  execute_alu, increment, decrement, dad, daa, rotate_left, rotate_right, rotate_left_through,
  rotate_right_through, exchange_de_hl, halt, read_register, write_register, execute_mov, pop_word,
  call, push, pop, exchange_stack_hl, store_hl, load_hl,
}

module _ {M P : Type 0} ⦃i8080 : I8080⦄ ⦃memory : Memory M⦄ ⦃ports : Io P⦄ where
  -- INR and DCR: read, change with the flags, write back
  unfoldable pub increment_register : ℕ → Run M P (Unit {0})
  increment_register r = do
    value ← read_register r
    result ← get (λ s. (increment value s).0)
    modify (λ s. (increment value s).1)
    write_register r result

  unfoldable pub decrement_register : ℕ → Run M P (Unit {0})
  decrement_register r = do
    value ← read_register r
    result ← get (λ s. (decrement value s).0)
    modify (λ s. (decrement value s).1)
    write_register r result

  -- The case `arm` of the switches, for the opcode `code`.
  unfoldable pub perform : Arm → ℕ → Instruction → Run M P (Unit {0})
  perform Arm.nop code inst = pure tt
  perform Arm.hlt code inst = modify halt
  perform Arm.mov code inst = execute_mov code
  perform Arm.mvi code inst = write_register (dst_field code) (operand inst 0)
  perform Arm.lxi code inst = modify (set_pair (pair_field code) (word_operand inst))
  perform Arm.inr code inst = increment_register (dst_field code)
  perform Arm.dcr code inst = decrement_register (dst_field code)
  perform Arm.inx code inst =
      modify (λ s. set_pair (pair_field code) (add16 (pair_value (pair_field code) s) 1) s)
  perform Arm.dcx code inst =
      modify (λ s. set_pair (pair_field code) (dec16 (pair_value (pair_field code) s)) s)
  perform Arm.dad code inst = modify (λ s. dad (pair_value (pair_field code) s) s)
  perform Arm.alu_register code inst = do
    value ← read_register (src_field code)
    modify (execute_alu (dst_field code) value)
  perform Arm.alu_immediate code inst = modify (execute_alu (dst_field code) (operand inst 0))
  perform Arm.jump_if code inst = do
    taken ← get (condition_taken (dst_field code))
    if taken then modify (set_pc (word_operand inst)) else pure tt
  perform Arm.call_if code inst = do
    taken ← get (condition_taken (dst_field code))
    if taken then call (word_operand inst) else pure tt
  perform Arm.return_if code inst = do
    taken ← get (condition_taken (dst_field code))
    if taken then (do addr ← pop_word; modify (set_pc addr)) else pure tt
  perform Arm.rst code inst = call (shl16 (dst_field code) 3)
  perform Arm.pop code inst = pop (pair_field code)
  perform Arm.push code inst = push (pair_field code)
  perform Arm.stax_b code inst = do addr ← get bc; a ← get (λ s. s.a); mem_write addr a
  perform Arm.stax_d code inst = do addr ← get de; a ← get (λ s. s.a); mem_write addr a
  perform Arm.ldax_b code inst = do
    addr ← get bc
    value ← mem_read addr
    modify (λ s. record s { a = value })
  perform Arm.ldax_d code inst = do
    addr ← get de
    value ← mem_read addr
    modify (λ s. record s { a = value })
  perform Arm.rlc code inst = modify rotate_left
  perform Arm.rrc code inst = modify rotate_right
  perform Arm.ral code inst = modify rotate_left_through
  perform Arm.rar code inst = modify rotate_right_through
  perform Arm.shld code inst = store_hl (word_operand inst)
  perform Arm.lhld code inst = load_hl (word_operand inst)
  perform Arm.daa code inst = modify daa
  perform Arm.cma code inst = modify (λ s. record s { a = complement8 s.a })
  perform Arm.sta code inst = do a ← get (λ s. s.a); mem_write (word_operand inst) a
  perform Arm.lda code inst = do
    value ← mem_read (word_operand inst)
    modify (λ s. record s { a = value })
  perform Arm.stc code inst = modify (λ s. record s { carry = true })
  perform Arm.cmc code inst = modify (λ s. record s { carry = not s.carry })
  perform Arm.jmp code inst = modify (set_pc (word_operand inst))
  perform Arm.ret code inst = do addr ← pop_word; modify (set_pc addr)
  perform Arm.call code inst = call (word_operand inst)
  perform Arm.output code inst = do a ← get (λ s. s.a); io_output (operand inst 0) a
  perform Arm.input code inst = do
    value ← io_input (operand inst 0)
    modify (λ s. record s { a = value })
  perform Arm.xthl code inst = exchange_stack_hl
  perform Arm.pchl code inst = do addr ← get hl; modify (set_pc addr)
  perform Arm.xchg code inst = modify exchange_de_hl
  perform Arm.di code inst = modify (λ s. record s { interrupts_enabled = false })
  perform Arm.sphl code inst = modify (λ s. record s { sp = hl s })
  perform Arm.ei code inst = modify (λ s. record s { interrupts_enabled = true })
  perform Arm.unimplemented code inst = fail (Error.unimplemented_code code)

  unfoldable pub execute8080 : Instruction → Run M P (Unit {0})
  unfolding perform
  execute8080 inst = perform (select inst.opcode.code) inst.opcode.code inst
