-- ===== src/Cpu/Safety/Arms.antt =====
-- Safety of each case of the switches of `execute8080`.
use retronet.Base.{
  ℕ, ◌<◌, arith, true, false, not, if◌then◌else◌, bit_or-lt, bit_xor-lt, Option, shr, shl8, shl16,
  add16, dec16, word-lt, complement8,
}
use retronet.Cpu.Errors.{Error}
use retronet.Cpu.Alu.{I8080, AluBackend}
use retronet.Cpu.Bus.{Memory, Io, MemoryLaws, IoLaws}
use retronet.Cpu.Opcode.{Instruction, operand, word_operand}
use retronet.Cpu.Dispatch.{Arm}
use retronet.Cpu.Decoder.{dst_field, src_field, pair_field}
use retronet.Cpu.State.{
  Cpu8080, chosen, backend, set_pc, hl, bc, de, set_pair, pair_value, set_hl, condition_taken,
}
use retronet.Cpu.State.Valid.{IsSound, IsValid, hl-lt, bc-lt, de-lt, set_pair-IsValid}
use retronet.Cpu.Core.{Run, ◌>>=◌, pure, get, modify, mem_read, mem_write}
use retronet.Cpu.Execute.{
  execute_alu, increment, decrement, dad, daa, rotate_left, rotate_right, rotate_left_through,
  rotate_right_through, exchange_de_hl, halt, pop_word,
}
use retronet.Cpu.Perform.{increment_register, decrement_register, perform}
use retronet.Cpu.Safety.{
  Contract, Keeps, bind-Yields, then-Yields, pure-Yields, fail-Yields, get-Yields, modify-Keeps,
  mem_read-Yields, mem_write-Keeps, io_input-Yields, io_output-Keeps, if-Yields,
}
use retronet.Cpu.Safety.Registers.{
  read_register-Yields, write_register-Keeps, execute_mov-Keeps, pop_word-Yields, set_pc-Keeps,
  call-Keeps, push-Keeps, pop-Keeps, store_hl-Keeps, load_hl-Keeps, exchange_stack_hl-Keeps,
}

-- The operands of an instruction are bytes.
pub record HasByteOperands (inst : Instruction) : Type 0 where
  pub first-lt : operand inst 0 < 256
  pub second-lt : operand inst 1 < 256

word_operand-lt : (inst : Instruction) → HasByteOperands inst → word_operand inst < 65536
unfolding word_operand
word_operand-lt inst b = word-lt (operand inst 1) (operand inst 0) b.second-lt b.first-lt

module _ ⦃i8080 : I8080⦄ {k : Option AluBackend} (sound : IsSound (chosen k)) (s : Cpu8080)
    (v : IsValid k s) where
  execute_alu-IsValid : (group value : ℕ) → value < 256 → IsValid k (execute_alu group value s)
  unfolding execute_alu backend
  execute_alu-IsValid group value h = ground (arith, sound.alu-lt group s.a value s.carry)

  increment-IsValid : (value : ℕ) → IsValid k (increment value s).1
  unfolding increment
  increment-IsValid value = ground arith

  decrement-IsValid : (value : ℕ) → IsValid k (decrement value s).1
  unfolding decrement
  decrement-IsValid value = ground arith

  increment-lt : (value : ℕ) → value < 256 → (increment value s).0 < 256
  unfolding increment backend
  increment-lt value h = ground (arith, sound.increment-lt value)

  decrement-lt : (value : ℕ) → value < 256 → (decrement value s).0 < 256
  unfolding decrement backend
  decrement-lt value h = ground (arith, sound.decrement-lt value)

  dad-IsValid : (value : ℕ) → IsValid k (dad value s)
  unfolding dad set_hl
  dad-IsValid value = ground arith

  daa-IsValid : IsValid k (daa s)
  unfolding daa backend
  daa-IsValid = ground (
    arith,
    sound.alu-lt i8080.group_add s.a 0 false,
    sound.alu-lt i8080.group_add s.a 0x06 false,
    sound.alu-lt i8080.group_add s.a 0x60 false,
    sound.alu-lt i8080.group_add s.a 0x66 false,
  )

  rotate_left-IsValid : IsValid k (rotate_left s)
  unfolding rotate_left
  rotate_left-IsValid = ground (arith, bit_or-lt 8 (shl8 s.a 1) 1, bit_or-lt 8 (shl8 s.a 1) 0)

  rotate_left_through-IsValid : IsValid k (rotate_left_through s)
  unfolding rotate_left_through
  rotate_left_through-IsValid =
      ground (arith, bit_or-lt 8 (shl8 s.a 1) 1, bit_or-lt 8 (shl8 s.a 1) 0)

  rotate_right-IsValid : IsValid k (rotate_right s)
  unfolding rotate_right
  rotate_right-IsValid = ground (arith, bit_or-lt 8 (shr s.a 1) 128, bit_or-lt 8 (shr s.a 1) 0)

  rotate_right_through-IsValid : IsValid k (rotate_right_through s)
  unfolding rotate_right_through
  rotate_right_through-IsValid =
      ground (arith, bit_or-lt 8 (shr s.a 1) 128, bit_or-lt 8 (shr s.a 1) 0)

  exchange_de_hl-IsValid : IsValid k (exchange_de_hl s)
  unfolding exchange_de_hl
  exchange_de_hl-IsValid = ground arith

  halt-IsValid : IsValid k (halt s)
  unfolding halt
  halt-IsValid = ground arith

  cma-IsValid : IsValid k (record s { a = complement8 s.a })
  cma-IsValid = ground (arith, bit_xor-lt 8 s.a 0xFF)

module _ {M P : Type 0} {K : Contract M P} ⦃i8080 : I8080⦄ ⦃memory : Memory M⦄ ⦃ports : Io P⦄
    (laws : MemoryLaws memory K.holds_mem) (io_laws : IoLaws ports K.holds_io)
    (sound : IsSound (chosen K.alu)) where
  increment_register-Keeps : (r : ℕ) → Keeps K (increment_register r)
  unfolding increment_register
  increment_register-Keeps r = bind-Yields (read_register-Yields laws r) λ value h.
      bind-Yields (get-Yields (λ s. (increment value s).0) (λ c v. increment-lt sound c v value h))
        λ result b.
          then-Yields
            (modify-Keeps (λ s. (increment value s).1) (λ c v. increment-IsValid sound c v value))
            (write_register-Keeps laws r result b)

  decrement_register-Keeps : (r : ℕ) → Keeps K (decrement_register r)
  unfolding decrement_register
  decrement_register-Keeps r = bind-Yields (read_register-Yields laws r) λ value h.
      bind-Yields (get-Yields (λ s. (decrement value s).0) (λ c v. decrement-lt sound c v value h))
        λ result b.
          then-Yields
            (modify-Keeps (λ s. (decrement value s).1) (λ c v. decrement-IsValid sound c v value))
            (write_register-Keeps laws r result b)

  -- A store of A, a load into A, and a branch on a condition.
  store_a-Keeps :
      (f : Cpu8080 → ℕ)
      → ((c : Cpu8080) → IsValid K.alu c → f c < 65536)
      → Keeps K (do addr ← get f; a ← get (λ s. s.a); mem_write addr a)
  store_a-Keeps f h = bind-Yields (get-Yields f h) λ addr l.
      bind-Yields (get-Yields (λ s. s.a) (λ c v. v.a-lt)) λ a b. mem_write-Keeps laws addr a l b

  set_a-Keeps : (value : ℕ) → value < 256 → Keeps K (modify (λ s. record s { a = value }))
  set_a-Keeps value h = modify-Keeps (λ s. record s { a = value }) (λ c v. ground arith)

  load_a-Keeps :
      (f : Cpu8080 → ℕ)
      → ((c : Cpu8080) → IsValid K.alu c → f c < 65536)
      → Keeps K (do addr ← get f; value ← mem_read addr; modify (λ s. record s { a = value }))
  load_a-Keeps f h =
      bind-Yields (get-Yields f h) λ addr l. bind-Yields (mem_read-Yields laws addr l) set_a-Keeps

  branch-Keeps :
      (cond : ℕ) {m : Run M P (Unit {0})}
      → Keeps K m
      → Keeps K (do taken ← get (condition_taken cond); if taken then m else pure tt)
  branch-Keeps cond h =
      bind-Yields {Q = λ _. Unit {0}} (get-Yields (condition_taken cond) (λ c v. tt))
        λ taken _. if-Yields taken h (pure-Yields tt)

  return-Keeps : Keeps K (do addr ← pop_word; modify (set_pc addr))
  return-Keeps = bind-Yields (pop_word-Yields laws) (set_pc-Keeps laws)

  -- Every case of `execute8080` keeps the state good, for byte operands.
  pub perform-Keeps :
      (arm : Arm) (code : ℕ) (inst : Instruction)
      → HasByteOperands inst
      → Keeps K (perform arm code inst)
  unfolding perform
  perform-Keeps Arm.nop code inst b = pure-Yields tt
  perform-Keeps Arm.hlt code inst b = modify-Keeps halt (halt-IsValid sound)
  perform-Keeps Arm.mov code inst b = execute_mov-Keeps laws code
  perform-Keeps Arm.mvi code inst b =
      write_register-Keeps laws (dst_field code) (operand inst 0) b.first-lt
  perform-Keeps Arm.lxi code inst b =
      modify-Keeps (set_pair (pair_field code) (word_operand inst))
        (λ c v. set_pair-IsValid c v (pair_field code) (word_operand inst) (word_operand-lt inst b))
  perform-Keeps Arm.inr code inst b = increment_register-Keeps (dst_field code)
  perform-Keeps Arm.dcr code inst b = decrement_register-Keeps (dst_field code)
  perform-Keeps Arm.inx code inst b =
      modify-Keeps (λ s. set_pair (pair_field code) (add16 (pair_value (pair_field code) s) 1) s)
        (λ c v. set_pair-IsValid c v (pair_field code) _ (omega arith))
  perform-Keeps Arm.dcx code inst b =
      modify-Keeps (λ s. set_pair (pair_field code) (dec16 (pair_value (pair_field code) s)) s)
        (λ c v. set_pair-IsValid c v (pair_field code) _ (omega arith))
  perform-Keeps Arm.dad code inst b =
      modify-Keeps (λ s. dad (pair_value (pair_field code) s) s)
        (λ c v. dad-IsValid sound c v (pair_value (pair_field code) c))
  perform-Keeps Arm.alu_register code inst b =
      bind-Yields (read_register-Yields laws (src_field code)) (λ value l.
        modify-Keeps (execute_alu (dst_field code) value)
          (λ c v. execute_alu-IsValid sound c v (dst_field code) value l))
  perform-Keeps Arm.alu_immediate code inst b =
      modify-Keeps (execute_alu (dst_field code) (operand inst 0))
        (λ c v. execute_alu-IsValid sound c v (dst_field code) (operand inst 0) b.first-lt)
  perform-Keeps Arm.jump_if code inst b =
      branch-Keeps (dst_field code) (set_pc-Keeps laws (word_operand inst) (word_operand-lt inst b))
  perform-Keeps Arm.call_if code inst b =
      branch-Keeps (dst_field code) (call-Keeps laws (word_operand inst) (word_operand-lt inst b))
  perform-Keeps Arm.return_if code inst b = branch-Keeps (dst_field code) return-Keeps
  perform-Keeps Arm.rst code inst b = call-Keeps laws (shl16 (dst_field code) 3) (omega arith)
  perform-Keeps Arm.pop code inst b = pop-Keeps laws (pair_field code)
  perform-Keeps Arm.push code inst b = push-Keeps laws (pair_field code)
  perform-Keeps Arm.stax_b code inst b = store_a-Keeps bc bc-lt
  perform-Keeps Arm.stax_d code inst b = store_a-Keeps de de-lt
  perform-Keeps Arm.ldax_b code inst b = load_a-Keeps bc bc-lt
  perform-Keeps Arm.ldax_d code inst b = load_a-Keeps de de-lt
  perform-Keeps Arm.rlc code inst b = modify-Keeps rotate_left (rotate_left-IsValid sound)
  perform-Keeps Arm.rrc code inst b = modify-Keeps rotate_right (rotate_right-IsValid sound)
  perform-Keeps Arm.ral code inst b =
      modify-Keeps rotate_left_through (rotate_left_through-IsValid sound)
  perform-Keeps Arm.rar code inst b =
      modify-Keeps rotate_right_through (rotate_right_through-IsValid sound)
  perform-Keeps Arm.shld code inst b =
      store_hl-Keeps laws (word_operand inst) (word_operand-lt inst b)
  perform-Keeps Arm.lhld code inst b =
      load_hl-Keeps laws (word_operand inst) (word_operand-lt inst b)
  perform-Keeps Arm.daa code inst b = modify-Keeps daa (daa-IsValid sound)
  perform-Keeps Arm.cma code inst b =
      modify-Keeps (λ s. record s { a = complement8 s.a }) (cma-IsValid sound)
  perform-Keeps Arm.sta code inst b =
      bind-Yields (get-Yields (λ s. s.a) (λ c v. v.a-lt))
        (λ a l. mem_write-Keeps laws (word_operand inst) a (word_operand-lt inst b) l)
  perform-Keeps Arm.lda code inst b =
      bind-Yields (mem_read-Yields laws (word_operand inst) (word_operand-lt inst b)) set_a-Keeps
  perform-Keeps Arm.stc code inst b =
      modify-Keeps (λ s. record s { carry = true }) (λ c v. ground arith)
  perform-Keeps Arm.cmc code inst b =
      modify-Keeps (λ s. record s { carry = not s.carry }) (λ c v. ground arith)
  perform-Keeps Arm.jmp code inst b = set_pc-Keeps laws (word_operand inst) (word_operand-lt inst b)
  perform-Keeps Arm.ret code inst b = return-Keeps
  perform-Keeps Arm.call code inst b = call-Keeps laws (word_operand inst) (word_operand-lt inst b)
  perform-Keeps Arm.output code inst b =
      bind-Yields (get-Yields (λ s. s.a) (λ c v. v.a-lt))
        (λ a l. io_output-Keeps io_laws (operand inst 0) a b.first-lt l)
  perform-Keeps Arm.input code inst b =
      bind-Yields (io_input-Yields io_laws (operand inst 0) b.first-lt) set_a-Keeps
  perform-Keeps Arm.xthl code inst b = exchange_stack_hl-Keeps laws
  perform-Keeps Arm.pchl code inst b = bind-Yields (get-Yields hl hl-lt) (set_pc-Keeps laws)
  perform-Keeps Arm.xchg code inst b = modify-Keeps exchange_de_hl (exchange_de_hl-IsValid sound)
  perform-Keeps Arm.di code inst b =
      modify-Keeps (λ s. record s { interrupts_enabled = false }) (λ c v. ground arith)
  perform-Keeps Arm.sphl code inst b =
      modify-Keeps (λ s. record s { sp = hl s }) (λ c v. ground (arith, hl-lt c v))
  perform-Keeps Arm.ei code inst b =
      modify-Keeps (λ s. record s { interrupts_enabled = true }) (λ c v. ground arith)
  perform-Keeps Arm.unimplemented code inst b = fail-Yields (Error.unimplemented_code code) tt
