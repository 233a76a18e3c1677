-- ===== src/Cpu/Frame/Arms.antt =====
-- Each case of the switches of `execute8080`: what it can change and how it can fail.
use retronet.Base.{
  ℕ, ◌≡◌, refl, arith, Bool, true, false, not, if◌then◌else◌, bit_and, ◌==◌, shl16, add16, dec16,
  complement8,
}
use retronet.Cpu.Errors.{Error}
use retronet.Cpu.Alu.{I8080}
use retronet.Cpu.Bus.{Memory, Io}
use retronet.Cpu.Opcode.{Instruction, operand, word_operand}
use retronet.Cpu.Dispatch.{Arm}
use retronet.Cpu.Decoder.{dst_field, src_field, pair_field}
use retronet.Cpu.State.{Cpu8080, set_pc, hl, bc, de, set_pair, pair_value, set_hl, condition_taken}
use retronet.Cpu.Core.{System, Run, ◌>>=◌, pure, get, modify, mem_read, mem_write}
use retronet.Cpu.Execute.{
  execute_alu, increment, decrement, dad, daa, rotate_left, rotate_right, rotate_left_through,
  rotate_right_through, exchange_de_hl, halt, pop_word,
}
use retronet.Cpu.Perform.{increment_register, decrement_register, perform}
use retronet.Cpu.Frame.{
  SameControl, IsFrame, AllowsWrite, AllowsJump, Relates, bind-Relates, then-Relates, pure-Relates,
  fail-Relates, get-Relates, modify-Relates, jump-Relates, if-Relates, mem_read-Relates,
  mem_write-Relates, io_input-Relates, io_output-Relates,
}
use retronet.Cpu.Frame.Access.{
  read_register-Relates, write_register-Relates, execute_mov-Relates, pop_word-Relates, pop-Relates,
  load_hl-Relates, call-Relates, push-Relates, store_hl-Relates, exchange_stack_hl-Relates,
}

-- The cases that store to memory, for the opcode `code`; a register field of 6 is the memory.
abbrev pub writes_memory : Arm → ℕ → Bool
writes_memory Arm.mov code = bit_and (dst_field code) 0x07 == 6
writes_memory Arm.mvi code = bit_and (dst_field code) 0x07 == 6
writes_memory Arm.inr code = bit_and (dst_field code) 0x07 == 6
writes_memory Arm.dcr code = bit_and (dst_field code) 0x07 == 6
writes_memory Arm.call_if code = true
writes_memory Arm.rst code = true
writes_memory Arm.push code = true
writes_memory Arm.stax_b code = true
writes_memory Arm.stax_d code = true
writes_memory Arm.shld code = true
writes_memory Arm.sta code = true
writes_memory Arm.call code = true
writes_memory Arm.xthl code = true
writes_memory _ code = false

-- The cases that may leave the program counter elsewhere than behind the instruction.
abbrev pub branches : Arm → Bool
branches Arm.jump_if = true
branches Arm.call_if = true
branches Arm.return_if = true
branches Arm.rst = true
branches Arm.jmp = true
branches Arm.ret = true
branches Arm.call = true
branches Arm.pchl = true
branches _ = false

-- The errors of a case: IN and OUT need a bus, and the default refuses.
abbrev pub FailsWith : Arm → ℕ → Error → Type 0
FailsWith Arm.input code e = e ≡ Error.nil_io
FailsWith Arm.output code e = e ≡ Error.nil_io
FailsWith Arm.unimplemented code e = e ≡ Error.unimplemented_code code
FailsWith _ code e = ⊥

module _ ⦃i8080 : I8080⦄ where
  execute_alu-SameControl : (g v : ℕ) (c : Cpu8080) → SameControl c (execute_alu g v c)
  unfolding execute_alu
  execute_alu-SameControl g v c = ground arith

  increment-SameControl : (v : ℕ) (c : Cpu8080) → SameControl c (increment v c).1
  unfolding increment
  increment-SameControl v c = ground arith

  decrement-SameControl : (v : ℕ) (c : Cpu8080) → SameControl c (decrement v c).1
  unfolding decrement
  decrement-SameControl v c = ground arith

  dad-SameControl : (v : ℕ) (c : Cpu8080) → SameControl c (dad v c)
  unfolding dad set_hl
  dad-SameControl v c = ground arith

  daa-SameControl : (c : Cpu8080) → SameControl c (daa c)
  unfolding daa
  daa-SameControl c = ground arith

set_pair-SameControl : (pair w : ℕ) (c : Cpu8080) → SameControl c (set_pair pair w c)
unfolding set_pair
set_pair-SameControl pair w c = ground arith

module _ {M P : Type 0} ⦃i8080 : I8080⦄ ⦃memory : Memory M⦄ ⦃ports : Io P⦄
    {R : System M P → System M P → Type 0} (frame : IsFrame R) {E : Error → Type 0} where
  increment_register-Relates :
      (r : ℕ) → ((bit_and r 0x07 == 6) ≡ true → AllowsWrite R) → Relates R E (increment_register r)
  unfolding increment_register
  increment_register-Relates r allows = bind-Relates frame (read_register-Relates frame r) λ value.
      bind-Relates frame (get-Relates frame (λ s. (increment value s).0)) λ result.
        then-Relates frame
          (modify-Relates frame (λ s. (increment value s).1) (increment-SameControl value))
          (write_register-Relates frame r result allows)

  decrement_register-Relates :
      (r : ℕ) → ((bit_and r 0x07 == 6) ≡ true → AllowsWrite R) → Relates R E (decrement_register r)
  unfolding decrement_register
  decrement_register-Relates r allows = bind-Relates frame (read_register-Relates frame r) λ value.
      bind-Relates frame (get-Relates frame (λ s. (decrement value s).0)) λ result.
        then-Relates frame
          (modify-Relates frame (λ s. (decrement value s).1) (decrement-SameControl value))
          (write_register-Relates frame r result allows)

  set_a-Relates : (value : ℕ) → Relates R E (modify (λ s. record s { a = value }))
  set_a-Relates value = modify-Relates frame (λ s. record s { a = value }) (λ c. ground arith)

  store_a-Relates :
      AllowsWrite R
      → (f : Cpu8080 → ℕ) → Relates R E (do addr ← get f; a ← get (λ s. s.a); mem_write addr a)
  store_a-Relates allows f = bind-Relates frame (get-Relates frame f) λ addr.
      bind-Relates frame (get-Relates frame (λ s. s.a)) (mem_write-Relates frame allows addr)

  load_a-Relates :
      (f : Cpu8080 → ℕ)
      → Relates R E (do addr ← get f; value ← mem_read addr; modify (λ s. record s { a = value }))
  load_a-Relates f =
      bind-Relates frame (get-Relates frame f)
        λ addr. bind-Relates frame (mem_read-Relates frame addr) set_a-Relates

  branch-Relates :
      (cond : ℕ) {m : Run M P (Unit {0})}
      → Relates R E m
      → Relates R E (do taken ← get (condition_taken cond); if taken then m else pure tt)
  branch-Relates cond h =
      bind-Relates frame (get-Relates frame (condition_taken cond))
        λ taken. if-Relates frame taken h (pure-Relates frame tt)

  return-Relates : AllowsJump R → Relates R E (do addr ← pop_word; modify (set_pc addr))
  return-Relates jumps = bind-Relates frame (pop_word-Relates frame) (jump-Relates frame jumps)

module _ {M P : Type 0} ⦃i8080 : I8080⦄ ⦃memory : Memory M⦄ ⦃ports : Io P⦄
    {R : System M P → System M P → Type 0} (frame : IsFrame R) where
  -- A case writes and jumps only where it is said to, and fails only as it is said to.
  pub perform-Relates :
      (arm : Arm) (code : ℕ) (inst : Instruction)
      → (writes_memory arm code ≡ true → AllowsWrite R)
      → (branches arm ≡ true → AllowsJump R)
      → Relates R (FailsWith arm code) (perform arm code inst)
  unfolding perform
  perform-Relates Arm.nop code inst w j = pure-Relates frame tt
  perform-Relates Arm.hlt code inst w j =
      modify-Relates frame halt (λ c. unfold halt in ground arith)
  perform-Relates Arm.mov code inst w j = execute_mov-Relates frame code w
  perform-Relates Arm.mvi code inst w j =
      write_register-Relates frame (dst_field code) (operand inst 0) w
  perform-Relates Arm.lxi code inst w j =
      modify-Relates frame (set_pair (pair_field code) (word_operand inst))
        (set_pair-SameControl (pair_field code) (word_operand inst))
  perform-Relates Arm.inr code inst w j = increment_register-Relates frame (dst_field code) w
  perform-Relates Arm.dcr code inst w j = decrement_register-Relates frame (dst_field code) w
  perform-Relates Arm.inx code inst w j =
      modify-Relates frame
        (λ s. set_pair (pair_field code) (add16 (pair_value (pair_field code) s) 1) s)
        (λ c. set_pair-SameControl (pair_field code) _ c)
  perform-Relates Arm.dcx code inst w j =
      modify-Relates frame
        (λ s. set_pair (pair_field code) (dec16 (pair_value (pair_field code) s)) s)
        (λ c. set_pair-SameControl (pair_field code) _ c)
  perform-Relates Arm.dad code inst w j =
      modify-Relates frame (λ s. dad (pair_value (pair_field code) s) s)
        (λ c. dad-SameControl (pair_value (pair_field code) c) c)
  perform-Relates Arm.alu_register code inst w j =
      bind-Relates frame (read_register-Relates frame (src_field code)) (λ value.
        modify-Relates frame (execute_alu (dst_field code) value)
          (execute_alu-SameControl (dst_field code) value))
  perform-Relates Arm.alu_immediate code inst w j =
      modify-Relates frame (execute_alu (dst_field code) (operand inst 0))
        (execute_alu-SameControl (dst_field code) (operand inst 0))
  perform-Relates Arm.jump_if code inst w j =
      branch-Relates frame (dst_field code) (jump-Relates frame (j refl) (word_operand inst))
  perform-Relates Arm.call_if code inst w j =
      branch-Relates frame (dst_field code)
        (call-Relates frame (w refl) (j refl) (word_operand inst))
  perform-Relates Arm.return_if code inst w j =
      branch-Relates frame (dst_field code) (return-Relates frame (j refl))
  perform-Relates Arm.rst code inst w j =
      call-Relates frame (w refl) (j refl) (shl16 (dst_field code) 3)
  perform-Relates Arm.pop code inst w j = pop-Relates frame (pair_field code)
  perform-Relates Arm.push code inst w j = push-Relates frame (w refl) (pair_field code)
  perform-Relates Arm.stax_b code inst w j = store_a-Relates frame (w refl) bc
  perform-Relates Arm.stax_d code inst w j = store_a-Relates frame (w refl) de
  perform-Relates Arm.ldax_b code inst w j = load_a-Relates frame bc
  perform-Relates Arm.ldax_d code inst w j = load_a-Relates frame de
  perform-Relates Arm.rlc code inst w j =
      modify-Relates frame rotate_left (λ c. unfold rotate_left in ground arith)
  perform-Relates Arm.rrc code inst w j =
      modify-Relates frame rotate_right (λ c. unfold rotate_right in ground arith)
  perform-Relates Arm.ral code inst w j =
      modify-Relates frame rotate_left_through (λ c. unfold rotate_left_through in ground arith)
  perform-Relates Arm.rar code inst w j =
      modify-Relates frame rotate_right_through (λ c. unfold rotate_right_through in ground arith)
  perform-Relates Arm.shld code inst w j = store_hl-Relates frame (w refl) (word_operand inst)
  perform-Relates Arm.lhld code inst w j = load_hl-Relates frame (word_operand inst)
  perform-Relates Arm.daa code inst w j = modify-Relates frame daa daa-SameControl
  perform-Relates Arm.cma code inst w j =
      modify-Relates frame (λ s. record s { a = complement8 s.a }) (λ c. ground arith)
  perform-Relates Arm.sta code inst w j =
      bind-Relates frame (get-Relates frame (λ s. s.a))
        (mem_write-Relates frame (w refl) (word_operand inst))
  perform-Relates Arm.lda code inst w j =
      bind-Relates frame (mem_read-Relates frame (word_operand inst)) (set_a-Relates frame)
  perform-Relates Arm.stc code inst w j =
      modify-Relates frame (λ s. record s { carry = true }) (λ c. ground arith)
  perform-Relates Arm.cmc code inst w j =
      modify-Relates frame (λ s. record s { carry = not s.carry }) (λ c. ground arith)
  perform-Relates Arm.jmp code inst w j = jump-Relates frame (j refl) (word_operand inst)
  perform-Relates Arm.ret code inst w j = return-Relates frame (j refl)
  perform-Relates Arm.call code inst w j = call-Relates frame (w refl) (j refl) (word_operand inst)
  perform-Relates Arm.output code inst w j =
      bind-Relates frame (get-Relates frame (λ s. s.a))
        (io_output-Relates frame refl (operand inst 0))
  perform-Relates Arm.input code inst w j =
      bind-Relates frame (io_input-Relates frame refl (operand inst 0)) (set_a-Relates frame)
  perform-Relates Arm.xthl code inst w j = exchange_stack_hl-Relates frame (w refl)
  perform-Relates Arm.pchl code inst w j =
      bind-Relates frame (get-Relates frame hl) (jump-Relates frame (j refl))
  perform-Relates Arm.xchg code inst w j =
      modify-Relates frame exchange_de_hl (λ c. unfold exchange_de_hl in ground arith)
  perform-Relates Arm.di code inst w j =
      modify-Relates frame (λ s. record s { interrupts_enabled = false }) (λ c. ground arith)
  perform-Relates Arm.sphl code inst w j =
      modify-Relates frame (λ s. record s { sp = hl s }) (λ c. ground arith)
  perform-Relates Arm.ei code inst w j =
      modify-Relates frame (λ s. record s { interrupts_enabled = true }) (λ c. ground arith)
  perform-Relates Arm.unimplemented code inst w j =
      fail-Relates frame (Error.unimplemented_code code) refl
