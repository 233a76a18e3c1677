-- ===== src/Cpu/Step.antt =====
-- cpu/step.go: fetch, decode and execute, the timing, and instructions forced from outside.
use retronet.Base.{
  ℕ, zero, suc, ◌+◌, ◌-◌, bit_and, Bool, true, false, ◌||◌, List, [], ◌∷◌, ◌==◌, if◌then◌else◌,
  add16, u8, u64, length, set, get_or,
}
use retronet.Cpu.Errors.{Error}
use retronet.Cpu.Alu.{I8080}
use retronet.Cpu.Opcode.{
  Opcode, Instruction, InstructionTiming, execute8080_func, unimplemented_func,
}
use retronet.Cpu.Bus.{Memory, Io}
use retronet.Cpu.Decoder.{decode, dst_field}
use retronet.Cpu.State.{Cpu8080, condition_taken}
use retronet.Cpu.Core.{Run, ◌>>=◌, ◌>>◌, pure, fail, get, modify, need_memory, mem_read}
use retronet.Cpu.Perform.{execute8080}

unfoldable pub instruction_timing : Opcode → Cpu8080 → InstructionTiming
instruction_timing op s =
    let conditional = bit_and op.code 0xC7 == 0xC0 || bit_and op.code 0xC7 == 0xC4 in
    let taken = if conditional then condition_taken (dst_field op.code) s else true in
    record {
      states = if taken then op.states else op.min_states;
      wait_states = 0;
      cycle_count = op.cycle_count;
      cycles = op.cycles;
      conditional = conditional;
      taken = taken;
    }

unfoldable pub record_timing : InstructionTiming → Cpu8080 → Cpu8080
record_timing timing s = record s {
  pending_wait_states = 0;
  instruction_count = u64 (s.instruction_count + 1);
  state_count = u64 (s.state_count + timing.states);
  last_timing = record timing { wait_states = s.pending_wait_states };
}

unfoldable pub record_wait_state : Cpu8080 → Cpu8080
record_wait_state s = record s {
  state_count = u64 (s.state_count + 1);
  wait_state_count = u64 (s.wait_state_count + 1);
  pending_wait_states = u64 (s.pending_wait_states + 1);
}

-- `copy(inst.Operands[:], operands)`
abbrev pub copy_operands : List ℕ → List ℕ
copy_operands operands = get_or operands 0 0 ∷ get_or operands 1 0 ∷ []

-- `Instruction{PC: pcBefore, Opcode: op}`
abbrev pub new_instruction : ℕ → Opcode → Instruction
new_instruction pc op = record { pc = pc; opcode = op; operands = 0 ∷ 0 ∷ []; operand_count = 0 }

abbrev pub jam_instruction : ℕ → Opcode → List ℕ → Instruction
jam_instruction pc op operands = record {
  pc = pc;
  opcode = op;
  operands = copy_operands operands;
  operand_count = u8 (op.length - 1);
}

abbrev pub is_stopped : Cpu8080 → Bool
is_stopped s = s.halted || s.stopped

module _ {M P : Type 0} ⦃memory : Memory M⦄ where
  unfoldable pub fetch : Run M P ℕ
  fetch = do
    pc ← get (λ s. s.pc)
    value ← mem_read pc
    modify (λ s. record s { pc = add16 s.pc 1 })
    pure value

  -- the loop `for i := 1; i < op.Length; i++`, with `i` and the rounds left
  unfoldable pub fetch_operands : ℕ → ℕ → Instruction → Run M P Instruction
  unfolding fetch
  fetch_operands zero i inst = pure inst
  fetch_operands (suc left) i inst = fetch >>= λ value. fetch_operands left (i + 1) (record inst {
    operands = set inst.operands (i - 1) value;
    operand_count = u8 (inst.operand_count + 1);
  })

module _ {M P : Type 0} ⦃i8080 : I8080⦄ ⦃memory : Memory M⦄ ⦃ports : Io P⦄ where
  -- op.Execute(c, mem, io, inst); `unimplementedExecute` returns its error
  unfoldable pub execute : Opcode → Instruction → Run M P (Unit {0})
  execute op inst = elim op.execute [
    | execute8080_func ↦ execute8080 inst
    | unimplemented_func ↦ fail (
        Error.unimplemented_opcode inst.pc inst.opcode.code inst.opcode.mnemonic inst.opcode.length)
  ]

  unfoldable pub step_running : Run M P (Unit {0})
  step_running = do
    pc_before ← get (λ s. s.pc)
    code ← fetch
    let op = decode code
    inst ← fetch_operands (op.length - 1) 1 (new_instruction pc_before op)
    timing ← get (instruction_timing op)
    execute op inst
    modify (record_timing timing)

  unfoldable pub step : Run M P (Unit {0})
  unfolding step_running
  step = do
    ended ← get is_stopped
    if ended then fail Error.cpu_stopped else (do need_memory; step_running)

  unfoldable pub jam : ℕ → List ℕ → Run M P (Unit {0})
  jam code operands = do
    need_memory
    let op = decode code
    let want = op.length - 1
    pc ← get (λ s. s.pc)
    if length operands == want
        then (do
          modify (λ s. record s { halted = false; stopped = false })
          timing ← get (instruction_timing op)
          execute op (jam_instruction pc op operands)
          modify (record_timing timing))
        else fail Error.invalid_jam_instruction
