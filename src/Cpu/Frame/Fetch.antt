-- ===== src/Cpu/Frame/Fetch.antt =====
-- The fetch of an instruction: what `Step` executes, and from which state.
use retronet.Base.{
  ℕ, zero, suc, ◌-◌, ◌≤◌, ◌<◌, ◌≡◌, refl, arith, List, [], ◌∷◌, Option, some, add16,
}
use retronet.Cpu.Errors.{ok}
use retronet.Cpu.Alu.{I8080}
use retronet.Cpu.Bus.{Memory, Io}
use retronet.Cpu.Opcode.{Opcode, Instruction}
use retronet.Cpu.Decoder.{decode, length_for}
use retronet.Cpu.Decoder.Agreement.{length_for_bounds}
use retronet.Cpu.State.{Cpu8080}
use retronet.Cpu.Core.{System, Run, ◌>>=◌, ◌>>◌, get, modify, mem_read}
use retronet.Cpu.Step.{
  instruction_timing, record_timing, new_instruction, fetch, fetch_operands, execute, step_running,
}

two_steps : (pc : ℕ) → add16 (add16 pc 1) 1 ≡ add16 pc 2
two_steps pc = omega arith

three_steps : (pc : ℕ) → add16 (add16 pc 2) 1 ≡ add16 pc 3
three_steps pc = omega arith

-- The processor with the memory `m` and the I/O bus `io`.
abbrev pub on_bus : {M P : Type 0} → Cpu8080 → M → Option P → System M P
on_bus c m io = record { cpu = c; mem = some m; io = io }

-- The processor behind `n` bytes of instruction.
abbrev pub advanced : Cpu8080 → ℕ → Cpu8080
advanced c n = record c { pc = add16 c.pc n }

module _ {M : Type 0} ⦃memory : Memory M⦄ where
  -- The operand bytes of an instruction of `n` bytes at `pc`.
  abbrev pub operands_at : M → ℕ → ℕ → List ℕ
  operands_at m pc zero = 0 ∷ 0 ∷ []
  operands_at m pc (suc zero) = 0 ∷ 0 ∷ []
  operands_at m pc (suc (suc zero)) = memory.read m (add16 pc 1) ∷ 0 ∷ []
  operands_at m pc (suc (suc (suc _))) =
      memory.read m (add16 pc 1) ∷ memory.read m (add16 pc 2) ∷ []

  -- The opcode at the program counter.
  abbrev pub opcode_at : M → Cpu8080 → Opcode
  opcode_at m c = decode (memory.read m c.pc)

  abbrev pub instruction_at : M → ℕ → Opcode → Instruction
  instruction_at m pc op = record {
    pc = pc;
    opcode = op;
    operands = operands_at m pc op.length;
    operand_count = op.length - 1;
  }

module _ {M P : Type 0} ⦃memory : Memory M⦄ where
  fetch_lem :
      (c : Cpu8080) (m : M) (io : Option P)
      → fetch (on_bus c m io) ≡ (ok (memory.read m c.pc), on_bus (advanced c 1) m io)
  unfolding fetch mem_read
  fetch_lem c m io = refl

  fetch_operands_lem :
      (c : Cpu8080) (m : M) (io : Option P) (pc n : ℕ) (op : Opcode)
      → op.length ≡ n
      → 1 ≤ n
      → n ≤ 3
      → fetch_operands
          (n - 1)
          1
          (new_instruction pc op)
          (on_bus (record c { pc = add16 pc 1 }) m io)
        ≡ (ok (instruction_at m pc op), on_bus (record c { pc = add16 pc n }) m io)
  unfolding fetch_operands fetch mem_read
  fetch_operands_lem c m io pc zero op e h k = absurd (omega arith)
  fetch_operands_lem c m io pc (suc zero) op e h k = rw e
  fetch_operands_lem c m io pc (suc (suc zero)) op e h k = rw (e, two_steps pc)
  fetch_operands_lem c m io pc (suc (suc (suc zero))) op e h k =
      rw (e, two_steps pc, three_steps pc)
  fetch_operands_lem c m io pc (suc (suc (suc (suc n)))) op e h k = absurd (omega arith)

module _ {M P : Type 0} ⦃i8080 : I8080⦄ ⦃memory : Memory M⦄ ⦃ports : Io P⦄ where
  -- The part of `Step` behind the fetch: execution and timing.
  abbrev pub timed : Opcode → Instruction → Run M P (Unit {0})
  timed op inst = do
    timing ← get (instruction_timing op)
    execute op inst
    modify (record_timing timing)

  -- A step executes the instruction at PC, its operands read from the bytes that follow, from the
  -- state with PC behind it.
  pub step_running_lem :
      (c : Cpu8080) (m : M) (io : Option P)
      → memory.read m c.pc < 256
      → step_running (on_bus c m io)
        ≡ timed
            (opcode_at m c)
            (instruction_at m c.pc (opcode_at m c))
            (on_bus (advanced c (length_for (memory.read m c.pc))) m io)
  unfolding step_running fetch_operands execute decode
  step_running_lem c m io byte =
      let (least, most) = length_for_bounds (memory.read m c.pc) byte in
      let operands =
        fetch_operands_lem c m io c.pc (length_for (memory.read m c.pc)) (opcode_at m c)
          (unfold decode in refl) least most in
      rw (fetch_lem c m io) (rw operands refl)
