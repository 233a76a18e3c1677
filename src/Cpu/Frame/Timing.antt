-- ===== src/Cpu/Frame/Timing.antt =====
-- The counters and the timing behind `CPU8080.Step` (cpu/step.go).
use retronet.Base.{ℕ, ◌+◌, ◌<◌, ◌≡◌, false, Option, u64, ap, ◌∙◌}
use retronet.Cpu.Errors.{ok}
use retronet.Cpu.Alu.{I8080}
use retronet.Cpu.Bus.{Memory, Io}
use retronet.Cpu.Opcode.{InstructionTiming}
use retronet.Cpu.Dispatch.{select}
use retronet.Cpu.Decoder.{cycles_for}
use retronet.Cpu.Decoder.States.{
  counted_states, is_conditional, is_taken, IsTiming, instruction_timing-IsTiming,
}
use retronet.Cpu.State.{Cpu8080}
use retronet.Cpu.Step.{is_stopped, step, instruction_timing}
use retronet.Cpu.Frame.Fetch.{on_bus, opcode_at}
use retronet.Cpu.Frame.Effects.{Counts, step-Counts}

-- The processor `d` is `c` behind one instruction of the opcode `code`, as far as its counters go.
pub record IsTimed (code : ℕ) (c d : Cpu8080) : Type 0 where
  pub instructions : d.instruction_count ≡ u64 (c.instruction_count + 1)
  pub states : d.state_count ≡ u64 (c.state_count + counted_states code c)
  pub waits : d.wait_state_count ≡ c.wait_state_count
  pub no_pending : d.pending_wait_states ≡ 0
  pub last_states : d.last_timing.states ≡ counted_states code c
  pub last_waits : d.last_timing.wait_states ≡ c.pending_wait_states
  pub last_conditional : d.last_timing.conditional ≡ is_conditional (select code)
  pub last_taken : d.last_timing.taken ≡ is_taken code c
  pub last_cycle_count : d.last_timing.cycle_count ≡ (cycles_for code).1
  pub last_cycles : d.last_timing.cycles ≡ (cycles_for code).0

Counts-IsTimed :
    (code : ℕ) (timing : InstructionTiming) (c d : Cpu8080)
    → Counts timing c d
    → IsTiming code c timing
    → IsTimed code c d
Counts-IsTimed code timing c d counts t = record {
  instructions = counts.instructions;
  states = counts.states ∙ ap (λ n. u64 (c.state_count + n)) t.states;
  waits = counts.waits;
  no_pending = counts.no_pending;
  last_states = ap (λ (x : InstructionTiming). x.states) counts.timing_of ∙ t.states;
  last_waits = ap (λ (x : InstructionTiming). x.wait_states) counts.timing_of;
  last_conditional = ap (λ (x : InstructionTiming). x.conditional) counts.timing_of ∙ t.conditional;
  last_taken = ap (λ (x : InstructionTiming). x.taken) counts.timing_of ∙ t.taken;
  last_cycle_count = ap (λ (x : InstructionTiming). x.cycle_count) counts.timing_of ∙ t.cycle_count;
  last_cycles = ap (λ (x : InstructionTiming). x.cycles) counts.timing_of ∙ t.cycles;
}

module _ {M P : Type 0} ⦃i8080 : I8080⦄ ⦃memory : Memory M⦄ ⦃ports : Io P⦄ where
  -- A successful step of a running processor, over a memory that reads a byte at PC, counts one
  -- instruction and the states that the instruction set gives for its opcode, modulo 2^64: for a
  -- conditional call or return six fewer when the flag of its condition, in the state before, is not as
  -- the condition asks. It records these states, whether the instruction was conditional and taken, its
  -- machine cycles in the decoder's table, and the pending wait states, of which none are left.
  pub step-IsTimed :
      (c : Cpu8080) (m : M) (io : Option P)
      → memory.read m c.pc < 256
      → is_stopped c ≡ false
      → (step (on_bus c m io)).0 ≡ ok tt
      → IsTimed (memory.read m c.pc) c (step (on_bus c m io)).1.cpu
  step-IsTimed c m io byte running done =
      let code = memory.read m c.pc in
      Counts-IsTimed code (instruction_timing (opcode_at m c) c) c (step (on_bus c m io)).1.cpu
        (step-Counts c m io byte running done) (instruction_timing-IsTiming code c byte)
