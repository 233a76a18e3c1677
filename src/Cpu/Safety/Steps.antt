-- ===== src/Cpu/Safety/Steps.antt =====
-- Safety of `Step` and `Jam`.
use retronet.Base.{
  ℕ, zero, suc, ◌+◌, ◌-◌, ◌<◌, arith, false, ◌==◌, List, [], ◌∷◌, get_or, set, length, Option,
  add16,
}
use retronet.Cpu.Errors.{Error}
use retronet.Cpu.Alu.{I8080, AluBackend}
use retronet.Cpu.Bus.{Memory, Io, MemoryLaws, IoLaws}
use retronet.Cpu.Opcode.{
  Opcode, Instruction, InstructionTiming, ExecuteFunc, execute8080_func, unimplemented_func,
}
use retronet.Cpu.Decoder.{decode}
use retronet.Cpu.Dispatch.{select}
use retronet.Cpu.State.{Cpu8080, chosen}
use retronet.Cpu.State.Valid.{IsSound, IsValid}
use retronet.Cpu.Core.{System, ◌>>=◌, ◌>>◌, fail, get, modify}
use retronet.Cpu.Perform.{execute8080}
use retronet.Cpu.Step.{
  instruction_timing, record_timing, record_wait_state, jam_instruction, is_stopped, fetch,
  fetch_operands, new_instruction, execute, step_running, step, jam,
}
use retronet.Cpu.Safety.{
  Contract, Good, Yields, Keeps, Outcome, bind-Yields, then-Yields, pure-Yields, fail-Yields,
  get-Yields, modify-Keeps, need_memory-Keeps, mem_read-Yields, if-Yields,
}
use retronet.Cpu.Safety.Arms.{HasByteOperands, perform-Keeps}

get_or-set-lt :
    (l : List ℕ) (i j v : ℕ) → v < 256 → get_or l j 0 < 256 → get_or (set l i v) j 0 < 256
get_or-set-lt [] i j v h b = b
get_or-set-lt (x ∷ l) zero zero v h b = h
get_or-set-lt (x ∷ l) zero (suc j) v h b = b
get_or-set-lt (x ∷ l) (suc i) zero v h b = b
get_or-set-lt (x ∷ l) (suc i) (suc j) v h b = get_or-set-lt l i j v h b

new_bytes : (pc : ℕ) (op : Opcode) → HasByteOperands (new_instruction pc op)
new_bytes pc op = omega arith

-- The timing of an instruction leaves the registers alone.
record_timing-IsValid :
    {k : Option AluBackend} (t : InstructionTiming) (c : Cpu8080)
    → IsValid k c
    → IsValid k (record_timing t c)
unfolding record_timing
record_timing-IsValid t c v = ground arith

pub record_wait_state-IsValid :
    {k : Option AluBackend} (c : Cpu8080) → IsValid k c → IsValid k (record_wait_state c)
unfolding record_wait_state
record_wait_state-IsValid c v = ground arith

-- The state behind `n` calls of `Step`, whatever they return.
unfoldable pub steps :
    {M P : Type 0}
    → ⦃i8080 : I8080⦄ → ⦃memory : Memory M⦄ → ⦃ports : Io P⦄ → ℕ
    → System M P
    → System M P
steps zero s = s
steps (suc n) s = steps n (step s).1

module _ {M P : Type 0} {K : Contract M P} ⦃memory : Memory M⦄
    (laws : MemoryLaws memory K.holds_mem) where
  fetch-Yields : Yields K (λ v. v < 256) fetch
  unfolding fetch
  fetch-Yields = bind-Yields (get-Yields (λ s. s.pc) (λ c v. v.pc-lt)) λ pc l.
      bind-Yields (mem_read-Yields laws pc l) λ value b.
        then-Yields (modify-Keeps (λ s. record s { pc = add16 s.pc 1 }) (λ c v. ground arith))
          (pure-Yields b)

  fetch_operands-Yields :
      (left i : ℕ) (inst : Instruction)
      → HasByteOperands inst
      → Yields K HasByteOperands (fetch_operands left i inst)
  unfolding fetch_operands
  fetch_operands-Yields zero i inst b = pure-Yields b
  fetch_operands-Yields (suc left) i inst b = bind-Yields fetch-Yields λ value h.
      fetch_operands-Yields left (i + 1) _ (record {
        first-lt = get_or-set-lt inst.operands (i - 1) 0 value h b.first-lt;
        second-lt = get_or-set-lt inst.operands (i - 1) 1 value h b.second-lt;
      })

module _ {M P : Type 0} {K : Contract M P} ⦃i8080 : I8080⦄ ⦃memory : Memory M⦄ ⦃ports : Io P⦄
    (laws : MemoryLaws memory K.holds_mem) (io_laws : IoLaws ports K.holds_io)
    (sound : IsSound (chosen K.alu)) where
  execute8080-Keeps : (inst : Instruction) → HasByteOperands inst → Keeps K (execute8080 inst)
  unfolding execute8080
  execute8080-Keeps inst b =
      perform-Keeps laws io_laws sound (select inst.opcode.code) inst.opcode.code inst b

  execute-Keeps :
      (op : Opcode) (inst : Instruction) → HasByteOperands inst → Keeps K (execute op inst)
  unfolding execute
  execute-Keeps op inst b = by_function op.execute
    where
      by_function :
          (f : ExecuteFunc)
          → Keeps K (elim f [
            | execute8080_func ↦ execute8080 inst
            | unimplemented_func ↦ fail (
                Error.unimplemented_opcode inst.pc inst.opcode.code inst.opcode.mnemonic
                  inst.opcode.length)
          ])
      by_function execute8080_func = execute8080-Keeps inst b
      by_function unimplemented_func = fail-Yields _ tt

  timed-Keeps :
      (op : Opcode) (inst : Instruction)
      → HasByteOperands inst
      → Keeps K
          (do timing ← get (instruction_timing op); execute op inst; modify (record_timing timing))
  timed-Keeps op inst b =
      bind-Yields {Q = λ _. Unit {0}} (get-Yields (instruction_timing op) (λ c v. tt)) λ timing _.
        then-Yields (execute-Keeps op inst b)
          (modify-Keeps (record_timing timing) (record_timing-IsValid timing))

  step_running-Keeps : Keeps K step_running
  unfolding step_running
  step_running-Keeps = bind-Yields (get-Yields (λ s. s.pc) (λ c v. v.pc-lt)) λ pc _.
      bind-Yields (fetch-Yields laws) λ code _.
        bind-Yields
          (fetch_operands-Yields laws ((decode code).length - 1) 1
            (new_instruction pc (decode code)) (new_bytes pc (decode code)))
          λ inst b. timed-Keeps (decode code) inst b

  step-Keeps : Keeps K step
  unfolding step
  step-Keeps = bind-Yields {Q = λ _. Unit {0}} (get-Yields is_stopped (λ c v. tt)) λ ended _.
      if-Yields ended (fail-Yields Error.cpu_stopped tt)
        (then-Yields need_memory-Keeps step_running-Keeps)

  -- From a state with a memory, where every register, PC, SP and counter fits its width and the memory
  -- and the I/O bus keep their promises, `Step` ends in such a state, does not panic, and does not
  -- report a nil memory; the backend returns bytes for bytes and words for words.
  pub step_safe : (s : System M P) → Good K s → Good K (step s).1 × Outcome (λ _. Unit) (step s).0
  step_safe s g = step-Keeps.runs s g

  -- Every number of calls of `Step` from a state that fits, with a memory and buses that keep their
  -- promises and a sound backend, ends in a state that fits.
  pub steps_safe : (n : ℕ) (s : System M P) → Good K s → Good K (steps n s)
  unfolding steps
  steps_safe zero s g = g
  steps_safe (suc n) s g = steps_safe n (step s).1 (step_safe s g).0

  restart-IsValid :
      (c : Cpu8080) → IsValid K.alu c → IsValid K.alu (record c { halted = false; stopped = false })
  restart-IsValid c v = ground arith

  jam-Keeps :
      (code : ℕ) (operands : List ℕ)
      → get_or operands 0 0 < 256
      → get_or operands 1 0 < 256
      → Keeps K (jam code operands)
  unfolding jam
  jam-Keeps code operands p q = then-Yields need_memory-Keeps (
      bind-Yields {Q = λ _. Unit {0}} (get-Yields (λ s. s.pc) (λ c v. tt)) λ pc _.
        if-Yields (length operands == (decode code).length - 1)
          (then-Yields
            (modify-Keeps (λ s. record s { halted = false; stopped = false }) restart-IsValid)
            (timed-Keeps (decode code) (jam_instruction pc (decode code) operands)
              (record { first-lt = p; second-lt = q })))
          (fail-Yields Error.invalid_jam_instruction tt))

  -- `Jam` of byte operands, whatever the opcode and their number, ends in a state that fits from a state
  -- that fits, does not panic, and does not report a nil memory, under the same promises of the memory,
  -- the I/O bus and the backend.
  pub jam_safe :
      (code : ℕ) (operands : List ℕ) (s : System M P)
      → get_or operands 0 0 < 256
      → get_or operands 1 0 < 256
      → Good K s
      → Good K (jam code operands s).1 × Outcome (λ _. Unit) (jam code operands s).0
  jam_safe code operands s p q g = (jam-Keeps code operands p q).runs s g
