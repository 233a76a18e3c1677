-- ===== src/Cpu/Frame/Effects.antt =====
-- `CPU8080.Step` (cpu/step.go) as a whole: the program counter, the memory and the counters.
use retronet.Base.{
  ℕ, ◌+◌, ◌<◌, ◌≡◌, refl, arith, true, false, Option, some, add16, u64, Bool-cases, inl, inr, ◌∙◌,
  sym, ap, subst,
}
use retronet.Cpu.Errors.{Result, ok, err, panicked}
use retronet.Cpu.Alu.{I8080}
use retronet.Cpu.Bus.{Memory, Io}
use retronet.Cpu.Codes.{is_unassigned_opcode}
use retronet.Cpu.Opcode.{Opcode, Instruction, InstructionTiming}
use retronet.Cpu.Dispatch.{select}
use retronet.Cpu.Decoder.{decode, length_for}
use retronet.Cpu.State.{Cpu8080, set_pc, condition_taken}
use retronet.Cpu.Core.{System, pass, modify}
use retronet.Cpu.Step.{instruction_timing, record_timing, is_stopped, execute, step}
use retronet.Cpu.Frame.{SameBooks, IsFrame, AllowsWrite, AllowsJump, Present}
use retronet.Cpu.Frame.Arms.{writes_memory, branches, perform-Relates}
use retronet.Cpu.Frame.Fetch.{on_bus, advanced, instruction_at, opcode_at}
use retronet.Cpu.Frame.Steps.{SamePc-IsFrame, SameMem-IsFrame, Bookkeeping, Bookkeeping-IsFrame}
use retronet.Cpu.Frame.Outcome.{
  instruction_code, execute_assigned, execute_unassigned, step_lem, pass_outcome,
}

record_timing_pc : (timing : InstructionTiming) (c : Cpu8080) → (record_timing timing c).pc ≡ c.pc
unfolding record_timing
record_timing_pc timing c = refl

-- The counters and the timing after an instruction.
pub record Counts (timing : InstructionTiming) (c d : Cpu8080) : Type 0 where
  pub instructions : d.instruction_count ≡ u64 (c.instruction_count + 1)
  pub states : d.state_count ≡ u64 (c.state_count + timing.states)
  pub waits : d.wait_state_count ≡ c.wait_state_count
  pub timing_of : d.last_timing ≡ record timing { wait_states = c.pending_wait_states }
  pub no_pending : d.pending_wait_states ≡ 0

Counts-record_timing :
    (timing : InstructionTiming) (c d : Cpu8080)
    → SameBooks c d
    → Counts timing c (record_timing timing d)
unfolding record_timing
Counts-record_timing timing c d h = record {
  instructions = ap (λ n. u64 (n + 1)) h.same_instructions;
  states = ap (λ n. u64 (n + timing.states)) h.same_states;
  waits = h.same_waits;
  timing_of = ap (λ n. record timing { wait_states = n }) h.same_pending;
  no_pending = refl;
}

books_behind : (c d : Cpu8080) (n : ℕ) → SameBooks (advanced c n) d → SameBooks c d
books_behind c d n h = record {
  same_instructions = h.same_instructions;
  same_states = h.same_states;
  same_waits = h.same_waits;
  same_timing = h.same_timing;
  same_pending = h.same_pending;
  same_alu = h.same_alu;
}

-- The program counter has no part in the timing.
timing_behind :
    (op : Opcode) (c : Cpu8080) (n : ℕ)
    → instruction_timing op (advanced c n) ≡ instruction_timing op c
unfolding instruction_timing condition_taken
timing_behind op c n = refl

module _ {M P : Type 0} ⦃i8080 : I8080⦄ ⦃memory : Memory M⦄ ⦃ports : Io P⦄ where
  pass_keeps :
      (Q : System M P → Type 0) (x : Result (Unit {0}) × System M P) (f : Cpu8080 → Cpu8080)
      → Q x.1
      → ((t : System M P) → Q t → Q (record t { cpu = f t.cpu }))
      → Q (pass x (λ _. modify f)).1
  pass_keeps Q (ok tt, t) f q next = next t q
  pass_keeps Q (err e, t) f q next = q
  pass_keeps Q (panicked, t) f q next = q

  execute-Relates :
      {R : System M P → System M P → Type 0} (frame : IsFrame R) (code : ℕ) (inst : Instruction)
      (s : System M P)
      → Present s.mem
      → inst.opcode.code ≡ code
      → (writes_memory (select code) code ≡ true → AllowsWrite R)
      → (branches (select code) ≡ true → AllowsJump R)
      → R s (execute (decode code) inst s).1
  execute-Relates {R} frame code inst s p h w j = elim (Bool-cases (is_unassigned_opcode code)) [
    | inl e ↦ subst (λ x. R s x.1) (sym (execute_unassigned code inst s e)) (frame.same s)
    | inr e ↦
        subst (λ x. R s x.1) (sym (execute_assigned code inst s e h))
          ((perform-Relates frame (select code) code inst w j).runs s p).0
  ]

  -- What holds of the states that a frame relates to the one behind the fetch, and what the timing
  -- keeps, holds behind the step.
  step_keeps :
      {R : System M P → System M P → Type 0} (frame : IsFrame R) (Q : System M P → Type 0)
      (c : Cpu8080) (m : M) (io : Option P)
      → memory.read m c.pc < 256
      → is_stopped c ≡ false
      → (writes_memory (select (memory.read m c.pc)) (memory.read m c.pc) ≡ true → AllowsWrite R)
      → (branches (select (memory.read m c.pc)) ≡ true → AllowsJump R)
      → ((t : System M P) → R (on_bus (advanced c (length_for (memory.read m c.pc))) m io) t → Q t)
      → ((timing : InstructionTiming) (t : System M P)
          → Q t
          → Q (record t { cpu = record_timing timing t.cpu }))
      → Q (step (on_bus c m io)).1
  step_keeps {R} frame Q c m io byte running w j start next =
      let code = memory.read m c.pc in
      let s = on_bus (advanced c (length_for code)) m io in
      let inst = instruction_at m c.pc (decode code) in
      let timing = instruction_timing (decode code) s.cpu in
      subst (λ x. Q x.1) (sym (step_lem c m io byte running))
        (pass_keeps Q (execute (decode code) inst s) (record_timing timing)
          (start _ (execute-Relates frame code inst s tt (instruction_code m c.pc code) w j))
          (next timing))

  -- Behind a step of a running processor on an opcode that is no jump, call, return, RST or PCHL, PC is
  -- behind the instruction, modulo 2^16, whether the step succeeds or not.
  pub step_pc :
      (c : Cpu8080) (m : M) (io : Option P)
      → memory.read m c.pc < 256
      → is_stopped c ≡ false
      → branches (select (memory.read m c.pc)) ≡ false
      → (step (on_bus c m io)).1.cpu.pc ≡ add16 c.pc (length_for (memory.read m c.pc))
  step_pc c m io byte running falls =
      step_keeps SamePc-IsFrame (λ t. t.cpu.pc ≡ add16 c.pc (length_for (memory.read m c.pc))) c m
        io byte running (λ _ _ _. refl) (λ h. absurd (ground arith)) (λ t r. r)
        (λ timing t q. record_timing_pc timing t.cpu ∙ q)

  -- A step of a running processor on an opcode that stores nothing leaves the memory as it was.
  pub step_memory :
      (c : Cpu8080) (m : M) (io : Option P)
      → memory.read m c.pc < 256
      → is_stopped c ≡ false
      → writes_memory (select (memory.read m c.pc)) (memory.read m c.pc) ≡ false
      → (step (on_bus c m io)).1.mem ≡ some m
  step_memory c m io byte running reads =
      step_keeps SameMem-IsFrame (λ t. t.mem ≡ some m) c m io byte running
        (λ h. absurd (ground arith)) (λ _ _ _. refl) (λ t r. r) (λ timing t q. q)

  -- A memory on the bus stays there.
  abbrev Furnished : System M P → System M P → Type 0
  Furnished s t = Present s.mem → Present t.mem

  Furnished-IsFrame : IsFrame Furnished
  Furnished-IsFrame = record {
    same = λ s p. p;
    compose = λ s t u p q r. q (p r);
    registers = λ s d h p. p;
    ports = λ s io p. p;
  }

  pub step-Present :
      (c : Cpu8080) (m : M) (io : Option P)
      → memory.read m c.pc < 256
      → is_stopped c ≡ false
      → Present (step (on_bus c m io)).1.mem
  step-Present c m io byte running =
      step_keeps Furnished-IsFrame (λ t. Present t.mem) c m io byte running (λ _ _ _ _. tt)
        (λ _ _ _ p. p) (λ t r. r tt) (λ timing t q. q)

  allows_write : AllowsWrite (Bookkeeping {M = M} {P = P})
  allows_write s m = ground arith

  allows_jump : AllowsJump (Bookkeeping {M = M} {P = P})
  unfolding set_pc
  allows_jump s addr = ground arith

  pass-Counts :
      (x : Result (Unit {0}) × System M P) (timing : InstructionTiming) (c : Cpu8080)
      → SameBooks c x.1.cpu
      → x.0 ≡ ok tt
      → Counts timing c (pass x (λ _. modify (record_timing timing))).1.cpu
  pass-Counts (ok tt, t) timing c h e = Counts-record_timing timing c t.cpu h
  pass-Counts (err e, t) timing c h d = absurd (ground arith)
  pass-Counts (panicked, t) timing c h d = absurd (ground arith)

  -- A successful step of a running processor counts one instruction and the states of its opcode, modulo
  -- 2^64, for a conditional call or return as its condition in the state before decides, and records
  -- that timing with the pending wait states, of which none are left.
  pub step-Counts :
      (c : Cpu8080) (m : M) (io : Option P)
      → memory.read m c.pc < 256
      → is_stopped c ≡ false
      → (step (on_bus c m io)).0 ≡ ok tt
      → Counts (instruction_timing (opcode_at m c) c) c (step (on_bus c m io)).1.cpu
  step-Counts c m io byte running done =
      let code = memory.read m c.pc in
      let s = on_bus (advanced c (length_for code)) m io in
      let inst = instruction_at m c.pc (decode code) in
      let books : Bookkeeping s (execute (decode code) inst s).1 =
        execute-Relates Bookkeeping-IsFrame code inst s tt (instruction_code m c.pc code)
          (λ _. allows_write) (λ _. allows_jump) in
      let counts =
        pass-Counts (execute (decode code) inst s) (instruction_timing (decode code) c) c
          (books_behind _ _ _ books)
          (sym (pass_outcome (execute (decode code) inst s) _)
            ∙ sym (ap (λ x. x.0) (step_lem c m io byte running))
            ∙ done) in
      subst (λ x. Counts (instruction_timing (decode code) c) c x.1.cpu)
        (sym (step_lem c m io byte running))
        (subst
          (λ timing.
            Counts (instruction_timing (decode code) c) c
              (pass (execute (decode code) inst s) (λ _. modify (record_timing timing))).1.cpu)
          (sym (timing_behind (decode code) c (length_for code))) counts)
