-- ===== src/Cpu/Frame/Outcome.antt =====
-- `CPU8080.Step` (cpu/step.go) as a whole: the outcome.
use retronet.Base.{
  ℕ, ◌<◌, ◌≡◌, refl, arith, Bool, true, false, not, ◌&&◌, ◌||◌, if◌then◌else◌, ◌==◌, Option, none,
  some, all_below, all_below_lem, Bool-cases, inl, inr, ◌∙◌, ap,
}
use retronet.Cpu.Errors.{Error, Result, ok, err, panicked}
use retronet.Cpu.Alu.{I8080}
use retronet.Cpu.Bus.{Memory, Io}
use retronet.Cpu.Codes.{is_unassigned_opcode}
use retronet.Cpu.Mnemonic.{mnemonic_for}
use retronet.Cpu.Opcode.{Instruction}
use retronet.Cpu.Dispatch.{Arm, select, select_fixed}
use retronet.Cpu.Decoder.{decode, length_for}
use retronet.Cpu.State.{Cpu8080}
use retronet.Cpu.Core.{System, pass, modify, need_memory}
use retronet.Cpu.Perform.{perform, execute8080}
use retronet.Cpu.Step.{is_stopped, execute, step}
use retronet.Cpu.Frame.Fetch.{on_bus, advanced, instruction_at, timed, opcode_at, step_running_lem}
use retronet.Cpu.Frame.Steps.{is_nil, uses_bus, arm_verdict, perform-arm_verdict}

is_default : Arm → Bool
is_default Arm.unimplemented = true
is_default _ = false

-- IN and OUT are the opcodes that use the bus, and the switches know every assigned opcode.
arms_table :
    all_below 256 (λ code.
      is_unassigned_opcode code
      || (not (is_default (select code))
          && (if uses_bus (select code)
              then code == 0xDB || code == 0xD3
              else not (code == 0xDB || code == 0xD3))))
    ≡ true
unfolding all_below is_unassigned_opcode select select_fixed is_default uses_bus
arms_table = refl

-- The outcome of a running processor for the opcode `code` at `pc`.
unfoldable pub code_verdict : {P : Type 0} → ℕ → ℕ → Option P → Result (Unit {0})
code_verdict pc code io =
    if is_unassigned_opcode code
    then err (Error.unimplemented_opcode pc code (mnemonic_for code) (length_for code))
    else if (code == 0xDB || code == 0xD3) && is_nil io
    then err Error.nil_io
    else ok tt

-- The outcome that `Step` should have.
unfoldable pub verdict : {M P : Type 0} → ⦃memory : Memory M⦄ → System M P → Result (Unit {0})
unfolding code_verdict
verdict ⦃memory⦄ s = if is_stopped s.cpu then err Error.cpu_stopped else elim s.mem [
  | none ↦ err Error.nil_memory
  | some m ↦ code_verdict s.cpu.pc (memory.read m s.cpu.pc) s.io
]

or_false : (a b : Bool) → a ≡ false → (a || b) ≡ true → b ≡ true
or_false a b e h = ground arith

arm_verdict_lem :
    {P : Type 0} (arm : Arm) (code : ℕ) (io : Option P) (b : Bool)
    → (not (is_default arm) && (if uses_bus arm then b else not b)) ≡ true
    → arm_verdict arm code io ≡ (if b && is_nil io then err Error.nil_io else ok tt)
unfolding arm_verdict is_default uses_bus
arm_verdict_lem Arm.input code io true h = refl
arm_verdict_lem Arm.input code io false h = ground arith
arm_verdict_lem Arm.output code io true h = refl
arm_verdict_lem Arm.output code io false h = ground arith
arm_verdict_lem Arm.unimplemented code io b h = ground arith
arm_verdict_lem arm code io true h = ground arith
arm_verdict_lem arm code io false h = refl

module _ {M : Type 0} ⦃memory : Memory M⦄ where
  pub instruction_code :
      (m : M) (pc code : ℕ) → (instruction_at m pc (decode code)).opcode.code ≡ code
  unfolding decode
  instruction_code m pc code = refl

-- The memory, if there is one, reads a byte at the address.
abbrev pub HasByte : {M : Type 0} → ⦃memory : Memory M⦄ → Option M → ℕ → Type 0
HasByte none addr = Unit
HasByte ⦃memory⦄ (some m) addr = memory.read m addr < 256

module _ {M P : Type 0} ⦃i8080 : I8080⦄ ⦃memory : Memory M⦄ ⦃ports : Io P⦄ where
  pub execute_assigned :
      (code : ℕ) (inst : Instruction) (s : System M P)
      → is_unassigned_opcode code ≡ false
      → inst.opcode.code ≡ code
      → execute (decode code) inst s ≡ perform (select code) code inst s
  unfolding execute decode execute8080
  execute_assigned code inst s e h = rw (e, h)

  pub execute_unassigned :
      (code : ℕ) (inst : Instruction) (s : System M P)
      → is_unassigned_opcode code ≡ true
      → execute (decode code) inst s ≡ (
        err (
            Error.unimplemented_opcode inst.pc inst.opcode.code inst.opcode.mnemonic
              inst.opcode.length),
        s,
      )
  unfolding execute decode
  execute_unassigned code inst s e = rw e

  pub step_lem :
      (c : Cpu8080) (m : M) (io : Option P)
      → memory.read m c.pc < 256
      → is_stopped c ≡ false
      → step (on_bus c m io)
        ≡ timed
            (opcode_at m c)
            (instruction_at m c.pc (opcode_at m c))
            (on_bus (advanced c (length_for (memory.read m c.pc))) m io)
  unfolding step need_memory
  step_lem c m io byte running = rw running (step_running_lem c m io byte)

  execute-code_verdict :
      (code pc : ℕ) (c : Cpu8080) (m : M) (io : Option P)
      → code < 256
      → (execute (decode code) (instruction_at m pc (decode code)) (on_bus c m io)).0
        ≡ code_verdict pc code io
  unfolding code_verdict
  execute-code_verdict code pc c m io byte = elim (Bool-cases (is_unassigned_opcode code)) [
    | inl e ↦ rw e (
        ap (λ x. x.0)
          (execute_unassigned code (instruction_at m pc (decode code)) (on_bus c m io) e)
        ∙ unfold decode in refl)
    | inr e ↦
        let h = all_below_lem 256 _ code arms_table byte in
        rw e (
          ap (λ x. x.0)
            (execute_assigned code (instruction_at m pc (decode code)) (on_bus c m io) e
              (instruction_code m pc code))
          ∙ perform-arm_verdict (select code) code _ c m io
          ∙ arm_verdict_lem (select code) code io (code == 0xDB || code == 0xD3) (or_false _ _ e h))
  ]

  pub pass_outcome :
      (x : Result (Unit {0}) × System M P) (f : Cpu8080 → Cpu8080)
      → (pass x (λ _. modify f)).0 ≡ x.0
  pass_outcome (ok tt, t) f = refl
  pass_outcome (err e, t) f = refl
  pass_outcome (panicked, t) f = refl

  step-verdict_present :
      (c : Cpu8080) (m : M) (io : Option P)
      → memory.read m c.pc < 256
      → (step (on_bus c m io)).0 ≡ verdict (on_bus c m io)
  unfolding verdict
  step-verdict_present c m io byte = elim (Bool-cases (is_stopped c)) [
    | inl e ↦ rw e (unfold step in rw e refl)
    | inr e ↦ rw e (
        ap (λ x. x.0) (step_lem c m io byte e)
        ∙ pass_outcome _ _
        ∙ execute-code_verdict (memory.read m c.pc) c.pc _ m io byte)
  ]

  step_outcome :
      (c : Cpu8080) (mem : Option M) (io : Option P)
      → HasByte mem c.pc
      → let s : System M P = record { cpu = c; mem = mem; io = io } in (step s).0 ≡ verdict s
  step_outcome c none io bytes = elim (Bool-cases (is_stopped c)) [
    | inl e ↦ unfold verdict step need_memory in rw e refl
    | inr e ↦ unfold verdict step need_memory in rw e refl
  ]
  step_outcome c (some m) io bytes = step-verdict_present c m io bytes

  -- The outcome of `Step` on every branch, when the memory reads a byte at PC: a halted or stopped
  -- processor refuses, then a nil memory is reported, then an unassigned opcode with its address,
  -- mnemonic and length, then IN or OUT without a bus; in every other case the step succeeds.
  pub step-verdict : (s : System M P) → HasByte s.mem s.cpu.pc → (step s).0 ≡ verdict s
  step-verdict s bytes = step_outcome s.cpu s.mem s.io bytes
