-- ===== src/Tests/Processor.antt =====
-- Steps of a sample processor on a flat memory: the theorems on `Step` and `Jam` at work.
use retronet.Base.{ℕ, ◌≡◌, refl, arith, some, List, [], ◌∷◌}
use retronet.Cpu.Errors.{ok}
use retronet.Cpu.Bus.{FlatMemory, flat_read, flat_memory, Ports, new_ports, ports_io}
use retronet.Cpu.Bus.Flat.{
  IsBytes, IsLatched, flat_memory-MemoryLaws, ports_io-IoLaws, flat_memory-RamLaws,
}
use retronet.Cpu.Codes.{is_unassigned_opcode}
use retronet.Cpu.Dispatch.{select}
use retronet.Cpu.Decoder.{length_for}
use retronet.Cpu.Core.{System, Run}
use retronet.Cpu.Execute.{push, pop}
use retronet.Cpu.Execute.Stack.{saved, stacked, pop-push}
use retronet.Cpu.Step.{step, jam}
use retronet.Cpu.Safety.{Contract, Good, Outcome}
use retronet.Cpu.Safety.Steps.{step_safe, jam_safe}
use retronet.Cpu.Frame.Fetch.{on_bus}
use retronet.Cpu.Frame.Outcome.{verdict, code_verdict, step-verdict}
use retronet.Cpu.Frame.Steps.{is_nil}
use retronet.Cpu.Frame.Effects.{step_pc, step_memory}
use retronet.Cpu.Frame.Timing.{IsTimed, step-IsTimed}
use retronet.Tests.Samples.{
  sample_package, sample_backend, sample_backend-IsSound, sample_cpu, sample_cpu-IsValid,
  sample_memory, sample_memory-IsBytes, new_ports-IsLatched,
}

abbrev sample_system : System FlatMemory Ports
sample_system = on_bus sample_cpu sample_memory (some new_ports)

abbrev sample_contract : Contract FlatMemory Ports
sample_contract = record { holds_mem = IsBytes; holds_io = IsLatched; alu = sample_backend }

sample_system-Good : Good sample_contract sample_system
sample_system-Good = record {
  valid = sample_cpu-IsValid;
  mem_holds = sample_memory-IsBytes;
  io_holds = new_ports-IsLatched;
}

abbrev sample_step : Run FlatMemory Ports (Unit {0})
sample_step = step ⦃i8080 = sample_package⦄ ⦃memory = flat_memory⦄ ⦃ports = ports_io⦄

abbrev sample_jam : ℕ → List ℕ → Run FlatMemory Ports (Unit {0})
sample_jam = jam ⦃i8080 = sample_package⦄ ⦃memory = flat_memory⦄ ⦃ports = ports_io⦄

step_safe_example :
    Good sample_contract (sample_step sample_system).1
    × Outcome (λ _. Unit) (sample_step sample_system).0
step_safe_example =
    step_safe {K = sample_contract} ⦃i8080 = sample_package⦄ ⦃memory = flat_memory⦄
      ⦃ports = ports_io⦄ flat_memory-MemoryLaws ports_io-IoLaws sample_backend-IsSound sample_system
      sample_system-Good

-- CALL 0x2000, forced from outside
jam_safe_example :
    Good sample_contract (sample_jam 0xCD (0x00 ∷ 0x20 ∷ []) sample_system).1
    × Outcome (λ _. Unit) (sample_jam 0xCD (0x00 ∷ 0x20 ∷ []) sample_system).0
jam_safe_example =
    jam_safe {K = sample_contract} ⦃i8080 = sample_package⦄ ⦃memory = flat_memory⦄
      ⦃ports = ports_io⦄ flat_memory-MemoryLaws ports_io-IoLaws sample_backend-IsSound 0xCD
      (0x00 ∷ 0x20 ∷ []) sample_system (omega arith) (omega arith) sample_system-Good

step-verdict_example : (sample_step sample_system).0 ≡ verdict ⦃memory = flat_memory⦄ sample_system
unfolding flat_read
step-verdict_example =
    step-verdict ⦃i8080 = sample_package⦄ ⦃memory = flat_memory⦄ ⦃ports = ports_io⦄ sample_system
      (omega arith)

step_pc_example : (sample_step sample_system).1.cpu.pc ≡ 0x0102
unfolding flat_read length_for select is_unassigned_opcode
step_pc_example =
    step_pc ⦃i8080 = sample_package⦄ ⦃memory = flat_memory⦄ ⦃ports = ports_io⦄ sample_cpu
      sample_memory (some new_ports) (omega arith) refl refl

step_memory_example : (sample_step sample_system).1.mem ≡ some sample_memory
unfolding flat_read select
step_memory_example =
    step_memory ⦃i8080 = sample_package⦄ ⦃memory = flat_memory⦄ ⦃ports = ports_io⦄ sample_cpu
      sample_memory (some new_ports) (omega arith) refl refl

sample_step_succeeds : (sample_step sample_system).0 ≡ ok tt
unfolding flat_read verdict code_verdict is_unassigned_opcode is_nil
sample_step_succeeds =
    step-verdict ⦃i8080 = sample_package⦄ ⦃memory = flat_memory⦄ ⦃ports = ports_io⦄ sample_system
      (omega arith)

step-IsTimed_example : IsTimed 0x06 sample_cpu (sample_step sample_system).1.cpu
unfolding flat_read
step-IsTimed_example =
    step-IsTimed ⦃i8080 = sample_package⦄ ⦃memory = flat_memory⦄ ⦃ports = ports_io⦄ sample_cpu
      sample_memory (some new_ports) (omega arith) refl sample_step_succeeds

pop-push_example : pop ⦃memory = flat_memory⦄ 3 (push ⦃memory = flat_memory⦄ 3 sample_system).1 ≡ (
  ok tt,
  on_bus sample_cpu
      (stacked ⦃memory = flat_memory⦄ sample_memory 0x2400 (saved 3 sample_cpu))
      (some new_ports),
)
pop-push_example =
    pop-push ⦃memory = flat_memory⦄ flat_memory-RamLaws 3 sample_cpu sample_memory (some new_ports)
      sample_cpu-IsValid
