-- ===== src/Machine/Debugger/Events.antt =====
-- `nextEvent` of machine/debugger.go: the event of the instruction that comes next.
use Prim.Native.String.{◌++◌ as append}
use retronet.Base.{true, false, ◌||◌, if◌then◌else◌, [], ◌∷◌, take, none}
use retronet.Cpu.Errors.{Result, ok, err, panicked}
use retronet.Cpu.Bus.{Memory}
use retronet.Cpu.Opcode.{no_timing}
use retronet.Cpu.Mnemonic.{hex_byte}
use retronet.Cpu.Decoder.{decode}
use retronet.Cpu.Disasm.{Disassembly, disassemble, hex_word, to_string}
use retronet.Cpu.State.{zeroed}
use retronet.Machine.FrontPanel.{FrontPanel}
use retronet.Machine.FrontPanel.Snapshot.{FrontPanelState, JamInstruction, pending_interrupt_of}
use retronet.Machine.FrontPanel.Running.{Observer}
use retronet.Machine.Debugger.{TraceEventKind, TraceEvent}

-- `TraceEvent{PC: before.CPU.PC, Before: before.CPU}`
abbrev pub new_event : FrontPanelState → TraceEvent
new_event before = record {
  sequence = 0;
  kind = TraceEventKind.no_kind;
  pc = before.cpu.pc;
  opcode = 0;
  bytes = [];
  disassembly = "";
  interrupt = false;
  before = before.cpu;
  after = zeroed none;
  timing = no_timing;
  memory_writes = [];
  io = [];
  wait_cycle = none;
  breakpoint = none;
}

-- a nil observer
abbrev pub no_observer : Observer
no_observer _ _ = none

abbrev pub interrupt_event : JamInstruction → TraceEvent → TraceEvent
interrupt_event pending event = record event {
  opcode = pending.code;
  interrupt = true;
  bytes = pending.code ∷ take pending.operand_count pending.operands;
  disassembly = append (hex_word event.pc) (
      append ": " (
        append (hex_byte pending.code)
          (append "       " (append (decode pending.code).mnemonic " [interrupt]"))));
}

abbrev pub disassembled : TraceEvent → Disassembly → TraceEvent
disassembled event d = record event {
  opcode = d.opcode.code;
  bytes = take d.length d.bytes;
  disassembly = to_string d;
}

-- an error of `Disassemble`
abbrev pub with_disassembly : TraceEvent → Result Disassembly → Result TraceEvent
with_disassembly event (ok d) = ok (disassembled event d)
with_disassembly event (err e) = err e
with_disassembly event panicked = panicked

module _ {M P : Type 0} ⦃memory : Memory M⦄ where
  unfoldable pub next_event : FrontPanelState → FrontPanel M P → Result TraceEvent
  unfolding pending_interrupt_of disassemble
  next_event before p =
      let (pending, present) = pending_interrupt_of p in
      if present
      then ok (interrupt_event pending (new_event before))
      else if before.cpu.halted || before.cpu.stopped
      then ok (new_event before)
      else with_disassembly (new_event before) (disassemble p.system.mem (new_event before).pc)

-- `TraceEvent{}`
abbrev pub empty_event : TraceEvent
empty_event = record {
  sequence = 0;
  kind = TraceEventKind.no_kind;
  pc = 0;
  opcode = 0;
  bytes = [];
  disassembly = "";
  interrupt = false;
  before = zeroed none;
  after = zeroed none;
  timing = no_timing;
  memory_writes = [];
  io = [];
  wait_cycle = none;
  breakpoint = none;
}
