-- ===== src/Machine/Debugger.antt =====
-- machine/debugger.go: breakpoints, watchpoints and traces over the front panel.
pub mod Events
pub mod Stepping
pub mod Recording
pub mod Progress
pub mod Ending
pub mod Breaks
pub mod Kept
pub mod Trace
pub mod Unset
pub mod Transparent
pub mod Program
pub mod Stops
use Prim.Native.String.{String}
use retronet.Base.{
  ℕ, ◌+◌, bit_and, Bool, true, false, ◌&&◌, ◌||◌, if◌then◌else◌, List, [], ◌∷◌, ◌++◌, Option, none,
  some, u64, ◌⊎◌, inl, inr,
}
use retronet.Cpu.Types.{address_mask}
use retronet.Cpu.Errors.{Error}
use retronet.Cpu.Bus.{update, validate_input_port, validate_output_port}
use retronet.Cpu.State.{Cpu8080}
use retronet.Cpu.Opcode.{InstructionTiming}
use retronet.Machine.Peripherals.{IoDirection}
use retronet.Machine.Observed.{MemoryWrite}
use retronet.Machine.FrontPanel.{FrontPanel, CycleContext, PanelError}

pub data TraceEventKind : Type 0 where
  no_kind instruction wait breakpoint : TraceEventKind

pub data DebugStopReason : Type 0 where
  continue stopped_cpu stopped_requested stopped_waiting stopped_breakpoint : DebugStopReason
  stopped_watchpoint stopped_io stopped_limit : DebugStopReason

pub record IoAccess : Type 0 where
  pub direction : IoDirection
  pub port : ℕ
  pub value : ℕ

-- The reasons of a breakpoint, which the code prints as "pc=0x%04X" and "opcode=0x%02X".
pub data BreakpointReason : Type 0 where
  at_pc at_opcode : ℕ → BreakpointReason

-- type TraceEvent
pub record TraceEvent : Type 0 where
  pub sequence : ℕ
  pub kind : TraceEventKind
  pub pc : ℕ
  pub opcode : ℕ
  pub bytes : List ℕ
  pub disassembly : String
  pub interrupt : Bool
  pub before : Cpu8080
  pub after : Cpu8080
  pub timing : InstructionTiming
  pub memory_writes : List MemoryWrite
  pub io : List IoAccess
  pub wait_cycle : Option CycleContext
  pub breakpoint : Option BreakpointReason

pub record DebugRunResult : Type 0 where
  pub steps : ℕ
  pub reason : DebugStopReason

-- type Debugger: the sets of breakpoints as functions, and as sink the events it has got, or none for a
-- nil sink. Its memory and its I/O bus are those of the panel, which hold what the debugger records.
pub record Debugger (M P : Type 0) : Type 0 where
  pub panel : FrontPanel M P
  pub pc_breakpoints : ℕ → Bool
  pub opcode_breakpoints : ℕ → Bool
  pub memory_watchpoints : ℕ → Bool
  pub input_breakpoints : ℕ → Bool
  pub output_breakpoints : ℕ → Bool
  pub sequence : ℕ
  pub sink : Option (List TraceEvent)

-- What the debugger has recorded since it last cleared it: it lies with the observers of the memory,
-- and of the I/O bus.
pub record Recorder (A S : Type 0) : Type 0 where
  pub taken : S → List A
  pub cleared : S → S

-- A memory that is no ObservableMemory, or a nil I/O bus, records nothing.
abbrev pub no_recorder : {A S : Type 0} → Recorder A S
no_recorder = record { taken = λ _. []; cleared = λ s. s }

abbrev pub recorded : {A S : Type 0} → Recorder A S → Option S → List A
recorded recorder none = []
recorded recorder (some s) = recorder.taken s

abbrev pub forgotten : {A S : Type 0} → Recorder A S → Option S → Option S
forgotten recorder none = none
forgotten recorder (some s) = some (recorder.cleared s)

abbrev pub has_bytes : List ℕ → Bool
has_bytes [] = false
has_bytes (_ ∷ _) = true

abbrev pub received : Option (List TraceEvent) → TraceEvent → Option (List TraceEvent)
received none event = none
received (some events) event = some (events ++ event ∷ [])

module _ {M P : Type 0} where
  abbrev pub fresh_debugger : FrontPanel M P → Debugger M P
  fresh_debugger panel = record {
    panel = panel;
    pc_breakpoints = λ _. false;
    opcode_breakpoints = λ _. false;
    memory_watchpoints = λ _. false;
    input_breakpoints = λ _. false;
    output_breakpoints = λ _. false;
    sequence = 0;
    sink = none;
  }

  unfoldable pub set_trace_sink : Bool → Debugger M P → Debugger M P
  set_trace_sink on d = record d { sink = if on then some [] else none }

  unfoldable pub add_pc_breakpoint : ℕ → Debugger M P → Debugger M P
  add_pc_breakpoint addr d = record d {
    pc_breakpoints = update d.pc_breakpoints (bit_and addr address_mask) true;
  }

  unfoldable pub add_opcode_breakpoint : ℕ → Debugger M P → Debugger M P
  add_opcode_breakpoint code d = record d {
    opcode_breakpoints = update d.opcode_breakpoints code true;
  }

  unfoldable pub add_memory_watchpoint : ℕ → Debugger M P → Debugger M P
  add_memory_watchpoint addr d = record d {
    memory_watchpoints = update d.memory_watchpoints (bit_and addr address_mask) true;
  }

  unfoldable pub add_input_breakpoint : ℕ → Debugger M P → Option Error × Debugger M P
  add_input_breakpoint port d = elim (validate_input_port port) [
    | some e ↦ (some e, d)
    | none ↦ (none, record d { input_breakpoints = update d.input_breakpoints port true })
  ]

  unfoldable pub add_output_breakpoint : ℕ → Debugger M P → Option Error × Debugger M P
  add_output_breakpoint port d = elim (validate_output_port port) [
    | some e ↦ (some e, d)
    | none ↦ (none, record d { output_breakpoints = update d.output_breakpoints port true })
  ]

  unfoldable pub breakpoint_reason : Debugger M P → TraceEvent → Option BreakpointReason
  breakpoint_reason d event =
      if d.pc_breakpoints event.pc
      then some (BreakpointReason.at_pc event.pc)
      else if has_bytes event.bytes && d.opcode_breakpoints event.opcode
      then some (BreakpointReason.at_opcode event.opcode)
      else none

  unfoldable pub hit_memory_watchpoint : Debugger M P → List MemoryWrite → Bool
  hit_memory_watchpoint d [] = false
  hit_memory_watchpoint d (w ∷ ws) =
      let rest = hit_memory_watchpoint d ws in if d.memory_watchpoints w.address then true else rest

  abbrev pub is_breaking : Debugger M P → IoAccess → Bool
  is_breaking d access = elim access.direction [
    | IoDirection.input ↦ d.input_breakpoints access.port
    | IoDirection.output ↦ d.output_breakpoints access.port
  ]

  unfoldable pub hit_io_breakpoint : Debugger M P → List IoAccess → Bool
  hit_io_breakpoint d [] = false
  hit_io_breakpoint d (a ∷ rest) =
      let later = hit_io_breakpoint d rest in if is_breaking d a then true else later

  abbrev numbered : Debugger M P → TraceEvent → TraceEvent
  numbered d event = record event { sequence = d.sequence }

  -- the event with its number, and the debugger behind it
  unfoldable pub emit : TraceEvent → Debugger M P → TraceEvent × Debugger M P
  emit event d = (
    numbered d event,
    record d { sequence = u64 (d.sequence + 1); sink = received d.sink (numbered d event) },
  )
