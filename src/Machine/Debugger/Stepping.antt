-- ===== src/Machine/Debugger/Stepping.antt =====
-- `Step` and `Run` of machine/debugger.go.
use retronet.Base.{ℕ, zero, suc, ◌+◌, not, if◌then◌else◌, ◌==◌, ltb, List, Option, none, some}
use retronet.Cpu.Errors.{Result, ok, err, panicked}
use retronet.Cpu.Alu.{I8080}
use retronet.Cpu.Bus.{Memory, Io}
use retronet.Machine.Observed.{MemoryWrite}
use retronet.Machine.FrontPanel.{PanelError, PanelStopReason}
use retronet.Machine.FrontPanel.Snapshot.{FrontPanelState, snapshot}
use retronet.Machine.FrontPanel.Running.{PanelRunResult, run}
use retronet.Machine.Debugger.{
  TraceEventKind, DebugStopReason, IoAccess, TraceEvent, DebugRunResult, Debugger, Recorder,
  breakpoint_reason, hit_memory_watchpoint, hit_io_breakpoint, emit, recorded, forgotten,
}
use retronet.Machine.Debugger.Events.{empty_event, next_event, no_observer}

-- What `Step` returns.
pub record StepOutcome : Type 0 where
  pub event : TraceEvent
  pub reason : DebugStopReason
  pub error : Option PanelError

-- a return without an event, with an error or with a reason
abbrev pub failing : PanelError → StepOutcome
failing e = record { event = empty_event; reason = DebugStopReason.continue; error = some e }

abbrev pub without_event : DebugStopReason → StepOutcome
without_event reason = record { event = empty_event; reason = reason; error = none }

-- the result, the error and the debugger behind a run, or none when it is out of rounds
abbrev pub RunOutcome : Type 0 → Type 0 → Type 0
RunOutcome M P = Option (DebugRunResult × Option PanelError × Debugger M P)

-- the steps behind an event, and a result of `Run`
abbrev pub counted : TraceEvent → ℕ → ℕ
counted event steps = elim event.kind [ TraceEventKind.instruction ↦ steps + 1 | _ ↦ steps ]

abbrev pub result_of : ℕ → DebugStopReason → DebugRunResult
result_of steps reason = record { steps = steps; reason = reason }

module _ {M P : Type 0} where
  -- the round of the loop of `Run` behind its step; `go` is the rest of the loop
  abbrev pub after_step :
      (ℕ → Debugger M P → RunOutcome M P) → ℕ → StepOutcome × Debugger M P → RunOutcome M P
  after_step go steps (outcome, next) = elim outcome.error [
    | some e ↦ some (result_of steps DebugStopReason.continue, some e, next)
    | none ↦ elim outcome.reason [
      | DebugStopReason.continue ↦ go (counted outcome.event steps) next
      | reason ↦ some (result_of (counted outcome.event steps) reason, none, next)
    ]
  ]

  -- the return of an event that `emit` has numbered
  abbrev pub emitted : DebugStopReason → TraceEvent → Debugger M P → StepOutcome × Debugger M P
  emitted reason event d =
      let (e, next) = emit event d in (record { event = e; reason = reason; error = none }, next)

  -- the returns of `Step` when the panel has executed no instruction
  unfoldable pub unstarted :
      TraceEvent → PanelStopReason → FrontPanelState → Debugger M P → StepOutcome × Debugger M P
  unfolding emit
  unstarted event PanelStopReason.stopped_by_ready state d =
      emitted DebugStopReason.stopped_waiting
        (record event {
          kind = TraceEventKind.wait;
          after = state.cpu;
          wait_cycle = some state.wait_cycle;
        })
        d
  unstarted event PanelStopReason.stopped_by_request state d =
      (without_event DebugStopReason.stopped_requested, d)
  unstarted event _ state d = (without_event DebugStopReason.stopped_cpu, d)

  -- the reason of `Step` when the panel has executed one
  unfoldable pub executed_reason :
      Debugger M P → List MemoryWrite → List IoAccess → PanelStopReason → DebugStopReason
  executed_reason d writes accesses cause =
      if hit_memory_watchpoint d writes
      then DebugStopReason.stopped_watchpoint
      else if hit_io_breakpoint d accesses
      then DebugStopReason.stopped_io
      else elim cause [
        | PanelStopReason.stopped_by_cpu ↦ DebugStopReason.stopped_cpu
        | _ ↦ DebugStopReason.continue
      ]

  module _ (writes : Recorder MemoryWrite M) (accesses : Recorder IoAccess P) where
    unfoldable pub executed :
        TraceEvent → PanelStopReason → FrontPanelState → Debugger M P → StepOutcome × Debugger M P
    unfolding emit executed_reason
    executed event cause state d =
        let memory_writes = recorded writes d.panel.system.mem in
        let io = recorded accesses d.panel.system.io in
        emitted (executed_reason d memory_writes io cause)
          (record event {
            kind = TraceEventKind.instruction;
            after = state.cpu;
            timing = state.cpu.last_timing;
            memory_writes = memory_writes;
            io = io;
          })
          d

    -- clearAccesses
    unfoldable pub clear_accesses : Debugger M P → Debugger M P
    clear_accesses d = record d {
      panel = record d.panel {
        system = record d.panel.system {
          mem = forgotten writes d.panel.system.mem;
          io = forgotten accesses d.panel.system.io;
        };
      };
    }

    -- `Step` behind the run of the panel, which a snapshot follows
    module _ ⦃memory : Memory M⦄ where
      unfoldable pub after_run :
          TraceEvent → PanelRunResult → Debugger M P → StepOutcome × Debugger M P
      unfolding unstarted executed
      after_run event result d = elim result.error [
        | some e ↦ (failing e, d)
        | none ↦ elim (snapshot d.panel) [
          | none ↦ (failing PanelError.panic, d)
          | some state ↦
              (if result.steps == 0
                then unstarted event result.reason state d
                else executed event result.reason state d)
        ]
      ]

    module _ ⦃i8080 : I8080⦄ ⦃memory : Memory M⦄ ⦃ports : Io P⦄ where
      -- `Step` behind its event
      unfoldable pub step_event :
          FrontPanelState → TraceEvent → Debugger M P → StepOutcome × Debugger M P
      unfolding after_run breakpoint_reason emit
      step_event before event d = elim (breakpoint_reason d event) [
        | some reason ↦
            emitted DebugStopReason.stopped_breakpoint
              (record event {
                kind = TraceEventKind.breakpoint;
                breakpoint = some reason;
                after = before.cpu;
              })
              d
        | none ↦
            (let (result, q) = run 1 no_observer d.panel in
              after_run event result (record d { panel = q }))
      ]

      abbrev pub with_event :
          FrontPanelState → Result TraceEvent → Debugger M P → StepOutcome × Debugger M P
      with_event before (ok event) d = step_event before event d
      with_event before (err e) d = (failing (PanelError.of_cpu e), d)
      with_event before panicked d = (failing PanelError.panic, d)

      unfoldable pub step_cleared : Debugger M P → StepOutcome × Debugger M P
      unfolding next_event step_event
      step_cleared d = elim (snapshot d.panel) [
        | none ↦ (failing PanelError.panic, d)
        | some before ↦ with_event before (next_event before d.panel) d
      ]

      -- Debugger.Step
      unfoldable pub debug_step : Debugger M P → StepOutcome × Debugger M P
      unfolding clear_accesses step_cleared
      debug_step d = step_cleared (clear_accesses d)

      -- the loop of `Run`, with the rounds that it may take; none is out of rounds. The count is a
      -- uint64 that stays below the limit.
      unfoldable pub debug_loop : ℕ → ℕ → ℕ → Debugger M P → RunOutcome M P
      unfolding debug_step
      debug_loop zero limit steps d =
          if ltb steps limit
          then none
          else some (result_of steps DebugStopReason.stopped_limit, none, d)
      debug_loop (suc fuel) limit steps d =
          if not (ltb steps limit)
          then some (result_of steps DebugStopReason.stopped_limit, none, d)
          else after_step (debug_loop fuel limit) steps (debug_step d)

      -- Debugger.Run
      unfoldable pub debug_run : ℕ → Debugger M P → RunOutcome M P
      unfolding debug_loop
      debug_run limit d = debug_loop limit limit 0 d
