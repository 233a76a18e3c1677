-- ===== src/Machine/Debugger/Progress.antt =====
-- `Step` of machine/debugger.go make progress: what a step that does not stop has done.
use retronet.Base.{◌≡◌, ◌≢◌, refl, Bool, true, false, if◌then◌else◌, ◌==◌, List, Option, none, some}
use retronet.Cpu.Errors.{Result, ok, err, panicked}
use retronet.Cpu.Alu.{I8080}
use retronet.Cpu.Bus.{Memory, Io}
use retronet.Machine.Observed.{MemoryWrite}
use retronet.Machine.FrontPanel.{PanelError, PanelStopReason}
use retronet.Machine.FrontPanel.Snapshot.{FrontPanelState, snapshot}
use retronet.Machine.FrontPanel.Running.{PanelRunResult, run}
use retronet.Machine.Debugger.{
  TraceEventKind, DebugStopReason, IoAccess, TraceEvent, Debugger, Recorder, BreakpointReason,
  breakpoint_reason, emit, recorded, hit_memory_watchpoint, hit_io_breakpoint,
}
use retronet.Machine.Debugger.Stepping.{
  StepOutcome, failing, executed_reason, emitted, unstarted, executed, after_run, step_event,
  with_event, step_cleared, debug_step, clear_accesses,
}
use retronet.Machine.Debugger.Events.{next_event, no_observer}

-- A step that neither fails nor gives a reason to stop has executed an instruction, and the reason of
-- a step is never the limit.
abbrev pub Progresses : StepOutcome → Type 0
Progresses o =
    (o.error ≡ none
      → o.reason ≡ DebugStopReason.continue
      → o.event.kind ≡ TraceEventKind.instruction)
    × (o.reason ≢ DebugStopReason.stopped_limit)

failing-Progresses : (e : PanelError) → Progresses (failing e)
failing-Progresses e = ((λ f r. absurd (cc f)), λ l. absurd (cc l))

module _ {M P : Type 0} where
  executed_reason-ne-limit :
      (d : Debugger M P) (writes : List MemoryWrite) (accesses : List IoAccess)
      (cause : PanelStopReason)
      → executed_reason d writes accesses cause ≢ DebugStopReason.stopped_limit
  unfolding executed_reason
  executed_reason-ne-limit d writes accesses cause =
      by_hits (hit_memory_watchpoint d writes) (hit_io_breakpoint d accesses) cause
    where
      by_hits :
          (a b : Bool) (cause : PanelStopReason)
          → (if a
              then DebugStopReason.stopped_watchpoint
              else if b
              then DebugStopReason.stopped_io
              else elim cause as (λ _. DebugStopReason) [
                | PanelStopReason.stopped_by_cpu ↦ DebugStopReason.stopped_cpu
                | _ ↦ DebugStopReason.continue
              ])
            ≢ DebugStopReason.stopped_limit
      by_hits true b cause = λ l. absurd (cc l)
      by_hits false true cause = λ l. absurd (cc l)
      by_hits false false PanelStopReason.stopped_by_cpu = λ l. absurd (cc l)
      by_hits false false _ = λ l. absurd (cc l)

  unstarted-Progresses :
      (event : TraceEvent) (cause : PanelStopReason) (state : FrontPanelState) (d : Debugger M P)
      → Progresses (unstarted event cause state d).0
  unfolding unstarted
  unstarted-Progresses event PanelStopReason.stopped_by_ready state d =
      ((λ e r. absurd (cc r)), λ l. absurd (cc l))
  unstarted-Progresses event _ state d = ((λ e r. absurd (cc r)), λ l. absurd (cc l))

  module _ (writes : Recorder MemoryWrite M) (accesses : Recorder IoAccess P) where
    executed-Progresses :
        (event : TraceEvent) (cause : PanelStopReason) (state : FrontPanelState) (d : Debugger M P)
        → Progresses (executed writes accesses event cause state d).0
    unfolding executed emit
    executed-Progresses event cause state d = (
      (λ e r. refl),
      executed_reason-ne-limit d (recorded writes d.panel.system.mem)
          (recorded accesses d.panel.system.io) cause,
    )

    module _ ⦃memory : Memory M⦄ where
      after_run-Progresses :
          (event : TraceEvent) (result : PanelRunResult) (d : Debugger M P)
          → Progresses (after_run writes accesses event result d).0
      unfolding after_run
      after_run-Progresses event result d =
          by_state result.error (snapshot d.panel) (result.steps == 0)
        where
          by_state :
              (error : Option PanelError) (x : Option FrontPanelState) (b : Bool)
              → Progresses
                  (elim error as (λ _. StepOutcome × Debugger M P) [
                    | some e ↦ (failing e, d)
                    | none ↦ elim x as (λ _. StepOutcome × Debugger M P) [
                      | none ↦ (failing PanelError.panic, d)
                      | some state ↦
                          (if b
                            then unstarted event result.reason state d
                            else executed writes accesses event result.reason state d)
                    ]
                  ]).0
          by_state (some f) x b = failing-Progresses _
          by_state none none b = failing-Progresses _
          by_state none (some state) true = unstarted-Progresses event result.reason state d
          by_state none (some state) false = executed-Progresses event result.reason state d

    module _ ⦃i8080 : I8080⦄ ⦃memory : Memory M⦄ ⦃ports : Io P⦄ where
      step_event-Progresses :
          (before : FrontPanelState) (event : TraceEvent) (d : Debugger M P)
          → Progresses (step_event writes accesses before event d).0
      unfolding step_event emit
      step_event-Progresses before event d = by_reason (breakpoint_reason d event)
        where
          by_reason :
              (x : Option BreakpointReason)
              → Progresses
                  (elim x as (λ _. StepOutcome × Debugger M P) [
                    | some reason ↦
                        emitted DebugStopReason.stopped_breakpoint
                          (record event {
                            kind = TraceEventKind.breakpoint;
                            breakpoint = some reason;
                            after = before.cpu;
                          })
                          d
                    | none ↦
                        (let (result, q) = run 1 no_observer d.panel in
                          after_run writes accesses event result (record d { panel = q }))
                  ]).0
          by_reason (some reason) = ((λ e r. absurd (cc r)), λ l. absurd (cc l))
          by_reason none =
              after_run-Progresses event (run 1 no_observer d.panel).0
                (record d { panel = (run 1 no_observer d.panel).1 })

      with_event-Progresses :
          (before : FrontPanelState) (x : Result TraceEvent) (d : Debugger M P)
          → Progresses (with_event writes accesses before x d).0
      with_event-Progresses before (ok event) d = step_event-Progresses before event d
      with_event-Progresses before (err f) d = failing-Progresses _
      with_event-Progresses before panicked d = failing-Progresses _

      pub debug_step-Progresses : (d : Debugger M P) → Progresses (debug_step writes accesses d).0
      unfolding debug_step step_cleared
      debug_step-Progresses d = by_snapshot (snapshot (clear_accesses writes accesses d).panel)
        where
          by_snapshot :
              (x : Option FrontPanelState)
              → let c = clear_accesses writes accesses d in
                Progresses
                  (elim x as (λ _. StepOutcome × Debugger M P) [
                    | none ↦ (failing PanelError.panic, c)
                    | some before ↦ with_event writes accesses before (next_event before c.panel) c
                  ]).0
          by_snapshot none = failing-Progresses _
          by_snapshot (some before) =
              with_event-Progresses before
                (next_event before (clear_accesses writes accesses d).panel)
                (clear_accesses writes accesses d)
