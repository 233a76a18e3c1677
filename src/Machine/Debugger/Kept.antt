-- ===== src/Machine/Debugger/Kept.antt =====
-- What `Step` and `Run` of machine/debugger.go keep: whatever the panel's state has no part in, and the
-- emission of an event keeps.
use retronet.Base.{
  ℕ, zero, suc, Bool, true, false, if◌then◌else◌, ltb, ◌==◌, not, Option, none, some,
}
use retronet.Cpu.Errors.{Result, ok, err, panicked}
use retronet.Cpu.Alu.{I8080}
use retronet.Cpu.Bus.{Memory, Io}
use retronet.Machine.Observed.{MemoryWrite}
use retronet.Machine.FrontPanel.{FrontPanel, PanelError, PanelStopReason}
use retronet.Machine.FrontPanel.Snapshot.{FrontPanelState, snapshot}
use retronet.Machine.FrontPanel.Running.{PanelRunResult, run}
use retronet.Machine.Debugger.{
  TraceEventKind, DebugStopReason, IoAccess, BreakpointReason, TraceEvent, Debugger, Recorder,
  breakpoint_reason, emit, recorded,
}
use retronet.Machine.Debugger.Stepping.{
  StepOutcome, RunOutcome, after_step, failing, emitted, unstarted, executed, after_run, step_event,
  with_event, step_cleared, debug_step, debug_loop, debug_run, clear_accesses, counted, result_of,
}
use retronet.Machine.Debugger.Events.{next_event, no_observer}

pub record IsKept {M P : Type 0} (Q : Debugger M P → Type 0) : Type 0 where
  pub panels : (d : Debugger M P) (q : FrontPanel M P) → Q d → Q (record d { panel = q })
  pub events : (d : Debugger M P) (event : TraceEvent) → Q d → Q (emit event d).1

-- The debugger behind a run, if there is one, satisfies `Q`.
abbrev pub Holds : {M P : Type 0} → (Debugger M P → Type 0) → RunOutcome M P → Type 0
Holds Q none = Unit {0}
Holds Q (some (r, e, d)) = Q d

module _ {M P : Type 0} {Q : Debugger M P → Type 0} (kept : IsKept Q) where
  unstarted-keeps :
      (event : TraceEvent) (cause : PanelStopReason) (state : FrontPanelState) (d : Debugger M P)
      → Q d
      → Q (unstarted event cause state d).1
  unfolding unstarted
  unstarted-keeps event PanelStopReason.stopped_by_ready state d h =
      kept.events d
        (record event {
          kind = TraceEventKind.wait;
          after = state.cpu;
          wait_cycle = some state.wait_cycle;
        })
        h
  unstarted-keeps event _ state d h = h

  round_keeps :
      (go : ℕ → Debugger M P → RunOutcome M P) (count : ℕ) (event : TraceEvent)
      (reason : DebugStopReason) (error : Option PanelError) (d : Debugger M P)
      → Q d
      → Holds Q (go (counted event count) d)
      → Holds Q (after_step go count (record { event = event; reason = reason; error = error }, d))
  round_keeps go count event reason (some e) d h later = h
  round_keeps go count event DebugStopReason.continue none d h later = later
  round_keeps go count event _ none d h later = h

  module _ (writes : Recorder MemoryWrite M) (accesses : Recorder IoAccess P) ⦃i8080 : I8080⦄
      ⦃memory : Memory M⦄ ⦃ports : Io P⦄ where
    after_run-keeps :
        (event : TraceEvent) (result : PanelRunResult) (d : Debugger M P)
        → Q d
        → Q (after_run writes accesses event result d).1
    unfolding after_run executed
    after_run-keeps event result d h = by_state result.error (snapshot d.panel) (result.steps == 0)
      where
        by_state :
            (error : Option PanelError) (x : Option FrontPanelState) (b : Bool)
            → Q
                (elim error as (λ _. StepOutcome × Debugger M P) [
                  | some e ↦ (failing e, d)
                  | none ↦ elim x as (λ _. StepOutcome × Debugger M P) [
                    | none ↦ (failing PanelError.panic, d)
                    | some state ↦
                        (if b
                          then unstarted event result.reason state d
                          else executed writes accesses event result.reason state d)
                  ]
                ]).1
        by_state (some f) x b = h
        by_state none none b = h
        by_state none (some state) true = unstarted-keeps event result.reason state d h
        by_state none (some state) false =
            kept.events d
              (record event {
                kind = TraceEventKind.instruction;
                after = state.cpu;
                timing = state.cpu.last_timing;
                memory_writes = recorded writes d.panel.system.mem;
                io = recorded accesses d.panel.system.io;
              })
              h

    step_event-keeps :
        (before : FrontPanelState) (event : TraceEvent) (d : Debugger M P)
        → Q d
        → Q (step_event writes accesses before event d).1
    unfolding step_event
    step_event-keeps before event d h = by_reason (breakpoint_reason d event)
      where
        by_reason :
            (x : Option BreakpointReason)
            → Q
                (elim x as (λ _. StepOutcome × Debugger M P) [
                  | some reason ↦
                      emitted DebugStopReason.stopped_breakpoint
                        (record event {
                          kind = TraceEventKind.breakpoint;
                          breakpoint = some reason;
                          after = before.cpu;
                        })
                        d
                  | none ↦
                      (let (result, q) = run 1 no_observer d.panel in
                        after_run writes accesses event result (record d { panel = q }))
                ]).1
        by_reason (some reason) =
            kept.events d
              (record event {
                kind = TraceEventKind.breakpoint;
                breakpoint = some reason;
                after = before.cpu;
              })
              h
        by_reason none =
            after_run-keeps event (run 1 no_observer d.panel).0
              (record d { panel = (run 1 no_observer d.panel).1 }) (kept.panels d _ h)

    with_event-keeps :
        (before : FrontPanelState) (x : Result TraceEvent) (d : Debugger M P)
        → Q d
        → Q (with_event writes accesses before x d).1
    with_event-keeps before (ok event) d h = step_event-keeps before event d h
    with_event-keeps before (err f) d h = h
    with_event-keeps before panicked d h = h

    step_cleared-keeps : (d : Debugger M P) → Q d → Q (step_cleared writes accesses d).1
    unfolding step_cleared
    step_cleared-keeps d h = by_snapshot (snapshot d.panel)
      where
        by_snapshot :
            (x : Option FrontPanelState)
            → Q
                (elim x as (λ _. StepOutcome × Debugger M P) [
                  | none ↦ (failing PanelError.panic, d)
                  | some before ↦ with_event writes accesses before (next_event before d.panel) d
                ]).1
        by_snapshot none = h
        by_snapshot (some before) = with_event-keeps before (next_event before d.panel) d h

    pub debug_step-keeps : (d : Debugger M P) → Q d → Q (debug_step writes accesses d).1
    unfolding debug_step clear_accesses
    debug_step-keeps d h = step_cleared-keeps (clear_accesses writes accesses d) (kept.panels d _ h)

    debug_loop-keeps :
        (fuel limit count : ℕ) (d : Debugger M P)
        → Q d
        → Holds Q (debug_loop writes accesses fuel limit count d)
    unfolding debug_loop
    debug_loop-keeps zero limit count d h = by_limit (ltb count limit)
      where
        by_limit :
            (b : Bool)
            → Holds Q
                (if b then none else some (result_of count DebugStopReason.stopped_limit, none, d))
        by_limit true = tt
        by_limit false = h
    debug_loop-keeps (suc fuel) limit count d h =
        let x = debug_step writes accesses d in
        let q = debug_step-keeps d h in
        by_limit (not (ltb count limit)) (
          round_keeps (debug_loop writes accesses fuel limit) count x.0.event x.0.reason x.0.error
            x.1 q (debug_loop-keeps fuel limit (counted x.0.event count) x.1 q))
      where
        by_limit :
            (b : Bool)
            → Holds Q (
                after_step
                  (debug_loop writes accesses fuel limit)
                  count
                  (debug_step writes accesses d))
            → Holds Q (
                if b
                then some (result_of count DebugStopReason.stopped_limit, none, d)
                else after_step
                    (debug_loop writes accesses fuel limit)
                    count
                    (debug_step writes accesses d))
        by_limit true later = h
        by_limit false later = later

    pub debug_run-keeps :
        (limit : ℕ) (d : Debugger M P) → Q d → Holds Q (debug_run writes accesses limit d)
    unfolding debug_run
    debug_run-keeps limit d h = debug_loop-keeps limit limit 0 d h
