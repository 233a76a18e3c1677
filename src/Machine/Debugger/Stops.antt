-- ===== src/Machine/Debugger/Stops.antt =====
-- A stop request under the debugger (machine/debugger.go): one that comes during an instruction is lost.
use retronet.Base.{◌≡◌, refl, arith, true, false, Option, none, some, sym, ap, subst}
use retronet.Cpu.Bus.{Memory}
use retronet.Cpu.Step.{is_stopped}
use retronet.Machine.Observed.{MemoryWrite}
use retronet.Machine.FrontPanel.{FrontPanel, PanelError, PanelStopReason}
use retronet.Machine.FrontPanel.Snapshot.{FrontPanelState}
use retronet.Machine.FrontPanel.Running.{PanelRunResult, run_limit}
use retronet.Machine.Debugger.{
  DebugStopReason, IoAccess, TraceEvent, Debugger, Recorder, recorded, emit,
}
use retronet.Machine.Debugger.Stepping.{StepOutcome, after_run, executed, failing}
use retronet.Machine.Debugger.Unset.{IsUnset, executed_reason_unset}
use retronet.Machine.Debugger.Breaks.{snapshot-some}

module _ {M P : Type 0} where
  run_limit_requested :
      (p : FrontPanel M P)
      → p.stop_requested ≡ true
      → is_stopped p.system.cpu ≡ false
      → run_limit 1 p ≡ (
        record { steps = 1; reason = PanelStopReason.stopped_by_request; error = none },
        record p { stop_requested = false },
      )
  unfolding run_limit
  run_limit_requested p e f = ground arith

  module _ ⦃memory : Memory M⦄ (writes : Recorder MemoryWrite M)
      (accesses : Recorder IoAccess P) where
    executed_goes_on :
        (event : TraceEvent) (state : FrontPanelState) (d : Debugger M P)
        → IsUnset d
        → let x = executed writes accesses event PanelStopReason.stopped_by_request state d in
          (x.0.reason ≡ DebugStopReason.continue) × (x.0.error ≡ none) × (x.1.panel ≡ d.panel)
    unfolding executed emit
    executed_goes_on event state d u = (
      executed_reason_unset d (recorded writes d.panel.system.mem)
          (recorded accesses d.panel.system.io) PanelStopReason.stopped_by_request u,
      refl,
      refl,
    )

    -- A flaw: where the panel's `Run` of one step, behind its instruction, finds a request to stop and the
    -- processor running, it ends by the request and clears it; the debugger's `Step`, without breakpoints
    -- and watchpoints, then returns neither a reason to stop nor an error, so that the request is gone.
    pub after_run-run_limit :
        (event : TraceEvent) (p : FrontPanel M P) (m : M) (d : Debugger M P)
        → p.system.mem ≡ some m
        → p.stop_requested ≡ true
        → is_stopped p.system.cpu ≡ false
        → IsUnset d
        → let r = run_limit 1 p in
          let x = after_run writes accesses event r.0 (record d { panel = r.1 }) in
          (r.0.reason ≡ PanelStopReason.stopped_by_request)
          × (x.0.reason ≡ DebugStopReason.continue)
          × (x.0.error ≡ none)
          × (x.1.panel.stop_requested ≡ false)
    unfolding after_run
    after_run-run_limit event p m d e asked running u =
        let q = record p { stop_requested = false } in
        let (state, taken, _) = snapshot-some q m e in
        let next = record d { panel = q } in
        let goes = executed_goes_on event state next (record {
          no_pc = u.no_pc;
          no_opcode = u.no_opcode;
          no_memory = u.no_memory;
          no_input = u.no_input;
          no_output = u.no_output;
        }) in
        subst
          (λ (r : PanelRunResult × FrontPanel M P).
            let x = after_run writes accesses event r.0 (record d { panel = r.1 }) in
            (r.0.reason ≡ PanelStopReason.stopped_by_request)
            × (x.0.reason ≡ DebugStopReason.continue)
            × (x.0.error ≡ none)
            × (x.1.panel.stop_requested ≡ false))
          (sym (run_limit_requested p asked running))
          (subst
            (λ (o : Option FrontPanelState).
              let x = elim o as (λ _. StepOutcome × Debugger M P) [
                | none ↦ (failing PanelError.panic, next)
                | some s ↦ executed writes accesses event PanelStopReason.stopped_by_request s next
              ] in
              (PanelStopReason.stopped_by_request ≡ PanelStopReason.stopped_by_request)
              × (x.0.reason ≡ DebugStopReason.continue)
              × (x.0.error ≡ none)
              × (x.1.panel.stop_requested ≡ false))
            (sym taken)
            (refl, goes.0, goes.1, ap (λ (z : FrontPanel M P). z.stop_requested) goes.2))
