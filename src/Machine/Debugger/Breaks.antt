-- ===== src/Machine/Debugger/Breaks.antt =====
-- Breakpoints and stop requests of machine/debugger.go.
use retronet.Base.{
  ℕ, zero, suc, ◌<◌, ◌≡◌, refl, arith, Bool, true, false, ◌||◌, ◌&&◌, if◌then◌else◌, ltb, Option,
  none, some, sym, ap, subst, ◌∙◌,
}
use retronet.Cpu.Errors.{ok}
use retronet.Cpu.Alu.{I8080}
use retronet.Cpu.Bus.{Memory, Io}
use retronet.Cpu.Disasm.{Disassembly, disassemble}
use retronet.Cpu.State.{Cpu8080}
use retronet.Machine.Observed.{MemoryWrite}
use retronet.Machine.FrontPanel.{FrontPanel, PanelError, examine}
use retronet.Machine.FrontPanel.Snapshot.{
  FrontPanelState, JamInstruction, snapshot, state_of, pending_interrupt_of,
}
use retronet.Machine.FrontPanel.Running.{run}
use retronet.Machine.Debugger.{
  TraceEventKind, DebugStopReason, IoAccess, BreakpointReason, TraceEvent, Debugger, Recorder,
  breakpoint_reason, emit, forgotten, has_bytes,
}
use retronet.Machine.Debugger.Stepping.{
  StepOutcome, RunOutcome, after_step, failing, step_event, with_event, step_cleared, debug_step,
  debug_loop, debug_run, clear_accesses, after_run, result_of, emitted,
}
use retronet.Machine.Debugger.Events.{
  new_event, no_observer, interrupt_event, with_disassembly, next_event,
}

event_by :
    (before : FrontPanelState) (pending : JamInstruction × Bool) (stopped : Bool) (d : Disassembly)
    → (event : TraceEvent) × ((if pending.1
          then ok (interrupt_event pending.0 (new_event before))
          else if stopped
          then ok (new_event before)
          else with_disassembly (new_event before) (ok d))
        ≡ ok event)
      × (event.pc ≡ before.cpu.pc)
event_by before (pending, true) stopped d = (interrupt_event pending (new_event before), refl, refl)
event_by before (pending, false) true d = (new_event before, refl, refl)
event_by before (pending, false) false d = (_, refl, refl)

module _ {M P : Type 0} ⦃memory : Memory M⦄ where
  -- Over a memory there is an event for the next instruction, with the address at which it stands.
  pub next_event-pc :
      (before : FrontPanelState) (p : FrontPanel M P) (m : M)
      → p.system.mem ≡ some m
      → (event : TraceEvent) × (next_event before p ≡ ok event) × (event.pc ≡ before.cpu.pc)
  unfolding next_event disassemble
  next_event-pc before p m e =
      let stopped = before.cpu.halted || before.cpu.stopped in
      subst
        (λ (o : Option M).
          (event : TraceEvent) × ((if (pending_interrupt_of p).1
              then ok (interrupt_event (pending_interrupt_of p).0 (new_event before))
              else if stopped
              then ok (new_event before)
              else with_disassembly (new_event before) (disassemble o before.cpu.pc))
            ≡ ok event)
          × (event.pc ≡ before.cpu.pc))
        (sym e) (event_by before (pending_interrupt_of p) stopped _)

  pub snapshot-some :
      (p : FrontPanel M P) (m : M)
      → p.system.mem ≡ some m
      → (s : FrontPanelState) × (snapshot p ≡ some s) × (s.cpu ≡ p.system.cpu)
  unfolding snapshot examine
  snapshot-some p m e = (
    state_of p (memory.read m p.address),
    ap
        (λ (o : Option M).
          elim (elim o as (λ _. Option ℕ) [ none ↦ none | some n ↦ some (memory.read n p.address) ])
            as (λ _. Option FrontPanelState) [ none ↦ none | some byte ↦ some (state_of p byte) ])
        e,
    refl,
  )

-- a round that ends at a breakpoint
stopped :
    {M P : Type 0} (go : ℕ → Debugger M P → RunOutcome M P) (o : StepOutcome) (next : Debugger M P)
    → o.error ≡ none
    → o.reason ≡ DebugStopReason.stopped_breakpoint
    → o.event.kind ≡ TraceEventKind.breakpoint
    → after_step go 0 (o, next) ≡ some (result_of 0 DebugStopReason.stopped_breakpoint, none, next)
stopped go o next e r k = ground arith

-- What a step with an event does at a breakpoint.
module _ {M P : Type 0} (writes : Recorder MemoryWrite M) (accesses : Recorder IoAccess P)
    ⦃i8080 : I8080⦄ ⦃memory : Memory M⦄ ⦃ports : Io P⦄ where
  -- A step that stops at a breakpoint and leaves the panel `p`.
  pub record StopsAt (p : FrontPanel M P) (x : StepOutcome × Debugger M P) : Type 0 where
    pub reason : x.0.reason ≡ DebugStopReason.stopped_breakpoint
    pub no_error : x.0.error ≡ none
    pub kind : x.0.event.kind ≡ TraceEventKind.breakpoint
    pub same_panel : x.1.panel ≡ p

  step_event-StopsAt :
      (before : FrontPanelState) (event : TraceEvent) (d : Debugger M P)
      → d.pc_breakpoints event.pc ≡ true
      → StopsAt d.panel (step_event writes accesses before event d)
  unfolding step_event breakpoint_reason emit
  step_event-StopsAt before event d h =
      by_reason (breakpoint_reason d event) (BreakpointReason.at_pc event.pc)
        (not_reached (d.pc_breakpoints event.pc) h)
    where
      not_reached :
          (b : Bool)
          → b ≡ true
          → (if b
              then some (BreakpointReason.at_pc event.pc)
              else if has_bytes event.bytes && d.opcode_breakpoints event.opcode
              then some (BreakpointReason.at_opcode event.opcode)
              else none)
            ≡ some (BreakpointReason.at_pc event.pc)
      not_reached b e = rw e refl

      by_reason :
          (x : Option BreakpointReason) (r : BreakpointReason)
          → x ≡ some r
          → StopsAt d.panel (elim x as (λ _. StepOutcome × Debugger M P) [
            | some reason ↦
                emitted DebugStopReason.stopped_breakpoint
                  (record event {
                    kind = TraceEventKind.breakpoint;
                    breakpoint = some reason;
                    after = before.cpu;
                  })
                  d
            | none ↦
                (let (result, q) = run 1 no_observer d.panel in
                  after_run writes accesses event result (record d { panel = q }))
          ])
      by_reason (some reason) r e = record {
        reason = refl;
        no_error = refl;
        kind = refl;
        same_panel = refl;
      }
      by_reason none r e = absurd (cc e)

  -- over the snapshot and the event of the step
  step_cleared-StopsAt :
      (d : Debugger M P) (m : M)
      → d.panel.system.mem ≡ some m
      → d.pc_breakpoints d.panel.system.cpu.pc ≡ true
      → StopsAt d.panel (step_cleared writes accesses d)
  unfolding step_cleared
  step_cleared-StopsAt d m e h =
      let (before, taken, same_cpu) = snapshot-some d.panel m e in
      let (event, next, same_pc) = next_event-pc before d.panel m e in
      let at : event.pc ≡ d.panel.system.cpu.pc = same_pc ∙ ap (λ (c : Cpu8080). c.pc) same_cpu in
      let stops = step_event-StopsAt before event d (ap d.pc_breakpoints at ∙ h) in
      subst
        (λ (o : Option FrontPanelState).
          StopsAt d.panel (elim o as (λ _. StepOutcome × Debugger M P) [
            | none ↦ (failing PanelError.panic, d)
            | some s ↦ with_event writes accesses s (next_event s d.panel) d
          ]))
        (sym taken)
        (subst (λ r. StopsAt d.panel (with_event writes accesses before r d)) (sym next) stops)

  debug_step-StopsAt :
      (d : Debugger M P) (m : M)
      → d.panel.system.mem ≡ some m
      → d.pc_breakpoints d.panel.system.cpu.pc ≡ true
      → StopsAt (clear_accesses writes accesses d).panel (debug_step writes accesses d)
  unfolding debug_step clear_accesses
  debug_step-StopsAt d m e h =
      step_cleared-StopsAt (clear_accesses writes accesses d) (writes.cleared m)
        (ap (forgotten writes) e) h

  loop_round :
      (limit fuel : ℕ) (d : Debugger M P)
      → 0 < limit
      → debug_loop writes accesses (suc fuel) limit 0 d
        ≡ after_step (debug_loop writes accesses fuel limit) 0 (debug_step writes accesses d)
  unfolding debug_loop
  loop_round limit fuel d h = rw (below limit h) refl
    where
      below : (n : ℕ) → 0 < n → ltb 0 n ≡ true
      below n h = ground arith

  -- A run of the debugger with a positive limit, of a panel with a memory, whose program counter is at a
  -- breakpoint, executes nothing: it ends with that reason, no error and a count of 0, and the panel is as it was, but for
  -- what the debugger had recorded.
  pub debug_run-StopsAt :
      (limit : ℕ) (d : Debugger M P) (m : M)
      → 0 < limit
      → d.panel.system.mem ≡ some m
      → d.pc_breakpoints d.panel.system.cpu.pc ≡ true
      → (e : Debugger M P) × (debug_run writes accesses limit d
          ≡ some (result_of 0 DebugStopReason.stopped_breakpoint, none, e))
        × (e.panel ≡ (clear_accesses writes accesses d).panel)
  unfolding debug_run
  debug_run-StopsAt zero d m h e at = absurd (omega arith)
  debug_run-StopsAt (suc n) d m h e at =
      let stops = debug_step-StopsAt d m e at in
      let (outcome, next) = debug_step writes accesses d in
      (
        next,
        loop_round (suc n) n d h
            ∙ stopped (debug_loop writes accesses n (suc n)) outcome next stops.no_error
                stops.reason stops.kind,
        stops.same_panel,
      )
