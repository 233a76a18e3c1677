-- ===== src/Machine/Debugger/Transparent.antt =====
-- `Step` of machine/debugger.go without breakpoints, against the processor's own `Step`.
use retronet.Base.{
  ℕ, ◌<◌, ◌≡◌, refl, Bool, true, false, if◌then◌else◌, List, Option, none, some, sym, ap, subst,
  ◌∙◌,
}
use retronet.Cpu.Alu.{I8080}
use retronet.Cpu.Bus.{Memory, Io}
use retronet.Cpu.Step.{step, is_stopped}
use retronet.Cpu.Frame.{Present}
use retronet.Cpu.Frame.Effects.{step-Present}
use retronet.Machine.Observed.{MemoryWrite}
use retronet.Machine.FrontPanel.{FrontPanel, PanelError, PanelStopReason}
use retronet.Machine.FrontPanel.Snapshot.{FrontPanelState}
use retronet.Machine.FrontPanel.Running.{PanelRunResult, run}
use retronet.Machine.FrontPanel.Program.{Runs, IsQuiet, next_panel, run_one}
use retronet.Machine.Debugger.{
  TraceEventKind, DebugStopReason, IoAccess, BreakpointReason, TraceEvent, Debugger, Recorder,
  breakpoint_reason, emit, recorded, forgotten,
}
use retronet.Machine.Debugger.Stepping.{
  StepOutcome, failing, after_run, executed, step_event, with_event, step_cleared, debug_step,
  clear_accesses, emitted,
}
use retronet.Machine.Debugger.Events.{next_event, no_observer}
use retronet.Machine.Debugger.Unset.{IsUnset, IsBlank, reason_unset, executed_reason_unset}
use retronet.Machine.Debugger.Breaks.{next_event-pc, snapshot-some}

abbrev pub panel_reason : Bool → DebugStopReason
panel_reason halted = if halted then DebugStopReason.stopped_cpu else DebugStopReason.continue

abbrev panel_cause : Bool → PanelStopReason
panel_cause halted =
    if halted then PanelStopReason.stopped_by_cpu else PanelStopReason.stopped_by_limit

Present-some : {M : Type 0} (o : Option M) → Present o → (m : M) × (o ≡ some m)
Present-some none h = absurd h
Present-some (some m) h = (m, refl)

-- A step of the debugger that has executed an instruction, which left the panel `q`.
pub record Stepped {M P : Type 0} (q : FrontPanel M P) (halted : Bool)
    (x : StepOutcome × Debugger M P) : Type 0 where
  pub no_error : x.0.error ≡ none
  pub kind : x.0.event.kind ≡ TraceEventKind.instruction
  pub reason : x.0.reason ≡ panel_reason halted
  pub panel : x.1.panel ≡ q
  pub unset : IsUnset x.1

module _ {M P : Type 0} where
  IsUnset-kept :
      (d : Debugger M P) (q : FrontPanel M P) (n : ℕ) (sink : Option (List TraceEvent))
      → IsUnset d
      → IsUnset (record d { panel = q; sequence = n; sink = sink })
  IsUnset-kept d q n sink u = record {
    no_pc = u.no_pc;
    no_opcode = u.no_opcode;
    no_memory = u.no_memory;
    no_input = u.no_input;
    no_output = u.no_output;
  }

  module _ (writes : Recorder MemoryWrite M) (accesses : Recorder IoAccess P) where
    executed-Stepped :
        (q : FrontPanel M P) (halted : Bool) (event : TraceEvent) (state : FrontPanelState)
        (d : Debugger M P)
        → IsUnset d
        → Stepped q halted
            (executed writes accesses event (panel_cause halted) state (record d { panel = q }))
    unfolding executed emit
    executed-Stepped q halted event state d u = record {
      no_error = refl;
      kind = refl;
      reason =
          executed_reason_unset (record d { panel = q }) (recorded writes q.system.mem)
            (recorded accesses q.system.io) (panel_cause halted)
            (IsUnset-kept d q d.sequence d.sink u)
          ∙ by_halted halted;
      panel = refl;
      unset = IsUnset-kept d q _ _ u;
    }
      where
        by_halted :
            (b : Bool)
            → (elim (panel_cause b) as (λ _. DebugStopReason) [
              | PanelStopReason.stopped_by_cpu ↦ DebugStopReason.stopped_cpu
              | _ ↦ DebugStopReason.continue
            ])
              ≡ panel_reason b
        by_halted true = refl
        by_halted false = refl

    after_run-Stepped :
        ⦃memory : Memory M⦄ (q : FrontPanel M P) (m : M) (halted : Bool) (event : TraceEvent)
        (d : Debugger M P)
        → q.system.mem ≡ some m
        → IsUnset d
        → Stepped q halted (
            after_run writes accesses event
              (record { steps = 1; reason = panel_cause halted; error = none })
              (record d { panel = q }))
    unfolding after_run
    after_run-Stepped q m halted event d e u =
        let (state, taken, _) = snapshot-some q m e in
        subst
          (λ (o : Option FrontPanelState).
            Stepped q halted (elim o as (λ _. StepOutcome × Debugger M P) [
              | none ↦ (failing PanelError.panic, record d { panel = q })
              | some s ↦
                  executed writes accesses event (panel_cause halted) s (record d { panel = q })
            ]))
          (sym taken) (executed-Stepped q halted event state d u)

module _ {M P : Type 0} ⦃i8080 : I8080⦄ ⦃memory : Memory M⦄ ⦃ports : Io P⦄ where
  -- The panel can take a step, of an opcode that is a byte.
  pub record IsSteppable (p : FrontPanel M P) : Type 0 where
    pub not_running : p.running ≡ false
    pub quiet : IsQuiet p
    pub runs : Runs p.system
    pub byte : (m : M) → p.system.mem ≡ some m → memory.read m p.system.cpu.pc < 256

  abbrev pub behind : FrontPanel M P → FrontPanel M P
  behind p = record (next_panel p) { running = false }

  -- The memory is there behind the step.
  memory_behind : (p : FrontPanel M P) → IsSteppable p → (m : M) × ((behind p).system.mem ≡ some m)
  memory_behind p s =
      let (m, e) = s.runs.with_memory in
      Present-some (step p.system).1.mem (
        subst (λ (o : Option M). Present (step (record p.system { mem = o })).1.mem) (sym e)
          (step-Present p.system.cpu m p.system.io (s.byte m e) s.runs.not_stopped))

  module _ (writes : Recorder MemoryWrite M) (accesses : Recorder IoAccess P) where
    step_event-Stepped :
        (before : FrontPanelState) (event : TraceEvent) (d : Debugger M P)
        → IsSteppable d.panel
        → IsUnset d
        → Stepped
            (behind d.panel)
            (is_stopped (step d.panel.system).1.cpu)
            (step_event writes accesses before event d)
    unfolding step_event
    step_event-Stepped before event d s u =
        let (m, e) = memory_behind d.panel s in
        let halted = is_stopped (step d.panel.system).1.cpu in
        by_reason (breakpoint_reason d event) (reason_unset d event u) (
          subst
            (λ (x : PanelRunResult × FrontPanel M P).
              Stepped (behind d.panel) halted
                (after_run writes accesses event x.0 (record d { panel = x.1 })))
            (sym (run_one d.panel s.not_running s.quiet s.runs))
            (after_run-Stepped writes accesses (behind d.panel) m halted event d e u))
      where
        by_reason :
            (x : Option BreakpointReason)
            → x ≡ none
            → Stepped (behind d.panel) (is_stopped (step d.panel.system).1.cpu) (
                let (result, q) = run 1 no_observer d.panel in
                after_run writes accesses event result (record d { panel = q }))
            → Stepped
                (behind d.panel)
                (is_stopped (step d.panel.system).1.cpu)
                (elim x as (λ _. StepOutcome × Debugger M P) [
                  | some reason ↦
                      emitted DebugStopReason.stopped_breakpoint
                        (record event {
                          kind = TraceEventKind.breakpoint;
                          breakpoint = some reason;
                          after = before.cpu;
                        })
                        d
                  | none ↦
                      (let (result, q) = run 1 no_observer d.panel in
                        after_run writes accesses event result (record d { panel = q }))
                ])
        by_reason none e stepped = stepped
        by_reason (some r) e stepped = absurd (cc e)

    step_cleared-Stepped :
        (d : Debugger M P)
        → IsSteppable d.panel
        → IsUnset d
        → Stepped
            (behind d.panel)
            (is_stopped (step d.panel.system).1.cpu)
            (step_cleared writes accesses d)
    unfolding step_cleared
    step_cleared-Stepped d s u =
        let (m, e) = s.runs.with_memory in
        let halted = is_stopped (step d.panel.system).1.cpu in
        let (before, taken, _) = snapshot-some d.panel m e in
        let (event, next, _) = next_event-pc before d.panel m e in
        subst
          (λ (o : Option FrontPanelState).
            Stepped (behind d.panel) halted (elim o as (λ _. StepOutcome × Debugger M P) [
              | none ↦ (failing PanelError.panic, d)
              | some b ↦ with_event writes accesses b (next_event b d.panel) d
            ]))
          (sym taken)
          (subst (λ r. Stepped (behind d.panel) halted (with_event writes accesses before r d))
            (sym next) (step_event-Stepped before event d s u))

    clear_blank :
        (d : Debugger M P)
        → IsBlank writes
        → IsBlank accesses
        → clear_accesses writes accesses d ≡ d
    unfolding clear_accesses
    clear_blank d w a = λ i. record d {
      panel = record d.panel {
        system = record d.panel.system {
          mem = forgotten_blank writes w d.panel.system.mem i;
          io = forgotten_blank accesses a d.panel.system.io i;
        };
      };
    }
      where
        forgotten_blank :
            {A S : Type 0} (recorder : Recorder A S)
            → IsBlank recorder
            → (o : Option S) → forgotten recorder o ≡ o
        forgotten_blank recorder b none = refl
        forgotten_blank recorder b (some s) = ap (λ t. some t) (b.keeps s)

    pub debug_step-Stepped :
        (d : Debugger M P)
        → IsBlank writes
        → IsBlank accesses
        → IsSteppable d.panel
        → IsUnset d
        → Stepped
            (behind d.panel)
            (is_stopped (step d.panel.system).1.cpu)
            (debug_step writes accesses d)
    unfolding debug_step
    debug_step-Stepped d w a s u =
        subst
          (λ c.
            Stepped (behind d.panel) (is_stopped (step d.panel.system).1.cpu)
              (step_cleared writes accesses c))
          (sym (clear_blank d w a)) (step_cleared-Stepped d s u)
