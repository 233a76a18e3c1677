-- ===== src/Tests/Debugging.antt =====
-- The debugger over the sample panel.
use retronet.Base.{
  ℕ, zero, suc, ◌<◌, ◌≡◌, refl, arith, true, false, [], Option, none, some, ap, subst, ◌==◌,
}
use retronet.Cpu.Bus.{FlatMemory, flat_memory, flat_read, Ports, ports_io}
use retronet.Cpu.Safety.Steps.{steps}
use retronet.Machine.FrontPanel.{FrontPanel, PanelStopReason}
use retronet.Machine.FrontPanel.Running.{run_limit}
use retronet.Machine.Peripherals.Attach.{or_else}
use retronet.Machine.Debugger.{DebugStopReason, Debugger, fresh_debugger, no_recorder}
use retronet.Machine.Debugger.Stepping.{result_of, debug_run, clear_accesses, after_run}
use retronet.Machine.Debugger.Events.{empty_event}
use retronet.Machine.Debugger.Ending.{Terminates, debug_run-Terminates}
use retronet.Machine.Debugger.Breaks.{debug_run-StopsAt}
use retronet.Machine.Debugger.Kept.{Holds}
use retronet.Machine.Debugger.Trace.{IsTraced, debug_run-IsTraced}
use retronet.Machine.Debugger.Stops.{after_run-run_limit}
use retronet.Machine.Debugger.Unset.{IsUnset}
use retronet.Machine.Debugger.Program.{IsReady, HasRun, debug_run-steps}
use retronet.Tests.Panel.{sample_panel, sample_panel-Runs}
use retronet.Tests.Samples.{sample_package, sample_memory, sample_memory-IsBytes}

-- Without breakpoints, and with one where the program starts.
abbrev sample_debugger : Debugger FlatMemory Ports
sample_debugger = record (fresh_debugger sample_panel) { sink = some [] }

abbrev breaking_debugger : Debugger FlatMemory Ports
breaking_debugger = record sample_debugger { pc_breakpoints = λ addr. addr == 0x0100 }

sample_debugger-IsUnset : IsUnset sample_debugger
sample_debugger-IsUnset = record {
  no_pc = λ _. refl;
  no_opcode = λ _. refl;
  no_memory = λ _. refl;
  no_input = λ _. refl;
  no_output = λ _. refl;
}

debug_run-Terminates_example : Terminates 5 (
    debug_run no_recorder no_recorder ⦃i8080 = sample_package⦄ ⦃memory = flat_memory⦄
      ⦃ports = ports_io⦄ 5 sample_debugger)
debug_run-Terminates_example =
    debug_run-Terminates no_recorder no_recorder ⦃i8080 = sample_package⦄ ⦃memory = flat_memory⦄
      ⦃ports = ports_io⦄ 5 sample_debugger

debug_run-StopsAt_example :
    (e : Debugger FlatMemory Ports) × (debug_run no_recorder no_recorder ⦃i8080 = sample_package⦄
        ⦃memory = flat_memory⦄ ⦃ports = ports_io⦄ 5 breaking_debugger
      ≡ some (result_of 0 DebugStopReason.stopped_breakpoint, none, e))
    × (e.panel ≡ (clear_accesses no_recorder no_recorder breaking_debugger).panel)
debug_run-StopsAt_example =
    debug_run-StopsAt no_recorder no_recorder ⦃i8080 = sample_package⦄ ⦃memory = flat_memory⦄
      ⦃ports = ports_io⦄ 5 breaking_debugger sample_memory (omega arith) refl refl

debug_run-IsTraced_example : Holds (IsTraced 0) (
    debug_run no_recorder no_recorder ⦃i8080 = sample_package⦄ ⦃memory = flat_memory⦄
      ⦃ports = ports_io⦄ 5 sample_debugger)
debug_run-IsTraced_example =
    debug_run-IsTraced 0 no_recorder no_recorder ⦃i8080 = sample_package⦄ ⦃memory = flat_memory⦄
      ⦃ports = ports_io⦄ 5 sample_debugger
      (record { events = []; received_events = refl; numbers = tt; next_number = refl })

-- A stop that has been asked for during the instruction.
abbrev asked_panel : FrontPanel FlatMemory Ports
asked_panel = record sample_panel { stop_requested = true }

after_run-run_limit_example :
    let r = run_limit 1 asked_panel in
    let x =
      after_run no_recorder no_recorder ⦃memory = flat_memory⦄ empty_event r.0
        (record sample_debugger { panel = r.1 }) in
    (r.0.reason ≡ PanelStopReason.stopped_by_request)
    × (x.0.reason ≡ DebugStopReason.continue)
    × (x.0.error ≡ none)
    × (x.1.panel.stop_requested ≡ false)
after_run-run_limit_example =
    after_run-run_limit ⦃memory = flat_memory⦄ no_recorder no_recorder empty_event asked_panel
      sample_memory sample_debugger refl refl refl sample_debugger-IsUnset

sample-IsReady :
    (k : ℕ)
    → k < 1
    → IsReady ⦃i8080 = sample_package⦄ ⦃memory = flat_memory⦄ ⦃ports = ports_io⦄ (
        steps ⦃i8080 = sample_package⦄ ⦃memory = flat_memory⦄ ⦃ports = ports_io⦄ k
          sample_panel.system)
unfolding steps flat_read
sample-IsReady zero h = record {
  runs = sample_panel-Runs zero h;
  byte = λ m e.
      subst (λ (n : FlatMemory). flat_read n 0x0100 < 256)
        (ap (λ (o : Option FlatMemory). or_else o sample_memory) e)
        (sample_memory-IsBytes.cell 0x0100);
}
sample-IsReady (suc k) h = absurd (omega arith)

debug_run-steps_example :
    HasRun ⦃i8080 = sample_package⦄ ⦃memory = flat_memory⦄ ⦃ports = ports_io⦄ 1
      (steps ⦃i8080 = sample_package⦄ ⦃memory = flat_memory⦄ ⦃ports = ports_io⦄ 1
        sample_panel.system)
      (debug_run no_recorder no_recorder ⦃i8080 = sample_package⦄ ⦃memory = flat_memory⦄
        ⦃ports = ports_io⦄ 1 sample_debugger)
debug_run-steps_example =
    debug_run-steps ⦃i8080 = sample_package⦄ ⦃memory = flat_memory⦄ ⦃ports = ports_io⦄ no_recorder
      no_recorder (record { keeps = λ _. refl }) (record { keeps = λ _. refl }) 1 sample_debugger
      sample_debugger-IsUnset
      (record {
        not_running = refl;
        quiet = record {
          idle = record { inactive = refl; no_interrupt = refl };
          free = record { no_callback = refl; ready_high = refl };
          no_request = refl;
          no_stop = refl;
        };
      })
      sample-IsReady
