-- ===== src/Tests/Panel.antt =====
-- The front panel over the sample processor: running, waiting and interrupted.
use retronet.Base.{Option, ◌≡◌, refl, arith, true, false, none, some, [], ◌∷◌}
use retronet.Cpu.Bus.{FlatMemory, flat_memory, Ports, new_ports, ports_io}
use retronet.Cpu.Decoder.{decode}
use retronet.Cpu.Codes.{is_unassigned_opcode}
use retronet.Cpu.Step.{step, jam}
use retronet.Cpu.Frame.Fetch.{on_bus}
use retronet.Machine.FrontPanel.{
  FrontPanel, PanelError, InterruptRequest, to_error, clear_cycle_state, no_opcode, no_request,
  no_context,
}
use retronet.Machine.FrontPanel.Cycles.{step_panel}
use retronet.Machine.FrontPanel.Running.{run}
use retronet.Base.{ℕ, zero, suc, ◌<◌}
use retronet.Cpu.Bus.{flat_read}
use retronet.Cpu.Safety.Steps.{steps}
use retronet.Cpu.Frame.Outcome.{verdict, code_verdict, step-verdict}
use retronet.Cpu.Frame.Steps.{is_nil}
use retronet.Machine.FrontPanel.Program.{Runs, silent, run-steps}
use retronet.Machine.FrontPanel.Waiting.{panel_steps}
use retronet.Machine.FrontPanel.Ready.{left_pending, step_panel-step, step_panel-jam}
use retronet.Tests.Samples.{sample_package, sample_cpu, sample_memory}

abbrev pub sample_panel : FrontPanel FlatMemory Ports
sample_panel = record {
  system = on_bus sample_cpu sample_memory (some new_ports);
  switches = 0;
  address = 0;
  running = false;
  stop_requested = false;
  ready = true;
  waiting = false;
  ready_callback = none;
  cycle_active = false;
  cycle_index = 0;
  active_opcode = no_opcode;
  active_interrupt = false;
  active_request = no_request;
  wait_cycle = no_context;
  pending_interrupt = none;
}

-- RST 7, requested
abbrev restart : InterruptRequest
restart = record { code = 0xFF; operands = 0 ∷ 0 ∷ []; operand_count = 0 }

abbrev requested_panel : FrontPanel FlatMemory Ports
requested_panel = record sample_panel { pending_interrupt = some restart }

-- in the second cycle of MVI B
abbrev waiting_panel : FrontPanel FlatMemory Ports
waiting_panel = record sample_panel {
  cycle_active = true;
  cycle_index = 1;
  active_opcode = decode 0x06;
  ready = false;
}

step_panel-step_example :
    let x =
      step ⦃i8080 = sample_package⦄ ⦃memory = flat_memory⦄ ⦃ports = ports_io⦄ sample_panel.system in
    step_panel ⦃i8080 = sample_package⦄ ⦃memory = flat_memory⦄ ⦃ports = ports_io⦄ sample_panel
    ≡ (to_error x.0, record (clear_cycle_state sample_panel) { system = x.1 })
step_panel-step_example =
    step_panel-step ⦃i8080 = sample_package⦄ ⦃memory = flat_memory⦄ ⦃ports = ports_io⦄ sample_panel
      sample_memory (record { inactive = refl; no_interrupt = refl })
      (record { no_callback = refl; ready_high = refl }) refl refl refl

step_panel-jam_example :
    let x =
      jam ⦃i8080 = sample_package⦄ ⦃memory = flat_memory⦄ ⦃ports = ports_io⦄ 0xFF []
        requested_panel.system in
    step_panel ⦃i8080 = sample_package⦄ ⦃memory = flat_memory⦄ ⦃ports = ports_io⦄ requested_panel
    ≡ (
      to_error x.0,
      record (clear_cycle_state requested_panel) {
        system = x.1;
        pending_interrupt = left_pending (to_error x.0) (some restart);
      },
    )
step_panel-jam_example =
    step_panel-jam ⦃i8080 = sample_package⦄ ⦃memory = flat_memory⦄ ⦃ports = ports_io⦄
      requested_panel restart (record { inactive = refl; no_interrupt = refl })
      (record { no_callback = refl; ready_high = refl }) refl

abbrev sample_panel_step :
    FrontPanel FlatMemory Ports → Option PanelError × FrontPanel FlatMemory Ports
sample_panel_step = step_panel ⦃i8080 = sample_package⦄ ⦃memory = flat_memory⦄ ⦃ports = ports_io⦄

abbrev sample_panel_steps : ℕ → FrontPanel FlatMemory Ports → FrontPanel FlatMemory Ports
sample_panel_steps = panel_steps ⦃i8080 = sample_package⦄ ⦃memory = flat_memory⦄ ⦃ports = ports_io⦄

pub sample_panel-Runs :
    (k : ℕ)
    → k < 1
    → Runs ⦃i8080 = sample_package⦄ ⦃memory = flat_memory⦄ ⦃ports = ports_io⦄ (
        steps ⦃i8080 = sample_package⦄ ⦃memory = flat_memory⦄ ⦃ports = ports_io⦄ k
          sample_panel.system)
unfolding steps flat_read verdict code_verdict is_unassigned_opcode is_nil
sample_panel-Runs zero h = record {
  not_stopped = refl;
  with_memory = (sample_memory, refl);
  succeeds =
      step-verdict ⦃i8080 = sample_package⦄ ⦃memory = flat_memory⦄ ⦃ports = ports_io⦄
        sample_panel.system (omega arith);
}
sample_panel-Runs (suc k) h = absurd (omega arith)

run-steps_example :
    let x =
      run ⦃i8080 = sample_package⦄ ⦃memory = flat_memory⦄ ⦃ports = ports_io⦄ 1 silent
        sample_panel in
    (x.1.system
      ≡ steps ⦃i8080 = sample_package⦄ ⦃memory = flat_memory⦄ ⦃ports = ports_io⦄ 1
          sample_panel.system)
    × (x.0.steps ≡ 1)
run-steps_example =
    run-steps ⦃i8080 = sample_package⦄ ⦃memory = flat_memory⦄ ⦃ports = ports_io⦄ 1 sample_panel refl
      (record {
        idle = record { inactive = refl; no_interrupt = refl };
        free = record { no_callback = refl; ready_high = refl };
        no_request = refl;
        no_stop = refl;
      })
      sample_panel-Runs
