-- ===== src/Conformance/Machines.antt =====
-- The machine that `RunCase` (conformance/suite.go) builds for a case.
use retronet.Base.{
  ◌<◌, ℕ, ◌+◌, ◌≤◌, ◌≡◌, refl, arith, true, false, List, [], ◌∷◌, length, ◌++◌, Option, none, some,
  inl, inr, ap, ◌∙◌,
}
use retronet.Cpu.Alu.{I8080}
use retronet.Cpu.Bus.{FlatMemory, new_flat_memory, flat_memory}
use retronet.Cpu.Bus.Flat.{flat_memory-RamLaws}
use retronet.Machine.Memory.{validate_range}
use retronet.Cpu.State.{zeroed, reset, new_cpu8080}
use retronet.Machine.FrontPanel.{FrontPanel, no_opcode, no_request, no_context, new_front_panel}
use retronet.Machine.Callbacks.{new_callback_io}
use retronet.Machine.Peripherals.{is_empty}
use retronet.Machine.Peripherals.Register.{whole}
use retronet.Machine.Peripherals.Attach.{or_else}
use retronet.Machine.Profiles.Loads.{LoadError, load_present, load_into}
use retronet.Machine.Profiles.Loading.{ReadsLoaded, load_into-ReadsLoaded}
use retronet.Machine.Observed.{new_observable_memory, observe_writes, observed_load_bytes}
use retronet.Machine.Debugger.{fresh_debugger}
use retronet.Machine.Debugger.Recording.{
  watch_ports, watched_panel, record_input, record_output, record_memory_write, new_debugger,
}
use retronet.Machine.Debugger.Unset.{IsUnset}
use retronet.Machine.Debugger.Recording.Ports.{watch_ports_done, watch_ports-Watched}
use retronet.Conformance.{
  CaseMemory, CaseBus, CaseError, CaseResult, Context, Case, refused, case_cpu, flat_loaders,
  run_built, run_loaded, run_named, run_case,
}

-- A callback bus whose latches are zero, with no callback, nothing recorded, and the recorder of the
-- debugger as the only observer of each port.
pub record IsFreshBus (io : CaseBus) : Type 0 where
  pub inputs : io.inputs ≡ (λ _. 0)
  pub outputs : io.outputs ≡ (λ _. 0)
  pub input_callbacks : io.input_callbacks ≡ (λ _. none)
  pub output_callbacks : io.output_callbacks ≡ (λ _. none)
  pub devices : io.devices ≡ []
  pub input_observers : (port : ℕ) → port < 256 → io.input_observers port ≡ record_input whole ∷ []
  pub output_observers :
      (port : ℕ) → port < 256 → io.output_observers port ≡ record_output whole ∷ []

-- The context of a case before its setup: the processor of a reset at the start, the program in a memory
-- that is zero elsewhere, a fresh bus, a panel at rest, nothing recorded, and no breakpoints.
pub record IsFresh (test : Case) (context : Context) : Type 0 where
  pub cpu : context.panel.system.cpu ≡ record (zeroed none) { pc = test.start_pc }
  pub memory : CaseMemory
  pub mem : context.panel.system.mem ≡ some memory
  pub program :
      ReadsLoaded ⦃memory = flat_memory⦄ flat_memory-RamLaws new_flat_memory memory.base
        test.load_address test.program
  pub no_writes : memory.watchers ≡ []
  pub observed : memory.observers ≡ record_memory_write whole ∷ []
  pub bus : CaseBus
  pub io : context.panel.system.io ≡ some bus
  pub attached : IsFreshBus bus
  pub idle : context.panel.cycle_active ≡ false
  pub no_request : context.panel.pending_interrupt ≡ none
  pub no_stop : context.panel.stop_requested ≡ false
  pub ready : context.panel.ready ≡ true
  pub not_running : context.panel.running ≡ false
  pub not_waiting : context.panel.waiting ≡ false
  pub no_callback : context.panel.ready_callback ≡ none
  pub no_switches : (context.panel.switches ≡ 0) × (context.panel.address ≡ 0)
  pub no_events : (context.sequence ≡ 0) × (context.sink ≡ none)
  pub unset : IsUnset context

-- NewFrontPanel of a case
abbrev panel_of : Case → CaseMemory → FrontPanel CaseMemory CaseBus
panel_of test m = record {
  system = record { cpu = case_cpu test; mem = some m; io = some (new_callback_io []) };
  switches = 0;
  address = 0;
  running = false;
  stop_requested = false;
  ready = true;
  waiting = false;
  ready_callback = none;
  cycle_active = false;
  cycle_index = 0;
  active_opcode = no_opcode;
  active_interrupt = false;
  active_request = no_request;
  wait_cycle = no_context;
  pending_interrupt = none;
}

module _ ⦃i8080 : I8080⦄ where
  -- The machine around a memory that nothing has been recorded of.
  run_loaded-IsFresh :
      (test : Case) (m : CaseMemory)
      → ReadsLoaded ⦃memory = flat_memory⦄ flat_memory-RamLaws new_flat_memory m.base
          test.load_address test.program
      → m.watchers ≡ []
      → m.observers ≡ []
      → (context : Context) × (run_loaded test m ≡ run_built test context) × IsFresh test context
  unfolding new_cpu8080 reset run_loaded new_front_panel new_debugger observe_writes
  run_loaded-IsFresh test m loaded unwatched observers =
      let io = new_callback_io [] in
      let next = (watch_ports whole io).1 in
      let watched = watch_ports-Watched whole io in
      let panel = panel_of test m in
      (
        fresh_debugger (watched_panel whole whole panel m (some next)),
        rw (watch_ports_done whole io, run_loaded, new_debugger) refl,
        record {
          cpu = refl;
          memory = observe_writes (some (record_memory_write whole)) m;
          mem = refl;
          program = loaded;
          no_writes = unwatched;
          observed = ap (λ fs. fs ++ record_memory_write whole ∷ []) observers;
          bus = next;
          io = refl;
          attached = record {
            inputs = watched.inputs;
            outputs = watched.outputs;
            input_callbacks = watched.input_callbacks;
            output_callbacks = watched.output_callbacks;
            devices = watched.devices;
            input_observers = watched.input_observers;
            output_observers = watched.output_observers;
          };
          idle = refl;
          no_request = refl;
          no_stop = refl;
          ready = refl;
          not_running = refl;
          not_waiting = refl;
          no_callback = refl;
          no_switches = (refl, refl);
          no_events = (refl, refl);
          unset = record {
            no_pc = λ _. refl;
            no_opcode = λ _. refl;
            no_memory = λ _. refl;
            no_input = λ _. refl;
            no_output = λ _. refl;
          };
        },
      )

  -- The memory behind `LoadBytes` of a program that fits.
  load_fits :
      (addr : ℕ) (xs : List ℕ)
      → addr + length xs ≤ 65536
      → (n : FlatMemory) × (load_into ⦃memory = flat_memory⦄ ⦃loaders = flat_loaders⦄ addr xs
            (some new_flat_memory)
          ≡ (none, some n))
        × ReadsLoaded ⦃memory = flat_memory⦄ flat_memory-RamLaws new_flat_memory n addr xs
  load_fits addr xs h =
      elim (load_into-ReadsLoaded ⦃memory = flat_memory⦄ flat_memory-RamLaws
        ⦃loaders = flat_loaders⦄ refl addr xs new_flat_memory) [
          | inl (_, n, same, loaded) ↦ (n, same, loaded)
          | inr (long, _, _) ↦ absurd (omega arith)
        ]

  -- A new memory of the case, over `base`.
  abbrev unwatched : FlatMemory → CaseMemory
  unwatched base = record { base = base; observers = []; watchers = [] }

  run_named-loaded :
      (test : Case) (n : FlatMemory)
      → load_into ⦃memory = flat_memory⦄ ⦃loaders = flat_loaders⦄ test.load_address test.program
          (some new_flat_memory)
        ≡ (none, some n)
      → run_named test ≡ run_loaded test (unwatched n)
  unfolding run_named load_into observed_load_bytes new_observable_memory
  run_named-loaded test n same =
      let r =
        load_present ⦃memory = flat_memory⦄ ⦃loaders = flat_loaders⦄ test.load_address test.program
          new_flat_memory in
      let no_error : r.0 ≡ none = ap (λ (x : Option LoadError × Option FlatMemory). x.0) same in
      let memory : r.1 ≡ n =
        ap (λ (x : Option LoadError × Option FlatMemory). or_else x.1 n) same in
      after_load r.0 r.1 no_error memory
    where
      after_load :
          (e : Option LoadError) (m : FlatMemory)
          → e ≡ none
          → m ≡ n
          → (elim e as (λ _. Option CaseResult) [
            | some f ↦ some (refused test (CaseError.of_load f))
            | none ↦ run_loaded test (unwatched m)
          ])
            ≡ run_loaded test (unwatched n)
      after_load none m _ same_memory = ap (λ x. run_loaded test (unwatched x)) same_memory
      after_load (some f) m none_error _ = absurd (cc none_error)

  named_fitting :
      (test : Case)
      → is_empty test.name ≡ false
      → test.load_address + length test.program ≤ 65536
      → run_case test ≡ run_named test
  unfolding run_case validate_range
  named_fitting test named fits = ground arith

  pub run_case-IsFresh :
      (test : Case)
      → is_empty test.name ≡ false
      → test.load_address + length test.program ≤ 65536
      → (context : Context) × (run_case test ≡ run_built test context) × IsFresh test context
  run_case-IsFresh test named fits =
      let (n, same, loaded) = load_fits test.load_address test.program fits in
      let (context, built, fresh) = run_loaded-IsFresh test (unwatched n) loaded refl refl in
      (context, named_fitting test named fits ∙ (run_named-loaded test n same ∙ built), fresh)
