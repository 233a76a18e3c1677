-- ===== src/Conformance.antt =====
-- conformance/suite.go: a case runs on a machine of its own, and a suite keeps every result.
pub mod Synthetic
pub mod Machines
pub mod Results
use Prim.Native.String.{String}
use retronet.Base.{
  ℕ, ◌+◌, Bool, true, false, if◌then◌else◌, ◌==◌, List, [], ◌∷◌, ◌++◌, length, Option, none, some,
  inl, inr,
}
use retronet.Cpu.Errors.{Error}
use retronet.Cpu.Alu.{I8080}
use retronet.Cpu.Bus.{FlatMemory, new_flat_memory, flat_memory}
use retronet.Cpu.State.{Cpu8080, new_cpu8080}
use retronet.Machine.Errors.{done, failed}
use retronet.Machine.Memory.{validate_range}
use retronet.Machine.FrontPanel.{PanelError, new_front_panel}
use retronet.Machine.Callbacks.{CallbackIo, callback_ports, new_callback_io}
use retronet.Machine.Peripherals.{is_empty}
use retronet.Machine.Peripherals.Register.{whole}
use retronet.Machine.Profiles.Loads.{Loaders, LoadError}
use retronet.Machine.Observed.{
  MemoryWrite, ObservableMemory, new_observable_memory, observable_memory, observed_load_bytes,
}
use retronet.Machine.Debugger.{DebugStopReason, DebugRunResult, IoAccess, Debugger}
use retronet.Machine.Debugger.Stepping.{RunOutcome, debug_run}
use retronet.Machine.Debugger.Recording.{DebuggerError, memory_recorder, io_recorder, new_debugger}

-- The memory and the bus of a case, with what the debugger records on them.
abbrev pub CaseMemory : Type 0
CaseMemory = ObservableMemory FlatMemory (List MemoryWrite)

abbrev pub CaseBus : Type 0
CaseBus = CallbackIo (List IoAccess)

-- type Context: the debugger has the panel, and the panel the processor, the memory and the bus, so that
-- the five fields are one value.
abbrev pub Context : Type 0
Context = Debugger CaseMemory CaseBus

-- The errors of a case; `mismatch` is that of a verification.
pub data CaseError : Type 0 where
  name_required mismatch : CaseError
  of_load : LoadError → CaseError
  of_cpu : Error → CaseError
  of_panel : PanelError → CaseError
  of_debugger : DebuggerError → CaseError
  setup_failed : CaseError → CaseError

-- A setup returns its error, or none for nil, and the context behind it.
pub record Case : Type 0 where
  pub name : String
  pub program : List ℕ
  pub load_address : ℕ
  pub start_pc : ℕ
  pub step_limit : ℕ
  pub setup : Option (Context → Option CaseError × Context)
  pub verify : Option (Context → DebugRunResult → Option CaseError)

pub record CaseResult : Type 0 where
  pub name : String
  pub passed : Bool
  pub steps : ℕ
  pub stop_reason : DebugStopReason
  pub error : Option CaseError

pub record SuiteResult : Type 0 where
  pub passed : ℕ
  pub failed_cases : ℕ
  pub cases : List CaseResult

-- a return before the run
abbrev pub refused : Case → CaseError → CaseResult
refused test e = record {
  name = test.name;
  passed = false;
  steps = 0;
  stop_reason = DebugStopReason.continue;
  error = some e;
}

-- the result behind a run, with an error or without
abbrev pub ended : Case → DebugRunResult → Option CaseError → CaseResult
ended test result none = record {
  name = test.name;
  passed = true;
  steps = result.steps;
  stop_reason = result.reason;
  error = none;
}
ended test result (some e) = record {
  name = test.name;
  passed = false;
  steps = result.steps;
  stop_reason = result.reason;
  error = some e;
}

abbrev pub limit_of : Case → ℕ
limit_of test = if test.step_limit == 0 then 64 else test.step_limit

-- the error of the run, or that of the verification
abbrev pub verified : Case → DebugRunResult → Option PanelError → Context → Option CaseError
verified test result (some e) context = some (CaseError.of_panel e)
verified test result none context = elim test.verify [ none ↦ none | some f ↦ f context result ]

-- A run that is out of rounds has no result.
abbrev pub finished : Case → RunOutcome CaseMemory CaseBus → Option CaseResult
finished test none = none
finished test (some (result, e, context)) =
    some (ended test result (verified test result e context))

-- a FlatMemory has no loader of its own
abbrev pub flat_loaders : Loaders FlatMemory
flat_loaders = record { byte_loader = none; rom_loader = none }

-- NewCPU8080, and its PC
abbrev pub case_cpu : Case → Cpu8080
case_cpu test = record new_cpu8080 { pc = test.start_pc }

module _ ⦃i8080 : I8080⦄ where
  abbrev pub run_context : ℕ → Context → RunOutcome CaseMemory CaseBus
  run_context limit context =
      debug_run (memory_recorder whole) (io_recorder whole)
        ⦃memory = observable_memory ⦃memory = flat_memory⦄⦄ ⦃ports = callback_ports⦄ limit context

  -- `RunCase` from its setup on
  unfoldable pub run_built : Case → Context → Option CaseResult
  run_built test context = elim test.setup [
    | none ↦ finished test (run_context (limit_of test) context)
    | some f ↦
        (let (e, next) = f context in
          elim e [
            | some g ↦ some (refused test (CaseError.setup_failed g))
            | none ↦ finished test (run_context (limit_of test) next)
          ])
  ]

  -- `RunCase` from its panel on, and from its memory on
  unfoldable pub run_loaded : Case → CaseMemory → Option CaseResult
  unfolding run_built new_debugger new_front_panel new_cpu8080
  run_loaded test m =
      elim (new_front_panel (some (case_cpu test)) (some m) (some (new_callback_io []))) [
        | inl e ↦ some (refused test (CaseError.of_panel e))
        | inr panel ↦ elim (new_debugger whole whole (some panel)) [
          | inl e ↦ some (refused test (CaseError.of_debugger e))
          | inr context ↦ run_built test context
        ]
      ]

  unfoldable pub run_named : Case → Option CaseResult
  unfolding run_loaded observed_load_bytes new_observable_memory
  run_named test = elim (new_observable_memory (some new_flat_memory) []) [
    | inl e ↦ some (refused test (CaseError.of_cpu e))
    | inr memory ↦
        (let (e, m) =
            observed_load_bytes ⦃memory = flat_memory⦄ ⦃loaders = flat_loaders⦄ test.load_address
              test.program memory in
          elim e [ some f ↦ some (refused test (CaseError.of_load f)) | none ↦ run_loaded test m ])
  ]

  -- RunCase; none is a run that is out of rounds
  unfoldable pub run_case : Case → Option CaseResult
  unfolding run_named validate_range
  run_case test =
      if is_empty test.name
      then some (refused test CaseError.name_required)
      else elim (validate_range test.load_address (length test.program)) [
        | failed e ↦ some (refused test (CaseError.of_load (LoadError.of_memory e)))
        | done _ ↦ run_named test
      ]

  -- a round of the loop of `RunSuite`
  abbrev pub counted_in : CaseResult → SuiteResult → SuiteResult
  counted_in r suite = record suite {
    cases = suite.cases ++ r ∷ [];
    passed = if r.passed then suite.passed + 1 else suite.passed;
    failed_cases = if r.passed then suite.failed_cases else suite.failed_cases + 1;
  }

  unfoldable pub run_cases : List Case → SuiteResult → Option SuiteResult
  unfolding run_case
  run_cases [] suite = some suite
  run_cases (test ∷ tests) suite = elim (run_case test) [
    | none ↦ none
    | some r ↦ run_cases tests (counted_in r suite)
  ]

  -- RunSuite
  unfoldable pub run_suite : List Case → Option SuiteResult
  unfolding run_cases
  run_suite tests = run_cases tests (record { passed = 0; failed_cases = 0; cases = [] })
