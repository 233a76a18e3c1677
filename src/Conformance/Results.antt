-- ===== src/Conformance/Results.antt =====
-- What `RunCase` and `RunSuite` (conformance/suite.go) return.
use retronet.Base.{
  ℕ, ◌+◌, ◌≤◌, ◌≡◌, ◌≢◌, ◌↔◌, refl, arith, true, if◌then◌else◌, List, [], ◌∷◌, ◌++◌, length, Option,
  none, some, inl, inr, Bool-cases, ap, ◌∙◌, sym, subst, ltb, ◌⊎◌,
}
use mathlib.Core.List.{append-nil, append_assoc}
use retronet.Machine.Memory.{validate_range}
use retronet.Machine.Peripherals.{is_empty}
use retronet.Conformance.Machines.{run_case-IsFresh}
use retronet.Cpu.Alu.{I8080}
use retronet.Machine.Errors.{MemoryError}
use retronet.Machine.FrontPanel.{PanelError}
use retronet.Cpu.Bus.{flat_memory}
use retronet.Machine.Callbacks.{callback_ports}
use retronet.Machine.Observed.{observable_memory}
use retronet.Machine.Debugger.Recording.{memory_recorder, io_recorder}
use retronet.Machine.Profiles.Loads.{LoadError}
use retronet.Machine.Debugger.{DebugStopReason, DebugRunResult}
use retronet.Machine.Debugger.Stepping.{RunOutcome}
use retronet.Machine.Debugger.Ending.{Terminates, debug_run-Terminates}
use retronet.Machine.Peripherals.Register.{whole}
use retronet.Conformance.{
  run_context, CaseMemory, CaseBus, Context, CaseError, Case, CaseResult, SuiteResult, refused,
  ended, limit_of, verified, finished, run_built, run_case, counted_in, run_cases, run_suite,
}

-- A result that says what has happened: its case, no more steps than the limit, an error exactly when it
-- has not passed, and a reason to stop when it has.
pub record IsReported (test : Case) (r : CaseResult) : Type 0 where
  pub named : r.name ≡ test.name
  pub bounded : r.steps ≤ limit_of test
  pub decided : (r.passed ≡ true) ↔ (r.error ≡ none)
  pub stopped : r.passed ≡ true → r.stop_reason ≢ DebugStopReason.continue

abbrev pub Returns : Case → Option CaseResult → Type 0
Returns test o = (r : CaseResult) × (o ≡ some r) × IsReported test r

refused-Returns : (test : Case) (e : CaseError) → Returns test (some (refused test e))
refused-Returns test e = (
  refused test e,
  refl,
  record {
    named = refl;
    bounded = omega arith;
    decided = ((λ h. absurd (cc h)), (λ h. absurd (cc h)));
    stopped = λ h. absurd (cc h);
  },
)

ended-IsReported :
    (test : Case) (result : DebugRunResult) (e : Option CaseError)
    → result.steps ≤ limit_of test
    → (e ≢ none) ⊎ (result.reason ≢ DebugStopReason.continue)
    → IsReported test (ended test result e)
ended-IsReported test result none bound reasoned = record {
  named = refl;
  bounded = bound;
  decided = ((λ _. refl), (λ _. refl));
  stopped = λ _. elim reasoned [ inl h ↦ absurd (h refl) | inr h ↦ h ];
}
ended-IsReported test result (some e) bound reasoned = record {
  named = refl;
  bounded = bound;
  decided = ((λ h. absurd (cc h)), (λ h. absurd (cc h)));
  stopped = λ h. absurd (cc h);
}

-- A run that ends has a result, and an error of the run is one of the case.
finished-Returns :
    (test : Case) (o : RunOutcome CaseMemory CaseBus)
    → Terminates (limit_of test) o
    → Returns test (finished test o)
finished-Returns test o ((result, e, context), same, h) = (
  ended test result (verified test result e context),
  ap (finished test) same,
  ended-IsReported test result (verified test result e context) h.bounded (by_error e h.reasoned),
)
  where
    by_error :
        (e : Option PanelError)
        → (e ≢ none) ⊎ (result.reason ≢ DebugStopReason.continue)
        → (verified test result e context ≢ none) ⊎ (result.reason ≢ DebugStopReason.continue)
    by_error e (inr h) = inr h
    by_error none (inl h) = absurd (h refl)
    by_error (some f) (inl h) = inl (λ k. absurd (cc k))

module _ ⦃i8080 : I8080⦄ where
  run_built-Returns : (test : Case) (context : Context) → Returns test (run_built test context)
  unfolding run_built
  run_built-Returns test context = by_setup test.setup
    where
      run_context-Returns :
          (next : Context) → Returns test (finished test (run_context (limit_of test) next))
      run_context-Returns next = finished-Returns test (run_context (limit_of test) next) (
          debug_run-Terminates (memory_recorder whole) (io_recorder whole)
            ⦃memory = observable_memory ⦃memory = flat_memory⦄⦄ ⦃ports = callback_ports⦄
            (limit_of test) next)

      by_error :
          (x : Option CaseError × Context)
          → Returns test (elim x.0 as (λ _. Option CaseResult) [
            | some g ↦ some (refused test (CaseError.setup_failed g))
            | none ↦ finished test (run_context (limit_of test) x.1)
          ])
      by_error (none, next) = run_context-Returns next
      by_error (some g, next) = refused-Returns test (CaseError.setup_failed g)

      by_setup :
          (o : Option (Context → Option CaseError × Context))
          → Returns test (elim o as (λ _. Option CaseResult) [
            | none ↦ finished test (run_context (limit_of test) context)
            | some f ↦ elim (f context).0 as (λ _. Option CaseResult) [
              | some g ↦ some (refused test (CaseError.setup_failed g))
              | none ↦ finished test (run_context (limit_of test) (f context).1)
            ]
          ])
      by_setup none = run_context-Returns context
      by_setup (some f) = by_error (f context)

  -- `RunCase` returns, whatever the case, its setup and its verification are: a result with the name of the
  -- case and no more steps than its limit, or 64 where it has none, which has passed exactly when it has no
  -- error, and then with a reason to stop.
  pub run_case-IsReported :
      (test : Case) → (r : CaseResult) × (run_case test ≡ some r) × IsReported test r
  unfolding run_case validate_range
  run_case-IsReported test = elim (Bool-cases (is_empty test.name)) [
    | inl e ↦ rw e (refused-Returns test CaseError.name_required)
    | inr e ↦ elim (Bool-cases (ltb 65536 (length test.program))) [
      | inl f ↦
          rw (e, f)
            (refused-Returns test (
              CaseError.of_load
                (LoadError.of_memory (MemoryError.size_exceeds (length test.program)))))
      | inr f ↦ elim (Bool-cases (ltb 65536 (test.load_address + length test.program))) [
        | inl g ↦
            rw (e, f, g)
              (refused-Returns test (
                CaseError.of_load (
                  LoadError.of_memory
                    (MemoryError.range_exceeds test.load_address (length test.program)))))
        | inr g ↦
            (let (context, same, _) = run_case-IsFresh test e (ground arith) in
              let (r, built, reported) = run_built-Returns test context in
              (r, same ∙ built, reported))
      ]
    ]
  ]

  -- The results of the cases, in their order.
  abbrev pub AreResults : List Case → List CaseResult → Type 0
  AreResults [] [] = Unit
  AreResults (test ∷ tests) (r ∷ rs) = (run_case test ≡ some r) × AreResults tests rs
  AreResults _ _ = ⊥

  abbrev pub count_passed : List CaseResult → ℕ
  count_passed [] = 0
  count_passed (r ∷ rs) = if r.passed then count_passed rs + 1 else count_passed rs

  -- A result of a suite: those of its cases, whatever the others do, and how many there are of each kind.
  pub record IsSummary (tests : List Case) (suite : SuiteResult) : Type 0 where
    pub results : AreResults tests suite.cases
    pub passes : suite.passed ≡ count_passed suite.cases
    pub failures : suite.passed + suite.failed_cases ≡ length tests

  record Extends (tests : List Case) (before after : SuiteResult) : Type 0 where
    added : List CaseResult
    appended : after.cases ≡ before.cases ++ added
    results : AreResults tests added
    passes : after.passed ≡ before.passed + count_passed added
    failures :
        after.passed + after.failed_cases ≡ before.passed + before.failed_cases + length tests

  run_cases-Extends :
      (tests : List Case) (before : SuiteResult)
      → (after : SuiteResult) × (run_cases tests before ≡ some after) × Extends tests before after
  unfolding run_cases
  run_cases-Extends [] before = (
    before,
    refl,
    record {
      added = [];
      appended = sym (append-nil before.cases);
      results = tt;
      passes = omega arith;
      failures = omega arith;
    },
  )
  run_cases-Extends (test ∷ tests) before =
      let (r, ran, _) = run_case-IsReported test in
      let (after, rest, x) = run_cases-Extends tests (counted_in r before) in
      (
        after,
        rw (ran, run_cases) rest,
        record {
          added = r ∷ x.added;
          appended = x.appended ∙ append_assoc before.cases (r ∷ []) x.added;
          results = (ran, x.results);
          passes = ground (arith, x.passes);
          failures = ground (arith, x.failures);
        },
      )

  -- `RunSuite` returns the result of every case, in the order of the cases, as `RunCase` gives it for the
  -- case alone, and counts those that have passed; the others are the failed ones.
  pub run_suite-IsSummary :
      (tests : List Case)
      → (suite : SuiteResult) × (run_suite tests ≡ some suite) × IsSummary tests suite
  unfolding run_suite
  run_suite-IsSummary tests =
      let (suite, ran, x) =
        run_cases-Extends tests (record { passed = 0; failed_cases = 0; cases = [] }) in
      (
        suite,
        ran,
        record {
          results = subst (AreResults tests) (sym x.appended) x.results;
          passes = counted x.passes ∙ ap count_passed (sym x.appended);
          failures = omega (arith, x.failures);
        },
      )
    where
      counted : {n k : ℕ} → n ≡ 0 + k → n ≡ k
      counted h = omega (arith, h)
