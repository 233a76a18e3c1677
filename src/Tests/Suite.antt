-- ===== src/Tests/Suite.antt =====
-- The cases of the package conformance on the sample package.
use retronet.Base.{ℕ, ◌≡◌, [], ◌∷◌, Option, none, some}
use retronet.Cpu.Encode.{mvi, hlt}
use retronet.Conformance.{Case, CaseResult, SuiteResult, run_case, run_suite}
use retronet.Conformance.Results.{IsReported, IsSummary, run_case-IsReported, run_suite-IsSummary}
use retronet.Conformance.Synthetic.{synthetic_suite}
use retronet.Tests.Samples.{sample_package}

abbrev totals : Option SuiteResult → ℕ × ℕ
totals none = (0, 0)
totals (some s) = (s.passed, s.failed_cases)

-- the cases that pass and those that fail: (11, 0)
abbrev synthetic_totals : ℕ × ℕ
unfolding run_suite synthetic_suite
synthetic_totals = totals (run_suite ⦃i8080 = sample_package⦄ synthetic_suite)

-- MVI A, 42 and HLT, at 0x0100
abbrev sample_case : Case
sample_case = record {
  name = "sample";
  program = mvi 7 ∷ 0x2A ∷ hlt ∷ [];
  load_address = 0x0100;
  start_pc = 0x0100;
  step_limit = 8;
  setup = none;
  verify = none;
}

run_case-IsReported_example :
    (r : CaseResult) × (run_case ⦃i8080 = sample_package⦄ sample_case ≡ some r)
    × IsReported sample_case r
run_case-IsReported_example = run_case-IsReported ⦃i8080 = sample_package⦄ sample_case

run_suite-IsSummary_example :
    (suite : SuiteResult) × (run_suite ⦃i8080 = sample_package⦄ synthetic_suite ≡ some suite)
    × IsSummary ⦃i8080 = sample_package⦄ synthetic_suite suite
run_suite-IsSummary_example = run_suite-IsSummary ⦃i8080 = sample_package⦄ synthetic_suite
