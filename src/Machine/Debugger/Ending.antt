-- ===== src/Machine/Debugger/Ending.antt =====
-- `Run` of machine/debugger.go ends, and how.
use retronet.Base.{
  ℕ, zero, suc, ◌+◌, ◌<◌, ◌≤◌, ◌≡◌, ◌≢◌, refl, arith, false, ltb, Option, none, some, Bool-cases,
  ◌⊎◌, inl, inr,
}
use retronet.Cpu.Alu.{I8080}
use retronet.Cpu.Bus.{Memory, Io}
use retronet.Machine.Observed.{MemoryWrite}
use retronet.Machine.FrontPanel.{PanelError}
use retronet.Machine.Debugger.{
  TraceEventKind, DebugStopReason, IoAccess, TraceEvent, DebugRunResult, Debugger, Recorder,
}
use retronet.Machine.Debugger.Stepping.{
  RunOutcome, after_step, debug_step, debug_loop, debug_run, counted, result_of,
}
use retronet.Machine.Debugger.Progress.{Progresses, debug_step-Progresses}

-- How a run of at most `limit` steps ends: with a reason, or with an error; with the limit only behind
-- as many steps.
pub record DebugEnded {M P : Type 0} (limit : ℕ)
    (x : DebugRunResult × Option PanelError × Debugger M P) : Type 0 where
  pub bounded : x.0.steps ≤ limit
  pub reasoned : (x.1 ≢ none) ⊎ (x.0.reason ≢ DebugStopReason.continue)
  pub at_limit : (x.0.reason ≢ DebugStopReason.stopped_limit) ⊎ (x.0.steps ≡ limit)

-- The run has a result, which ends it so.
abbrev pub Terminates : {M P : Type 0} → ℕ → RunOutcome M P → Type 0
Terminates limit r = (x : _) × (r ≡ some x) × DebugEnded limit x

not_below : (limit steps : ℕ) → limit ≤ steps → ltb steps limit ≡ false
not_below limit steps h = ground arith

at_end :
    {M P : Type 0} (limit steps : ℕ) (d : Debugger M P)
    → steps ≡ limit
    → Terminates limit (some (result_of steps DebugStopReason.stopped_limit, none, d))
at_end limit steps d h = (
  (result_of steps DebugStopReason.stopped_limit, none, d),
  refl,
  record { bounded = omega arith; reasoned = inr (λ k. absurd (cc k)); at_limit = inr h },
)

pub counted_instruction :
    (event : TraceEvent) (steps : ℕ)
    → event.kind ≡ TraceEventKind.instruction
    → counted event steps ≡ steps + 1
counted_instruction event steps k = rw (k, counted) refl

counted-le : (event : TraceEvent) (steps : ℕ) → counted event steps ≤ steps + 1
counted-le event steps = by_kind event.kind
  where
    by_kind :
        (k : TraceEventKind)
        → (elim k as (λ _. ℕ) [ TraceEventKind.instruction ↦ steps + 1 | _ ↦ steps ]) ≤ steps + 1
    by_kind TraceEventKind.instruction = omega arith
    by_kind _ = omega arith

module _ {M P : Type 0} (writes : Recorder MemoryWrite M) (accesses : Recorder IoAccess P)
    ⦃i8080 : I8080⦄ ⦃memory : Memory M⦄ ⦃ports : Io P⦄ where
  round_Terminates :
      (fuel limit steps : ℕ) (event : TraceEvent) (error : Option PanelError)
      (reason : DebugStopReason) (next : Debugger M P)
      → steps < limit
      → Progresses (record { event = event; reason = reason; error = error })
      → (event.kind ≡ TraceEventKind.instruction
          → Terminates limit (debug_loop writes accesses fuel limit (counted event steps) next))
      → Terminates limit (
          after_step
            (debug_loop writes accesses fuel limit)
            steps
            (record { event = event; reason = reason; error = error }, next))
  round_Terminates fuel limit steps event (some e) reason next h progress later = (
    (result_of steps DebugStopReason.continue, some e, next),
    refl,
    record {
      bounded = omega arith;
      reasoned = inl (λ k. absurd (cc k));
      at_limit = inl (λ k. absurd (cc k));
    },
  )
  round_Terminates fuel limit steps event none DebugStopReason.continue next h progress later =
      later (progress.0 refl refl)
  round_Terminates fuel limit steps event none other next h progress later = (
    (result_of (counted event steps) other, none, next),
    refl,
    record {
      bounded = omega (arith, counted-le event steps);
      reasoned = inr (λ k. absurd (cc k));
      at_limit = inl progress.1;
    },
  )

  debug_loop-Terminates :
      (fuel limit steps : ℕ) (d : Debugger M P)
      → steps ≤ limit
      → limit ≤ steps + fuel
      → Terminates limit (debug_loop writes accesses fuel limit steps d)
  unfolding debug_loop
  debug_loop-Terminates zero limit steps d below enough =
      rw (not_below limit steps (omega arith)) (at_end limit steps d (omega arith))
  debug_loop-Terminates (suc fuel) limit steps d below enough =
      elim (Bool-cases (ltb steps limit)) [
        | inl e ↦ rw e (
            let (outcome, next) = debug_step writes accesses d in
            round_Terminates fuel limit steps outcome.event outcome.error outcome.reason next
              (ground arith) (debug_step-Progresses writes accesses d)
              (λ k.
                let count = counted_instruction outcome.event steps k in
                debug_loop-Terminates fuel limit (counted outcome.event steps) next (ground arith)
                  (omega (arith, count))))
        | inr e ↦ rw e (at_end limit steps d (ground arith))
      ]

  -- `Run` of the debugger ends: with no more rounds than its limit it has a result, of at most as many
  -- instructions, which comes with an error or with a reason to stop, and with the limit as reason only
  -- behind exactly as many instructions.
  pub debug_run-Terminates :
      (limit : ℕ) (d : Debugger M P) → Terminates limit (debug_run writes accesses limit d)
  unfolding debug_run
  debug_run-Terminates limit d = debug_loop-Terminates limit limit 0 d (omega arith) (omega arith)
