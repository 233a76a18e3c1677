-- ===== src/Machine/Debugger/Program.antt =====
-- `Run` of machine/debugger.go without breakpoints, against repeated calls of the processor's `Step`.
use retronet.Base.{
  ℕ, zero, suc, ◌+◌, ◌<◌, ◌≤◌, ◌≡◌, refl, arith, true, false, ltb, Option, none, some, Bool-cases,
  inl, inr, sym, ap, subst, ◌∙◌,
}
use retronet.Cpu.Alu.{I8080}
use retronet.Cpu.Bus.{Memory, Io}
use retronet.Cpu.Core.{System}
use retronet.Cpu.Step.{step, is_stopped}
use retronet.Cpu.Safety.Steps.{steps}
use retronet.Machine.Observed.{MemoryWrite}
use retronet.Machine.FrontPanel.{FrontPanel, PanelError}
use retronet.Machine.FrontPanel.Program.{Runs, IsQuiet, next_panel-IsQuiet}
use retronet.Machine.Debugger.{DebugStopReason, IoAccess, Debugger, Recorder, DebugRunResult}
use retronet.Machine.Debugger.Stepping.{
  StepOutcome, RunOutcome, after_step, debug_step, debug_loop, debug_run, result_of,
}
use retronet.Machine.Debugger.Unset.{IsUnset, IsBlank}
use retronet.Machine.Debugger.Ending.{counted_instruction}
use retronet.Machine.Debugger.Transparent.{Stepped, IsSteppable, behind, debug_step-Stepped}

not_below_itself : (n : ℕ) → ltb n n ≡ false
not_below_itself n = ground arith

below : (a b : ℕ) → a < b → ltb a b ≡ true
below a b h = ground arith

module _ {M P : Type 0} ⦃i8080 : I8080⦄ ⦃memory : Memory M⦄ ⦃ports : Io P⦄ where
  -- A system on which the next step runs, of an opcode that is a byte.
  pub record IsReady (s : System M P) : Type 0 where
    pub runs : Runs s
    pub byte : (m : M) → s.mem ≡ some m → memory.read m s.cpu.pc < 256

  -- A run that has executed `n` instructions without an error and ends with the system `s`.
  pub record HasRun (n : ℕ) (s : System M P) (r : RunOutcome M P) : Type 0 where
    pub result : DebugRunResult × Option PanelError × Debugger M P
    pub returned : r ≡ some result
    pub count : result.0.steps ≡ n
    pub no_error : result.1 ≡ none
    pub system : result.2.panel.system ≡ s

  -- The panel takes no step of its own.
  pub record IsAtRest (p : FrontPanel M P) : Type 0 where
    pub not_running : p.running ≡ false
    pub quiet : IsQuiet p

  behind-IsAtRest : (p : FrontPanel M P) → IsAtRest p → IsAtRest (behind p)
  behind-IsAtRest p r =
      let q = next_panel-IsQuiet p r.quiet in
      record {
        not_running = refl;
        quiet = record {
          idle = record { inactive = q.idle.inactive; no_interrupt = q.idle.no_interrupt };
          free = record { no_callback = q.free.no_callback; ready_high = q.free.ready_high };
          no_request = q.no_request;
          no_stop = q.no_stop;
        };
      }

  -- a round whose step has executed an instruction and does not stop, and one that does
  round_continues :
      (go : ℕ → Debugger M P → RunOutcome M P) (count : ℕ) (q : FrontPanel M P)
      (x : StepOutcome × Debugger M P)
      → Stepped q false x
      → after_step go count x ≡ go (count + 1) x.1
  round_continues go count q (o, next) s =
      ground (arith, s.no_error, s.reason, counted_instruction o.event count s.kind)

  round_stops :
      (go : ℕ → Debugger M P → RunOutcome M P) (count : ℕ) (q : FrontPanel M P)
      (x : StepOutcome × Debugger M P)
      → Stepped q true x
      → after_step go count x ≡ some (result_of (count + 1) DebugStopReason.stopped_cpu, none, x.1)
  round_stops go count q (o, next) s =
      ground (arith, s.no_error, s.reason, counted_instruction o.event count s.kind)

  HasRun-carry :
      {limit : ℕ} {s : System M P} {r t : RunOutcome M P}
      → r ≡ t
      → HasRun limit s t
      → HasRun limit s r
  HasRun-carry e h = record {
    result = h.result;
    returned = e ∙ h.returned;
    count = h.count;
    no_error = h.no_error;
    system = h.system;
  }

  -- A processor that stops behind a step has no other step to take.
  halts :
      (n : ℕ) (s : System M P)
      → ((k : ℕ) → k < suc n → IsReady (steps k s))
      → is_stopped (step s).1.cpu ≡ true
      → n ≡ 0
  unfolding steps
  halts zero s ready h = refl
  halts (suc n) s ready h = absurd (ground (arith, (ready 1 (omega arith)).runs.not_stopped))

  -- a run that the processor stops behind its last instruction
  last_run :
      (n limit count : ℕ) (t : System M P) (x : StepOutcome × Debugger M P) {r : RunOutcome M P}
      → r ≡ some (result_of (count + 1) DebugStopReason.stopped_cpu, none, x.1)
      → count + 1 ≡ limit
      → x.1.panel.system ≡ t
      → n ≡ 0
      → HasRun limit (steps n t) r
  unfolding steps
  last_run zero limit count t x e c p z = record {
    result = (result_of (count + 1) DebugStopReason.stopped_cpu, none, x.1);
    returned = e;
    count = c;
    no_error = refl;
    system = p;
  }
  last_run (suc n) limit count t x e c p z = absurd (omega arith)

  module _ (writes : Recorder MemoryWrite M) (accesses : Recorder IoAccess P)
      (no_writes : IsBlank writes) (no_accesses : IsBlank accesses) where
    loop_done :
        (fuel limit : ℕ) (d : Debugger M P)
        → debug_loop writes accesses fuel limit limit d
          ≡ some (result_of limit DebugStopReason.stopped_limit, none, d)
    unfolding debug_loop
    loop_done zero limit d = rw (not_below_itself limit) refl
    loop_done (suc fuel) limit d = rw (not_below_itself limit) refl

    loop_goes :
        (fuel limit count : ℕ) (d : Debugger M P)
        → count < limit
        → debug_loop writes accesses (suc fuel) limit count d
          ≡ after_step (debug_loop writes accesses fuel limit) count (debug_step writes accesses d)
    unfolding debug_loop
    loop_goes fuel limit count d h = rw (below count limit h) refl

    steppable : (p : FrontPanel M P) → IsAtRest p → IsReady p.system → IsSteppable p
    steppable p r s = record {
      not_running = r.not_running;
      quiet = r.quiet;
      runs = s.runs;
      byte = s.byte;
    }

    debug_loop-HasRun :
        (n fuel limit count : ℕ) (d : Debugger M P)
        → count + n ≡ limit
        → n ≤ fuel
        → IsUnset d
        → IsAtRest d.panel
        → ((k : ℕ) → k < n → IsReady (steps k d.panel.system))
        → HasRun limit (steps n d.panel.system) (debug_loop writes accesses fuel limit count d)
    unfolding steps
    debug_loop-HasRun zero fuel limit count d e f u r ready =
        let same : count ≡ limit = omega arith in
        subst (λ c. HasRun limit d.panel.system (debug_loop writes accesses fuel limit c d))
          (sym same)
          (record {
            result = (result_of limit DebugStopReason.stopped_limit, none, d);
            returned = loop_done fuel limit d;
            count = refl;
            no_error = refl;
            system = refl;
          })
    debug_loop-HasRun (suc n) zero limit count d e f u r ready = absurd (omega arith)
    debug_loop-HasRun (suc n) (suc fuel) limit count d e f u r ready =
        let x = debug_step writes accesses d in
        let go = debug_loop writes accesses fuel limit in
        let s =
          debug_step-Stepped writes accesses d no_writes no_accesses
            (steppable d.panel r (ready 0 (omega arith))) u in
        let first = loop_goes fuel limit count d (omega arith) in
        let behind_system : x.1.panel.system ≡ (step d.panel.system).1 =
          ap (λ (q : FrontPanel M P). q.system) s.panel in
        elim (Bool-cases (is_stopped (step d.panel.system).1.cpu)) [
          | inl halted ↦
              last_run n limit count (step d.panel.system).1 x
                (first
                  ∙ round_stops go count (behind d.panel) x
                      (subst (λ h. Stepped (behind d.panel) h x) halted s))
                (omega (arith, halts n d.panel.system ready halted)) behind_system
                (halts n d.panel.system ready halted)
          | inr running ↦
              HasRun-carry
                (first
                  ∙ round_continues go count (behind d.panel) x
                      (subst (λ h. Stepped (behind d.panel) h x) running s))
                (subst (λ t. HasRun limit (steps n t) (go (count + 1) x.1)) behind_system
                  (debug_loop-HasRun n fuel limit (count + 1) x.1 (omega arith) (omega arith)
                    s.unset (subst IsAtRest (sym s.panel) (behind-IsAtRest d.panel r))
                    (λ k h.
                      subst (λ t. IsReady (steps k t)) (sym behind_system)
                        (ready (suc k) (omega arith)))))
        ]

    -- `Run` of the debugger of a limit `n`, without breakpoints and watchpoints and with nothing that
    -- records, on a panel at rest, over a processor and memory where each of the next `n` steps
    -- succeeds, finds the processor running and reads a byte as opcode: it executes `n` instructions
    -- without an error, and the processor, the memory and the I/O bus end as behind `n` calls of `Step`
    -- of the processor.
    pub debug_run-steps :
        (n : ℕ) (d : Debugger M P)
        → IsUnset d
        → IsAtRest d.panel
        → ((k : ℕ) → k < n → IsReady (steps k d.panel.system))
        → HasRun n (steps n d.panel.system) (debug_run writes accesses n d)
    unfolding debug_run
    debug_run-steps n d u r ready =
        debug_loop-HasRun n n n 0 d (omega arith) (omega arith) u r ready
