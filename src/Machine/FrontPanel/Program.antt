-- ===== src/Machine/FrontPanel/Program.antt =====
-- `FrontPanel.Run` (machine/frontpanel.go) against repeated calls of the processor's `Step`.
use retronet.Base.{
  ℕ, zero, suc, ◌+◌, ◌<◌, ◌≡◌, refl, arith, Bool, true, false, not, ◌&&◌, if◌then◌else◌, Option,
  none, some, ◌∙◌, ap,
}
use retronet.Cpu.Errors.{ok}
use retronet.Cpu.Alu.{I8080}
use retronet.Cpu.Bus.{Memory, Io}
use retronet.Cpu.Core.{System}
use retronet.Cpu.Step.{step, is_stopped}
use retronet.Cpu.Safety.Steps.{steps}
use retronet.Machine.FrontPanel.{
  FrontPanel, PanelError, PanelStopReason, is_some, to_error, clear_cycle_state,
}
use retronet.Machine.FrontPanel.Cycles.{step_panel}
use retronet.Machine.FrontPanel.Running.{PanelRunResult, Observer, ended, run_limit, run_loop, run}
use retronet.Machine.FrontPanel.Ready.{IsIdle, IsFree, not_taken, step_panel-step}

-- a nil observer
abbrev pub silent : Observer
silent _ _ = none

module _ {M P : Type 0} ⦃i8080 : I8080⦄ ⦃memory : Memory M⦄ ⦃ports : Io P⦄ where
  -- The processor runs, over a memory, and its next step succeeds.
  pub record Runs (s : System M P) : Type 0 where
    pub not_stopped : is_stopped s.cpu ≡ false
    pub with_memory : (m : M) × (s.mem ≡ some m)
    pub succeeds : (step s).0 ≡ ok tt

  -- Nothing from outside is asked of the panel.
  pub record IsQuiet (p : FrontPanel M P) : Type 0 where
    pub idle : IsIdle p
    pub free : IsFree p
    pub no_request : p.pending_interrupt ≡ none
    pub no_stop : p.stop_requested ≡ false

  -- The panel behind a step of its processor.
  abbrev pub next_panel : FrontPanel M P → FrontPanel M P
  next_panel p = record (clear_cycle_state p) { system = (step p.system).1 }

  pub next_panel-IsQuiet : (p : FrontPanel M P) → IsQuiet p → IsQuiet (next_panel p)
  unfolding clear_cycle_state
  next_panel-IsQuiet p q = record {
    idle = record { inactive = refl; no_interrupt = refl };
    free = record { no_callback = q.free.no_callback; ready_high = q.free.ready_high };
    no_request = q.no_request;
    no_stop = q.no_stop;
  }

  step_panel-next_panel :
      (p : FrontPanel M P) → IsQuiet p → Runs p.system → step_panel p ≡ (none, next_panel p)
  step_panel-next_panel p q r =
      let (m, present) = r.with_memory in
      step_panel-step p m q.idle q.free q.no_request r.not_stopped present
      ∙ ap (λ x. (to_error x, next_panel p)) r.succeeds

  -- one round of the loop
  abbrev loop_by :
      ℕ
      → ℕ
      → FrontPanel M P
      → Bool
      → Bool
      → Option PanelError × FrontPanel M P
      → PanelRunResult × FrontPanel M P
  loop_by left count p asked ended_run x =
      if asked
      then (
        record { steps = count; reason = PanelStopReason.stopped_by_request; error = none },
        record p { stop_requested = false },
      )
      else if ended_run
      then (record { steps = count; reason = PanelStopReason.stopped_by_cpu; error = none }, p)
      else elim x.0 [ some e ↦ (ended count e, x.1) | none ↦ run_loop silent left (count + 1) x.1 ]

  run_loop-loop_by :
      (left count : ℕ) (p : FrontPanel M P)
      → run_loop silent (suc left) count p
        ≡ loop_by left count p p.stop_requested
            (is_stopped p.system.cpu && not (is_some p.pending_interrupt) && not p.cycle_active)
            (step_panel p)
  unfolding run_loop
  run_loop-loop_by left count p = refl

  round :
      (left count : ℕ) (p : FrontPanel M P)
      → IsQuiet p
      → Runs p.system
      → run_loop silent (suc left) count p ≡ run_loop silent left (count + 1) (next_panel p)
  round left count p q r =
      run_loop-loop_by left count p
      ∙ ap
          (λ b.
            loop_by left count p b
              (is_stopped p.system.cpu && not (is_some p.pending_interrupt) && not p.cycle_active)
              (step_panel p))
          q.no_stop
      ∙ ap
          (λ b.
            loop_by left count p false
              (b && not (is_some p.pending_interrupt) && not p.cycle_active) (step_panel p))
          r.not_stopped
      ∙ ap (loop_by left count p false false) (step_panel-next_panel p q r)

  run_limit-system :
      (count : ℕ) (p : FrontPanel M P)
      → ((run_limit count p).1.system ≡ p.system) × ((run_limit count p).0.steps ≡ count)
  unfolding run_limit
  run_limit-system count p = ground arith

  ran_none :
      (count : ℕ) (p : FrontPanel M P)
      → (run_limit count p).1.system ≡ p.system
      → (run_limit count p).0.steps ≡ count
      → ((run_loop silent 0 count p).1.system ≡ steps 0 p.system)
        × ((run_loop silent 0 count p).0.steps ≡ count + 0)
  unfolding run_loop steps
  ran_none count p s e = (s, omega (arith, e))

  run_loop-steps :
      (n count : ℕ) (p : FrontPanel M P)
      → IsQuiet p
      → ((k : ℕ) → k < n → Runs (steps k p.system))
      → ((run_loop silent n count p).1.system ≡ steps n p.system)
        × ((run_loop silent n count p).0.steps ≡ count + n)
  unfolding steps
  run_loop-steps zero count p q runs =
      let (s, e) = run_limit-system count p in (ran_none count p s e)
  run_loop-steps (suc n) count p q runs =
      let here = round n count p q (runs 0 (omega arith)) in
      let (s, e) =
        run_loop-steps n (count + 1) (next_panel p) (next_panel-IsQuiet p q)
          (λ k h. runs (suc k) (omega arith)) in
      (ap (λ x. x.1.system) here ∙ s, ap (λ x. x.0.steps) here ∙ e ∙ omega arith)

  run_started :
      (n : ℕ) (p : FrontPanel M P)
      → p.running ≡ false
      → let x = run_loop silent n 0 (record p { running = true }) in
        run n silent p ≡ (x.0, record x.1 { running = false })
  unfolding run
  run_started n p free = not_taken p.running _ _ free

  run_limit-quiet :
      (count : ℕ) (p : FrontPanel M P)
      → p.stop_requested ≡ false
      → run_limit count p ≡ (
        record {
          steps = count;
          reason =
              if is_stopped p.system.cpu
              then PanelStopReason.stopped_by_cpu
              else PanelStopReason.stopped_by_limit;
          error = none;
        },
        p,
      )
  unfolding run_limit
  run_limit-quiet count p e = ground arith

  ran_one :
      (p : FrontPanel M P) (x : PanelRunResult × FrontPanel M P)
      → run_limit 1 p ≡ x
      → run_loop silent 0 1 p ≡ x
  unfolding run_loop
  ran_one p x e = e

  -- A run of one step of a quiet panel.
  pub run_one :
      (p : FrontPanel M P)
      → p.running ≡ false
      → IsQuiet p
      → Runs p.system
      → run 1 silent p ≡ (
        record {
          steps = 1;
          reason =
              if is_stopped (step p.system).1.cpu
              then PanelStopReason.stopped_by_cpu
              else PanelStopReason.stopped_by_limit;
          error = none;
        },
        record (next_panel p) { running = false },
      )
  unfolding clear_cycle_state
  run_one p free q runs =
      let p2 = record p { running = true } in
      let q2 : IsQuiet p2 = record {
        idle = record { inactive = q.idle.inactive; no_interrupt = q.idle.no_interrupt };
        free = record { no_callback = q.free.no_callback; ready_high = q.free.ready_high };
        no_request = q.no_request;
        no_stop = q.no_stop;
      } in
      run_started 1 p free
      ∙ ap
          (λ (x : PanelRunResult × FrontPanel M P).
            let r : PanelRunResult × FrontPanel M P = (x.0, record x.1 { running = false }) in r)
          (round 0 0 p2 q2 runs
            ∙ ran_one (next_panel p2) _ (run_limit-quiet 1 (next_panel p2) q.no_stop))

  -- `Run` of a limit `n`, with a nil observer, on a panel that does not run, with no instruction under
  -- way, READY high without a callback and no interrupt or stop requested, over a processor and memory
  -- where each of the next `n` steps succeeds and finds the processor running: it executes `n`
  -- instructions, and the processor, the memory and the I/O bus end as behind `n` calls of `Step`.
  pub run-steps :
      (n : ℕ) (p : FrontPanel M P)
      → p.running ≡ false
      → IsQuiet p
      → ((k : ℕ) → k < n → Runs (steps k p.system))
      → ((run n silent p).1.system ≡ steps n p.system) × ((run n silent p).0.steps ≡ n)
  unfolding run
  run-steps n p free q runs =
      let p2 = record p { running = true } in
      let (s, e) =
        run_loop-steps n 0 p2
          (record {
            idle = record { inactive = q.idle.inactive; no_interrupt = q.idle.no_interrupt };
            free = record { no_callback = q.free.no_callback; ready_high = q.free.ready_high };
            no_request = q.no_request;
            no_stop = q.no_stop;
          })
          runs in
      (
        ap (λ x. x.1.system) (run_started n p free) ∙ s,
        ap (λ x. x.0.steps) (run_started n p free) ∙ e ∙ omega arith,
      )
