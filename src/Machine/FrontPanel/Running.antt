-- ===== src/Machine/FrontPanel/Running.antt =====
-- `Run` of machine/frontpanel.go.
use retronet.Base.{
  ℕ, zero, suc, ◌+◌, Bool, true, false, not, ◌&&◌, if◌then◌else◌, Option, none, some,
}
use retronet.Cpu.Errors.{Error}
use retronet.Cpu.Alu.{I8080}
use retronet.Cpu.Bus.{Memory, Io}
use retronet.Cpu.State.{Cpu8080}
use retronet.Cpu.Step.{is_stopped}
use retronet.Machine.FrontPanel.{PanelError, PanelStopReason, FrontPanel, is_some}
use retronet.Machine.FrontPanel.Cycles.{step_panel}

-- type PanelRunResult, with the error beside it
pub record PanelRunResult : Type 0 where
  pub steps : ℕ
  pub reason : PanelStopReason
  pub error : Option PanelError

abbrev pub is_waiting_error : PanelError → Bool
is_waiting_error PanelError.cpu_waiting = true
is_waiting_error _ = false

abbrev pub is_stopped_error : PanelError → Bool
is_stopped_error (PanelError.of_cpu Error.cpu_stopped) = true
is_stopped_error _ = false

-- a run that an error of `Step` ends
abbrev pub ended : ℕ → PanelError → PanelRunResult
ended steps e =
    if is_waiting_error e
    then record { steps = steps; reason = PanelStopReason.stopped_by_ready; error = none }
    else if is_stopped_error e
    then record { steps = steps; reason = PanelStopReason.stopped_by_cpu; error = none }
    else record { steps = steps; reason = PanelStopReason.no_reason; error = some e }

module _ {M P : Type 0} where
  -- the end of `Run`, behind its loop
  unfoldable pub run_limit : ℕ → FrontPanel M P → PanelRunResult × FrontPanel M P
  run_limit steps p =
      if is_stopped p.system.cpu
      then (record { steps = steps; reason = PanelStopReason.stopped_by_cpu; error = none }, p)
      else if p.stop_requested
      then (
        record { steps = steps; reason = PanelStopReason.stopped_by_request; error = none },
        record p { stop_requested = false },
      )
      else (record { steps = steps; reason = PanelStopReason.stopped_by_limit; error = none }, p)

-- the observer: an error, or none to go on; a nil observer never objects
abbrev pub Observer : Type 0
Observer = ℕ → Cpu8080 → Option PanelError

module _ {M P : Type 0} ⦃i8080 : I8080⦄ ⦃memory : Memory M⦄ ⦃ports : Io P⦄ where
  -- the loop of `Run`, with the steps left to the limit
  unfoldable pub run_loop : Observer → ℕ → ℕ → FrontPanel M P → PanelRunResult × FrontPanel M P
  unfolding run_limit step_panel
  run_loop observer zero steps p = run_limit steps p
  run_loop observer (suc left) steps p =
      if p.stop_requested
      then (
        record { steps = steps; reason = PanelStopReason.stopped_by_request; error = none },
        record p { stop_requested = false },
      )
      else if is_stopped p.system.cpu && not (is_some p.pending_interrupt) && not p.cycle_active
      then (record { steps = steps; reason = PanelStopReason.stopped_by_cpu; error = none }, p)
      else elim (observer steps p.system.cpu) [
        | some e ↦ (record { steps = steps; reason = PanelStopReason.no_reason; error = some e }, p)
        | none ↦
            (let (error, q) = step_panel p in
              elim error [
                | some e ↦ (ended steps e, q)
                | none ↦ run_loop observer left (steps + 1) q
              ])
      ]

  unfoldable pub run : ℕ → Observer → FrontPanel M P → PanelRunResult × FrontPanel M P
  unfolding run_loop
  run limit observer p =
      if p.running
      then (
        record {
          steps = 0;
          reason = PanelStopReason.no_reason;
          error = some PanelError.panel_running;
        },
        p,
      )
      else (let (result, q) = run_loop observer limit 0 (record p { running = true }) in
          (result, record q { running = false }))
