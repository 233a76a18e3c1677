-- ===== src/Machine/FrontPanel/Cycles.antt =====
-- `Step` and `Jam` of machine/frontpanel.go: the cycles of an instruction under READY.
use retronet.Base.{
  ℕ, zero, suc, ◌+◌, ◌-◌, Bool, true, false, not, if◌then◌else◌, ltb, List, [], take, get_or, none,
  some,
}
use retronet.Cpu.Errors.{Error}
use retronet.Cpu.Alu.{I8080}
use retronet.Cpu.Bus.{Memory, Io}
use retronet.Cpu.Opcode.{MachineCycle}
use retronet.Cpu.Decoder.{decode}
use retronet.Cpu.Step.{step, jam, record_wait_state, is_stopped}
use retronet.Cpu.Encode.{rst}
use retronet.Machine.FrontPanel.{
  PanelError, CycleContext, FrontPanel, Operation, to_error, clear_cycle_state,
}

module _ {M P : Type 0} where
  -- the context of the cycle at the index
  abbrev pub context_of : FrontPanel M P → CycleContext
  context_of p = record {
    pc = p.system.cpu.pc;
    opcode = p.active_opcode.code;
    mnemonic = p.active_opcode.mnemonic;
    index = p.cycle_index;
    cycle = get_or p.active_opcode.cycles p.cycle_index MachineCycle.no_cycle;
    interrupt = p.active_interrupt;
  }

  unfoldable pub is_ready : FrontPanel M P → Bool
  is_ready p = elim p.ready_callback [ none ↦ p.ready | some callback ↦ callback (context_of p) ]

  -- the branch of `Step` for a cycle that is not ready
  unfoldable pub wait : FrontPanel M P → FrontPanel M P
  wait p = record p {
    wait_cycle = context_of p;
    waiting = true;
    system = record p.system { cpu = record_wait_state p.system.cpu };
  }

  -- the loop over the cycles, with the rounds left; it returns whether every cycle was ready
  unfoldable pub pass_cycles : ℕ → FrontPanel M P → Bool × FrontPanel M P
  unfolding is_ready wait
  pass_cycles zero p = (true, p)
  pass_cycles (suc left) p =
      let rest = pass_cycles left (record p { cycle_index = p.cycle_index + 1 }) in
      if is_ready p then rest else (false, wait p)

module _ {M P : Type 0} ⦃memory : Memory M⦄ where
  -- `prepareCycles`: a pending interrupt first, else the opcode at PC
  unfoldable pub prepare_cycles : Operation M P
  prepare_cycles p = if p.cycle_active then (none, p) else elim p.pending_interrupt [
    | some request ↦ (
      none,
      record p {
        active_request = request;
        active_opcode = decode request.code;
        active_interrupt = true;
        cycle_active = true;
        cycle_index = 0;
      },
    )
    | none ↦
        (if p.active_interrupt
          then (none, record p { cycle_active = true; cycle_index = 0 })
          else if is_stopped p.system.cpu
          then (some (PanelError.of_cpu Error.cpu_stopped), p)
          else elim p.system.mem [
            | none ↦ (some PanelError.panic, p)
            | some m ↦ (
              none,
              record p {
                active_opcode = decode (memory.read m p.system.cpu.pc);
                cycle_active = true;
                cycle_index = 0;
              },
            )
          ])
  ]

module _ {M P : Type 0} ⦃i8080 : I8080⦄ ⦃memory : Memory M⦄ ⦃ports : Io P⦄ where
  -- Jam and InterruptRST
  unfoldable pub jam_panel : ℕ → List ℕ → Operation M P
  unfolding clear_cycle_state
  jam_panel code operands p =
      if p.running
      then (some PanelError.panel_running, p)
      else (let (result, t) = jam code operands p.system in
          (to_error result, record (clear_cycle_state p) { system = t }))

  unfoldable pub interrupt_rst : ℕ → Operation M P
  unfolding jam_panel
  interrupt_rst vector p =
      if ltb 7 vector
      then (some (PanelError.invalid_restart_vector vector), p)
      else jam_panel (rst vector) [] p

  -- the end of `Step`, when every cycle was ready
  unfoldable pub execute_cycles : Operation M P
  unfolding clear_cycle_state
  execute_cycles p =
      let q = clear_cycle_state p in
      if not p.active_interrupt
      then (let (result, t) = step p.system in (to_error result, record q { system = t }))
      else (let (result, t) =
            jam p.active_request.code
              (take p.active_request.operand_count p.active_request.operands) p.system in
          elim (to_error result) [
            | some e ↦ (some e, record q { system = t })
            | none ↦ (none, record q { system = t; pending_interrupt = none })
          ])

  unfoldable pub step_panel : Operation M P
  unfolding prepare_cycles pass_cycles execute_cycles
  step_panel p =
      let (error, q) = prepare_cycles p in
      elim error [
        | some e ↦ (some e, q)
        | none ↦
            (let (passed, r) = pass_cycles (q.active_opcode.cycle_count - q.cycle_index) q in
              if passed then execute_cycles r else (some PanelError.cpu_waiting, r))
      ]
