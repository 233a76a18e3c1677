-- ===== src/Machine/FrontPanel/Waiting.antt =====
-- `FrontPanel.Step` (machine/frontpanel.go) while READY is low, and when it comes high again.
use retronet.Base.{ℕ, zero, suc, ◌+◌, ◌<◌, ◌≡◌, true, false, none, get_or, u64}
use retronet.Cpu.Alu.{I8080}
use retronet.Cpu.Bus.{Memory, Io}
use retronet.Cpu.Opcode.{MachineCycle}
use retronet.Cpu.State.{Cpu8080}
use retronet.Machine.FrontPanel.{FrontPanel}
use retronet.Machine.FrontPanel.Cycles.{step_panel}

-- A processor with `n` more wait states, counted as states, as waits, and for the timing to come.
abbrev pub waited : ℕ → Cpu8080 → Cpu8080
waited n c = record c {
  state_count = u64 (c.state_count + n);
  wait_state_count = u64 (c.wait_state_count + n);
  pending_wait_states = u64 (c.pending_wait_states + n);
}

module _ {M P : Type 0} where
  -- In the middle of an instruction that is no interrupt, at a cycle that READY holds.
  pub record IsHeld (p : FrontPanel M P) : Type 0 where
    pub active : p.cycle_active ≡ true
    pub within : p.cycle_index < p.active_opcode.cycle_count
    pub instruction : p.active_interrupt ≡ false
    pub no_callback : p.ready_callback ≡ none
    pub ready_low : p.ready ≡ false

  -- The panel behind `n` waits: it shows the cycle that waits, and the processor has counted them.
  abbrev pub paused : ℕ → FrontPanel M P → FrontPanel M P
  paused n p = record p {
    waiting = true;
    wait_cycle = record {
      pc = p.system.cpu.pc;
      opcode = p.active_opcode.code;
      mnemonic = p.active_opcode.mnemonic;
      index = p.cycle_index;
      cycle = get_or p.active_opcode.cycles p.cycle_index MachineCycle.no_cycle;
      interrupt = p.active_interrupt;
    };
    system = record p.system { cpu = waited n p.system.cpu };
  }

module _ {M P : Type 0} ⦃i8080 : I8080⦄ ⦃memory : Memory M⦄ ⦃ports : Io P⦄ where
  abbrev pub panel_steps : ℕ → FrontPanel M P → FrontPanel M P
  panel_steps zero p = p
  panel_steps (suc n) p = panel_steps n (step_panel p).1
