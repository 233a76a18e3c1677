-- ===== src/Machine/FrontPanel.antt =====
-- machine/frontpanel.go: the panel that runs the processor cycle by cycle under READY, with interrupts.
pub mod Cycles
pub mod Running
pub mod Ready
pub mod Waiting
pub mod Loop
pub mod Program
pub mod Snapshot
use Prim.Native.String.{String}
use retronet.Base.{
  ℕ, zero, suc, ◌+◌, ◌-◌, bit_and, Bool, true, false, not, ◌&&◌, ◌||◌, if◌then◌else◌, ◌==◌, ltb,
  List, [], ◌∷◌, length, take, get_or, Option, none, some, u8, ◌⊎◌, inl, inr,
}
use retronet.Cpu.Types.{address_mask}
use retronet.Cpu.Errors.{Error, Result, ok, err, panicked}
use retronet.Cpu.Alu.{I8080}
use retronet.Cpu.Bus.{Memory, Io}
use retronet.Cpu.Opcode.{MachineCycle, Opcode, no_cycles, execute8080_func}
use retronet.Cpu.Decoder.{decode}
use retronet.Cpu.State.{Cpu8080, reset}
use retronet.Cpu.Core.{System, Run}
use retronet.Cpu.Step.{step, jam, record_wait_state, copy_operands, is_stopped}
use retronet.Cpu.Encode.{rst}

-- The errors of the panel, those of the processor, and a call on a nil memory.
pub data PanelError : Type 0 where
  nil_cpu panel_running cpu_waiting interrupt_pending panic : PanelError
  invalid_restart_vector : ℕ → PanelError
  invalid_jam : ℕ → ℕ → ℕ → PanelError
  of_cpu : Error → PanelError

pub data PanelStopReason : Type 0 where
  no_reason stopped_by_cpu stopped_by_request stopped_by_limit stopped_by_ready : PanelStopReason

pub record CycleContext : Type 0 where
  pub pc : ℕ
  pub opcode : ℕ
  pub mnemonic : String
  pub index : ℕ
  pub cycle : MachineCycle
  pub interrupt : Bool

pub record InterruptRequest : Type 0 where
  pub code : ℕ
  pub operands : List ℕ
  pub operand_count : ℕ

-- `CycleContext{}`, `interruptRequest{}` and `cpu.Opcode{}`; the Execute of a zero opcode is
-- nil, and nothing calls it
abbrev pub no_context : CycleContext
no_context = record {
  pc = 0;
  opcode = 0;
  mnemonic = "";
  index = 0;
  cycle = MachineCycle.no_cycle;
  interrupt = false;
}

abbrev pub no_request : InterruptRequest
no_request = record { code = 0; operands = 0 ∷ 0 ∷ []; operand_count = 0 }

abbrev pub no_opcode : Opcode
no_opcode = record {
  code = 0;
  mnemonic = "";
  length = 0;
  min_states = 0;
  states = 0;
  cycle_count = 0;
  cycles = no_cycles;
  execute = execute8080_func;
}

-- type FrontPanel; the READY callback is a pure function of the cycle
pub record FrontPanel (M P : Type 0) : Type 0 where
  pub system : System M P
  pub switches : ℕ
  pub address : ℕ
  pub running : Bool
  pub stop_requested : Bool
  pub ready : Bool
  pub waiting : Bool
  pub ready_callback : Option (CycleContext → Bool)
  pub cycle_active : Bool
  pub cycle_index : ℕ
  pub active_opcode : Opcode
  pub active_interrupt : Bool
  pub active_request : InterruptRequest
  pub wait_cycle : CycleContext
  pub pending_interrupt : Option InterruptRequest

abbrev pub is_some : {A : Type 0} → Option A → Bool
is_some none = false
is_some (some _) = true

abbrev pub to_error : Result (Unit {0}) → Option PanelError
to_error (ok tt) = none
to_error (err e) = some (PanelError.of_cpu e)
to_error panicked = some PanelError.panic

-- An operation that can fail returns the error, or none for nil, and the panel behind it.
abbrev pub Operation : Type 0 → Type 0 → Type 0
Operation M P = FrontPanel M P → Option PanelError × FrontPanel M P

module _ {M P : Type 0} where
  unfoldable pub new_front_panel :
      Option Cpu8080 → Option M → Option P → PanelError ⊎ FrontPanel M P
  new_front_panel none memory io = inl PanelError.nil_cpu
  new_front_panel (some c) none io = inl (PanelError.of_cpu Error.nil_memory)
  new_front_panel (some c) (some m) io = inr (record {
    system = record { cpu = c; mem = some m; io = io };
    switches = 0;
    address = 0;
    running = false;
    stop_requested = false;
    ready = true;
    waiting = false;
    ready_callback = none;
    cycle_active = false;
    cycle_index = 0;
    active_opcode = no_opcode;
    active_interrupt = false;
    active_request = no_request;
    wait_cycle = no_context;
    pending_interrupt = none;
  })

  -- SetSwitches, SetAddress, SetReady and Stop
  unfoldable pub set_switches : ℕ → FrontPanel M P → FrontPanel M P
  set_switches value p = record p { switches = value }

  unfoldable pub set_address : ℕ → FrontPanel M P → FrontPanel M P
  set_address addr p = record p { address = bit_and addr address_mask }

  unfoldable pub set_ready : Bool → FrontPanel M P → FrontPanel M P
  set_ready level p = record p { ready = level }

  unfoldable pub stop : FrontPanel M P → FrontPanel M P
  stop p = record p { stop_requested = true }

  unfoldable pub set_ready_callback : Option (CycleContext → Bool) → Operation M P
  set_ready_callback callback p =
      if p.running
      then (some PanelError.panel_running, p)
      else (none, record p { ready_callback = callback })

  unfoldable pub request_interrupt : ℕ → List ℕ → Operation M P
  request_interrupt code operands p =
      let want = (decode code).length - 1 in
      if not (length operands == want)
      then (some (PanelError.invalid_jam code (length operands) want), p)
      else if is_some p.pending_interrupt
      then (some PanelError.interrupt_pending, p)
      else (
        none,
        record p {
          pending_interrupt =
              some (record {
                code = code;
                operands = copy_operands operands;
                operand_count = u8 want;
              });
        },
      )

  unfoldable pub clear_cycle_state : FrontPanel M P → FrontPanel M P
  clear_cycle_state p = record p {
    cycle_active = false;
    cycle_index = 0;
    active_opcode = no_opcode;
    active_interrupt = false;
    active_request = no_request;
    waiting = false;
    wait_cycle = no_context;
  }

  unfoldable pub reset_panel : Operation M P
  unfolding clear_cycle_state
  reset_panel p = if p.running then (some PanelError.panel_running, p) else (
    none,
    record (clear_cycle_state (record p { stop_requested = false })) {
      pending_interrupt = none;
      system = record p.system { cpu = reset p.system.cpu };
    },
  )

module _ {M P : Type 0} ⦃memory : Memory M⦄ where
  -- Examine; none is a call on a nil memory
  unfoldable pub examine : FrontPanel M P → Option ℕ
  examine p = elim p.system.mem [ none ↦ none | some m ↦ some (memory.read m p.address) ]

  unfoldable pub deposit : ℕ → Operation M P
  deposit value p = if p.running then (some PanelError.panel_running, p) else elim p.system.mem [
    | none ↦ (some PanelError.panic, p)
    | some m ↦ (
      none,
      record p { system = record p.system { mem = some (memory.write m p.address value) } },
    )
  ]

  unfoldable pub deposit_switches : Operation M P
  unfolding deposit
  deposit_switches p = deposit p.switches p
