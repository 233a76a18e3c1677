-- ===== src/Machine/FrontPanel/Snapshot.antt =====
-- The reading side of machine/frontpanel.go: selectors, lights and the pending interrupt.
use retronet.Base.{ℕ, Bool, List, [], ◌∷◌, Option, none, some}
use retronet.Cpu.Errors.{Error}
use retronet.Cpu.Bus.{Memory}
use retronet.Cpu.State.{Cpu8080}
use retronet.Machine.Callbacks.{CallbackIo, on_input}
use retronet.Machine.Peripherals.Register.{Place}
use retronet.Machine.FrontPanel.{FrontPanel, CycleContext, InterruptRequest, is_some, examine}

pub record FrontPanelState : Type 0 where
  pub cpu : Cpu8080
  pub switches : ℕ
  pub address : ℕ
  pub data_byte : ℕ
  pub running : Bool
  pub stop_requested : Bool
  pub ready : Bool
  pub waiting : Bool
  pub wait_cycle : CycleContext
  pub interrupt_pending : Bool

module _ {M P : Type 0} where
  -- Switches, Address and Ready
  abbrev pub switches_of : FrontPanel M P → ℕ
  switches_of p = p.switches

  abbrev pub address_of : FrontPanel M P → ℕ
  address_of p = p.address

  abbrev pub ready_of : FrontPanel M P → Bool
  ready_of p = p.ready

  abbrev pub is_interrupt_pending : FrontPanel M P → Bool
  is_interrupt_pending p = is_some p.pending_interrupt

-- type JamInstruction
pub record JamInstruction : Type 0 where
  pub code : ℕ
  pub operands : List ℕ
  pub operand_count : ℕ

abbrev pub public_copy : InterruptRequest → JamInstruction
public_copy r = record { code = r.code; operands = r.operands; operand_count = r.operand_count }

-- PendingInterrupt, whose second result says whether there is one
unfoldable pub pending_interrupt_of : {M P : Type 0} → FrontPanel M P → JamInstruction × Bool
pending_interrupt_of p = elim p.pending_interrupt [
  | none ↦ (record { code = 0; operands = 0 ∷ 0 ∷ []; operand_count = 0 }, Bool.false)
  | some request ↦ (public_copy request, Bool.true)
]

abbrev pub state_of : {M P : Type 0} → FrontPanel M P → ℕ → FrontPanelState
state_of p byte = record {
  cpu = p.system.cpu;
  switches = switches_of p;
  address = address_of p;
  data_byte = byte;
  running = p.running;
  stop_requested = p.stop_requested;
  ready = p.ready;
  waiting = p.waiting;
  wait_cycle = p.wait_cycle;
  interrupt_pending = is_interrupt_pending p;
}

-- Snapshot; none is a read of a nil memory
unfoldable pub snapshot :
    {M P : Type 0} ⦃memory : Memory M⦄ → FrontPanel M P → Option FrontPanelState
unfolding examine
snapshot p = elim (examine p) [ none ↦ none | some byte ↦ some (state_of p byte) ]

-- AttachSwitches: the switches stand among the devices, where the callback reads them
unfoldable pub attach_switches :
    {D : Type 0} → Place D ℕ → ℕ → Option (CallbackIo D) → Option Error × Option (CallbackIo D)
unfolding on_input
attach_switches place port none = (some Error.nil_io, none)
attach_switches place port (some io) =
    let (e, next) = on_input port (some (λ _ _ d. (place.get d, d))) io in (e, some next)
