-- ===== src/Machine/Terminal.antt =====
-- machine/terminal.go: the ASCII terminal.
pub mod Queue
pub mod Output
use Prim.Native.String.{String}
use retronet.Base.{ℕ, List, [], ◌∷◌, ◌++◌, length, Option, none, some, if◌then◌else◌}
use retronet.Cpu.Errors.{Error}
use retronet.Cpu.Bus.{validate_input_port, validate_output_port}
use retronet.Machine.Callbacks.{CallbackIo, InputCallback, OutputCallback, on_input, on_output}
use retronet.Machine.Peripherals.{PeripheralError, PeripheralBinding, PeripheralBus, has}
use retronet.Machine.Peripherals.Register.{Place, on_peripheral_bus}

abbrev pub terminal_input_port : ℕ
terminal_input_port = 0

abbrev pub terminal_output_port : ℕ
terminal_output_port = 1

pub record TerminalConfig : Type 0 where
  pub input_port : ℕ
  pub output_port : ℕ

abbrev pub default_terminal_config : TerminalConfig
default_terminal_config = record {
  input_port = terminal_input_port;
  output_port = terminal_output_port;
}

-- An io.Writer over its state: what it does with the bytes of one call, and the error it returns.
pub record Writer (W : Type 0) : Type 0 where
  pub write : W → List ℕ → Option String × W

-- type Terminal; a writer of none is io.Discard
pub record Terminal (W : Type 0) : Type 0 where
  pub input : List ℕ
  pub output : Option W
  pub err : Option String

module _ {W : Type 0} where
  abbrev pub new_terminal : Option W → Terminal W
  new_terminal output = record { input = []; output = output; err = none }

  unfoldable pub queue_input : List ℕ → Terminal W → Terminal W
  queue_input bytes t = record t { input = t.input ++ bytes }

  -- QueueInputString, whose argument is its bytes
  unfoldable pub queue_input_string : List ℕ → Terminal W → Terminal W
  unfolding queue_input
  queue_input_string value t = queue_input value t

  -- Err
  abbrev pub err_of : Terminal W → Option String
  err_of t = t.err

  unfoldable pub pending_input : Terminal W → ℕ
  pending_input t = length t.input

  unfoldable pub read_input : InputCallback (Terminal W)
  read_input port latched t = elim t.input [
    | [] ↦ (latched, t)
    | value ∷ rest ↦ (value, record t { input = rest })
  ]

module _ {W : Type 0} ⦃writer : Writer W⦄ where
  -- `t.output.Write` of one byte
  abbrev pub emit : ℕ → Option W → Option String × Option W
  emit value none = (none, none)
  emit value (some w) = let (e, next) = writer.write w (value ∷ []) in (e, some next)

  unfoldable pub write_output : OutputCallback (Terminal W)
  write_output port value t =
      if has t.err
      then t
      else (let (e, next) = emit value t.output in record t { output = next; err = e })

-- A callback of a peripheral, on the devices among which it lies.
module _ {D S : Type 0} (place : Place D S) where
  abbrev pub placed_input : InputCallback S → InputCallback D
  placed_input callback port latched d =
      let (value, s) = callback port latched (place.get d) in (value, place.put s d)

  abbrev pub placed_output : OutputCallback S → OutputCallback D
  placed_output callback port value d = place.put (callback port value (place.get d)) d

module _ {D W : Type 0} ⦃writer : Writer W⦄ (place : Place D (Terminal W)) where
  abbrev connect : TerminalConfig → CallbackIo D → Option Error × CallbackIo D
  connect config io =
      let (e, next) = on_input config.input_port (some (placed_input place read_input)) io in
      elim e [
        | some f ↦ (some f, next)
        | none ↦ on_output config.output_port (some (placed_output place write_output)) next
      ]

  -- AttachPorts; the bus of none is nil
  unfoldable pub attach_ports :
      TerminalConfig → Option (CallbackIo D) → Option Error × Option (CallbackIo D)
  unfolding read_input write_output on_input on_output
  attach_ports config none = (some Error.nil_io, none)
  attach_ports config (some io) = elim (validate_input_port config.input_port) [
    | some e ↦ (some e, some io)
    | none ↦ elim (validate_output_port config.output_port) [
      | some e ↦ (some e, some io)
      | none ↦ (let (e, next) = connect config io in (e, some next))
    ]
  ]

  -- Attach and AttachPeripheral
  unfoldable pub attach_terminal : Option (CallbackIo D) → Option Error × Option (CallbackIo D)
  unfolding attach_ports
  attach_terminal = attach_ports default_terminal_config

  unfoldable pub attach_peripheral :
      String
      → TerminalConfig
      → Option (PeripheralBus D)
      → Option PeripheralError × Option (PeripheralBus D)
  unfolding read_input write_output
  attach_peripheral name config = on_peripheral_bus (record {
    name = name;
    inputs =
        record { port = config.input_port; handler = some (placed_input place read_input) } ∷ [];
    outputs =
        record { port = config.output_port; handler = some (placed_output place write_output) }
        ∷ [];
  })
