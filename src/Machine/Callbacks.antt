-- ===== src/Machine/Callbacks.antt =====
-- machine/io.go: the I/O bus with callbacks and observers.
pub mod Laws
pub mod Calls
pub mod Observers
use retronet.Base.{ℕ, Bool, not, if◌then◌else◌, List, [], ◌∷◌, ◌++◌, Option, none, some}
use retronet.Cpu.Errors.{Error, Result, ok, err}
use retronet.Cpu.Bus.{
  Io, update, is_input_port, is_output_port, validate_input_port, validate_output_port,
}

-- A callback is a closure over the state of devices, `D`: it takes the port, the value and that
-- state, and returns what it answers and the state it leaves. It does not reach the bus.
abbrev pub InputCallback : Type 0 → Type 0
InputCallback D = ℕ → ℕ → D → ℕ × D

abbrev pub OutputCallback : Type 0 → Type 0
OutputCallback D = ℕ → ℕ → D → D

abbrev pub IoObserver : Type 0 → Type 0
IoObserver D = ℕ → ℕ → D → D

-- type CallbackIO, its arrays as functions of the port, with the state of the devices on it
pub record CallbackIo (D : Type 0) : Type 0 where
  pub inputs : ℕ → ℕ
  pub outputs : ℕ → ℕ
  pub input_callbacks : ℕ → Option (InputCallback D)
  pub output_callbacks : ℕ → Option (OutputCallback D)
  pub input_observers : ℕ → List (IoObserver D)
  pub output_observers : ℕ → List (IoObserver D)
  pub devices : D

module _ {D : Type 0} where
  abbrev pub new_callback_io : D → CallbackIo D
  new_callback_io devices = record {
    inputs = λ _. 0;
    outputs = λ _. 0;
    input_callbacks = λ _. none;
    output_callbacks = λ _. none;
    input_observers = λ _. [];
    output_observers = λ _. [];
    devices = devices;
  }

  -- A method that can fail returns the error, or none for nil, and the bus behind it; `checked` is its
  -- first statement, which returns the error of the port.
  abbrev checked : Option Error → CallbackIo D → CallbackIo D → Option Error × CallbackIo D
  checked none io next = (none, next)
  checked (some e) io next = (some e, io)

  unfoldable pub set_input : ℕ → ℕ → CallbackIo D → Option Error × CallbackIo D
  set_input port value io =
      checked (validate_input_port port) io (record io { inputs = update io.inputs port value })

  unfoldable pub on_input :
      ℕ → Option (InputCallback D) → CallbackIo D → Option Error × CallbackIo D
  on_input port callback io =
      checked (validate_input_port port) io
        (record io { input_callbacks = update io.input_callbacks port callback })

  unfoldable pub on_output :
      ℕ → Option (OutputCallback D) → CallbackIo D → Option Error × CallbackIo D
  on_output port callback io =
      checked (validate_output_port port) io
        (record io { output_callbacks = update io.output_callbacks port callback })

  -- `append` of an observer that is not nil
  abbrev appended : (ℕ → List (IoObserver D)) → ℕ → Option (IoObserver D) → ℕ → List (IoObserver D)
  appended observers port none = observers
  appended observers port (some f) = update observers port (observers port ++ f ∷ [])

  unfoldable pub observe_input :
      ℕ → Option (IoObserver D) → CallbackIo D → Option Error × CallbackIo D
  observe_input port observer io =
      checked (validate_input_port port) io
        (record io { input_observers = appended io.input_observers port observer })

  unfoldable pub observe_output :
      ℕ → Option (IoObserver D) → CallbackIo D → Option Error × CallbackIo D
  observe_output port observer io =
      checked (validate_output_port port) io
        (record io { output_observers = appended io.output_observers port observer })

  -- the loop over the observers of a port
  unfoldable pub notify : List (IoObserver D) → ℕ → ℕ → D → D
  notify [] port value devices = devices
  notify (f ∷ fs) port value devices = notify fs port value (f port value devices)

  -- the value that a read of the port resolves to, and the devices behind the callback
  abbrev pub resolve : CallbackIo D → ℕ → ℕ × D
  resolve io port = elim (io.input_callbacks port) [
    | none ↦ (io.inputs port, io.devices)
    | some callback ↦ callback port (io.inputs port) io.devices
  ]

  unfoldable pub callback_input : CallbackIo D → ℕ → ℕ × CallbackIo D
  unfolding notify
  callback_input io port =
      if not (is_input_port port)
      then (0, io)
      else (let (value, devices) = resolve io port in
          (value, record io { devices = notify (io.input_observers port) port value devices }))

  -- the devices behind the output callback
  abbrev pub deliver : CallbackIo D → ℕ → ℕ → D
  deliver io port value = elim (io.output_callbacks port) [
    | none ↦ io.devices
    | some callback ↦ callback port value io.devices
  ]

  unfoldable pub callback_output : CallbackIo D → ℕ → ℕ → CallbackIo D
  unfolding notify
  callback_output io port value = if not (is_output_port port) then io else record io {
    outputs = update io.outputs port value;
    devices = notify (io.output_observers port) port value (deliver io port value);
  }

  unfoldable pub output_value : CallbackIo D → ℕ → Result ℕ
  output_value io port = elim (validate_output_port port) [
    | some e ↦ err e
    | none ↦ ok (io.outputs port)
  ]

  abbrev pub callback_ports : Io (CallbackIo D)
  callback_ports = record { input = callback_input; output = callback_output }
