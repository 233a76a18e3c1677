-- ===== src/Machine/Callbacks/Calls.antt =====
-- `CallbackIO` (machine/io.go) against `Ports` (cpu/io.go): its latches are those of `Ports`, and what it
-- adds is a callback between the latch and the observers.
use retronet.Base.{ℕ, ◌≡◌, refl, List, [], ◌∷◌, Option, none, some, ap, ◌∙◌}
use retronet.Cpu.Errors.{Error, Result}
use retronet.Cpu.Bus.{
  Ports, ports_set_input, ports_input, ports_output, ports_output_value, is_input_port,
  is_output_port, validate_input_port, validate_output_port,
}
use retronet.Machine.Callbacks.{
  CallbackIo, IoObserver, notify, resolve, deliver, set_input, callback_input, callback_output,
  output_value,
}

-- The calls of a bus, by the machine and by the processor.
pub data BusCall : Type 0 where
  set_call output_call : ℕ → ℕ → BusCall
  input_call value_call : ℕ → BusCall

-- What a call answers.
pub data Answer : Type 0 where
  no_answer : Answer
  set_answer : Option Error → Answer
  input_answer : ℕ → Answer
  value_answer : Result ℕ → Answer

-- The latches of `Ports`, and devices.
pub record Latched (D : Type 0) : Type 0 where
  pub ports : Ports
  pub devices : D

module _ {D : Type 0} where
  -- A call of the bus.
  abbrev pub bus_call : BusCall → CallbackIo D → Answer × CallbackIo D
  bus_call (set_call port value) io =
      let (e, next) = set_input port value io in (set_answer e, next)
  bus_call (output_call port value) io = (no_answer, callback_output io port value)
  bus_call (input_call port) io =
      let (value, next) = callback_input io port in (input_answer value, next)
  bus_call (value_call port) io = (value_answer (output_value io port), io)

  abbrev pub bus_calls : List BusCall → CallbackIo D → List Answer × CallbackIo D
  bus_calls [] io = ([], io)
  bus_calls (call ∷ calls) io =
      let (answer, next) = bus_call call io in
      let (answers, last) = bus_calls calls next in (answer ∷ answers, last)

  -- What is told to a list of observers, in their order.
  abbrev pub told : List (IoObserver D) → ℕ → ℕ → D → D
  told [] port value d = d
  told (f ∷ fs) port value d = told fs port value (f port value d)

  -- The same calls of `Ports`, with the callbacks and the observers of the bus `io` on their devices.
  abbrev pub port_call : CallbackIo D → BusCall → Latched D → Answer × Latched D
  port_call io (set_call port value) x =
      (set_answer none, record x { ports = ports_set_input x.ports port value })
  port_call io (output_call port value) x = (
    no_answer,
    record {
      ports = ports_output x.ports port value;
      devices =
          told (io.output_observers port) port value (elim (io.output_callbacks port) as (λ _. D) [
            | none ↦ x.devices
            | some f ↦ f port value x.devices
          ]);
    },
  )
  port_call io (input_call port) x =
      let (latched, q) = ports_input x.ports port in
      let (value, e) = elim (io.input_callbacks port) as (λ _. ℕ × D) [
        | none ↦ (latched, x.devices)
        | some f ↦ f port latched x.devices
      ] in
      (
        input_answer value,
        record { ports = q; devices = told (io.input_observers port) port value e },
      )
  port_call io (value_call port) x = (value_answer (ports_output_value x.ports port), x)

  abbrev pub port_calls : CallbackIo D → List BusCall → Latched D → List Answer × Latched D
  port_calls io [] x = ([], x)
  port_calls io (call ∷ calls) x =
      let (answer, y) = port_call io call x in
      let (answers, z) = port_calls io calls y in (answer ∷ answers, z)

  -- The latches and the devices of a bus, and the bus with others.
  abbrev pub latched_of : CallbackIo D → Latched D
  latched_of io = record {
    ports = record { input_ports = io.inputs; output_ports = io.outputs };
    devices = io.devices;
  }

  abbrev pub with_ports : CallbackIo D → Latched D → CallbackIo D
  with_ports io x = record io {
    inputs = x.ports.input_ports;
    outputs = x.ports.output_ports;
    devices = x.devices;
  }

  notify-told :
      (fs : List (IoObserver D)) (port value : ℕ) (d : D)
      → notify fs port value d ≡ told fs port value d
  unfolding notify
  notify-told [] port value d = refl
  notify-told (f ∷ fs) port value d = notify-told fs port value (f port value d)

  bus_call-port_call :
      (io : CallbackIo D) (call : BusCall) (x : Latched D)
      → let y = port_call io call x in bus_call call (with_ports io x) ≡ (y.0, with_ports io y.1)
  unfolding set_input callback_input callback_output output_value ports_set_input ports_input
      ports_output ports_output_value is_input_port is_output_port validate_input_port
      validate_output_port
  bus_call-port_call io (set_call port value) x = refl
  bus_call-port_call io (output_call port value) x =
      ap
        (λ e. (
          no_answer,
          with_ports io (record { ports = ports_output x.ports port value; devices = e }),
        ))
        (notify-told (io.output_observers port) port value (deliver (with_ports io x) port value))
  bus_call-port_call io (input_call port) x =
      let (value, e) = resolve (with_ports io x) port in
      ap (λ f. (input_answer value, with_ports io (record x { devices = f })))
        (notify-told (io.input_observers port) port value e)
  bus_call-port_call io (value_call port) x = refl

  -- Any calls of a callback bus, of the machine or of the processor, answer what the same calls of `Ports`
  -- answer that has its latches, but for the callback of an input port, which answers in place of the
  -- latch that it is given; they leave the latches as those of `Ports`; and they change the devices by
  -- the callback of each port that is read or written, and then by the observers of that port, in their
  -- order, each told the port and the value answered or written. Callbacks and observers stay.
  pub bus_calls-port_calls :
      (calls : List BusCall) (io : CallbackIo D)
      → let r = port_calls io calls (latched_of io) in bus_calls calls io ≡ (r.0, with_ports io r.1)
  bus_calls-port_calls calls io = from calls (latched_of io)
    where
      from :
          (calls : List BusCall) (x : Latched D)
          → bus_calls calls (with_ports io x)
            ≡ ((port_calls io calls x).0, with_ports io (port_calls io calls x).1)
      from [] x = refl
      from (call ∷ rest) x =
          let y = port_call io call x in
          ap
            (λ (r : Answer × CallbackIo D).
              let (answers, last) = bus_calls rest r.1 in (r.0 ∷ answers, last))
            (bus_call-port_call io call x)
          ∙ ap (λ (r : List Answer × CallbackIo D). (y.0 ∷ r.0, r.1)) (from rest y.1)
