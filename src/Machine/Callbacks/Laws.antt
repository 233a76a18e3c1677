-- ===== src/Machine/Callbacks/Laws.antt =====
-- What `CallbackIO` (machine/io.go) promises as the I/O bus of the processor.
use retronet.Base.{ℕ, ◌<◌, ◌≡◌, refl, arith, Option, none, some}
use retronet.Cpu.Bus.{IoLaws, is_input_port, is_output_port}
use retronet.Machine.Callbacks.{
  CallbackIo, InputCallback, OutputCallback, notify, resolve, deliver, callback_input,
  callback_output, callback_ports,
}

-- The callbacks and the observers keep an invariant of the devices, and an input callback answers a
-- byte for a byte.
record IsTame {D : Type 0} (Holds : D → Type 0) (io : CallbackIo D) : Type 0 where
  input-lt : (port : ℕ) → io.inputs port < 256
  output-lt : (port : ℕ) → io.outputs port < 256
  holds : Holds io.devices
  answers :
      (port value : ℕ) (callback : InputCallback D) (d : D)
      → io.input_callbacks port ≡ some callback
      → value < 256
      → Holds d
      → ((callback port value d).0 < 256) × Holds (callback port value d).1
  accepts :
      (port value : ℕ) (callback : OutputCallback D) (d : D)
      → io.output_callbacks port ≡ some callback
      → value < 256
      → Holds d
      → Holds (callback port value d)
  watches_input :
      (port value : ℕ) (d : D)
      → value < 256
      → Holds d
      → Holds (notify (io.input_observers port) port value d)
  watches_output :
      (port value : ℕ) (d : D)
      → value < 256
      → Holds d
      → Holds (notify (io.output_observers port) port value d)

module _ {D : Type 0} (Holds : D → Type 0) where
  resolve_by :
      (latched port : ℕ) (d : D) (callback : Option (InputCallback D))
      → latched < 256
      → Holds d
      → ((f : InputCallback D)
          → callback ≡ some f
          → ((f port latched d).0 < 256) × Holds (f port latched d).1)
      → let x = elim callback as (λ _. ℕ × D) [ none ↦ (latched, d) | some f ↦ f port latched d ] in
        (x.0 < 256) × Holds x.1
  resolve_by latched port d none h v answers = (h, v)
  resolve_by latched port d (some f) h v answers = answers f refl

  deliver_by :
      (value port : ℕ) (d : D) (callback : Option (OutputCallback D))
      → Holds d
      → ((f : OutputCallback D) → callback ≡ some f → Holds (f port value d))
      → Holds (elim callback as (λ _. D) [ none ↦ d | some f ↦ f port value d ])
  deliver_by value port d none v accepts = v
  deliver_by value port d (some f) v accepts = accepts f refl

  resolve-IsTame :
      (io : CallbackIo D) (port : ℕ)
      → IsTame Holds io
      → ((resolve io port).0 < 256) × Holds (resolve io port).1
  resolve-IsTame io port t =
      resolve_by (io.inputs port) port io.devices (io.input_callbacks port) (t.input-lt port)
        t.holds (λ f e. t.answers port (io.inputs port) f io.devices e (t.input-lt port) t.holds)

  input-IsTame :
      (io : CallbackIo D) (port : ℕ)
      → IsTame Holds io
      → ((callback_input io port).0 < 256) × IsTame Holds (callback_input io port).1
  unfolding callback_input is_input_port
  input-IsTame io port t =
      let x = resolve-IsTame io port t in
      (
        x.0,
        record {
          input-lt = t.input-lt;
          output-lt = t.output-lt;
          holds = t.watches_input port (resolve io port).0 (resolve io port).1 x.0 x.1;
          answers = t.answers;
          accepts = t.accepts;
          watches_input = t.watches_input;
          watches_output = t.watches_output;
        },
      )

  output-IsTame :
      (io : CallbackIo D) (port value : ℕ)
      → IsTame Holds io
      → value < 256
      → IsTame Holds (callback_output io port value)
  unfolding callback_output is_output_port
  output-IsTame io port value t h = record {
    input-lt = t.input-lt;
    output-lt = λ i. ground (arith, t.output-lt i);
    holds = t.watches_output port value (deliver io port value) h (
        deliver_by value port io.devices (io.output_callbacks port) t.holds
          (λ f e. t.accepts port value f io.devices e h t.holds));
    answers = t.answers;
    accepts = t.accepts;
    watches_input = t.watches_input;
    watches_output = t.watches_output;
  }

  -- A callback bus with byte latches, whose input callbacks answer bytes and whose callbacks and
  -- observers keep an invariant of the devices, is an I/O bus of bytes, which the processor can rely on,
  -- and stays one under every read and write of a port.
  callback_ports-IoLaws : IoLaws callback_ports (IsTame Holds)
  callback_ports-IoLaws = record {
    input-lt = λ io port t h. (input-IsTame io port t).0;
    input-Holds = λ io port t h. (input-IsTame io port t).1;
    output-Holds = λ io port value t h b. output-IsTame io port value t b;
  }
