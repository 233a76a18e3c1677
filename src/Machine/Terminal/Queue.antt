-- ===== src/Machine/Terminal/Queue.antt =====
-- The input of the terminal (machine/terminal.go) on its port: a queue, and then the latch.
use retronet.Base.{
  ℕ, zero, suc, ◌≡◌, refl, arith, List, [], ◌∷◌, ◌++◌, Option, none, some, subst, sym, ◌∙◌, ap,
}
use retronet.Cpu.Bus.{is_input_port, validate_input_port, validate_output_port, update}
use retronet.Machine.Callbacks.{CallbackIo, InputCallback, resolve, notify, callback_input}
use retronet.Machine.Peripherals.Register.{Place}
use retronet.Machine.Terminal.{
  Terminal, TerminalConfig, Writer, read_input, queue_input, placed_input, attach_ports,
  placed_output, write_output,
}
use retronet.Machine.Peripherals.Attach.{or_else}
use retronet.Cpu.Errors.{Error}

-- What is put among the devices is got from there.
pub record PlaceLaws {D S : Type 0} (place : Place D S) : Type 0 where
  pub get-put : (s : S) (d : D) → place.get (place.put s d) ≡ s

module _ {D : Type 0} where
  -- A number of reads of a port, and what they return.
  unfoldable pub read_port : ℕ → ℕ → CallbackIo D → List ℕ × CallbackIo D
  read_port zero port io = ([], io)
  read_port (suc n) port io =
      let (value, next) = callback_input io port in
      let (values, last) = read_port n port next in (value ∷ values, last)

abbrev pub drop : {A : Type 0} → ℕ → List A → List A
drop zero xs = xs
drop (suc n) [] = []
drop (suc n) (x ∷ xs) = drop n xs

drop_nil : {A : Type 0} (n : ℕ) → drop {A = A} n [] ≡ []
drop_nil zero = refl
drop_nil (suc n) = refl

-- The first `n` entries of a queue, filled up to `n` with a value.
abbrev pub padded : ℕ → List ℕ → ℕ → List ℕ
padded zero xs value = []
padded (suc n) [] value = value ∷ padded n [] value
padded (suc n) (x ∷ xs) value = x ∷ padded n xs value

module _ {D W : Type 0} ⦃writer : Writer W⦄ (place : Place D (Terminal W))
    (laws : PlaceLaws place) where
  -- The terminal is on the port, with nothing that observes it.
  pub record IsOnPort (port : ℕ) (io : CallbackIo D) : Type 0 where
    pub connected : io.input_callbacks port ≡ some (placed_input place read_input)
    pub unobserved : io.input_observers port ≡ []

  abbrev pub terminal_of : CallbackIo D → Terminal W
  terminal_of io = place.get io.devices

  abbrev moved : CallbackIo D → ℕ × Terminal W → ℕ × CallbackIo D
  moved io (value, t) = (value, record io { devices = place.put t io.devices })

  input_by :
      (io : CallbackIo D) (port : ℕ) (x : ℕ × D)
      → io.input_observers port ≡ []
      → ◌≡◌ {A = ℕ × CallbackIo D}
          (x.0, record io { devices = notify (io.input_observers port) port x.0 x.1 })
          (x.0, record io { devices = x.1 })
  unfolding notify
  input_by io port x e =
      ap
        (λ fs.
          let r : ℕ × CallbackIo D = (x.0, record io { devices = notify fs port x.0 x.1 }) in r)
        e

  -- A read of the port is a read of the terminal.
  callback_input-read_input :
      (port : ℕ) (io : CallbackIo D)
      → IsOnPort port io
      → callback_input io port ≡ moved io (read_input port (io.inputs port) (terminal_of io))
  unfolding callback_input is_input_port
  callback_input-read_input port io on =
      input_by io port (resolve io port) on.unobserved
      ∙ ap
          (λ (c : Option (InputCallback D)).
            let x = elim c as (λ _. ℕ × D) [
              | none ↦ (io.inputs port, io.devices)
              | some f ↦ f port (io.inputs port) io.devices
            ] in
            let r : ℕ × CallbackIo D = (x.0, record io { devices = x.1 }) in r)
          on.connected

  read_port_by :
      (n port : ℕ) (io : CallbackIo D) (x : ℕ × Terminal W)
      → callback_input io port ≡ moved io x
      → read_port (suc n) port io
        ≡ (let (values, last) = read_port n port (moved io x).1 in (x.0 ∷ values, last))
  unfolding read_port
  read_port_by n port io x e =
      ap
        (λ (y : ℕ × CallbackIo D).
          let (values, last) = read_port n port y.1 in
          let r : List ℕ × CallbackIo D = (y.0 ∷ values, last) in r)
        e

  read_empty :
      (port latched : ℕ) (t : Terminal W) → t.input ≡ [] → read_input port latched t ≡ (latched, t)
  unfolding read_input
  read_empty port latched t e = ground (arith)

  read_next :
      (port latched : ℕ) (t : Terminal W) (x : ℕ) (rest : List ℕ)
      → t.input ≡ x ∷ rest
      → read_input port latched t ≡ (x, record t { input = rest })
  unfolding read_input
  read_next port latched t x rest e = ground (arith)

  -- a read that leaves the terminal as `t`
  read_port_step :
      (n port : ℕ) (io : CallbackIo D) (values left : List ℕ) (value : ℕ) (t : Terminal W)
      → callback_input io port ≡ moved io (value, t)
      → ((read_port n port (moved io (value, t)).1).0 ≡ values)
        × ((terminal_of (read_port n port (moved io (value, t)).1).1).input ≡ left)
      → ((read_port (suc n) port io).0 ≡ value ∷ values)
        × ((terminal_of (read_port (suc n) port io).1).input ≡ left)
  read_port_step n port io values left value t e h =
      subst
        (λ (r : List ℕ × CallbackIo D). (r.0 ≡ value ∷ values) × ((terminal_of r.1).input ≡ left))
        (sym (read_port_by n port io (value, t) e)) (ap (◌∷◌ value) h.0, h.1)

  read_port_queue :
      (n port : ℕ) (io : CallbackIo D) (queue : List ℕ)
      → IsOnPort port io
      → (terminal_of io).input ≡ queue
      → ((read_port n port io).0 ≡ padded n queue (io.inputs port))
        × ((terminal_of (read_port n port io).1).input ≡ drop n queue)
  read_port_queue zero port io queue on e = unfold read_port in (refl, e)
  read_port_queue (suc n) port io [] on e =
      let t = terminal_of io in
      let next = (moved io (io.inputs port, t)).1 in
      let later =
        read_port_queue n port next []
          (record { connected = on.connected; unobserved = on.unobserved })
          (ap (λ (u : Terminal W). u.input) (laws.get-put t io.devices) ∙ e) in
      read_port_step n port io (padded n [] (io.inputs port)) [] (io.inputs port) t
        (callback_input-read_input port io on
          ∙ ap (moved io) (read_empty port (io.inputs port) t e))
        (later.0, later.1 ∙ drop_nil n)
  read_port_queue (suc n) port io (x ∷ rest) on e =
      let t = terminal_of io in
      let u = record t { input = rest } in
      read_port_step n port io (padded n rest (io.inputs port)) (drop n rest) x u
        (callback_input-read_input port io on
          ∙ ap (moved io) (read_next port (io.inputs port) t x rest e))
        (read_port_queue n port (moved io (x, u)).1 rest
          (record { connected = on.connected; unobserved = on.unobserved })
          (ap (λ (v : Terminal W). v.input) (laws.get-put u io.devices)))

  -- the bus behind `AttachPorts`
  abbrev pub attached : TerminalConfig → CallbackIo D → CallbackIo D
  attached config io = record io {
    input_callbacks =
        update io.input_callbacks config.input_port (some (placed_input place read_input));
    output_callbacks =
        update io.output_callbacks config.output_port (some (placed_output place write_output));
  }

  attach_ports-attached :
      (config : TerminalConfig) (io : CallbackIo D)
      → attach_ports place config (some io) ≡ (none, some (attached config io))
  unfolding attach_ports validate_input_port validate_output_port
  attach_ports-attached config io = refl

  -- `QueueInput` on the terminal of a bus
  abbrev pub fed : List ℕ → CallbackIo D → CallbackIo D
  fed bytes io = record io { devices = place.put (queue_input bytes (terminal_of io)) io.devices }

  fed_queue :
      (config : TerminalConfig) (io : CallbackIo D) (bytes : List ℕ) (n : ℕ)
      → io.input_observers config.input_port ≡ []
      → let x = read_port n config.input_port (fed bytes (attached config io)) in
        (x.0 ≡ padded n ((terminal_of io).input ++ bytes) (io.inputs config.input_port))
        × ((terminal_of x.1).input ≡ drop n ((terminal_of io).input ++ bytes))
  unfolding queue_input
  fed_queue config io bytes n quiet =
      let t = terminal_of io in
      read_port_queue n config.input_port (fed bytes (attached config io)) (t.input ++ bytes)
        (record { connected = ground arith; unobserved = quiet })
        (ap (λ (u : Terminal W). u.input) (laws.get-put (queue_input bytes t) io.devices))

  -- Behind `AttachPorts` to a port that nothing observes and `QueueInput` of some bytes, any number of
  -- reads of the port return the bytes that were pending before and then these, each once and in order,
  -- and the latched value of the port when there are no more; the bytes not read stay pending.
  pub read_port-queue_input :
      (config : TerminalConfig) (io next : CallbackIo D) (bytes : List ℕ) (n : ℕ)
      → attach_ports place config (some io) ≡ (none, some next)
      → io.input_observers config.input_port ≡ []
      → let x = read_port n config.input_port (fed bytes next) in
        (x.0 ≡ padded n ((terminal_of io).input ++ bytes) (io.inputs config.input_port))
        × ((terminal_of x.1).input ≡ drop n ((terminal_of io).input ++ bytes))
  read_port-queue_input config io next bytes n e quiet =
      subst
        (λ (c : CallbackIo D).
          let x = read_port n config.input_port (fed bytes c) in
          (x.0 ≡ padded n ((terminal_of io).input ++ bytes) (io.inputs config.input_port))
          × ((terminal_of x.1).input ≡ drop n ((terminal_of io).input ++ bytes)))
        (ap (λ (r : Option Error × Option (CallbackIo D)). or_else r.1 io)
          (sym (attach_ports-attached config io) ∙ e))
        (fed_queue config io bytes n quiet)
