-- ===== src/Machine/Debugger/Recording/Ports.antt =====
-- The observers that `NewDebugger` (machine/debugger.go) adds to the ports of a callback bus.
use retronet.Cpu.Bus.{update}
use retronet.Base.{
  ==_iff, ◌==◌, Bool-cases, sym, subst, leb, ltb, ◌<◌, ◌&&◌, if◌then◌else◌, ℕ, zero, suc, ◌+◌, ◌≤◌,
  ◌≡◌, refl, arith, List, [], ◌∷◌, ◌++◌, Option, none, some, inl, inr, ap, ◌∙◌, u8,
}
use retronet.Cpu.Errors.{Error}
use retronet.Cpu.Bus.{validate_input_port, validate_output_port}
use retronet.Machine.Callbacks.{CallbackIo, IoObserver, observe_input, observe_output}
use retronet.Machine.Peripherals.Register.{Place}
use retronet.Machine.Debugger.{IoAccess}
use retronet.Machine.Debugger.Recording.{watch_each, watch_ports, record_input, record_output}

module _ {D : Type 0} where
  watch_each_done :
      (observe : ℕ → CallbackIo D → Option Error × CallbackIo D)
      → ((port : ℕ) (io : CallbackIo D) → (observe port io).0 ≡ none)
      → (left i : ℕ) (io : CallbackIo D) → (watch_each observe left i io).0 ≡ none
  unfolding watch_each
  watch_each_done observe done zero i io = refl
  watch_each_done observe done (suc left) i io =
      rw (done (u8 i) io, watch_each)
        (watch_each_done observe done left (i + 1) (observe (u8 i) io).1)

  -- Observers alone differ.
  pub record Watched (fs gs : ℕ → List (IoObserver D)) (io next : CallbackIo D) : Type 0 where
    pub inputs : next.inputs ≡ io.inputs
    pub outputs : next.outputs ≡ io.outputs
    pub input_callbacks : next.input_callbacks ≡ io.input_callbacks
    pub output_callbacks : next.output_callbacks ≡ io.output_callbacks
    pub devices : next.devices ≡ io.devices
    pub input_observers : (port : ℕ) → port < 256 → next.input_observers port ≡ fs port
    pub output_observers : (port : ℕ) → port < 256 → next.output_observers port ≡ gs port

  -- The observer `f` behind the others, on the ports from `i` on.
  abbrev watched_from : IoObserver D → ℕ → ℕ → (ℕ → List (IoObserver D)) → ℕ → List (IoObserver D)
  watched_from f left i observers port =
      if leb i port && ltb port (i + left) then observers port ++ f ∷ [] else observers port

  watched_more :
      (f : IoObserver D) (left i port : ℕ) (observers : ℕ → List (IoObserver D))
      → i < 256
      → watched_from f left (i + 1) (update observers (u8 i) (observers (u8 i) ++ f ∷ [])) port
        ≡ watched_from f (suc left) i observers port
  watched_more f left i port observers h =
      let byte : u8 i ≡ i = omega arith in
      ap (λ j. watched_from f left (i + 1) (update observers j (observers j ++ f ∷ [])) port) byte
      ∙ at_port
    where
      at_port :
          watched_from f left (i + 1) (update observers i (observers i ++ f ∷ [])) port
          ≡ watched_from f (suc left) i observers port
      at_port = elim (Bool-cases (port == i)) [
        | inl e ↦
            subst
              (λ j.
                watched_from f left (i + 1) (update observers i (observers i ++ f ∷ [])) j
                ≡ watched_from f (suc left) i observers j)
              (sym ((==_iff port i).0 e)) (ground (arith, ==_iff i i))
        | inr e ↦ rw e (ground (arith, ==_iff port i))
      ]

  watch_inputs :
      (f : IoObserver D) (left i : ℕ) (io : CallbackIo D)
      → i + left ≤ 256
      → Watched
          (watched_from f left i io.input_observers)
          io.output_observers
          io
          (watch_each (λ port. observe_input port (some f)) left i io).1
  unfolding watch_each observe_input validate_input_port
  watch_inputs f zero i io h = record {
    inputs = refl;
    outputs = refl;
    input_callbacks = refl;
    output_callbacks = refl;
    devices = refl;
    input_observers = λ port b. ground arith;
    output_observers = λ port b. refl;
  }
  watch_inputs f (suc left) i io h =
      let w = watch_inputs f left (i + 1) (observe_input (u8 i) (some f) io).1 (omega arith) in
      record {
        inputs = w.inputs;
        outputs = w.outputs;
        input_callbacks = w.input_callbacks;
        output_callbacks = w.output_callbacks;
        devices = w.devices;
        input_observers = λ port b.
            w.input_observers port b ∙ watched_more f left i port io.input_observers (omega arith);
        output_observers = w.output_observers;
      }

  watch_outputs :
      (f : IoObserver D) (left i : ℕ) (io : CallbackIo D)
      → i + left ≤ 256
      → Watched io.input_observers
          (watched_from f left i io.output_observers)
          io
          (watch_each (λ port. observe_output port (some f)) left i io).1
  unfolding watch_each observe_output validate_output_port
  watch_outputs f zero i io h = record {
    inputs = refl;
    outputs = refl;
    input_callbacks = refl;
    output_callbacks = refl;
    devices = refl;
    input_observers = λ port b. refl;
    output_observers = λ port b. ground arith;
  }
  watch_outputs f (suc left) i io h =
      let w = watch_outputs f left (i + 1) (observe_output (u8 i) (some f) io).1 (omega arith) in
      record {
        inputs = w.inputs;
        outputs = w.outputs;
        input_callbacks = w.input_callbacks;
        output_callbacks = w.output_callbacks;
        devices = w.devices;
        input_observers = w.input_observers;
        output_observers = λ port b.
            w.output_observers port b
            ∙ watched_more f left i port io.output_observers (omega arith);
      }

  -- The debugger can observe every port.
  pub watch_ports_done :
      (place : Place D (List IoAccess)) (io : CallbackIo D) → (watch_ports place io).0 ≡ none
  unfolding watch_ports observe_input observe_output validate_input_port validate_output_port
  watch_ports_done place io =
      let f = λ (port : ℕ). observe_input port (some (record_input place)) in
      let g = λ (port : ℕ). observe_output port (some (record_output place)) in
      rw (watch_each_done f (λ _ _. refl) 256 0 io)
        (watch_each_done g (λ _ _. refl) 256 0 (watch_each f 256 0 io).1)

  watch_ports_end :
      (place : Place D (List IoAccess)) (io : CallbackIo D)
      → watch_ports place io
        ≡ watch_each
            (λ port. observe_output port (some (record_output place)))
            256
            0
            (watch_each (λ port. observe_input port (some (record_input place))) 256 0 io).1
  unfolding watch_ports
  watch_ports_end place io =
      past (watch_each (λ port. observe_input port (some (record_input place))) 256 0 io)
        (λ next. watch_each (λ port. observe_output port (some (record_output place))) 256 0 next)
        (watch_each_done (λ port. observe_input port (some (record_input place)))
          (λ port next. observed port next (record_input place)) 256 0 io)
    where
      observed :
          (port : ℕ) (next : CallbackIo D) (f : IoObserver D)
          → (observe_input port (some f) next).0 ≡ none
      observed port next f = unfold observe_input validate_input_port in refl

      past :
          (x : Option Error × CallbackIo D) (go : CallbackIo D → Option Error × CallbackIo D)
          → x.0 ≡ none
          → (elim x.0 as (λ _. Option Error × CallbackIo D) [
            | some f ↦ (some f, x.1)
            | none ↦ go x.1
          ])
            ≡ go x.1
      past x go e = rw e refl

  -- Every port has one more observer, the last, and nothing else has changed.
  pub watch_ports-Watched :
      (place : Place D (List IoAccess)) (io : CallbackIo D)
      → Watched
          (λ port. io.input_observers port ++ record_input place ∷ [])
          (λ port. io.output_observers port ++ record_output place ∷ [])
          io
          (watch_ports place io).1
  watch_ports-Watched place io =
      let f = record_input place in
      let first = watch_inputs f 256 0 io (omega arith) in
      let middle = (watch_each (λ port. observe_input port (some f)) 256 0 io).1 in
      let last = watch_outputs (record_output place) 256 0 middle (omega arith) in
      subst
        (λ (x : Option Error × CallbackIo D).
          Watched (λ port. io.input_observers port ++ record_input place ∷ [])
            (λ port. io.output_observers port ++ record_output place ∷ []) io x.1)
        (sym (watch_ports_end place io))
        (record {
          inputs = last.inputs ∙ first.inputs;
          outputs = last.outputs ∙ first.outputs;
          input_callbacks = last.input_callbacks ∙ first.input_callbacks;
          output_callbacks = last.output_callbacks ∙ first.output_callbacks;
          devices = last.devices ∙ first.devices;
          input_observers = λ port b.
              last.input_observers port b
              ∙ first.input_observers port b
              ∙ every_port f io.input_observers port b;
          output_observers = λ port b.
              last.output_observers port b
              ∙ every_port (record_output place) middle.output_observers port b
              ∙ ap (λ fs. fs ++ record_output place ∷ []) (first.output_observers port b);
        })
    where
      every_port :
          (f : IoObserver D) (observers : ℕ → List (IoObserver D)) (port : ℕ)
          → port < 256
          → watched_from f 256 0 observers port ≡ observers port ++ f ∷ []
      every_port f observers port b = ground arith
