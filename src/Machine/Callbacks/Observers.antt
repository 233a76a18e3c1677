-- ===== src/Machine/Callbacks/Observers.antt =====
-- The observers of `CallbackIO` (machine/io.go): each is told the value that was resolved, in the order
-- of registration, and changes no answer.
use retronet.Base.{ℕ, ◌≡◌, refl, List, [], ◌∷◌, ◌++◌, some, ==_iff, ap, ◌∙◌}
use retronet.Cpu.Bus.{
  update, is_input_port, is_output_port, validate_input_port, validate_output_port,
}
use retronet.Machine.Callbacks.{
  CallbackIo, IoObserver, notify, resolve, deliver, callback_input, callback_output, observe_input,
  observe_output,
}

module _ {D : Type 0} where
  notify-append :
      (fs : List (IoObserver D)) (f : IoObserver D) (port value : ℕ) (d : D)
      → notify (fs ++ f ∷ []) port value d ≡ f port value (notify fs port value d)
  unfolding notify
  notify-append [] f port value d = refl
  notify-append (g ∷ gs) f port value d = notify-append gs f port value (g port value d)

  appended_same :
      (observers : ℕ → List (IoObserver D)) (port : ℕ) (f : IoObserver D)
      → update observers port (observers port ++ f ∷ []) port ≡ observers port ++ f ∷ []
  appended_same observers port f = rw ((==_iff port port).1 refl) refl

  -- With one more observer on a port, a read of the port answers what it answered without, and a write
  -- latches what it latched; the devices are those of the read or write without it, shown to the
  -- observer last, with the port and the value that was answered or written.
  pub observe-callback :
      (io : CallbackIo D) (port value : ℕ) (f : IoObserver D)
      → let read = callback_input io port in
        let read_observed = callback_input (observe_input port (some f) io).1 port in
        let written = callback_output io port value in
        let written_observed = callback_output (observe_output port (some f) io).1 port value in
        (read_observed.0 ≡ read.0)
        × (read_observed.1.devices ≡ f port read.0 read.1.devices)
        × (written_observed.outputs ≡ written.outputs)
        × (written_observed.devices ≡ f port value written.devices)
  unfolding callback_input callback_output is_input_port is_output_port observe_input observe_output
      validate_input_port validate_output_port
  observe-callback io port value f =
      let x = resolve io port in
      let d = deliver io port value in
      (
        refl,
        ap (λ fs. notify fs port x.0 x.1) (appended_same io.input_observers port f)
            ∙ notify-append (io.input_observers port) f port x.0 x.1,
        refl,
        ap (λ fs. notify fs port value d) (appended_same io.output_observers port f)
            ∙ notify-append (io.output_observers port) f port value d,
      )
