-- ===== src/Machine/Debugger/Recording.antt =====
-- `NewDebugger` and the recorders of machine/debugger.go, over an observed memory and a callback bus.
pub mod Writes
pub mod Ports
use retronet.Base.{
  ℕ, zero, suc, ◌+◌, ◌<◌, ◌≡◌, refl, arith, List, [], ◌∷◌, ◌++◌, Option, none, some, ◌⊎◌, inl, inr,
  ap, ◌∙◌, sym, subst, u8,
}
use retronet.Cpu.Errors.{Error}
use retronet.Cpu.Bus.{Memory}
use retronet.Machine.Callbacks.{CallbackIo, IoObserver, observe_input, observe_output}
use retronet.Machine.Peripherals.{IoDirection}
use retronet.Machine.Peripherals.Register.{Place}
use retronet.Machine.Peripherals.Check.{All}
use retronet.Machine.Terminal.Queue.{PlaceLaws}
use retronet.Machine.Observed.{
  MemoryWrite, WriteObserver, ObservableMemory, observe_writes, report, observable_memory, write_of,
}
use retronet.Machine.Observed.Reports.{
  Request, IsRequest, write_list, reports, report_all, write_list-observed_write,
}
use retronet.Machine.FrontPanel.{FrontPanel}
use retronet.Machine.Debugger.{IoAccess, Debugger, Recorder, fresh_debugger}

-- recordMemoryWrite, recordInput and recordOutput; the records lie among the watchers of the memory and
-- among the devices of the bus
module _ {D : Type 0} where
  unfoldable pub record_memory_write : Place D (List MemoryWrite) → WriteObserver D
  record_memory_write place write d = place.put (place.get d ++ write ∷ []) d

  unfoldable pub record_io : Place D (List IoAccess) → IoAccess → D → D
  record_io place access d = place.put (place.get d ++ access ∷ []) d

  unfoldable pub record_input : Place D (List IoAccess) → IoObserver D
  unfolding record_io
  record_input place port value =
      record_io place (record { direction = IoDirection.input; port = port; value = value })

  unfoldable pub record_output : Place D (List IoAccess) → IoObserver D
  unfolding record_io
  record_output place port value =
      record_io place (record { direction = IoDirection.output; port = port; value = value })

  -- takeAccesses and clearAccesses, of each of the two
  abbrev pub memory_recorder :
      {M : Type 0} → Place D (List MemoryWrite) → Recorder MemoryWrite (ObservableMemory M D)
  memory_recorder place = record {
    taken = λ m. place.get m.watchers;
    cleared = λ m. record m { watchers = place.put [] m.watchers };
  }

  abbrev pub io_recorder : Place D (List IoAccess) → Recorder IoAccess (CallbackIo D)
  io_recorder place = record {
    taken = λ io. place.get io.devices;
    cleared = λ io. record io { devices = place.put [] io.devices };
  }

  -- a loop of `NewDebugger` over the 256 ports, with the rounds left
  unfoldable pub watch_each :
      (ℕ → CallbackIo D → Option Error × CallbackIo D)
      → ℕ
      → ℕ
      → CallbackIo D
      → Option Error × CallbackIo D
  watch_each observe zero i io = (none, io)
  watch_each observe (suc left) i io =
      let (e, next) = observe (u8 i) io in
      elim e [ some f ↦ (some f, next) | none ↦ watch_each observe left (i + 1) next ]

  unfoldable pub watch_ports : Place D (List IoAccess) → CallbackIo D → Option Error × CallbackIo D
  unfolding watch_each record_input record_output observe_input observe_output
  watch_ports place io =
      let (e, next) =
        watch_each (λ port. observe_input port (some (record_input place))) 256 0 io in
      elim e [
        | some f ↦ (some f, next)
        | none ↦ watch_each (λ port. observe_output port (some (record_output place))) 256 0 next
      ]

-- The error of a nil panel, and those of the package cpu.
pub data DebuggerError : Type 0 where
  no_panel : DebuggerError
  of_cpu : Error → DebuggerError

module _ {M D E : Type 0} (writes : Place D (List MemoryWrite))
    (accesses : Place E (List IoAccess)) where
  abbrev pub watched_panel :
      FrontPanel (ObservableMemory M D) (CallbackIo E)
      → ObservableMemory M D
      → Option (CallbackIo E)
      → FrontPanel (ObservableMemory M D) (CallbackIo E)
  watched_panel p m io = record p {
    system = record p.system {
      mem = some (observe_writes (some (record_memory_write writes)) m);
      io = io;
    };
  }

  -- NewDebugger, given the panel's own memory and bus: a panel of none is nil, and so is a bus of none
  unfoldable pub new_debugger :
      Option (FrontPanel (ObservableMemory M D) (CallbackIo E))
      → DebuggerError ⊎ Debugger (ObservableMemory M D) (CallbackIo E)
  unfolding record_memory_write watch_ports observe_writes
  new_debugger none = inl DebuggerError.no_panel
  new_debugger (some p) = elim p.system.mem [
    | none ↦ inl (DebuggerError.of_cpu Error.nil_memory)
    | some m ↦ elim p.system.io [
      | none ↦ inr (fresh_debugger (watched_panel p m none))
      | some io ↦
          (let (e, next) = watch_ports accesses io in
            elim e [
              | some f ↦ inl (DebuggerError.of_cpu f)
              | none ↦ inr (fresh_debugger (watched_panel p m (some next)))
            ])
    ]
  ]
