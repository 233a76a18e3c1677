-- ===== src/Machine/Debugger/Recording/Writes.antt =====
-- What the debugger (machine/debugger.go) has recorded of the writes to an observed memory.
use mathlib.Core.List.{append-nil, append_assoc}
use retronet.Base.{◌≡◌, List, [], ◌∷◌, ◌++◌, ap, ◌∙◌, sym}
use retronet.Cpu.Bus.{Memory}
use retronet.Machine.Peripherals.Register.{Place}
use retronet.Machine.Peripherals.Check.{All}
use retronet.Machine.Terminal.Queue.{PlaceLaws}
use retronet.Machine.Observed.{MemoryWrite, ObservableMemory, observable_memory}
use retronet.Machine.Observed.Reports.{
  Request, IsRequest, write_list, reports, report_all, write_list-observed_write,
}
use retronet.Machine.Debugger.Recording.{record_memory_write, memory_recorder}

module _ {D : Type 0} (place : Place D (List MemoryWrite)) (laws : PlaceLaws place) where
  report_recorded :
      (ws : List MemoryWrite) (d : D)
      → place.get (report_all (record_memory_write place ∷ []) ws d) ≡ place.get d ++ ws
  unfolding record_memory_write
  report_recorded [] d = sym (append-nil (place.get d))
  report_recorded (w ∷ ws) d =
      report_recorded ws (place.put (place.get d ++ w ∷ []) d)
      ∙ ap (λ xs. xs ++ ws) (laws.get-put (place.get d ++ w ∷ []) d)
      ∙ append_assoc (place.get d) (w ∷ []) ws

  -- Behind a clearing, what the debugger takes from the memory that it observes is a report of each
  -- write since, in order: the address, what it held, what was asked for and what it then held, in the
  -- base memory under these writes.
  taken-write_list :
      {M : Type 0} ⦃memory : Memory M⦄ (xs : List Request) (m : ObservableMemory M D)
      → m.observers ≡ record_memory_write place ∷ []
      → All IsRequest xs
      → let recorder = memory_recorder {M = M} place in
        recorder.taken (write_list ⦃memory = observable_memory⦄ xs (recorder.cleared m))
        ≡ reports xs m.base
  taken-write_list {M} xs m e h =
      let recorder = memory_recorder {M = M} place in
      let c = recorder.cleared m in
      let r = write_list-observed_write xs c h in
      ap place.get r.2
      ∙ ap (λ fs. place.get (report_all fs (reports xs m.base) c.watchers)) e
      ∙ report_recorded (reports xs m.base) c.watchers
      ∙ ap (λ ws. ws ++ reports xs m.base) (laws.get-put [] m.watchers)
