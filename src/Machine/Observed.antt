-- ===== src/Machine/Observed.antt =====
-- machine/observable_memory.go: a memory whose writes are reported.
pub mod Reports
use retronet.Base.{ℕ, bit_and, List, [], ◌∷◌, ◌++◌, Option, none, some, ◌⊎◌, inl, inr}
use retronet.Cpu.Types.{address_mask}
use retronet.Cpu.Errors.{Error}
use retronet.Cpu.Bus.{Memory}
use retronet.Machine.Profiles.Loads.{Loaders, Loader, LoadError, load_present}

pub record MemoryWrite : Type 0 where
  pub address : ℕ
  pub before : ℕ
  pub requested : ℕ
  pub after : ℕ

-- An observer is a closure over a state of watchers, `D`; it does not reach the memory.
abbrev pub WriteObserver : Type 0 → Type 0
WriteObserver D = MemoryWrite → D → D

-- type ObservableMemory, with the state of the watchers
pub record ObservableMemory (M D : Type 0) : Type 0 where
  pub base : M
  pub observers : List (WriteObserver D)
  pub watchers : D

module _ {M D : Type 0} where
  -- a base of none is nil
  unfoldable pub new_observable_memory : Option M → D → Error ⊎ ObservableMemory M D
  new_observable_memory none watchers = inl Error.nil_memory
  new_observable_memory (some m) watchers =
      inr (record { base = m; observers = []; watchers = watchers })

  unfoldable pub observe_writes :
      Option (WriteObserver D) → ObservableMemory M D → ObservableMemory M D
  observe_writes none m = m
  observe_writes (some f) m = record m { observers = m.observers ++ f ∷ [] }

-- the loop over the observers
unfoldable pub report : {D : Type 0} → List (WriteObserver D) → MemoryWrite → D → D
report [] write d = d
report (f ∷ fs) write d = report fs write (f write d)

-- the write that `Write` reports
abbrev pub write_of : {M : Type 0} ⦃memory : Memory M⦄ → M → ℕ → ℕ → MemoryWrite
write_of ⦃memory⦄ m addr value = record {
  address = addr;
  before = memory.read m addr;
  requested = value;
  after = memory.read (memory.write m addr value) addr;
}

module _ {M D : Type 0} ⦃memory : Memory M⦄ where
  unfoldable pub observed_read : ObservableMemory M D → ℕ → ℕ
  observed_read m addr = memory.read m.base addr

  unfoldable pub observed_write : ObservableMemory M D → ℕ → ℕ → ObservableMemory M D
  unfolding report
  observed_write m addr value =
      let index = bit_and addr address_mask in
      record m {
        base = memory.write m.base index value;
        watchers = report m.observers (write_of m.base index value) m.watchers;
      }

  abbrev pub observable_memory : Memory (ObservableMemory M D)
  observable_memory = record { read = observed_read; write = observed_write }

  -- the base behind a load, and the watchers as they were
  abbrev onto :
      ObservableMemory M D → Option LoadError × M → Option LoadError × ObservableMemory M D
  onto m (e, n) = (e, record m { base = n })

  module _ ⦃loaders : Loaders M⦄ where
    -- ObservableMemory.LoadBytes and LoadROM
    unfoldable pub observed_load_bytes : Loader (ObservableMemory M D)
    observed_load_bytes addr data_list m = onto m (load_present addr data_list m.base)

    unfoldable pub observed_load_rom : Loader (ObservableMemory M D)
    observed_load_rom addr data_list m = elim loaders.rom_loader [
      | some loader ↦ onto m (loader addr data_list m.base)
      | none ↦ onto m (load_present addr data_list m.base)
    ]
