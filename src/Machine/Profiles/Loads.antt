-- ===== src/Machine/Profiles/Loads.antt =====
-- `LoadBytes` and `LoadROM` of machine/profile.go, over any memory.
use Prim.Native.String.{String}
use retronet.Base.{ℕ, ◌+◌, ◌&&◌, if◌then◌else◌, ltb, List, [], ◌∷◌, length, Option, none, some, u16}
use retronet.Cpu.Errors.{Error}
use retronet.Cpu.Bus.{Memory}
use retronet.Machine.Errors.{MemoryError, Fallible, done, failed}
use retronet.Machine.Memory.{MemoryBus, validate_range, load_bytes, load_rom}
use retronet.Machine.Profiles.{rom_slot, Profile}

-- The errors of a load: that of a nil memory, those of package machine, and the two of LoadROM.
pub data LoadError : Type 0 where
  of_cpu : Error → LoadError
  of_memory : MemoryError → LoadError
  no_slot : String → String → LoadError
  rom_too_long : String → ℕ → ℕ → LoadError

-- The interfaces byteLoader and romLoader, which an implementation of Memory may have or not. A loader
-- returns its error, or none for nil, and the memory behind it.
abbrev pub Loader : Type 0 → Type 0
Loader M = ℕ → List ℕ → M → Option LoadError × M

pub record Loaders (M : Type 0) : Type 0 where
  pub byte_loader : Option (Loader M)
  pub rom_loader : Option (Loader M)

abbrev pub loaded : {M : Type 0} → Fallible M → M → Option LoadError × M
loaded (done n) m = (none, n)
loaded (failed e) m = (some (LoadError.of_memory e), m)

-- MemoryBus has both, and a FlatMemory neither.
abbrev pub bus_loaders : Loaders MemoryBus
bus_loaders = record {
  byte_loader = some (λ addr data_list m. loaded (load_bytes m addr data_list) m);
  rom_loader = some (λ addr data_list m. loaded (load_rom m addr data_list) m);
}

module _ {M : Type 0} ⦃memory : Memory M⦄ where
  -- the loop of `LoadBytes`
  unfoldable pub write_each : ℕ → ℕ → List ℕ → M → M
  write_each addr i [] m = m
  write_each addr i (b ∷ rest) m =
      write_each addr (i + 1) rest (memory.write m (u16 (addr + u16 i)) b)

  module _ ⦃loaders : Loaders M⦄ where
    abbrev pub load_present : Loader M
    load_present addr data_list m = elim (validate_range addr (length data_list)) [
      | failed e ↦ (some (LoadError.of_memory e), m)
      | done _ ↦ elim loaders.byte_loader [
        | some loader ↦ loader addr data_list m
        | none ↦ (none, write_each addr 0 data_list m)
      ]
    ]

    -- LoadBytes of the file; a memory of none is nil
    unfoldable pub load_into : ℕ → List ℕ → Option M → Option LoadError × Option M
    unfolding write_each
    load_into addr data_list none = (some (LoadError.of_cpu Error.nil_memory), none)
    load_into addr data_list (some m) = let (e, n) = load_present addr data_list m in (e, some n)

    -- Profile.LoadROM
    unfoldable pub load_slot : Profile → String → List ℕ → Option M → Option LoadError × Option M
    unfolding load_into rom_slot
    load_slot p name data_list memory_arg = elim (rom_slot p name) [
      | none ↦ (some (LoadError.no_slot name p.name), memory_arg)
      | some slot ↦
          (if ltb 0 slot.max_size && ltb slot.max_size (length data_list)
            then (some (LoadError.rom_too_long name (length data_list) slot.max_size), memory_arg)
            else elim memory_arg [
              | none ↦ load_into slot.address data_list none
              | some m ↦ elim loaders.rom_loader [
                | some loader ↦ (let (e, n) = loader slot.address data_list m in (e, some n))
                | none ↦ load_into slot.address data_list (some m)
              ]
            ])
    ]
