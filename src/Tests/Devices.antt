-- ===== src/Tests/Devices.antt =====
-- A bus with a ROM at 0x0000 and a RAM at 0x2000: the theorems on `MemoryBus` at work.
use retronet.Base.{ℕ, ◌≤◌, ◌≡◌, refl, arith, true, ◌==◌, if◌then◌else◌, List, [], ◌∷◌, some}
use retronet.Cpu.Bus.{new_ports, ports_io}
use retronet.Cpu.Bus.Flat.{IsLatched, ports_io-IoLaws}
use retronet.Cpu.Frame.Fetch.{on_bus}
use retronet.Cpu.Safety.Steps.{steps}
use retronet.Machine.Errors.{MemoryKind, done}
use retronet.Machine.Memory.{MemoryRegion, MemoryBus, bus_read, bus_write, memory_bus, load_bytes}
use retronet.Machine.Memory.Access.{HoldsBytes, bus_read-bus_write}
use retronet.Machine.Memory.Map.{
  all_acceptable, covering, one_if, kind_in, new_memory_bus_lem, new_memory_bus-done,
}
use retronet.Machine.Memory.Load.{IsLoaded, load_bytes-IsLoaded}
use retronet.Machine.Memory.Rom.{ReadsAs, steps-ReadsAs}
use retronet.Tests.Samples.{
  sample_package, sample_backend, sample_backend-IsSound, sample_cpu, sample_cpu-IsValid,
  new_ports-IsLatched,
}

abbrev two_regions : List MemoryRegion
two_regions =
    record {
      name = "monitor";
      start = 0x0000;
      end = 0x0001;
      kind = MemoryKind.rom;
      description = "";
    }
    ∷ record {
      name = "work";
      start = 0x2000;
      end = 0x2002;
      kind = MemoryKind.ram;
      description = "";
    }
    ∷ []

abbrev mapped_bus : MemoryBus
mapped_bus = record {
  data_bytes = λ i. if i == 0 then 0x76 else 0;
  kinds = λ i. if i == 0 then MemoryKind.rom else MemoryKind.ram;
  mapped = λ i. true;
}

mapped_bus-HoldsBytes : HoldsBytes mapped_bus
mapped_bus-HoldsBytes = record { cell = λ i. ground arith }

two_regions_once : (addr : ℕ) → covering two_regions addr ≤ 1
two_regions_once addr = ground arith

-- the bus that the list makes
abbrev two_region_bus : MemoryBus
two_region_bus = (new_memory_bus-done two_regions refl two_regions_once).0

new_memory_bus_lem_example :
    (all_acceptable two_regions ≡ true)
    × ((addr : ℕ)
        → (covering two_regions addr ≤ 1)
          × (one_if (two_region_bus.mapped addr) ≡ covering two_regions addr)
          × (two_region_bus.kinds addr ≡ kind_in two_regions addr (MemoryKind.other "")))
new_memory_bus_lem_example =
    new_memory_bus_lem two_regions two_region_bus
      (new_memory_bus-done two_regions refl two_regions_once).1

bus_read-bus_write_example : bus_read (bus_write mapped_bus 0x2000 7) 0x2000 ≡ 7
bus_read-bus_write_example =
    bus_read-bus_write mapped_bus 0x2000 7 0x2000 (omega arith) (omega arith)

load_bytes-IsLoaded_example :
    (n : MemoryBus) × (load_bytes mapped_bus 0x2000 (1 ∷ 2 ∷ []) ≡ done n)
    × IsLoaded mapped_bus n 0x2000 (1 ∷ 2 ∷ [])
    × (n.kinds ≡ mapped_bus.kinds)
load_bytes-IsLoaded_example =
    load_bytes-IsLoaded mapped_bus 0x2000 (1 ∷ 2 ∷ []) (omega arith) (λ k h. ground arith)

steps-ReadsAs_example : ReadsAs mapped_bus (
    steps ⦃i8080 = sample_package⦄ ⦃memory = memory_bus⦄ ⦃ports = ports_io⦄ 20
      (on_bus sample_cpu mapped_bus (some new_ports)))
steps-ReadsAs_example =
    steps-ReadsAs ⦃i8080 = sample_package⦄ ⦃ports = ports_io⦄ sample_backend sample_backend-IsSound
      IsLatched ports_io-IoLaws 20 sample_cpu mapped_bus (some new_ports) sample_cpu-IsValid
      mapped_bus-HoldsBytes new_ports-IsLatched
