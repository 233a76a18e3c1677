-- ===== src/Machine/Memory/Rom.antt =====
-- The ROM of a `MemoryBus` (machine/memory.go) under a run of the processor.
use retronet.Base.{ℕ, ◌≡◌, refl, arith, false, bit_and, ◌∙◌, Option, some, none}
use retronet.Cpu.Alu.{I8080, AluBackend}
use retronet.Cpu.Bus.{Io, MemoryLaws, IoLaws}
use retronet.Cpu.Core.{System}
use retronet.Cpu.State.{Cpu8080, chosen}
use retronet.Cpu.State.Valid.{IsSound, IsValid}
use retronet.Cpu.Safety.{Contract, Good, Holding, UnlessNil}
use retronet.Cpu.Safety.Steps.{steps, steps_safe}
use retronet.Cpu.Frame.Fetch.{on_bus}
use retronet.Machine.Memory.{MemoryBus, bus_read, bus_write, memory_bus}
use retronet.Machine.Memory.Access.{is_writable, HoldsBytes, memory_bus-MemoryLaws}

-- `m` has the map of `first` and its bytes in every cell that takes no writes.
pub record Protects (first m : MemoryBus) : Type 0 where
  pub same_mapped : (i : ℕ) → m.mapped i ≡ first.mapped i
  pub same_kind : (i : ℕ) → m.kinds i ≡ first.kinds i
  pub same_cell : (i : ℕ) → is_writable first i ≡ false → m.data_bytes i ≡ first.data_bytes i

record Guards (first m : MemoryBus) : Type 0 where
  pub bytes : HoldsBytes m
  pub protects : Protects first m

written :
    (m : MemoryBus) (addr value i : ℕ)
    → is_writable m i ≡ false
    → (bus_write m addr value).data_bytes i ≡ m.data_bytes i
unfolding bus_write
written m addr value i h = ground arith

same_map :
    (m : MemoryBus) (addr value i : ℕ)
    → ((bus_write m addr value).mapped i ≡ m.mapped i)
      × ((bus_write m addr value).kinds i ≡ m.kinds i)
unfolding bus_write
same_map m addr value i = ground arith

same_writable :
    (first m : MemoryBus) (i : ℕ) → Protects first m → is_writable m i ≡ is_writable first i
same_writable first m i v = rw (v.same_mapped i, v.same_kind i) refl

write-Protects :
    (first m : MemoryBus) (addr value : ℕ)
    → Protects first m
    → Protects first (bus_write m addr value)
write-Protects first m addr value v = record {
  same_mapped = λ i. (same_map m addr value i).0 ∙ v.same_mapped i;
  same_kind = λ i. (same_map m addr value i).1 ∙ v.same_kind i;
  same_cell = λ i h. written m addr value i (same_writable first m i v ∙ h) ∙ v.same_cell i h;
}

guarded-MemoryLaws : (first : MemoryBus) → MemoryLaws memory_bus (Guards first)
guarded-MemoryLaws first = record {
  read-lt = λ m addr v h. memory_bus-MemoryLaws.read-lt m addr v.bytes h;
  write-Holds = λ m addr value v h b. record {
    bytes = memory_bus-MemoryLaws.write-Holds m addr value v.bytes h b;
    protects = write-Protects first m addr value v.protects;
  };
}

-- What a protected cell reads as.
bus_read-Protects :
    (first m : MemoryBus) (addr : ℕ)
    → Protects first m
    → is_writable first (bit_and addr 0xFFFF) ≡ false
    → bus_read m addr ≡ bus_read first addr
unfolding bus_read
bus_read-Protects first m addr v h =
    rw (v.same_mapped (bit_and addr 0xFFFF), v.same_cell (bit_and addr 0xFFFF) h) refl

-- The bytes that a system reads, at every address whose cell takes no writes, are those of `first`.
abbrev pub ReadsAs : {P : Type 0} → MemoryBus → System MemoryBus P → Type 0
ReadsAs first s =
    Holding
      (λ m.
        (addr : ℕ)
        → is_writable first (bit_and addr 0xFFFF) ≡ false
        → bus_read m addr ≡ bus_read first addr)
      s.mem

module _ {P : Type 0} ⦃i8080 : I8080⦄ ⦃ports : Io P⦄ (alu : Option AluBackend)
    (sound : IsSound (chosen alu)) (HoldsIo : P → Type 0) (io_laws : IoLaws ports HoldsIo) where
  abbrev guard : MemoryBus → Contract MemoryBus P
  guard first = record { holds_mem = Guards first; holds_io = HoldsIo; alu = alu }

  reads_of_Holding :
      (first : MemoryBus) (o : Option MemoryBus)
      → Holding (Guards first) o
      → Holding
          (λ m.
            (addr : ℕ)
            → is_writable first (bit_and addr 0xFFFF) ≡ false
            → bus_read m addr ≡ bus_read first addr)
          o
  reads_of_Holding first none h = h
  reads_of_Holding first (some m) h = λ addr w. bus_read-Protects first m addr h.protects w

  -- However many steps the processor takes from a valid state on a mapped bus of bytes, every address
  -- that is ROM or not mapped reads as it did, for a backend and an I/O bus that keep their promises.
  pub steps-ReadsAs :
      (n : ℕ) (c : Cpu8080) (m : MemoryBus) (io : Option P)
      → IsValid alu c
      → HoldsBytes m
      → UnlessNil HoldsIo io
      → ReadsAs m (steps ⦃memory = memory_bus⦄ n (on_bus c m io))
  steps-ReadsAs n c m io v b h =
      let good : Good (guard m) (on_bus c m io) = record {
        valid = v;
        mem_holds = record {
          bytes = b;
          protects = record {
            same_mapped = λ i. refl;
            same_kind = λ i. refl;
            same_cell = λ i w. refl;
          };
        };
        io_holds = h;
      } in
      reads_of_Holding m _
        (steps_safe {K = guard m} ⦃memory = memory_bus⦄ (guarded-MemoryLaws m) io_laws sound n
          (on_bus c m io) good).mem_holds
