-- ===== src/Machine/Memory/Access.antt =====
-- Reads and writes of `MemoryBus` (machine/memory.go): which writes take effect.
use retronet.Base.{ℕ, ◌<◌, ◌≡◌, arith, Bool, not, ◌&&◌, if◌then◌else◌, ◌==◌, bit_and, bit_and_mask}
use retronet.Cpu.Bus.{MemoryLaws}
use retronet.Machine.Memory.{MemoryBus, is_rom, bus_read, bus_write, memory_bus}

pub address_mask_lem : (addr : ℕ) → addr < 65536 → bit_and addr 0xFFFF ≡ addr
address_mask_lem = bit_and_mask 16

-- A cell that takes writes: mapped, and not ROM.
abbrev pub is_writable : MemoryBus → ℕ → Bool
is_writable m addr = m.mapped addr && not (is_rom (m.kinds addr))

-- What a write does to every read, of 16-bit addresses: the cell of the address reads as the value when
-- it is mapped and not ROM, and every other cell, and a cell that takes no writes, reads as before.
pub bus_read-bus_write :
    (m : MemoryBus) (addr value other : ℕ)
    → addr < 65536
    → other < 65536
    → bus_read (bus_write m addr value) other
      ≡ (if (other == addr) && is_writable m addr then value else bus_read m other)
unfolding bus_read bus_write
bus_read-bus_write m addr value other h k =
    rw (address_mask_lem addr h, address_mask_lem other k) (ground arith)

-- The cells of the bus are bytes.
pub record HoldsBytes (m : MemoryBus) : Type 0 where
  pub cell : (i : ℕ) → m.data_bytes i < 256

read_byte : (m : MemoryBus) (addr : ℕ) → HoldsBytes m → bus_read m addr < 256
unfolding bus_read
read_byte m addr v = ground (arith, v.cell (bit_and addr 0xFFFF))

write_byte :
    (m : MemoryBus) (addr value i : ℕ)
    → value < 256
    → m.data_bytes i < 256
    → (bus_write m addr value).data_bytes i < 256
unfolding bus_write
write_byte m addr value i p q = ground arith

-- The mapped bus keeps the promises of a memory of bytes.
pub memory_bus-MemoryLaws : MemoryLaws memory_bus HoldsBytes
memory_bus-MemoryLaws = record {
  read-lt = λ m addr v h. read_byte m addr v;
  write-Holds = λ m addr value v h b. record { cell = λ i. write_byte m addr value i b (v.cell i) };
}
