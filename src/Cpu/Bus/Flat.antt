-- ===== src/Cpu/Bus/Flat.antt =====
-- `FlatMemory` (cpu/memory.go) and `Ports` (cpu/io.go) against the promises of the two buses.
use retronet.Base.{ℕ, ◌<◌, arith}
use retronet.Cpu.Bus.{
  MemoryLaws, RamLaws, IoLaws, update, FlatMemory, flat_read, flat_write, flat_memory, Ports,
  ports_input, ports_output, ports_io,
}

-- Every cell is a byte.
pub record IsBytes (m : FlatMemory) : Type 0 where
  pub cell : (i : ℕ) → m.bytes i < 256

pub record IsLatched (p : Ports) : Type 0 where
  pub input_latch : (i : ℕ) → p.input_ports i < 256
  pub output_latch : (i : ℕ) → p.output_ports i < 256

update-lt :
    (cells : ℕ → ℕ) (index value i n : ℕ) → value < n → cells i < n → update cells index value i < n
update-lt cells index value i n p q = ground arith

-- A flat memory of bytes is a memory of bytes.
pub flat_memory-MemoryLaws : MemoryLaws flat_memory IsBytes
unfolding flat_read flat_write
flat_memory-MemoryLaws = record {
  read-lt = λ m addr v h. v.cell addr;
  write-Holds =
      λ m addr value v h b. record { cell = λ i. update-lt m.bytes addr value i 256 b (v.cell i) };
}

-- A FlatMemory reads back the last byte that was written to an address, and a write changes what no
-- other address reads.
pub flat_memory-RamLaws : RamLaws flat_memory
unfolding flat_read flat_write
flat_memory-RamLaws = record {
  read-write-same = λ m addr value. ground arith;
  read-write-other = λ m addr value other h. ground arith;
}

pub ports_io-IoLaws : IoLaws ports_io IsLatched
unfolding ports_input ports_output
ports_io-IoLaws = record {
  input-lt = λ p port v h. v.input_latch port;
  input-Holds = λ p port v h. v;
  output-Holds = λ p port value v h b. record {
    input_latch = v.input_latch;
    output_latch = λ i. update-lt p.output_ports port value i 256 b (v.output_latch i);
  };
}
