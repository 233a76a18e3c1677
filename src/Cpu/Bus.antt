-- ===== src/Cpu/Bus.antt =====
-- cpu/memory.go and cpu/io.go: the two buses as interfaces, and the plain implementations.
pub mod Flat
use retronet.Cpu.Errors.{Error, Result, ok}
use retronet.Base.{ℕ, ◌<◌, ◌≡◌, Bool, true, false, Option, none, some, ◌==◌, if◌then◌else◌}

-- interface Memory, over the state `M` of an implementation. Every Read of the program leaves its
-- memory as it was.
pub record Memory (M : Type 0) : Type 0 where
  pub read : M → ℕ → ℕ
  pub write : M → ℕ → ℕ → M

-- interface IO, over the state `P` of an implementation. An Input may change it.
pub record Io (P : Type 0) : Type 0 where
  pub input : P → ℕ → ℕ × P
  pub output : P → ℕ → ℕ → P

-- What a memory of bytes promises to the processor: `Holds` is kept by writes, and a read of a
-- 16-bit address is a byte.
pub record MemoryLaws {M : Type 0} (memory : Memory M) (Holds : M → Type 0) : Type 0 where
  pub read-lt : (m : M) (addr : ℕ) → Holds m → addr < 65536 → memory.read m addr < 256
  pub write-Holds :
      (m : M) (addr value : ℕ)
      → Holds m
      → addr < 65536
      → value < 256
      → Holds (memory.write m addr value)

-- What RAM promises beyond that: the byte that was written last is read back, and the write changes
-- no other cell. A memory with ROM does not promise it.
pub record RamLaws {M : Type 0} (memory : Memory M) : Type 0 where
  pub read-write-same :
      (m : M) (addr value : ℕ) → memory.read (memory.write m addr value) addr ≡ value
  pub read-write-other :
      (m : M) (addr value other : ℕ)
      → (other ≡ addr → ⊥)
      → memory.read (memory.write m addr value) other ≡ memory.read m other

-- The same of an I/O bus and its 256 ports.
pub record IoLaws {P : Type 0} (io : Io P) (Holds : P → Type 0) : Type 0 where
  pub input-lt : (p : P) (port : ℕ) → Holds p → port < 256 → (io.input p port).0 < 256
  pub input-Holds : (p : P) (port : ℕ) → Holds p → port < 256 → Holds (io.input p port).1
  pub output-Holds :
      (p : P) (port value : ℕ) → Holds p → port < 256 → value < 256 → Holds (io.output p port value)

-- A fixed array of bytes as a function of its index, and the assignment to one element.
abbrev pub update : {A : Type 0} → (ℕ → A) → ℕ → A → ℕ → A
update cells index value i = if i == index then value else cells i

-- type FlatMemory and NewFlatMemory
pub record FlatMemory : Type 0 where
  pub bytes : ℕ → ℕ

abbrev pub new_flat_memory : FlatMemory
new_flat_memory = record { bytes = λ _. 0 }

unfoldable pub flat_read : FlatMemory → ℕ → ℕ
flat_read m addr = m.bytes addr

unfoldable pub flat_write : FlatMemory → ℕ → ℕ → FlatMemory
flat_write m addr value = record { bytes = update m.bytes addr value }

abbrev pub flat_memory : Memory FlatMemory
flat_memory = record { read = flat_read; write = flat_write }

-- type Ports and NewPorts
pub record Ports : Type 0 where
  pub input_ports : ℕ → ℕ
  pub output_ports : ℕ → ℕ

abbrev pub new_ports : Ports
new_ports = record { input_ports = λ _. 0; output_ports = λ _. 0 }

unfoldable pub is_input_port : ℕ → Bool
is_input_port _ = true

unfoldable pub is_output_port : ℕ → Bool
is_output_port _ = true

-- nil is the answer for every port
unfoldable pub validate_input_port : ℕ → Option Error
validate_input_port _ = none

unfoldable pub validate_output_port : ℕ → Option Error
validate_output_port _ = none

-- Ports.SetInput, Input, Output and OutputValue; SetInput and OutputValue always succeed
unfoldable pub ports_set_input : Ports → ℕ → ℕ → Ports
ports_set_input p port value = record p { input_ports = update p.input_ports port value }

unfoldable pub ports_input : Ports → ℕ → ℕ × Ports
ports_input p port = (p.input_ports port, p)

unfoldable pub ports_output : Ports → ℕ → ℕ → Ports
ports_output p port value = record p { output_ports = update p.output_ports port value }

unfoldable pub ports_output_value : Ports → ℕ → Result ℕ
ports_output_value p port = ok (p.output_ports port)

abbrev pub ports_io : Io Ports
ports_io = record { input = ports_input; output = ports_output }
