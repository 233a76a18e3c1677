-- ===== src/Cpu/Opcode.antt =====
-- cpu/opcode.go: the entries of the decoder's table, instructions and their timing.
use Prim.Native.String.{String}
use retronet.Base.{ℕ, Bool, false, List, [], ◌∷◌, word, get_or, take}

-- type MachineCycle; `no_cycle` is the empty string of an unused array slot
pub data MachineCycle : Type 0 where
  no_cycle fetch memory_read memory_write io_read io_write stack_read stack_write : MachineCycle

-- The two functions that the table installs as an opcode's Execute.
pub data ExecuteFunc : Type 0 where
  execute8080_func unimplemented_func : ExecuteFunc

pub record Opcode : Type 0 where
  pub code : ℕ
  pub mnemonic : String
  pub length : ℕ
  pub min_states : ℕ
  pub states : ℕ
  pub cycle_count : ℕ
  pub cycles : List MachineCycle
  pub execute : ExecuteFunc

pub record InstructionTiming : Type 0 where
  pub states : ℕ
  pub wait_states : ℕ
  pub cycle_count : ℕ
  pub cycles : List MachineCycle
  pub conditional : Bool
  pub taken : Bool

-- `[5]MachineCycle{}` and `InstructionTiming{}`
abbrev pub no_cycles : List MachineCycle
no_cycles = no_cycle ∷ no_cycle ∷ no_cycle ∷ no_cycle ∷ no_cycle ∷ []

abbrev pub no_timing : InstructionTiming
no_timing = record {
  states = 0;
  wait_states = 0;
  cycle_count = 0;
  cycles = no_cycles;
  conditional = false;
  taken = false;
}

-- MachineCycles of an Opcode and of an InstructionTiming: as many of the cycles as are counted
unfoldable pub machine_cycles : ℕ → List MachineCycle → List MachineCycle
machine_cycles cycle_count cycles = take cycle_count cycles

pub record Instruction : Type 0 where
  pub pc : ℕ
  pub opcode : Opcode
  pub operands : List ℕ
  pub operand_count : ℕ

-- inst.Operands[i] of a [2]byte
abbrev pub operand : Instruction → ℕ → ℕ
operand inst i = get_or inst.operands i 0

unfoldable pub word_operand : Instruction → ℕ
word_operand inst = word (operand inst 1) (operand inst 0)
