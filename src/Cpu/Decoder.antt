-- ===== src/Cpu/Decoder.antt =====
-- cpu/decoder.go: the table of the 256 opcodes.
pub mod Agreement
pub mod Cycles
pub mod Operands
pub mod States
use retronet.Base.{
  ℕ, ◌/◌, ◌^◌, Bool, true, false, ◌&&◌, ◌||◌, List, [], ◌∷◌, ◌==◌, if◌then◌else◌, bit_and, shr, set,
}
use retronet.Cpu.Types.{reg_m}
use retronet.Cpu.Opcode.{
  MachineCycle, no_cycle, fetch, memory_read, memory_write, io_read, io_write, stack_read,
  stack_write, ExecuteFunc, execute8080_func, unimplemented_func, Opcode, no_cycles,
}
use retronet.Cpu.Codes.{is_unassigned_opcode, is_immediate_alu_opcode}
use retronet.Cpu.Mnemonic.{mnemonic_for}

unfoldable pub length_for : ℕ → ℕ
unfolding is_unassigned_opcode is_immediate_alu_opcode
length_for code =
    if is_unassigned_opcode code
    then 1
    else if bit_and code 0xC7 == 0x06
    then 2
    else if bit_and code 0xCF == 0x01
    then 3
    else if code == 0x22 || code == 0x2A || code == 0x32 || code == 0x3A
    then 3
    else if code == 0xC3 || code == 0xCD || bit_and code 0xC7 == 0xC2 || bit_and code 0xC7 == 0xC4
    then 3
    else if is_immediate_alu_opcode code || code == 0xDB || code == 0xD3
    then 2
    else 1

-- (code>>3)&0x07 and code&0x07
abbrev pub dst_field : ℕ → ℕ
dst_field code = bit_and (shr code 3) 0x07

abbrev pub src_field : ℕ → ℕ
src_field code = bit_and code 0x07

-- (code>>4)&0x03
abbrev pub pair_field : ℕ → ℕ
pair_field code = bit_and (shr code 4) 0x03

-- the least number of states and the number of states
unfoldable pub state_range_for : ℕ → ℕ × ℕ
unfolding is_unassigned_opcode is_immediate_alu_opcode
state_range_for code =
    if is_unassigned_opcode code
    then (0, 0)
    else if code == 0x00
    then (4, 4)
    else if code == 0x76
    then (7, 7)
    else if bit_and code 0xC0 == 0x40
    then (if src_field code == reg_m || dst_field code == reg_m then (7, 7) else (5, 5))
    else if bit_and code 0xC7 == 0x06
    then (if dst_field code == reg_m then (10, 10) else (7, 7))
    else if bit_and code 0xC7 == 0x04 || bit_and code 0xC7 == 0x05
    then (if dst_field code == reg_m then (10, 10) else (5, 5))
    else if bit_and code 0xCF == 0x01
    then (10, 10)
    else if code == 0x02 || code == 0x12 || code == 0x0A || code == 0x1A
    then (7, 7)
    else if bit_and code 0xCF == 0x03 || bit_and code 0xCF == 0x0B
    then (5, 5)
    else if bit_and code 0xCF == 0x09
    then (10, 10)
    else if code == 0x22 || code == 0x2A
    then (16, 16)
    else if code == 0x32 || code == 0x3A
    then (13, 13)
    else if code == 0xE3
    then (18, 18)
    else if code == 0xE9 || code == 0xF9
    then (5, 5)
    else if code == 0xEB
    then (4, 4)
    else if code == 0xDB || code == 0xD3
    then (10, 10)
    else if is_immediate_alu_opcode code
    then (7, 7)
    else if bit_and code 0xC0 == 0x80
    then (if src_field code == reg_m then (7, 7) else (4, 4))
    else if bit_and code 0xC7 == 0xC0
    then (5, 11)
    else if code == 0xC9
    then (10, 10)
    else if bit_and code 0xC7 == 0xC2 || code == 0xC3
    then (10, 10)
    else if bit_and code 0xC7 == 0xC4
    then (11, 17)
    else if code == 0xCD
    then (17, 17)
    else if bit_and code 0xCF == 0xC1
    then (10, 10)
    else if bit_and code 0xCF == 0xC5
    then (11, 11)
    else if bit_and code 0xC7 == 0xC7
    then (11, 11)
    else (4, 4)

-- `cycles[i] = cycle`
abbrev put : ℕ → MachineCycle → List MachineCycle → List MachineCycle
put i cycle cycles = set cycles i cycle

unfoldable pub cycles_for : ℕ → List MachineCycle × ℕ
unfolding is_unassigned_opcode length_for
cycles_for code =
    let cycles = put 0 fetch no_cycles in
    if is_unassigned_opcode code
    then (cycles, 1)
    else if code == 0x76
    then (cycles, 1)
    else if bit_and code 0xC0 == 0x40
    then (if dst_field code == reg_m
        then (put 1 memory_write cycles, 2)
        else if src_field code == reg_m
        then (put 1 memory_read cycles, 2)
        else (cycles, 1))
    else if code == 0xD3
    then (put 2 io_write (put 1 memory_read cycles), 3)
    else if code == 0xDB
    then (put 2 io_read (put 1 memory_read cycles), 3)
    else if bit_and code 0xCF == 0xC5
        || code == 0xCD
        || bit_and code 0xC7 == 0xC4
        || bit_and code 0xC7 == 0xC7
    then (let pushes = put 2 stack_write (put 1 stack_write cycles) in
        if length_for code == 3
        then (put 4 memory_read (put 3 memory_read pushes), 5)
        else (pushes, 3))
    else if bit_and code 0xCF == 0xC1 || code == 0xC9 || bit_and code 0xC7 == 0xC0
    then (put 2 stack_read (put 1 stack_read cycles), 3)
    else if code == 0x32 || code == 0x22
    then (put 3 memory_write (put 2 memory_read (put 1 memory_read cycles)), 4)
    else if code == 0x3A || code == 0x2A
    then (let reads = put 3 memory_read (put 2 memory_read (put 1 memory_read cycles)) in
        if code == 0x2A then (put 4 memory_read reads, 5) else (reads, 4))
    else if length_for code == 3
    then (put 2 memory_read (put 1 memory_read cycles), 3)
    else if length_for code == 2
    then (put 1 memory_read cycles, 2)
    else (cycles, 1)

-- An entry of the table that `buildDecoder` fills, which `Decode` reads.
unfoldable pub decode : ℕ → Opcode
decode code =
    let (min_states, states) = state_range_for code in
    let (cycles, cycle_count) = cycles_for code in
    record {
      code = code;
      mnemonic = mnemonic_for code;
      length = length_for code;
      min_states = min_states;
      states = states;
      cycle_count = cycle_count;
      cycles = cycles;
      execute = if is_unassigned_opcode code then unimplemented_func else execute8080_func;
    }
