-- ===== src/Cpu/Disasm.antt =====
-- cpu/disasm.go: the instruction at an address, and its text.
use Prim.Native.String.{String, ◌++◌, count}
use retronet.Base.{
  ℕ, zero, suc, ◌+◌, ◌-◌, ◌/◌, ◌%◌, bit_and, false, List, [], ◌∷◌, ◌==◌, if◌then◌else◌, u8, add16,
  word, set, get_or, Option, none, some,
}
use retronet.Cpu.Errors.{Error, Result, ok, err}
use retronet.Cpu.Opcode.{Opcode}
use retronet.Cpu.Codes.{is_unassigned_opcode, is_immediate_alu_opcode}
use retronet.Cpu.Mnemonic.{
  hex_byte, register_name, pair_name, condition_name, immediate_alu_name, mnemonic_for,
}
use retronet.Cpu.Decoder.{decode, dst_field, pair_field}
use retronet.Cpu.Bus.{Memory}

pub record Disassembly : Type 0 where
  pub pc : ℕ
  pub opcode : Opcode
  pub bytes : List ℕ
  pub length : ℕ
  pub operand : ℕ
  pub next_pc : ℕ

module _ {M : Type 0} ⦃memory : Memory M⦄ where
  -- the loop that fills `d.Bytes`, with `i` and the rounds left
  unfoldable pub read_bytes : ℕ → ℕ → M → ℕ → List ℕ → List ℕ
  read_bytes zero i m pc bytes = bytes
  read_bytes (suc left) i m pc bytes =
      read_bytes left (i + 1) m pc (set bytes i (memory.read m (add16 pc i)))

  unfoldable pub disassemble_at : M → ℕ → Disassembly
  unfolding read_bytes
  disassemble_at m pc =
      let op = decode (memory.read m pc) in
      let length = if op.length == 0 then 1 else op.length in
      let next_pc = if op.length == 0 then add16 pc 1 else add16 pc op.length in
      let bytes = read_bytes length 0 m pc (0 ∷ 0 ∷ 0 ∷ []) in
      record {
        pc = pc;
        opcode = op;
        bytes = bytes;
        length = length;
        operand =
            if length == 2
            then get_or bytes 1 0
            else if length == 3
            then word (get_or bytes 2 0) (get_or bytes 1 0)
            else 0;
        next_pc = next_pc;
      }

  unfoldable pub disassemble : Option M → ℕ → Result Disassembly
  unfolding disassemble_at
  disassemble none pc = err Error.nil_memory
  disassemble (some m) pc = ok (disassemble_at m pc)

-- `%04X`
unfoldable pub hex_word : ℕ → String
unfolding hex_byte
hex_word n = hex_byte (n / 256) ++ hex_byte (n % 256)

-- the loop that appends `%02X` of each byte, with a space between, with `i` and the rounds left
unfoldable pub bytes_text : ℕ → ℕ → List ℕ → String → String
unfolding hex_byte
bytes_text zero i bytes acc = acc
bytes_text (suc left) i bytes acc =
    bytes_text left (i + 1) bytes
      ((if i == 0 then acc else acc ++ " ") ++ hex_byte (get_or bytes i 0))

-- `%-8s`
abbrev spaces : ℕ → String
spaces zero = ""
spaces (suc n) = " " ++ spaces n

unfoldable pub pad_eight : String → String
pad_eight s = s ++ spaces (8 - count s)

unfoldable pub text : Disassembly → String
unfolding hex_byte hex_word is_unassigned_opcode is_immediate_alu_opcode register_name pair_name
    condition_name immediate_alu_name mnemonic_for
text d =
    let code = d.opcode.code in
    let byte = "0x" ++ hex_byte (u8 d.operand) in
    let address = "0x" ++ hex_word d.operand in
    if is_unassigned_opcode code
    then "??? 0x" ++ hex_byte code
    else if bit_and code 0xC7 == 0x06
    then "MVI " ++ (register_name (dst_field code) ++ (",#" ++ byte))
    else if bit_and code 0xCF == 0x01
    then "LXI " ++ (pair_name (pair_field code) false ++ (",#" ++ address))
    else if code == 0x22
    then "SHLD " ++ address
    else if code == 0x2A
    then "LHLD " ++ address
    else if code == 0x32
    then "STA " ++ address
    else if code == 0x3A
    then "LDA " ++ address
    else if code == 0xC3
    then "JMP " ++ address
    else if code == 0xCD
    then "CALL " ++ address
    else if bit_and code 0xC7 == 0xC2
    then "J" ++ (condition_name (dst_field code) ++ (" " ++ address))
    else if bit_and code 0xC7 == 0xC4
    then "C" ++ (condition_name (dst_field code) ++ (" " ++ address))
    else if is_immediate_alu_opcode code
    then immediate_alu_name (dst_field code) ++ (" #" ++ byte)
    else if code == 0xDB
    then "IN " ++ byte
    else if code == 0xD3
    then "OUT " ++ byte
    else mnemonic_for code

-- Disassembly.String
unfoldable pub to_string : Disassembly → String
unfolding hex_word bytes_text pad_eight text
to_string d =
    hex_word d.pc ++ (": " ++ (pad_eight (bytes_text d.length 0 d.bytes "") ++ (" " ++ text d)))
