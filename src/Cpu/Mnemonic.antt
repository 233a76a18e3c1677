-- ===== src/Cpu/Mnemonic.antt =====
-- cpu/decoder.go: the mnemonics. `fmt.Sprintf` of a byte by `%02X` is `hex_byte`.
use Prim.Native.String.{String, ◌++◌}
use retronet.Base.{
  ℕ, ◌/◌, ◌%◌, Bool, true, false, ◌&&◌, List, [], ◌∷◌, ◌==◌, if◌then◌else◌, bit_and, shr, get_or,
}
use retronet.Cpu.Codes.{is_unassigned_opcode, is_immediate_alu_opcode}

-- The entry of an array of names.
abbrev name_at : ℕ → List String → String
name_at i names = get_or names i ""

abbrev hex_digits : List String
hex_digits =
    "0" ∷ "1" ∷ "2" ∷ "3" ∷ "4" ∷ "5" ∷ "6" ∷ "7" ∷ "8" ∷ "9" ∷ "A" ∷ "B" ∷ "C" ∷ "D" ∷ "E" ∷ "F"
    ∷ []

unfoldable pub hex_byte : ℕ → String
hex_byte n = name_at (n / 16 % 16) hex_digits ++ name_at (n % 16) hex_digits

unfoldable pub register_name : ℕ → String
register_name code =
    name_at (bit_and code 0x07) ("B" ∷ "C" ∷ "D" ∷ "E" ∷ "H" ∷ "L" ∷ "M" ∷ "A" ∷ [])

unfoldable pub pair_name : ℕ → Bool → String
pair_name code psw =
    if psw && bit_and code 0x03 == 3
    then "PSW"
    else name_at (bit_and code 0x03) ("B" ∷ "D" ∷ "H" ∷ "SP" ∷ [])

unfoldable pub condition_name : ℕ → String
condition_name code =
    name_at (bit_and code 0x07) ("NZ" ∷ "Z" ∷ "NC" ∷ "C" ∷ "PO" ∷ "PE" ∷ "P" ∷ "M" ∷ [])

unfoldable pub alu_name : ℕ → String
alu_name group =
    name_at (bit_and group 0x07)
      ("ADD" ∷ "ADC" ∷ "SUB" ∷ "SBB" ∷ "ANA" ∷ "XRA" ∷ "ORA" ∷ "CMP" ∷ [])

unfoldable pub immediate_alu_name : ℕ → String
immediate_alu_name group =
    name_at (bit_and group 0x07)
      ("ADI" ∷ "ACI" ∷ "SUI" ∷ "SBI" ∷ "ANI" ∷ "XRI" ∷ "ORI" ∷ "CPI" ∷ [])

unfoldable pub fixed_mnemonic : ℕ → String
unfolding hex_byte
fixed_mnemonic code =
    if code == 0x02
    then "STAX B"
    else if code == 0x0A
    then "LDAX B"
    else if code == 0x12
    then "STAX D"
    else if code == 0x1A
    then "LDAX D"
    else if code == 0x07
    then "RLC"
    else if code == 0x0F
    then "RRC"
    else if code == 0x17
    then "RAL"
    else if code == 0x1F
    then "RAR"
    else if code == 0x22
    then "SHLD"
    else if code == 0x2A
    then "LHLD"
    else if code == 0x27
    then "DAA"
    else if code == 0x2F
    then "CMA"
    else if code == 0x32
    then "STA"
    else if code == 0x3A
    then "LDA"
    else if code == 0x37
    then "STC"
    else if code == 0x3F
    then "CMC"
    else if code == 0xC3
    then "JMP"
    else if code == 0xC9
    then "RET"
    else if code == 0xCD
    then "CALL"
    else if code == 0xD3
    then "OUT"
    else if code == 0xDB
    then "IN"
    else if code == 0xE3
    then "XTHL"
    else if code == 0xE9
    then "PCHL"
    else if code == 0xEB
    then "XCHG"
    else if code == 0xF3
    then "DI"
    else if code == 0xF9
    then "SPHL"
    else if code == 0xFB
    then "EI"
    else "NOP 0x" ++ hex_byte code

unfoldable pub mnemonic_for : ℕ → String
unfolding hex_byte register_name pair_name condition_name alu_name immediate_alu_name fixed_mnemonic
    is_unassigned_opcode is_immediate_alu_opcode
mnemonic_for code =
    let dst = bit_and (shr code 3) 0x07 in
    let src = bit_and code 0x07 in
    let pair = bit_and (shr code 4) 0x03 in
    if is_unassigned_opcode code
    then "??? 0x" ++ hex_byte code
    else if code == 0x00
    then "NOP"
    else if code == 0x76
    then "HLT"
    else if bit_and code 0xC0 == 0x40
    then "MOV " ++ (register_name dst ++ ("," ++ register_name src))
    else if bit_and code 0xC7 == 0x06
    then "MVI " ++ register_name dst
    else if bit_and code 0xCF == 0x01
    then "LXI " ++ pair_name pair false
    else if bit_and code 0xC7 == 0x04
    then "INR " ++ register_name dst
    else if bit_and code 0xC7 == 0x05
    then "DCR " ++ register_name dst
    else if bit_and code 0xCF == 0x03
    then "INX " ++ pair_name pair false
    else if bit_and code 0xCF == 0x0B
    then "DCX " ++ pair_name pair false
    else if bit_and code 0xCF == 0x09
    then "DAD " ++ pair_name pair false
    else if bit_and code 0xC0 == 0x80
    then alu_name dst ++ (" " ++ register_name src)
    else if is_immediate_alu_opcode code
    then immediate_alu_name dst
    else if bit_and code 0xC7 == 0xC2
    then "J" ++ condition_name dst
    else if bit_and code 0xC7 == 0xC4
    then "C" ++ condition_name dst
    else if bit_and code 0xC7 == 0xC0
    then "R" ++ condition_name dst
    else if bit_and code 0xC7 == 0xC7
    then "RST " ++ name_at dst hex_digits
    else if bit_and code 0xCF == 0xC1
    then "POP " ++ pair_name pair true
    else if bit_and code 0xCF == 0xC5
    then "PUSH " ++ pair_name pair true
    else fixed_mnemonic code
