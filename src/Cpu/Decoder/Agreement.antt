-- ===== src/Cpu/Decoder/Agreement.antt =====
-- The decoder's table against the executor: what `lengthFor` and `isUnassignedOpcode` say of an opcode,
-- and the case of `execute8080` that runs it.
use mathlib.Core.Bool.{beq}
use retronet.Base.{
  ℕ, ◌+◌, ◌≤◌, ◌<◌, ◌≡◌, refl, arith, Bool, true, false, ◌==◌, ◌↔◌, all_below, all_below_lem,
  agree_below,
}
use retronet.Cpu.Codes.{is_unassigned_opcode}
use retronet.Cpu.Dispatch.{Arm, select}
use retronet.Cpu.Decoder.{length_for}

abbrev is_default : Arm → Bool
is_default Arm.unimplemented = true
is_default _ = false

-- How many operand bytes the case reads from the instruction.
abbrev pub operand_bytes : Arm → ℕ
operand_bytes Arm.mvi = 1
operand_bytes Arm.alu_immediate = 1
operand_bytes Arm.input = 1
operand_bytes Arm.output = 1
operand_bytes Arm.lxi = 2
operand_bytes Arm.jump_if = 2
operand_bytes Arm.call_if = 2
operand_bytes Arm.shld = 2
operand_bytes Arm.lhld = 2
operand_bytes Arm.sta = 2
operand_bytes Arm.lda = 2
operand_bytes Arm.jmp = 2
operand_bytes Arm.call = 2
operand_bytes _ = 0

default_table : all_below 256 (λ c. beq (is_default (select c)) (is_unassigned_opcode c)) ≡ true
unfolding all_below select is_unassigned_opcode
default_table = refl

beq_lem : (a b : Bool) → beq a b ≡ true → a ≡ b
beq_lem a b h = ground arith

is_default_lem : (arm : Arm) → (arm ≡ Arm.unimplemented) ↔ (is_default arm ≡ true)
is_default_lem arm = ground arith

-- `execute8080` implements exactly the opcodes that `isUnassignedOpcode` does not list: the default
-- of its switches is the case of an opcode if and only if the opcode is unassigned.
select-unimplemented_iff :
    (code : ℕ) → code < 256 → (select code ≡ Arm.unimplemented) ↔ (is_unassigned_opcode code ≡ true)
select-unimplemented_iff code h = ground (
  arith,
  is_default_lem (select code),
  beq_lem (is_default (select code)) (is_unassigned_opcode code) (
      all_below_lem 256 (λ c. beq (is_default (select c)) (is_unassigned_opcode c)) code
        default_table h),
)

length_table : all_below 256 (λ c. length_for c == 1 + operand_bytes (select c)) ≡ true
unfolding all_below length_for select is_unassigned_opcode
length_table = refl

-- The length of every opcode is one more than the operand bytes that its case counts.
pub length_for-operand_bytes :
    (code : ℕ) → code < 256 → length_for code ≡ 1 + operand_bytes (select code)
length_for-operand_bytes =
    agree_below 256 length_for (λ c. 1 + operand_bytes (select c)) length_table

pub length_for_bounds : (code : ℕ) → code < 256 → (1 ≤ length_for code) × (length_for code ≤ 3)
length_for_bounds code h = ground (arith, length_for-operand_bytes code)
