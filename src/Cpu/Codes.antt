-- ===== src/Cpu/Codes.antt =====
-- cpu/decoder.go: the two lists of opcodes that the decoder tests.
use retronet.Base.{ℕ, Bool, false, ◌||◌, List, [], ◌∷◌, ◌==◌}

-- a `case` with a list of values
abbrev pub one_of : ℕ → List ℕ → Bool
one_of code [] = false
one_of code (x ∷ xs) = code == x || one_of code xs

unfoldable pub is_unassigned_opcode : ℕ → Bool
is_unassigned_opcode code =
    one_of code
      (0x08 ∷ 0x10 ∷ 0x18 ∷ 0x20 ∷ 0x28 ∷ 0x30 ∷ 0x38 ∷ 0xCB ∷ 0xD9 ∷ 0xDD ∷ 0xED ∷ 0xFD ∷ [])

unfoldable pub is_immediate_alu_opcode : ℕ → Bool
is_immediate_alu_opcode code =
    one_of code (0xC6 ∷ 0xCE ∷ 0xD6 ∷ 0xDE ∷ 0xE6 ∷ 0xEE ∷ 0xF6 ∷ 0xFE ∷ [])
