-- ===== src/Cpu/Errors.antt =====
-- cpu/errors.go: the errors of the core, and the outcome of a call that can fail.
use Prim.Native.String.{String}
use retronet.Base.{ℕ}

-- An `unimplemented_opcode` is an UnimplementedOpcodeError with its fields PC, Opcode, Mnemonic and
-- Length; `unimplemented_code` is ErrUnimplementedOpcode wrapped with the code alone.
pub data Error : Type 0 where
  nil_memory nil_io cpu_stopped invalid_jam_instruction : Error
  unimplemented_opcode : ℕ → ℕ → String → ℕ → Error
  unimplemented_code : ℕ → Error

-- `panicked` is a method called on a nil interface.
pub data Result (A : Type 0) : Type 0 where
  ok : A → Result A
  err : Error → Result A
  panicked : Result A
