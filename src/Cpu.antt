-- ===== src/Cpu.antt =====
-- The package `cpu`: the core of the Intel 8080.
pub mod Types
pub mod Alu
pub mod Errors
pub mod Bus
pub mod Dispatch
pub mod Opcode
pub mod Codes
pub mod Mnemonic
pub mod Decoder
pub mod State
pub mod Core
pub mod Execute
pub mod Perform
pub mod Step
pub mod Encode
pub mod Disasm
pub mod Safety
pub mod Frame
