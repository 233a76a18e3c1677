-- ===== src/Cpu/State.antt =====
-- cpu/cpu.go: the state of the processor and the accessors that need no bus.
pub mod Native
pub mod Psw
pub mod Valid
use retronet.Base.{
  ℕ, ◌+◌, ◌*◌, ◌/◌, ◌%◌, ◌^◌, bit_and, bit_or, Bool, true, false, not, Option, none, some, ◌==◌,
  if◌then◌else◌, u8, u64, shr, word,
}
use retronet.Cpu.Types.{
  pair_bc, pair_de, pair_hl, cond_nz, cond_z, cond_nc, cond_c, cond_po, cond_pe, cond_p,
}
use retronet.Cpu.Opcode.{InstructionTiming, no_timing}
use retronet.Cpu.Alu.{I8080, AluBackend, gate}

-- type CPU8080
pub record Cpu8080 : Type 0 where
  pub a : ℕ
  pub b : ℕ
  pub c : ℕ
  pub d : ℕ
  pub e : ℕ
  pub h : ℕ
  pub l : ℕ
  pub carry : Bool
  pub zero_flag : Bool
  pub sign : Bool
  pub parity : Bool
  pub auxiliary_carry : Bool
  pub pc : ℕ
  pub sp : ℕ
  pub halted : Bool
  pub stopped : Bool
  pub interrupts_enabled : Bool
  pub instruction_count : ℕ
  pub state_count : ℕ
  pub wait_state_count : ℕ
  pub last_timing : InstructionTiming
  pub pending_wait_states : ℕ
  pub alu : Option AluBackend

-- `CPU8080{}` with the given backend
abbrev pub zeroed : Option AluBackend → Cpu8080
zeroed backend = record {
  a = 0;
  b = 0;
  c = 0;
  d = 0;
  e = 0;
  h = 0;
  l = 0;
  carry = false;
  zero_flag = false;
  sign = false;
  parity = false;
  auxiliary_carry = false;
  pc = 0;
  sp = 0;
  halted = false;
  stopped = false;
  interrupts_enabled = false;
  instruction_count = 0;
  state_count = 0;
  wait_state_count = 0;
  last_timing = no_timing;
  pending_wait_states = 0;
  alu = backend;
}

unfoldable pub reset : Cpu8080 → Cpu8080
reset s = zeroed s.alu

unfoldable pub new_cpu8080 : Cpu8080
unfolding reset
new_cpu8080 = reset (zeroed none)

unfoldable pub set_alu : Option AluBackend → Cpu8080 → Cpu8080
set_alu backend s = record s { alu = backend }

unfoldable pub new_cpu8080_with_alu : Option AluBackend → Cpu8080
unfolding new_cpu8080 set_alu
new_cpu8080_with_alu backend = set_alu backend new_cpu8080

-- nil stands for Gate
unfoldable pub chosen : ⦃i8080 : I8080⦄ → Option AluBackend → AluBackend
chosen none = gate
chosen (some backend) = backend

unfoldable pub backend : ⦃i8080 : I8080⦄ → Cpu8080 → AluBackend
backend s = chosen s.alu

unfoldable pub set_pc : ℕ → Cpu8080 → Cpu8080
set_pc addr s = record s { pc = addr }

unfoldable pub hl : Cpu8080 → ℕ
hl s = word s.h s.l

unfoldable pub bc : Cpu8080 → ℕ
bc s = word s.b s.c

unfoldable pub de : Cpu8080 → ℕ
de s = word s.d s.e

unfoldable pub set_hl : ℕ → Cpu8080 → Cpu8080
set_hl value s = record s { h = u8 (shr value 8); l = u8 value }

unfoldable pub set_bc : ℕ → Cpu8080 → Cpu8080
set_bc value s = record s { b = u8 (shr value 8); c = u8 value }

unfoldable pub set_de : ℕ → Cpu8080 → Cpu8080
set_de value s = record s { d = u8 (shr value 8); e = u8 value }

-- the method `pair`
unfoldable pub pair_value : ℕ → Cpu8080 → ℕ
unfolding hl bc de
pair_value pair s =
    if pair == pair_bc
    then bc s
    else if pair == pair_de
    then de s
    else if pair == pair_hl
    then hl s
    else s.sp

unfoldable pub set_pair : ℕ → ℕ → Cpu8080 → Cpu8080
unfolding set_hl set_bc set_de
set_pair pair value s =
    if pair == pair_bc
    then set_bc value s
    else if pair == pair_de
    then set_de value s
    else if pair == pair_hl
    then set_hl value s
    else record s { sp = value }

-- `f |= mask` under a flag
abbrev or_if : Bool → ℕ → ℕ → ℕ
or_if flag mask f = if flag then bit_or f mask else f

unfoldable pub flags_byte : Cpu8080 → ℕ
flags_byte s = or_if s.carry 0x01 (
    or_if s.parity 0x04
      (or_if s.auxiliary_carry 0x10 (or_if s.zero_flag 0x40 (or_if s.sign 0x80 0x02))))

unfoldable pub set_flags_byte : ℕ → Cpu8080 → Cpu8080
set_flags_byte f s = record s {
  sign = not (bit_and f 0x80 == 0);
  zero_flag = not (bit_and f 0x40 == 0);
  auxiliary_carry = not (bit_and f 0x10 == 0);
  parity = not (bit_and f 0x04 == 0);
  carry = not (bit_and f 0x01 == 0);
}

unfoldable pub condition_taken : ℕ → Cpu8080 → Bool
condition_taken cond s =
    let k = bit_and cond 0x07 in
    if k == cond_nz
    then not s.zero_flag
    else if k == cond_z
    then s.zero_flag
    else if k == cond_nc
    then not s.carry
    else if k == cond_c
    then s.carry
    else if k == cond_po
    then not s.parity
    else if k == cond_pe
    then s.parity
    else if k == cond_p
    then not s.sign
    else s.sign
