-- ===== src/Cpu/Execute.antt =====
-- cpu/execute.go and cpu/alu.go: what an instruction does.
pub mod Stack
pub mod Decimal
pub mod Rotate
use retronet.Base.{
  ℕ, ◌+◌, ◌-◌, ◌*◌, ◌/◌, ◌%◌, ◌^◌, bit_and, bit_or, Bool, true, false, not, ◌||◌, ◌==◌, ltb,
  if◌then◌else◌, u8, u16, shr, shl8, shl16, add16, dec16, complement8, word,
}
use retronet.Cpu.Types.{reg_b, reg_c, reg_d, reg_e, reg_h, reg_l, reg_m, pair_bc, pair_de, pair_hl}
use retronet.Cpu.Errors.{Error}
use retronet.Cpu.Alu.{Flags, I8080}
use retronet.Cpu.Opcode.{Instruction, operand, word_operand}
use retronet.Cpu.Bus.{Memory, Io}
use retronet.Cpu.Dispatch.{Arm, select}
use retronet.Cpu.State.{
  Cpu8080, backend, set_pc, hl, bc, de, set_hl, set_bc, set_de, pair_value, set_pair, flags_byte,
  set_flags_byte, condition_taken,
}
use retronet.Cpu.Core.{
  System, Run, pass, ◌>>=◌, ◌>>◌, pure, fail, get, modify, need_memory, mem_read, mem_write,
  io_input, io_output,
}

-- alu.go
unfoldable pub apply_alu_flags : Flags → Cpu8080 → Cpu8080
apply_alu_flags flags s = record s {
  carry = flags.carry;
  zero_flag = flags.zero_flag;
  sign = flags.sign;
  parity = flags.parity;
  auxiliary_carry = flags.auxiliary_carry;
}

unfoldable pub apply_non_carry_flags : Flags → Cpu8080 → Cpu8080
apply_non_carry_flags flags s = record s {
  zero_flag = flags.zero_flag;
  sign = flags.sign;
  parity = flags.parity;
  auxiliary_carry = flags.auxiliary_carry;
}

module _ ⦃i8080 : I8080⦄ where
  unfoldable pub execute_alu : ℕ → ℕ → Cpu8080 → Cpu8080
  unfolding apply_alu_flags
  execute_alu group value s =
      let (result, flags) = (backend s).alu group s.a value s.carry in
      let t = apply_alu_flags flags s in
      if bit_and group 0x07 == i8080.group_cmp then t else record t { a = result }

  -- the result, and the processor with the flags applied
  unfoldable pub increment : ℕ → Cpu8080 → ℕ × Cpu8080
  unfolding apply_non_carry_flags
  increment value s =
      let (result, flags) = (backend s).increment value in (result, apply_non_carry_flags flags s)

  unfoldable pub decrement : ℕ → Cpu8080 → ℕ × Cpu8080
  unfolding apply_non_carry_flags
  decrement value s =
      let (result, flags) = (backend s).decrement value in (result, apply_non_carry_flags flags s)

  unfoldable pub dad : ℕ → Cpu8080 → Cpu8080
  dad value s =
      let (result, carry) = (backend s).add16 (hl s) value in
      record (set_hl result s) { carry = carry }

  unfoldable pub daa : Cpu8080 → Cpu8080
  daa s =
      let old_a = s.a in
      let low : ℕ = if ltb 9 (bit_and old_a 0x0F) || s.auxiliary_carry then bit_or 0 0x06 else 0 in
      let high = ltb 0x99 old_a || s.carry in
      let correction = if high then bit_or low 0x60 else low in
      let carry = if high then true else s.carry in
      let (result, flags) = (backend s).alu i8080.group_add old_a correction false in
      record s {
        a = result;
        zero_flag = flags.zero_flag;
        sign = flags.sign;
        parity = flags.parity;
        auxiliary_carry = flags.auxiliary_carry;
        carry = carry || flags.carry;
      }

unfoldable pub bool_byte : Bool → ℕ
bool_byte true = 1
bool_byte false = 0

-- RLC, RRC, RAL and RAR
unfoldable pub rotate_left : Cpu8080 → Cpu8080
unfolding bool_byte
rotate_left s =
    let carry = not (bit_and s.a 0x80 == 0) in
    record s { carry = carry; a = bit_or (shl8 s.a 1) (bool_byte carry) }

unfoldable pub rotate_right : Cpu8080 → Cpu8080
unfolding bool_byte
rotate_right s =
    let carry = not (bit_and s.a 0x01 == 0) in
    record s { carry = carry; a = bit_or (shr s.a 1) (shl8 (bool_byte carry) 7) }

unfoldable pub rotate_left_through : Cpu8080 → Cpu8080
unfolding bool_byte
rotate_left_through s = record s {
  carry = not (bit_and s.a 0x80 == 0);
  a = bit_or (shl8 s.a 1) (bool_byte s.carry);
}

unfoldable pub rotate_right_through : Cpu8080 → Cpu8080
unfolding bool_byte
rotate_right_through s = record s {
  carry = not (bit_and s.a 0x01 == 0);
  a = bit_or (shr s.a 1) (shl8 (bool_byte s.carry) 7);
}

unfoldable pub exchange_de_hl : Cpu8080 → Cpu8080
exchange_de_hl s = record s { d = s.h; e = s.l; h = s.d; l = s.e }

unfoldable pub halt : Cpu8080 → Cpu8080
halt s = record s { halted = true; stopped = true }

module _ {M P : Type 0} ⦃memory : Memory M⦄ where
  -- cpu.go: readRegister and writeRegister
  unfoldable pub read_register : ℕ → Run M P ℕ
  read_register r =
      let k = bit_and r 0x07 in
      if k == reg_b
      then get (λ s. s.b)
      else if k == reg_c
      then get (λ s. s.c)
      else if k == reg_d
      then get (λ s. s.d)
      else if k == reg_e
      then get (λ s. s.e)
      else if k == reg_h
      then get (λ s. s.h)
      else if k == reg_l
      then get (λ s. s.l)
      else if k == reg_m
      then (do need_memory; addr ← get hl; mem_read addr)
      else get (λ s. s.a)

  unfoldable pub write_register : ℕ → ℕ → Run M P (Unit {0})
  write_register r value =
      let k = bit_and r 0x07 in
      if k == reg_b
      then modify (λ s. record s { b = value })
      else if k == reg_c
      then modify (λ s. record s { c = value })
      else if k == reg_d
      then modify (λ s. record s { d = value })
      else if k == reg_e
      then modify (λ s. record s { e = value })
      else if k == reg_h
      then modify (λ s. record s { h = value })
      else if k == reg_l
      then modify (λ s. record s { l = value })
      else if k == reg_m
      then (do need_memory; addr ← get hl; mem_write addr value)
      else modify (λ s. record s { a = value })

  unfoldable pub execute_mov : ℕ → Run M P (Unit {0})
  unfolding read_register write_register
  execute_mov code = do
    value ← read_register (bit_and code 0x07)
    write_register (bit_and (shr code 3) 0x07) value

  -- `c.SP--` and the write of one byte at SP
  unfoldable pub push_byte : ℕ → Run M P (Unit {0})
  push_byte value = do
    modify (λ s. record s { sp = dec16 s.sp })
    addr ← get (λ s. s.sp)
    mem_write addr value

  unfoldable pub push_word : ℕ → Run M P (Unit {0})
  unfolding push_byte
  push_word value = do push_byte (u8 (shr value 8)); push_byte (u8 value)

  -- the read of one byte at SP and `c.SP++`
  unfoldable pub pop_byte : Run M P ℕ
  pop_byte = do
    addr ← get (λ s. s.sp)
    value ← mem_read addr
    modify (λ s. record s { sp = add16 s.sp 1 })
    pure value

  unfoldable pub pop_word : Run M P ℕ
  unfolding pop_byte
  pop_word = do low ← pop_byte; high ← pop_byte; pure (word high low)

  unfoldable pub call : ℕ → Run M P (Unit {0})
  unfolding push_word
  call target = do pc ← get (λ s. s.pc); push_word pc; modify (set_pc target)

  unfoldable pub push : ℕ → Run M P (Unit {0})
  unfolding push_word
  push pair =
      if pair == pair_bc
      then (do value ← get bc; push_word value)
      else if pair == pair_de
      then (do value ← get de; push_word value)
      else if pair == pair_hl
      then (do value ← get hl; push_word value)
      else (do a ← get (λ s. s.a); flags ← get flags_byte; push_word (word a flags))

  unfoldable pub pop : ℕ → Run M P (Unit {0})
  unfolding pop_word
  pop pair = do
    value ← pop_word
    if pair == pair_bc
        then modify (set_bc value)
        else if pair == pair_de
        then modify (set_de value)
        else if pair == pair_hl
        then modify (set_hl value)
        else modify (λ s. set_flags_byte (u8 value) (record s { a = u8 (shr value 8) }))

  -- XTHL
  unfoldable pub exchange_stack_hl : Run M P (Unit {0})
  exchange_stack_hl = do
    sp ← get (λ s. s.sp)
    low ← mem_read sp
    high ← mem_read (add16 sp 1)
    l ← get (λ s. s.l)
    mem_write sp l
    h ← get (λ s. s.h)
    mem_write (add16 sp 1) h
    modify (λ s. record s { l = low; h = high })

  -- SHLD and LHLD
  unfoldable pub store_hl : ℕ → Run M P (Unit {0})
  store_hl addr = do
    l ← get (λ s. s.l)
    mem_write addr l
    h ← get (λ s. s.h)
    mem_write (add16 addr 1) h

  unfoldable pub load_hl : ℕ → Run M P (Unit {0})
  load_hl addr = do
    low ← mem_read addr
    modify (λ s. record s { l = low })
    high ← mem_read (add16 addr 1)
    modify (λ s. record s { h = high })
