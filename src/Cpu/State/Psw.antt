-- ===== src/Cpu/State/Psw.antt =====
-- The PSW: the flags as the byte that PUSH PSW saves and POP PSW restores.
use retronet.Base.{◌<◌, ◌≡◌, arith, bit_and}
use retronet.Cpu.State.{Cpu8080, flags_byte, set_flags_byte}

-- `SetFlagsByte` of the byte of the flags of `s` gives a processor the flags of `s` and changes nothing
-- else.
pub set_flags_byte-flags_byte :
    (s t : Cpu8080)
    → set_flags_byte (flags_byte s) t ≡ record t {
      sign = s.sign;
      zero_flag = s.zero_flag;
      auxiliary_carry = s.auxiliary_carry;
      parity = s.parity;
      carry = s.carry;
    }
unfolding set_flags_byte flags_byte
set_flags_byte-flags_byte s t = ground arith

-- In the byte of `FlagsByte`, whatever the flags are, bit 1 is set and bits 3 and 5 are clear.
pub flags_byte_fixed_bits :
    (s : Cpu8080) → (bit_and (flags_byte s) 0x2A ≡ 0x02) × (flags_byte s < 256)
unfolding flags_byte
flags_byte_fixed_bits s = ground arith
