-- ===== src/Cpu/Dispatch.antt =====
-- cpu/execute.go: which case of the two switches of `execute8080` an opcode selects.
use retronet.Base.{ℕ, bit_and, ◌==◌, if◌then◌else◌}
use retronet.Cpu.Codes.{is_immediate_alu_opcode}

-- One constructor for each case, in the order of the source; `unimplemented` is the default.
pub data Arm : Type 0 where
  nop hlt mov mvi lxi inr dcr inx dcx dad alu_register alu_immediate jump_if call_if : Arm
  return_if rst pop push : Arm
  stax_b stax_d ldax_b ldax_d rlc rrc ral rar shld lhld daa cma sta lda stc cmc jmp ret call : Arm
  output input xthl pchl xchg di sphl ei unimplemented : Arm

-- the second switch
unfoldable pub select_fixed : ℕ → Arm
select_fixed code =
    if code == 0x02
    then Arm.stax_b
    else if code == 0x12
    then Arm.stax_d
    else if code == 0x0A
    then Arm.ldax_b
    else if code == 0x1A
    then Arm.ldax_d
    else if code == 0x07
    then Arm.rlc
    else if code == 0x0F
    then Arm.rrc
    else if code == 0x17
    then Arm.ral
    else if code == 0x1F
    then Arm.rar
    else if code == 0x22
    then Arm.shld
    else if code == 0x2A
    then Arm.lhld
    else if code == 0x27
    then Arm.daa
    else if code == 0x2F
    then Arm.cma
    else if code == 0x32
    then Arm.sta
    else if code == 0x3A
    then Arm.lda
    else if code == 0x37
    then Arm.stc
    else if code == 0x3F
    then Arm.cmc
    else if code == 0xC3
    then Arm.jmp
    else if code == 0xC9
    then Arm.ret
    else if code == 0xCD
    then Arm.call
    else if code == 0xD3
    then Arm.output
    else if code == 0xDB
    then Arm.input
    else if code == 0xE3
    then Arm.xthl
    else if code == 0xE9
    then Arm.pchl
    else if code == 0xEB
    then Arm.xchg
    else if code == 0xF3
    then Arm.di
    else if code == 0xF9
    then Arm.sphl
    else if code == 0xFB
    then Arm.ei
    else Arm.unimplemented

-- the first switch, whose cases all return
unfoldable pub select : ℕ → Arm
unfolding select_fixed is_immediate_alu_opcode
select code =
    if code == 0x00
    then Arm.nop
    else if code == 0x76
    then Arm.hlt
    else if bit_and code 0xC0 == 0x40
    then Arm.mov
    else if bit_and code 0xC7 == 0x06
    then Arm.mvi
    else if bit_and code 0xCF == 0x01
    then Arm.lxi
    else if bit_and code 0xC7 == 0x04
    then Arm.inr
    else if bit_and code 0xC7 == 0x05
    then Arm.dcr
    else if bit_and code 0xCF == 0x03
    then Arm.inx
    else if bit_and code 0xCF == 0x0B
    then Arm.dcx
    else if bit_and code 0xCF == 0x09
    then Arm.dad
    else if bit_and code 0xC0 == 0x80
    then Arm.alu_register
    else if is_immediate_alu_opcode code
    then Arm.alu_immediate
    else if bit_and code 0xC7 == 0xC2
    then Arm.jump_if
    else if bit_and code 0xC7 == 0xC4
    then Arm.call_if
    else if bit_and code 0xC7 == 0xC0
    then Arm.return_if
    else if bit_and code 0xC7 == 0xC7
    then Arm.rst
    else if bit_and code 0xCF == 0xC1
    then Arm.pop
    else if bit_and code 0xCF == 0xC5
    then Arm.push
    else select_fixed code
