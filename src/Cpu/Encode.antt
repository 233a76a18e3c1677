-- ===== src/Cpu/Encode.antt =====
-- cpu/helpers.go: the opcodes of the instructions, from their registers, pairs and conditions.
pub mod Fields
use retronet.Base.{ℕ, ◌*◌, ◌%◌, ◌^◌, bit_and, bit_or, ◌==◌, if◌then◌else◌, shl8}
use retronet.Cpu.Types.{pair_de}

unfoldable pub reg_bits : ℕ → ℕ
reg_bits r = bit_and r 0x07

unfoldable pub pair_bits : ℕ → ℕ
pair_bits p = bit_and p 0x03

unfoldable pub cond_bits : ℕ → ℕ
cond_bits c = bit_and c 0x07

abbrev pub nop : ℕ
nop = 0x00

abbrev pub hlt : ℕ
hlt = 0x76

abbrev pub lda : ℕ
lda = 0x3A

abbrev pub sta : ℕ
sta = 0x32

abbrev pub lhld : ℕ
lhld = 0x2A

abbrev pub shld : ℕ
shld = 0x22

abbrev pub xchg : ℕ
xchg = 0xEB

abbrev pub xthl : ℕ
xthl = 0xE3

abbrev pub sphl : ℕ
sphl = 0xF9

abbrev pub pchl : ℕ
pchl = 0xE9

abbrev pub adi : ℕ
adi = 0xC6

abbrev pub aci : ℕ
aci = 0xCE

abbrev pub sui : ℕ
sui = 0xD6

abbrev pub sbi : ℕ
sbi = 0xDE

abbrev pub ani : ℕ
ani = 0xE6

abbrev pub xri : ℕ
xri = 0xEE

abbrev pub ori : ℕ
ori = 0xF6

abbrev pub cpi : ℕ
cpi = 0xFE

abbrev pub daa : ℕ
daa = 0x27

abbrev pub cma : ℕ
cma = 0x2F

abbrev pub stc : ℕ
stc = 0x37

abbrev pub cmc : ℕ
cmc = 0x3F

abbrev pub rlc : ℕ
rlc = 0x07

abbrev pub rrc : ℕ
rrc = 0x0F

abbrev pub ral : ℕ
ral = 0x17

abbrev pub rar : ℕ
rar = 0x1F

abbrev pub jmp : ℕ
jmp = 0xC3

abbrev pub call : ℕ
call = 0xCD

abbrev pub ret : ℕ
ret = 0xC9

abbrev pub in_port : ℕ
in_port = 0xDB

abbrev pub out_port : ℕ
out_port = 0xD3

abbrev pub ei : ℕ
ei = 0xFB

abbrev pub di : ℕ
di = 0xF3

unfoldable pub mov : ℕ → ℕ → ℕ
unfolding reg_bits
mov dst src = bit_or (bit_or 0x40 (shl8 (reg_bits dst) 3)) (reg_bits src)

unfoldable pub mvi : ℕ → ℕ
unfolding reg_bits
mvi r = bit_or 0x06 (shl8 (reg_bits r) 3)

unfoldable pub inr : ℕ → ℕ
unfolding reg_bits
inr r = bit_or 0x04 (shl8 (reg_bits r) 3)

unfoldable pub dcr : ℕ → ℕ
unfolding reg_bits
dcr r = bit_or 0x05 (shl8 (reg_bits r) 3)

unfoldable pub lxi : ℕ → ℕ
unfolding pair_bits
lxi pair = bit_or 0x01 (shl8 (pair_bits pair) 4)

unfoldable pub inx : ℕ → ℕ
unfolding pair_bits
inx pair = bit_or 0x03 (shl8 (pair_bits pair) 4)

unfoldable pub dcx : ℕ → ℕ
unfolding pair_bits
dcx pair = bit_or 0x0B (shl8 (pair_bits pair) 4)

unfoldable pub dad : ℕ → ℕ
unfolding pair_bits
dad pair = bit_or 0x09 (shl8 (pair_bits pair) 4)

unfoldable pub push : ℕ → ℕ
unfolding pair_bits
push pair = bit_or 0xC5 (shl8 (pair_bits pair) 4)

unfoldable pub pop : ℕ → ℕ
unfolding pair_bits
pop pair = bit_or 0xC1 (shl8 (pair_bits pair) 4)

unfoldable pub ldax : ℕ → ℕ
ldax pair = if pair == pair_de then 0x1A else 0x0A

unfoldable pub stax : ℕ → ℕ
stax pair = if pair == pair_de then 0x12 else 0x02

unfoldable pub add : ℕ → ℕ
unfolding reg_bits
add src = bit_or 0x80 (reg_bits src)

unfoldable pub adc : ℕ → ℕ
unfolding reg_bits
adc src = bit_or 0x88 (reg_bits src)

unfoldable pub sub : ℕ → ℕ
unfolding reg_bits
sub src = bit_or 0x90 (reg_bits src)

unfoldable pub sbb : ℕ → ℕ
unfolding reg_bits
sbb src = bit_or 0x98 (reg_bits src)

unfoldable pub ana : ℕ → ℕ
unfolding reg_bits
ana src = bit_or 0xA0 (reg_bits src)

unfoldable pub xra : ℕ → ℕ
unfolding reg_bits
xra src = bit_or 0xA8 (reg_bits src)

unfoldable pub ora : ℕ → ℕ
unfolding reg_bits
ora src = bit_or 0xB0 (reg_bits src)

unfoldable pub cmp : ℕ → ℕ
unfolding reg_bits
cmp src = bit_or 0xB8 (reg_bits src)

unfoldable pub jump_on : ℕ → ℕ
unfolding cond_bits
jump_on cond = bit_or 0xC2 (shl8 (cond_bits cond) 3)

unfoldable pub call_on : ℕ → ℕ
unfolding cond_bits
call_on cond = bit_or 0xC4 (shl8 (cond_bits cond) 3)

unfoldable pub return_on : ℕ → ℕ
unfolding cond_bits
return_on cond = bit_or 0xC0 (shl8 (cond_bits cond) 3)

unfoldable pub rst : ℕ → ℕ
rst n = bit_or 0xC7 (shl8 (bit_and n 0x07) 3)
