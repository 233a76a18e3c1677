-- ===== src/Cpu/Types.antt =====
-- cpu/types.go: the codes of registers, register pairs and conditions in the fields of an opcode.
use retronet.Base.{ℕ}

-- const AddressMask
abbrev pub address_mask : ℕ
address_mask = 0xFFFF

-- type Register, in the order of its `iota`
abbrev pub reg_b : ℕ
reg_b = 0

abbrev pub reg_c : ℕ
reg_c = 1

abbrev pub reg_d : ℕ
reg_d = 2

abbrev pub reg_e : ℕ
reg_e = 3

abbrev pub reg_h : ℕ
reg_h = 4

abbrev pub reg_l : ℕ
reg_l = 5

abbrev pub reg_m : ℕ
reg_m = 6

abbrev pub reg_a : ℕ
reg_a = 7

-- type RegisterPair
abbrev pub pair_bc : ℕ
pair_bc = 0

abbrev pub pair_de : ℕ
pair_de = 1

abbrev pub pair_hl : ℕ
pair_hl = 2

abbrev pub pair_sp : ℕ
pair_sp = 3

-- type Condition
abbrev pub cond_nz : ℕ
cond_nz = 0

abbrev pub cond_z : ℕ
cond_z = 1

abbrev pub cond_nc : ℕ
cond_nc = 2

abbrev pub cond_c : ℕ
cond_c = 3

abbrev pub cond_po : ℕ
cond_po = 4

abbrev pub cond_pe : ℕ
cond_pe = 5

abbrev pub cond_p : ℕ
cond_p = 6

abbrev pub cond_m : ℕ
cond_m = 7
