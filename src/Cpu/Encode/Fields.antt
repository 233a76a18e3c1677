-- ===== src/Cpu/Encode/Fields.antt =====
-- The opcodes that helpers.go builds, against the cases and the fields that the executor reads.
use mathlib.Core.Bool.{decide, decide_iff}
use retronet.Base.{
  ℕ, ◌<◌, ◌≡◌, refl, arith, Bool, true, false, ◌&&◌, ◌||◌, ◌==◌, if◌then◌else◌, all_below,
  all_below_lem, all_pairs_below, all_pairs_below_lem, get_or, List, [], ◌∷◌,
}
use retronet.Cpu.Codes.{is_unassigned_opcode}
use retronet.Cpu.Dispatch.{Arm, select}
use retronet.Cpu.Decoder.{dst_field, src_field, pair_field}
use retronet.Cpu.Encode
use retronet.Cpu.Encode.{
  mov, mvi, lxi, inr, dcr, inx, dcx, dad, add, adc, sub, sbb, ana, xra, ora, cmp, push, pop,
  jump_on, call_on, return_on, rst, ldax, stax,
}

unfoldable Arm-discrete : Discrete Arm
Arm-discrete = hlevel

abbrev is_arm : Arm → Arm → Bool
is_arm a b = decide (Arm-discrete a b)

is_arm_lem : (a b : Arm) → is_arm a b ≡ true → a ≡ b
is_arm_lem a b h = (decide_iff (Arm-discrete a b)).0 h

-- `ADD` to `CMP` by the number of the group, and the immediate forms.
abbrev pub alu_register : ℕ → ℕ → ℕ
alu_register g r =
    if g == 0
    then add r
    else if g == 1
    then adc r
    else if g == 2
    then sub r
    else if g == 3
    then sbb r
    else if g == 4
    then ana r
    else if g == 5
    then xra r
    else if g == 6
    then ora r
    else cmp r

abbrev pub alu_immediate : ℕ → ℕ
alu_immediate g =
    get_or
      (Encode.adi ∷ Encode.aci ∷ Encode.sui ∷ Encode.sbi ∷ Encode.ani ∷ Encode.xri ∷ Encode.ori
        ∷ Encode.cpi ∷ [])
      g 0

-- The helper for the case `arm`, applied to the fields of the opcode `code`.
abbrev pub reencode : Arm → ℕ → ℕ
reencode Arm.mov code = mov (dst_field code) (src_field code)
reencode Arm.mvi code = mvi (dst_field code)
reencode Arm.lxi code = lxi (pair_field code)
reencode Arm.inr code = inr (dst_field code)
reencode Arm.dcr code = dcr (dst_field code)
reencode Arm.inx code = inx (pair_field code)
reencode Arm.dcx code = dcx (pair_field code)
reencode Arm.dad code = dad (pair_field code)
reencode Arm.alu_register code = alu_register (dst_field code) (src_field code)
reencode Arm.alu_immediate code = alu_immediate (dst_field code)
reencode Arm.jump_if code = jump_on (dst_field code)
reencode Arm.call_if code = call_on (dst_field code)
reencode Arm.return_if code = return_on (dst_field code)
reencode Arm.rst code = rst (dst_field code)
reencode Arm.pop code = pop (pair_field code)
reencode Arm.push code = push (pair_field code)
reencode Arm.stax_b code = stax 0
reencode Arm.stax_d code = stax 1
reencode Arm.ldax_b code = ldax 0
reencode Arm.ldax_d code = ldax 1
reencode Arm.nop code = Encode.nop
reencode Arm.hlt code = Encode.hlt
reencode Arm.rlc code = Encode.rlc
reencode Arm.rrc code = Encode.rrc
reencode Arm.ral code = Encode.ral
reencode Arm.rar code = Encode.rar
reencode Arm.shld code = Encode.shld
reencode Arm.lhld code = Encode.lhld
reencode Arm.daa code = Encode.daa
reencode Arm.cma code = Encode.cma
reencode Arm.sta code = Encode.sta
reencode Arm.lda code = Encode.lda
reencode Arm.stc code = Encode.stc
reencode Arm.cmc code = Encode.cmc
reencode Arm.jmp code = Encode.jmp
reencode Arm.ret code = Encode.ret
reencode Arm.call code = Encode.call
reencode Arm.output code = Encode.out_port
reencode Arm.input code = Encode.in_port
reencode Arm.xthl code = Encode.xthl
reencode Arm.pchl code = Encode.pchl
reencode Arm.xchg code = Encode.xchg
reencode Arm.di code = Encode.di
reencode Arm.sphl code = Encode.sphl
reencode Arm.ei code = Encode.ei
reencode Arm.unimplemented code = 256

reencode_table : all_below 256 (λ c. is_unassigned_opcode c || reencode (select c) c == c) ≡ true
unfolding all_below select is_unassigned_opcode mov mvi lxi inr dcr inx dcx dad add adc sub sbb ana
    xra ora cmp push pop jump_on call_on return_on rst ldax stax
reencode_table = refl

-- Every assigned opcode is what the helper for its case of `execute8080` builds from its fields.
pub reencode-select :
    (code : ℕ) → code < 256 → is_unassigned_opcode code ≡ false → reencode (select code) code ≡ code
reencode-select code h assigned = ground (
  arith,
  all_below_lem 256 (λ c. is_unassigned_opcode c || reencode (select c) c == c) code reencode_table
      h,
)

-- The opcode `code` selects `arm` with `d` and `s` in its register fields.
pub record Encodes (arm : Arm) (d s code : ℕ) : Type 0 where
  pub arm_selected : select code ≡ arm
  pub dst_kept : dst_field code ≡ d
  pub src_kept : src_field code ≡ s

-- The same of a register pair.
pub record EncodesPair (arm : Arm) (p code : ℕ) : Type 0 where
  pub arm_selected : select code ≡ arm
  pub pair_kept : pair_field code ≡ p

abbrev encodes : Arm → ℕ → ℕ → ℕ → Bool
encodes arm d s code = is_arm (select code) arm && dst_field code == d && src_field code == s

encodes_lem : (arm : Arm) (d s code : ℕ) → encodes arm d s code ≡ true → Encodes arm d s code
encodes_lem arm d s code h = ground (arith, is_arm_lem (select code) arm)

abbrev pub mov_arm : ℕ → ℕ → Arm
mov_arm d s = if d == 6 && s == 6 then Arm.hlt else Arm.mov

mov_table : all_pairs_below 8 8 (λ d s. encodes (mov_arm d s) d s (mov d s)) ≡ true
unfolding all_below select mov Arm-discrete decide
mov_table = refl

-- `MOV(d, s)` of two register codes selects the case of MOV, with them in its fields; `MOV(M, M)` is HLT.
mov-Encodes : (d s : ℕ) → d < 8 → s < 8 → Encodes (mov_arm d s) d s (mov d s)
mov-Encodes d s p q =
    encodes_lem (mov_arm d s) d s (mov d s)
      (all_pairs_below_lem 8 8 (λ d s. encodes (mov_arm d s) d s (mov d s)) d s mov_table p q)

alu_table : all_pairs_below 8 8 (λ g r. encodes Arm.alu_register g r (alu_register g r)) ≡ true
unfolding all_below select add adc sub sbb ana xra ora cmp Arm-discrete decide
alu_table = refl

-- The encoders `ADD` to `CMP` of a register code select the arithmetic case and carry their group and
-- their register in its fields.
alu_register-Encodes : (g r : ℕ) → g < 8 → r < 8 → Encodes Arm.alu_register g r (alu_register g r)
alu_register-Encodes g r p q = encodes_lem Arm.alu_register g r (alu_register g r) (
    all_pairs_below_lem 8 8 (λ g r. encodes Arm.alu_register g r (alu_register g r)) g r alu_table p
      q)

-- The opcode `code` selects `arm` with `d` in the upper field.
pub record EncodesUpper (arm : Arm) (d code : ℕ) : Type 0 where
  pub arm_selected : select code ≡ arm
  pub dst_kept : dst_field code ≡ d

abbrev encodes_upper : Arm → ℕ → ℕ → Bool
encodes_upper arm d code = is_arm (select code) arm && dst_field code == d

encodes_upper_lem :
    (arm : Arm) (d code : ℕ) → encodes_upper arm d code ≡ true → EncodesUpper arm d code
encodes_upper_lem arm d code h = ground (arith, is_arm_lem (select code) arm)

-- The families with one register, condition or vector in the upper field.
abbrev pub upper_families : List (Arm × (ℕ → ℕ))
upper_families =
    (Arm.mvi, mvi)
    ∷ (Arm.inr, inr)
    ∷ (Arm.dcr, dcr)
    ∷ (Arm.jump_if, jump_on)
    ∷ (Arm.call_if, call_on)
    ∷ (Arm.return_if, return_on)
    ∷ (Arm.rst, rst)
    ∷ []

-- Every family of a list encodes its argument, below `n`, by the test `ok`.
abbrev all_families : (Arm → ℕ → ℕ → Bool) → ℕ → List (Arm × (ℕ → ℕ)) → Bool
all_families good n [] = true
all_families good n ((arm, build) ∷ rest) =
    all_below n (λ d. good arm d (build d)) && all_families good n rest

abbrev pub EachFamily : (Arm → ℕ → ℕ → Type 0) → ℕ → List (Arm × (ℕ → ℕ)) → Type 0
EachFamily P d [] = Unit
EachFamily P d ((arm, build) ∷ rest) = P arm d (build d) × EachFamily P d rest

each_family :
    (good : Arm → ℕ → ℕ → Bool) (P : Arm → ℕ → ℕ → Type 0)
    → ((arm : Arm) (d code : ℕ) → good arm d code ≡ true → P arm d code)
    → (n d : ℕ) → d < n
    → (families : List (Arm × (ℕ → ℕ))) → all_families good n families ≡ true
    → EachFamily P d families
each_family good P sound n d h [] t = tt
each_family good P sound n d h ((arm, build) ∷ rest) t =
    let parts : (all_below n (λ d. good arm d (build d)) ≡ true)
        × (all_families good n rest ≡ true) =
      ground arith in
    (
      sound arm d (build d) (all_below_lem n (λ d. good arm d (build d)) d parts.0 h),
      each_family good P sound n d h rest parts.1,
    )

upper_table : all_families encodes_upper 8 upper_families ≡ true
unfolding all_below select mvi inr dcr jump_on call_on return_on rst Arm-discrete decide
upper_table = refl

-- MVI, INR, DCR, Jcc, Ccc, Rcc and RST select their cases and keep their field, for each of its eight
-- values.
upper_families-EncodesUpper : (d : ℕ) → d < 8 → EachFamily EncodesUpper d upper_families
upper_families-EncodesUpper d h =
    each_family encodes_upper EncodesUpper encodes_upper_lem 8 d h upper_families upper_table

abbrev encodes_pair : Arm → ℕ → ℕ → Bool
encodes_pair arm p code = is_arm (select code) arm && pair_field code == p

encodes_pair_lem :
    (arm : Arm) (p code : ℕ) → encodes_pair arm p code ≡ true → EncodesPair arm p code
encodes_pair_lem arm p code h = ground (arith, is_arm_lem (select code) arm)

abbrev pub pair_families : List (Arm × (ℕ → ℕ))
pair_families =
    (Arm.lxi, lxi)
    ∷ (Arm.inx, inx)
    ∷ (Arm.dcx, dcx)
    ∷ (Arm.dad, dad)
    ∷ (Arm.push, push)
    ∷ (Arm.pop, pop)
    ∷ []

pair_table : all_families encodes_pair 4 pair_families ≡ true
unfolding all_below select lxi inx dcx dad push pop Arm-discrete decide
pair_table = refl

-- The encoders of LXI, INX, DCX, DAD, PUSH and POP select their cases and keep their register pair.
pair_families-EncodesPair : (p : ℕ) → p < 4 → EachFamily EncodesPair p pair_families
pair_families-EncodesPair p h =
    each_family encodes_pair EncodesPair encodes_pair_lem 4 p h pair_families pair_table
