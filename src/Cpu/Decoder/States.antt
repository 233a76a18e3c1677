-- ===== src/Cpu/Decoder/States.antt =====
-- The states that `CPU8080.instructionTiming` (cpu/step.go) reads from the decoder's table, against those
-- of the Intel 8080's instruction set.
use mathlib.Core.Bool.{beq}
use retronet.Base.{
  ℕ, zero, suc, ◌-◌, ◌/◌, ◌%◌, ◌<◌, ◌≡◌, refl, arith, Bool, true, false, not, ◌&&◌, ◌||◌, ◌==◌,
  if◌then◌else◌, all_below, all_below_lem, bit_and, ltb, ap, ◌∙◌,
}
use retronet.Cpu.Opcode.{InstructionTiming}
use retronet.Cpu.Dispatch.{Arm, select}
use retronet.Cpu.Decoder.{decode, state_range_for, cycles_for, dst_field, src_field}
use retronet.Cpu.State.{Cpu8080, condition_taken}
use retronet.Cpu.Step.{instruction_timing}

-- The states of an instruction, for a conditional call or return those when it is taken.
abbrev pub documented_states : Arm → ℕ → ℕ
documented_states Arm.hlt code = 7
documented_states Arm.mov code = if dst_field code == 6 || src_field code == 6 then 7 else 5
documented_states Arm.mvi code = if dst_field code == 6 then 10 else 7
documented_states Arm.lxi code = 10
documented_states Arm.inr code = if dst_field code == 6 then 10 else 5
documented_states Arm.dcr code = if dst_field code == 6 then 10 else 5
documented_states Arm.inx code = 5
documented_states Arm.dcx code = 5
documented_states Arm.dad code = 10
documented_states Arm.alu_register code = if src_field code == 6 then 7 else 4
documented_states Arm.alu_immediate code = 7
documented_states Arm.jump_if code = 10
documented_states Arm.call_if code = 17
documented_states Arm.return_if code = 11
documented_states Arm.rst code = 11
documented_states Arm.pop code = 10
documented_states Arm.push code = 11
documented_states Arm.stax_b code = 7
documented_states Arm.stax_d code = 7
documented_states Arm.ldax_b code = 7
documented_states Arm.ldax_d code = 7
documented_states Arm.shld code = 16
documented_states Arm.lhld code = 16
documented_states Arm.sta code = 13
documented_states Arm.lda code = 13
documented_states Arm.jmp code = 10
documented_states Arm.ret code = 10
documented_states Arm.call code = 17
documented_states Arm.output code = 10
documented_states Arm.input code = 10
documented_states Arm.xthl code = 18
documented_states Arm.pchl code = 5
documented_states Arm.sphl code = 5
documented_states Arm.unimplemented code = 0
documented_states _ code = 4

abbrev pub is_conditional : Arm → Bool
is_conditional Arm.call_if = true
is_conditional Arm.return_if = true
is_conditional _ = false

-- The flags of the conditions by pairs, Z, CY, P and S; the odd one of a pair asks for the flag.
abbrev pub condition_flag : ℕ → Cpu8080 → Bool
condition_flag zero c = c.zero_flag
condition_flag (suc zero) c = c.carry
condition_flag (suc (suc zero)) c = c.parity
condition_flag _ c = c.sign

abbrev pub holds : ℕ → Cpu8080 → Bool
holds n c = if n % 2 == 1 then condition_flag (n / 2) c else not (condition_flag (n / 2) c)

-- Whether an instruction is taken: it is no conditional call or return, or its condition holds.
abbrev pub is_taken : ℕ → Cpu8080 → Bool
is_taken code c = if is_conditional (select code) then holds (dst_field code) c else true

-- The states that an instruction takes: six fewer when it is not taken.
abbrev pub counted_states : ℕ → Cpu8080 → ℕ
counted_states code c =
    if is_taken code c
    then documented_states (select code) code
    else documented_states (select code) code - 6

condition_taken-holds : (n : ℕ) (c : Cpu8080) → n < 8 → condition_taken n c ≡ holds n c
unfolding condition_taken
condition_taken-holds zero c h = refl
condition_taken-holds (suc zero) c h = refl
condition_taken-holds (suc (suc zero)) c h = refl
condition_taken-holds (suc (suc (suc zero))) c h = refl
condition_taken-holds (suc (suc (suc (suc zero)))) c h = refl
condition_taken-holds (suc (suc (suc (suc (suc zero))))) c h = refl
condition_taken-holds (suc (suc (suc (suc (suc (suc zero)))))) c h = refl
condition_taken-holds (suc (suc (suc (suc (suc (suc (suc zero))))))) c h = refl
condition_taken-holds (suc (suc (suc (suc (suc (suc (suc (suc n)))))))) c h = absurd (omega arith)

has_states : ℕ → Bool
has_states code =
    let (least, most) = state_range_for code in
    most == documented_states (select code) code
    && (not (is_conditional (select code)) || least == documented_states (select code) code - 6)
    && ltb (dst_field code) 8
    && beq (is_conditional (select code)) (bit_and code 0xC7 == 0xC0 || bit_and code 0xC7 == 0xC4)

has_states_table : all_below 256 has_states ≡ true
unfolding all_below has_states state_range_for select
has_states_table = refl

-- What the table says of an opcode.
record HasStates (code : ℕ) : Type 0 where
  most : (state_range_for code).1 ≡ documented_states (select code) code
  least :
      is_conditional (select code) ≡ true
      → (state_range_for code).0 ≡ documented_states (select code) code - 6
  conditional :
      (bit_and code 0xC7 == 0xC0 || bit_and code 0xC7 == 0xC4) ≡ is_conditional (select code)
  field : dst_field code < 8

has_states_lem : (code : ℕ) → code < 256 → HasStates code
unfolding has_states
has_states_lem code h = ground (arith, all_below_lem 256 has_states code has_states_table h)

states_by :
    (conditional condition : Bool) (least most documented : ℕ)
    → most ≡ documented
    → (conditional ≡ true → least ≡ documented - 6)
    → (if (if conditional then condition else true) then most else least)
      ≡ (if (if conditional then condition else true) then documented else documented - 6)
states_by false condition least most documented e f = e
states_by true true least most documented e f = e
states_by true false least most documented e f = f refl

-- The timing of an opcode on a processor.
pub record IsTiming (code : ℕ) (c : Cpu8080) (timing : InstructionTiming) : Type 0 where
  pub states : timing.states ≡ counted_states code c
  pub conditional : timing.conditional ≡ is_conditional (select code)
  pub taken : timing.taken ≡ is_taken code c
  pub cycle_count : timing.cycle_count ≡ (cycles_for code).1
  pub cycles : timing.cycles ≡ (cycles_for code).0

pub instruction_timing-IsTiming :
    (code : ℕ) (c : Cpu8080) → code < 256 → IsTiming code c (instruction_timing (decode code) c)
unfolding instruction_timing decode
instruction_timing-IsTiming code c byte =
    let table = has_states_lem code byte in
    let condition = condition_taken-holds (dst_field code) c table.field in
    let taken =
      ap (λ b. if b then condition_taken (dst_field code) c else true) table.conditional
      ∙ ap (λ b. if is_conditional (select code) then b else true) condition in
    record {
      states =
          ap (λ b. if b then (state_range_for code).1 else (state_range_for code).0) taken
          ∙ states_by (is_conditional (select code)) (holds (dst_field code) c)
              (state_range_for code).0 (state_range_for code).1
              (documented_states (select code) code) table.most table.least;
      conditional = table.conditional;
      taken = taken;
      cycle_count = refl;
      cycles = refl;
    }
