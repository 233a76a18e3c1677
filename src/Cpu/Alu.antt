-- ===== src/Cpu/Alu.antt =====
-- cpu/alu_backend.go and cpu/alu_native.go: the arithmetic and logic unit. The gate-level unit
-- is another module's package, `i8080`; it enters as the record `I8080`, an instance argument.
pub mod Carry
pub mod Laws
use retronet.Base.{
  ℕ, zero, suc, ◌+◌, ◌*◌, ◌/◌, ◌%◌, ◌^◌, bit_and, bit_or, bit_xor, Bool, true, false, not, ◌||◌,
  ◌==◌, if◌then◌else◌, u8, u16, shr, complement8, ◌≡◌,
}

-- i8080.Flags: the five flags that the source reads and writes by these names.
pub record Flags : Type 0 where
  pub carry : Bool
  pub zero_flag : Bool
  pub sign : Bool
  pub parity : Bool
  pub auxiliary_carry : Bool

-- The package `i8080`: its group codes and its functions.
pub record I8080 : Type 0 where
  pub group_add : ℕ
  pub group_adc : ℕ
  pub group_sub : ℕ
  pub group_sbb : ℕ
  pub group_ana : ℕ
  pub group_xra : ℕ
  pub group_ora : ℕ
  pub group_cmp : ℕ
  pub alu : ℕ → ℕ → ℕ → Bool → ℕ × Flags
  pub increment : ℕ → ℕ × Flags
  pub decrement : ℕ → ℕ × Flags
  pub add16 : ℕ → ℕ → ℕ × Bool

-- type ALUBackend
pub record AluBackend : Type 0 where
  pub alu : ℕ → ℕ → ℕ → Bool → ℕ × Flags
  pub increment : ℕ → ℕ × Flags
  pub decrement : ℕ → ℕ × Flags
  pub add16 : ℕ → ℕ → ℕ × Bool

-- bits.OnesCount8, by the low bit and the rest
unfoldable pub ones_count : ℕ → ℕ → ℕ
ones_count zero v = 0
ones_count (suc k) v = v % 2 + ones_count k (v / 2)

unfoldable pub native_parity_even : ℕ → Bool
unfolding ones_count
native_parity_even v = ones_count 8 v % 2 == 0

unfoldable pub carry_into : ℕ → ℕ → ℕ → ℕ → Bool
carry_into bit_no a b cy =
    let res = a + b + cy in not (bit_and (bit_xor (bit_xor res a) b) (2 ^ bit_no) == 0)

unfoldable pub native_add : ℕ → ℕ → Bool → ℕ × Flags
native_add a val cy =
    let c : ℕ = if cy then 1 else 0 in
    let out = u8 (a + val + c) in
    (
      out,
      record {
        carry = carry_into 8 a val c;
        zero_flag = out == 0;
        sign = not (bit_and out 0x80 == 0);
        parity = native_parity_even out;
        auxiliary_carry = carry_into 4 a val c;
      },
    )

unfoldable pub native_sub : ℕ → ℕ → Bool → ℕ × Flags
native_sub a val borrow =
    let nc : ℕ = if borrow then 0 else 1 in
    let nval = complement8 val in
    let out = u8 (a + nval + nc) in
    (
      out,
      record {
        carry = not (carry_into 8 a nval nc);
        zero_flag = out == 0;
        sign = not (bit_and out 0x80 == 0);
        parity = native_parity_even out;
        auxiliary_carry = carry_into 4 a nval nc;
      },
    )

module _ ⦃i8080 : I8080⦄ where
  unfoldable pub native_logic : ℕ → ℕ → ℕ → ℕ × Flags
  native_logic a val group =
      let g = bit_and group 0x07 in
      let out =
        if g == i8080.group_ana
        then bit_and a val
        else if g == i8080.group_xra
        then bit_xor a val
        else bit_or a val in
      let aux = if g == i8080.group_ana then not (bit_and (bit_or a val) 0x08 == 0) else false in
      (
        out,
        record {
          carry = false;
          zero_flag = out == 0;
          sign = not (bit_and out 0x80 == 0);
          parity = native_parity_even out;
          auxiliary_carry = aux;
        },
      )

  -- nativeBackend.ALU
  unfoldable pub native_alu : ℕ → ℕ → ℕ → Bool → ℕ × Flags
  native_alu group a value carry_in =
      let g = bit_and group 0x07 in
      if g == i8080.group_add
      then native_add a value false
      else if g == i8080.group_adc
      then native_add a value carry_in
      else if g == i8080.group_sub
      then native_sub a value false
      else if g == i8080.group_sbb
      then native_sub a value carry_in
      else if g == i8080.group_ana || g == i8080.group_xra || g == i8080.group_ora
      then native_logic a value group
      else native_sub a value false

  -- nativeBackend.Increment and nativeBackend.Decrement
  unfoldable pub native_increment : ℕ → ℕ × Flags
  native_increment value =
      let (result, flags) = native_alu i8080.group_add value 1 false in
      (result, record flags { carry = false })

  unfoldable pub native_decrement : ℕ → ℕ × Flags
  native_decrement value =
      let (result, flags) = native_alu i8080.group_sub value 1 false in
      (result, record flags { carry = false })

-- nativeBackend.Add16; the sum of two words fits the uint32 in which it is formed
unfoldable pub native_add16 : ℕ → ℕ → ℕ × Bool
native_add16 a value = let sum = a + value in (u16 sum, not (shr sum 16 == 0))

-- var Native
unfoldable pub native : ⦃i8080 : I8080⦄ → AluBackend
native = record {
  alu = native_alu;
  increment = native_increment;
  decrement = native_decrement;
  add16 = native_add16;
}

-- var Gate, a gateBackend: every operation is forwarded to the package
unfoldable pub gate : ⦃i8080 : I8080⦄ → AluBackend
gate ⦃i8080⦄ = record {
  alu = i8080.alu;
  increment = i8080.increment;
  decrement = i8080.decrement;
  add16 = i8080.add16;
}

-- The codes of the groups in the opcodes of the 8080, in the order that `aluName` lists.
pub record IsEncoded (i8080 : I8080) : Type 0 where
  pub add_code : i8080.group_add ≡ 0
  pub adc_code : i8080.group_adc ≡ 1
  pub sub_code : i8080.group_sub ≡ 2
  pub sbb_code : i8080.group_sbb ≡ 3
  pub ana_code : i8080.group_ana ≡ 4
  pub xra_code : i8080.group_xra ≡ 5
  pub ora_code : i8080.group_ora ≡ 6
  pub cmp_code : i8080.group_cmp ≡ 7
