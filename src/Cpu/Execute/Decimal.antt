-- ===== src/Cpu/Execute/Decimal.antt =====
-- DAA (the method `daa`, cpu/alu.go): the correction behind an addition of two-digit decimals.
use retronet.Base.{
  ℕ, ◌+◌, ◌*◌, ◌/◌, ◌%◌, ◌<◌, ◌≤◌, ◌≡◌, refl, arith, Bool, true, false, ◌&&◌, ◌||◌, if◌then◌else◌,
  ◌==◌, ltb, leb, bit_and, bit_or, all_below, all_pairs_below, all_pairs_below_lem, sym, ap, ap₂,
  ◌∙◌, subst,
}
use retronet.Cpu.Alu.{
  Flags, I8080, IsEncoded, native, native_alu, native_add, carry_into, native_parity_even,
  ones_count,
}
use retronet.Cpu.Alu.Laws.{bit, native_add-IsSum}
use retronet.Cpu.State.{Cpu8080, backend}
use retronet.Cpu.Execute.{apply_alu_flags, execute_alu, daa}

-- A byte of two decimal digits, and the number it stands for.
abbrev pub IsDecimal : ℕ → Type 0
IsDecimal x = (x % 16 ≤ 9) × (x / 16 ≤ 9)

abbrev pub decimal : ℕ → ℕ
decimal x = x / 16 * 10 + x % 16

-- A decimal and a carry, as its hundreds, make up the number `n`.
abbrev pub MakesUp : ℕ → ℕ × Bool → Type 0
MakesUp n r = IsDecimal r.0 × (decimal r.0 + bit r.1 * 100 ≡ n)

abbrev above_nine : ℕ → Bool → Bool
above_nine a cy = ltb 0x99 a || cy

abbrev correction : ℕ → Bool → Bool → ℕ
correction a aux cy =
    let low : ℕ = if ltb 9 (bit_and a 0x0F) || aux then bit_or 0 0x06 else 0 in
    if above_nine a cy then bit_or low 0x60 else low

-- What DAA makes of an accumulator and the two carries.
abbrev adjusted : ℕ → Bool → Bool → ℕ × Bool
adjusted a aux cy = (
  (native_add a (correction a aux cy) false).0,
  (if above_nine a cy then true else cy) || (native_add a (correction a aux cy) false).1.carry,
)

-- Behind the sum of digits `l` and `h`, the result has the digits of the decimal sum.
digits_table :
    all_pairs_below 20 19 (λ l h.
      let sum = h * 16 + l in
      let (a, cy) = adjusted (sum % 256) (leb 16 l) (leb 256 sum) in
      leb (a % 16) 9 && leb (a / 16) 9 && (decimal a + bit cy * 100 == h * 10 + l))
    ≡ true
unfolding all_below native_add carry_into native_parity_even ones_count
digits_table = refl

digits_lem :
    (l h : ℕ)
    → l < 20
    → h < 19
    → MakesUp (h * 10 + l) (adjusted ((h * 16 + l) % 256) (leb 16 l) (leb 256 (h * 16 + l)))
digits_lem l h p q = let t = all_pairs_below_lem 20 19 _ l h digits_table p q in ground (arith, t)

native_add_digits :
    (a v : ℕ) (cy : Bool)
    → IsDecimal a
    → IsDecimal v
    → let l = a % 16 + v % 16 + bit cy in
      let sum = (a / 16 + v / 16) * 16 + l in
      let r = native_add a v cy in
      (r.0 ≡ sum % 256) × (r.1.auxiliary_carry ≡ leb 16 l) × (r.1.carry ≡ leb 256 sum)
native_add_digits a v cy p q =
    let sum = native_add-IsSum a v cy (omega arith) (omega arith) in
    ground (arith, sum.exact, sum.fits, sum.half)

MakesUp-along : (n k : ℕ) (r q : ℕ × Bool) → n ≡ k → r ≡ q → MakesUp n r → MakesUp k q
MakesUp-along n k r q e f h = subst (λ x. MakesUp k x) f (subst (λ x. MakesUp x r) e h)

adjusted_along :
    (a b : ℕ) (aux bux cy dy : Bool)
    → a ≡ b
    → aux ≡ bux
    → cy ≡ dy
    → adjusted a aux cy ≡ adjusted b bux dy
adjusted_along a b aux bux cy dy e f g = rw (e, f, g) refl

module _ ⦃i8080 : I8080⦄ (encoded : IsEncoded i8080) where
  add_group : (a v : ℕ) (cy : Bool) → native_alu i8080.group_add a v cy ≡ native_add a v false
  unfolding native_alu
  add_group a v cy = rw encoded.add_code refl

  adc_group : (a v : ℕ) (cy : Bool) → native_alu i8080.group_adc a v cy ≡ native_add a v cy
  unfolding native_alu
  adc_group a v cy = rw (encoded.add_code, encoded.adc_code) refl

  native_group_add :
      (s : Cpu8080) (a v : ℕ) (cy : Bool)
      → backend s ≡ native
      → (backend s).alu i8080.group_add a v cy ≡ native_add a v false
  unfolding native
  native_group_add s a v cy h = ap (λ b. b.alu i8080.group_add a v cy) h ∙ add_group a v cy

  native_group_adc :
      (s : Cpu8080) (a v : ℕ) (cy : Bool)
      → backend s ≡ native
      → (backend s).alu i8080.group_adc a v cy ≡ native_add a v cy
  unfolding native
  native_group_adc s a v cy h = ap (λ b. b.alu i8080.group_adc a v cy) h ∙ adc_group a v cy

  daa-adjusted :
      (s : Cpu8080)
      → backend s ≡ native
      → ((daa s).a ≡ (adjusted s.a s.auxiliary_carry s.carry).0)
        × ((daa s).carry ≡ (adjusted s.a s.auxiliary_carry s.carry).1)
  unfolding daa
  daa-adjusted s h =
      let added = native_group_add s s.a (correction s.a s.auxiliary_carry s.carry) false h in
      (
        ap (λ r. r.0) added,
        ap (λ r. (if above_nine s.a s.carry then true else s.carry) || r.1.carry) added,
      )

  adc_other : (bit_and i8080.group_adc 0x07 == i8080.group_cmp) ≡ false
  adc_other = rw (encoded.adc_code, encoded.cmp_code) refl

  -- the state behind the addition, and DAA on it
  execute_alu_adc :
      (v : ℕ) (s : Cpu8080)
      → backend s ≡ native
      → execute_alu i8080.group_adc v s ≡ record (apply_alu_flags (native_add s.a v s.carry).1 s) {
        a = (native_add s.a v s.carry).0;
      }
  unfolding execute_alu apply_alu_flags
  execute_alu_adc v s h = rw (adc_other, native_group_adc s s.a v s.carry h) refl

  same_backend :
      (flags : Flags) (result : ℕ) (s : Cpu8080)
      → backend (record (apply_alu_flags flags s) { a = result }) ≡ backend s
  unfolding backend apply_alu_flags
  same_backend flags result s = refl

  -- DAA behind ADC on the native backend, for a package with the group codes of the opcodes, is the
  -- addition of decimals: for an accumulator and an
  -- operand of two decimal digits each, the accumulator then has two decimal digits, and it makes up
  -- with the carry, as the hundreds, the sum of the two numbers and the carry before.
  pub daa-decimal :
      (v : ℕ) (s : Cpu8080)
      → backend s ≡ native
      → IsDecimal s.a
      → IsDecimal v
      → let t = daa (execute_alu i8080.group_adc v s) in
        MakesUp (decimal s.a + decimal v + bit s.carry) (t.a, t.carry)
  unfolding apply_alu_flags
  daa-decimal v s h p q =
      let added = native_add s.a v s.carry in
      let (result, aux, cy) = native_add_digits s.a v s.carry p q in
      let (a, carry) = daa-adjusted _ (same_backend added.1 added.0 s ∙ h) in
      let digits =
        digits_lem (s.a % 16 + v % 16 + bit s.carry) (s.a / 16 + v / 16) (grind arith)
          (omega arith) in
      let total : (s.a / 16 + v / 16) * 10 + (s.a % 16 + v % 16 + bit s.carry)
          ≡ decimal s.a + decimal v + bit s.carry =
        omega arith in
      let path = adjusted_along _ _ _ _ _ _ result aux cy in
      rw (execute_alu_adc v s h)
        (MakesUp-along _ _ _ _ total (sym (ap₂ (λ x y. (x, y)) a carry ∙ path)) digits)
